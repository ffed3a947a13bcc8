-- ===== src/Tests/Requests.antt =====
-- options.go and generic.go: the theorems on the options of a request and on GenericContainer.
use testcontainers_go.Base.{ℕ, suc, ◌≡◌, ◌↔◌, ◌=s◌, true, false, ◌&&◌, none, some}
use testcontainers_go.Errors.{new}
use testcontainers_go.Generic.{
  GenericContainerRequest, Provider, created, unsuccessful, generic_container,
}
use testcontainers_go.Generic.Outcomes.{generic_container_lem, making, IsStarted}

-- A provider whose containers do not start.
abbrev provider : Provider ℕ ℕ ℕ ℕ
provider = record {
  get_provider = λ w. (none, w);
  close = suc;
  create_container = λ ctx r w. (created r, suc w);
  reuse_or_create_container = λ ctx r w. (unsuccessful none (new "in use"), suc w);
  is_running = λ c w. false;
  start = λ ctx c w. (some (new "no space left"), suc w);
}

abbrev request : GenericContainerRequest ℕ
request = record { container_request = 7; name = ""; started = true; reuse = false }

generic_container_lem_example : ((generic_container provider 0 request 0).0.1 ≡ none) ↔ (
    ((request.reuse && (request.name =s "")) ≡ false)
    × ((provider.get_provider 0).0 ≡ none)
    × ((c : ℕ) × ((making provider 0 request 0).0 ≡ created c)
        × IsStarted provider 0 request c (making provider 0 request 0).1))
generic_container_lem_example = generic_container_lem provider 0 request 0
