-- ===== src/Tests/Live.antt =====
-- docker.go, lifecycle.go and parallel.go: the theorems on containers, their ports and the workers,
-- at a client that only counts its calls.
use testcontainers_go.Base.{
  ℕ, zero, suc, ◌≡◌, refl, ◌↔◌, String, ◌=s◌, =s_iff, true, false, none, some, List, [], ◌∷◌, M,
  arith, if◌then◌else◌,
}
use testcontainers_go.Errors.{Error, Result, ok, err, new}
use testcontainers_go.Lifecycle.{ContainerLifecycleHooks, ContainerHook, no_hooks}
use testcontainers_go.Lifecycle.Running.{after_hooks, NoneFails}
use testcontainers_go.Container.{DockerContainer, Live, Client, start, set_running}
use testcontainers_go.Container.Laws.{start_lem, launched}
use testcontainers_go.Wait.Target.{PortEntry, PortApi}
use testcontainers_go.Wait.Port.{lowest_port}
use testcontainers_go.Ports.{Network, mapped_port, endpoint, names_port}
use testcontainers_go.Ports.Lookup.{mapped_port_found, endpoint_unbound}
use testcontainers_go.Parallel.{Progress, progress, take, made, failed, Steps, here, next}
use testcontainers_go.Parallel

-- The world counts the calls.
abbrev counting : Client ℕ ℕ
counting = record {
  container_start = λ ctx id w. (none, suc w);
  container_stop = λ ctx id t w. (none, suc w);
  container_remove = λ ctx id w. (some (new "busy"), suc w);
  image_remove = λ ctx i w. (none, suc w);
  close = λ w. w;
  signal = λ w. w;
  ctx_done = λ ctx w. false;
  rescue = λ w. 5;
  logs = λ ctx id w. (ok (ok "log"), w);
  printf = λ s w. suc w;
}

abbrev redis : DockerContainer
redis = record {
  id = "c0ffee";
  image = "redis:7";
  image_was_built = true;
  keep_built_image = false;
  session_id = "s1";
  is_running = true;
}

abbrev counts : ContainerHook ℕ (Live ℕ)
counts ctx (c, w) = (none, (c, suc w))

abbrev hooks : ContainerLifecycleHooks ℕ ℕ (Live ℕ)
hooks = record no_hooks {
  pre_starts = counts ∷ [];
  post_readies = counts ∷ [];
  pre_stops = counts ∷ counts ∷ [];
  pre_terminates = counts ∷ [];
}

start_lem_example : ((start counting (hooks ∷ []) 0 (redis, 0)).0 ≡ none) ↔ (
    NoneFails 0 hooks.pre_starts (redis, 0)
    × ((launched counting hooks 0 (redis, 0)).0 ≡ none)
    × NoneFails 0 hooks.post_starts (launched counting hooks 0 (redis, 0)).1
    × NoneFails 0 hooks.post_readies (
        set_running true
          (after_hooks 0 hooks.post_starts (launched counting hooks 0 (redis, 0)).1)))
start_lem_example = start_lem counting hooks 0 (redis, 0)

-- A package nat for two ports.
abbrev nat : PortApi
nat = record {
  proto = λ p. "tcp";
  int = λ p. if p =s "80/tcp" then 80 else 6379;
  number = λ p. if p =s "80/tcp" then "80" else "6379";
  new_port = λ proto n. (n, none);
}

abbrev port_80 : PortEntry
port_80 = record { port = "80/tcp"; bindings = [] }

abbrev port_6379 : PortEntry
port_6379 = record { port = "6379/tcp"; bindings = "32768" ∷ [] }

abbrev inspected : ℕ → M ℕ (Result Network)
inspected ctx w = (ok (record { network_mode = "bridge"; ports = port_80 ∷ port_6379 ∷ [] }), suc w)

abbrev localhost : ℕ → M ℕ (Result String)
localhost ctx w = (ok "localhost", w)

mapped_port_found_example :
    mapped_port nat inspected localhost 0 "6379/tcp" 0 ≡ (("32768", none), 1)
unfolding names_port
mapped_port_found_example =
    mapped_port_found nat inspected localhost 0 "6379/tcp" "bridge" (port_80 ∷ []) [] port_6379
      "32768" [] 0 1 refl (λ e. ground (arith, (=s_iff "bridge" "host").1 e)) refl refl refl

endpoint_unbound_example : endpoint nat inspected localhost 0 "" 0 ≡ (err (new "port not found"), 2)
unfolding names_port lowest_port
endpoint_unbound_example =
    endpoint_unbound nat inspected localhost 0 "" "bridge" "localhost" (port_80 ∷ port_6379 ∷ []) 0
      1 1 2 refl refl refl (λ e. ground (arith, (=s_iff "bridge" "host").1 e)) refl

-- Requests that are numbers: 0 fails.
abbrev Makes : ℕ → Result ℕ → Type 0
Makes zero o = o ≡ err (new "no image")
Makes (suc n) o = o ≡ ok n

abbrev requests : List ℕ
requests = 0 ∷ 3 ∷ []

abbrev collected : List (ℕ × Error)
collected = (0, new "no image") ∷ []

abbrev finished : Progress ℕ ℕ
finished = progress [] [] (2 ∷ []) collected

abbrev both : Steps Makes 1 4 (progress requests [] [] []) finished
both = next (take 0 (omega arith)) (
    next (failed [] [] 0 (new "no image") refl)
      (next (take 3 (omega arith)) (next (made [] [] 3 2 refl) here)))
