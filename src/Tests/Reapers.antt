-- ===== src/Tests/Reapers.antt =====
-- reaper.go, the reuse of containers and the hook before a creation: the theorems at concrete ones.
use testcontainers_go.Base.{ℕ, suc, ◌≡◌, refl, true, false, none, some, List, [], ◌∷◌}
use testcontainers_go.Errors.{new, ok}
use testcontainers_go.Lifecycle.{ContainerLifecycleHooks, no_hooks}
use testcontainers_go.Container.{Client, Live as Held, started_hook, readied_hook}
use testcontainers_go.Request.{empty_host_config}
use testcontainers_go.Provider.{Live}
use testcontainers_go.Provider.PreCreate.{Inputs}
use testcontainers_go.Provider.Reuse.{reuse_signal, reused}
use testcontainers_go.Provider.Reuse.Leaks.{IsQuietReuse, reused_leaks}
use testcontainers_go.Reaper.{Shared, Engine}
use testcontainers_go.Tests.Daemon.{provider, once, reaping, reaping-IsReaping}

abbrev inputs : Inputs ℕ
inputs = record {
  docker_input = record {
    entrypoint = [];
    image = "redis:7";
    env = [];
    labels = [];
    cmd = [];
    hostname = "";
    user = "";
    working_dir = "";
    exposed_ports = [];
  };
  host_config = empty_host_config;
  networking_config = [];
}

abbrev client : Client ℕ (Live ℕ)
client = record {
  container_start = λ ctx id s. (none, s);
  container_stop = λ ctx id t s. (none, s);
  container_remove = λ ctx id s. (none, s);
  image_remove = λ ctx i s. (none, s);
  close = λ s. s;
  signal = λ s. s;
  ctx_done = λ ctx s. false;
  rescue = λ s. 0;
  logs = λ ctx id s. (ok (ok ""), s);
  printf = λ t s. s;
}

-- A hook after the start that fails.
abbrev failing : List (ContainerLifecycleHooks ℕ ℕ (Held (Live ℕ)))
failing = record no_hooks { post_starts = (λ ctx l. (some (new "not ready"), l)) ∷ [] } ∷ []

failing-IsQuiet : IsQuietReuse reaping client "session" failing (λ w. w)
unfolding started_hook readied_hook
failing-IsQuiet = record { started = λ ctx s. refl; readied = λ ctx s. refl }

reused_leaks_example :
    (reused reaping client "session" failing 0 []
      (record { id = "c1"; image = "redis:7" })
      (provider, 0)).1.1
    ≡ suc 0
unfolding reuse_signal
reused_leaks_example =
    reused_leaks reaping client "session" failing (λ w. w) reaping-IsReaping failing-IsQuiet 0 []
      (record { id = "c1"; image = "redis:7" }) (provider, 0) (provider, 1) 7 refl

-- A daemon without a reaper, which runs one in the next world.
abbrev engine : Engine ℕ ℕ ℕ ℕ
engine = record {
  running = λ ctx r w. (ok true, w);
  is_not_found = λ e. false;
  container_list = λ ctx w. (ok [], w);
  container_of = λ ctx f w. (ok 0, w);
  health = λ c. "";
  id = λ c. "c1";
  retry = λ ctx m w. once (m w);
  port_endpoint = λ ctx c w. (ok "localhost:8080", w);
  inspect_ports = λ ctx c w. (ok [], w);
  wait_for = λ ctx c p w. (none, w);
  short = λ s. s;
  port_text = λ s. s;
  run_container = λ ctx w. (ok 5, suc w);
  is_name_conflict = λ e. false;
  search_running = λ ctx w. (ok none, w);
  reaper = λ endpoint c. c;
}

abbrev unset : Shared ℕ
unset = record { instance = none; once_done = false }
