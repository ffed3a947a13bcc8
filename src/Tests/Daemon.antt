-- ===== src/Tests/Daemon.antt =====
-- docker.go and reaper.go: the theorems on the provider and the reaper, at a daemon whose world is
-- the number of open connections to the reaper, or its networks.
use testcontainers_go.Base.{
  ℕ, suc, ◌-◌, ◌≡◌, refl, sym, ◌∙◌, ap, subst, String, Bool, true, false, Option, none, some, List,
  [], ◌∷◌, =s_iff, mem_text, arith,
}
use testcontainers_go.Errors.{Error, new, Result, ok, err}
use testcontainers_go.Lifecycle.{
  RequestHook, ContainerLifecycleHooks, no_hooks, first_failure, creating_hook, creating,
  run_request_hooks, collect, combine_container_hooks,
}
use testcontainers_go.Container.{Client, run_stage, Live as Held}
use testcontainers_go.Request.{ContainerRequest}
use testcontainers_go.Provider.{DockerProvider, Daemon, get_default_network}
use testcontainers_go.Provider.Networks.{IsDaemon, get_default_network-exists}
use testcontainers_go.Provider.Reaping.{Reaping}
use testcontainers_go.Provider.Connections.{IsReaping, Balanced}
use testcontainers_go.Provider.Images.{Registry, Attempt, achieved, again, permanent}
use testcontainers_go.Provider.Images.Pulls.{IsQuiet}
use testcontainers_go.Provider.PreCreate.{Nat, Setup, pre_create_container_hook}
use testcontainers_go.Provider.PreCreate.Quiet.{pre_create-Keeps}
use testcontainers_go.Provider.Creation.{Session, Hooks, without_container}
use testcontainers_go.Provider.Runs.{Defaults, hooks_of, default_pre_create_hook, create_container}
use testcontainers_go.Provider.Runs.Quiet.{IsQuietDaemon}
use testcontainers_go.Provider.Runs.Signals.{IsQuietHooks, create_container-Balanced}
use testcontainers_go.Tests.Settings.{request}

abbrev pub provider : DockerProvider
provider = record {
  default_network = "";
  default_bridge_network_name = "bridge";
  host = "";
  host_cache = "";
  ryuk_disabled = false;
  hub_image_name_prefix = "";
}

-- A daemon whose world is its networks.
abbrev networks : Daemon ℕ ℕ (List String)
networks = record {
  network_list = λ ctx w. (ok w, w);
  network_create = λ ctx name o w. (ok name, name ∷ w);
  network_inspect = λ ctx name w. (ok (record { id = name; gateways = "" ∷ "10.0.0.1" ∷ [] }), w);
  network_remove = λ ctx id w. (none, w);
  close = λ w. w;
  host_override = λ w. none;
  daemon_url = ok ("unix", "");
  in_a_container = λ w. true;
  default_gateway_ip = λ w. (err (new "no gateway"), w);
}

abbrev value : {A : Type 0} → A → Result A → A
value a (err e) = a
value a (ok b) = b

abbrev fails : {A : Type 0} → Result A → Bool
fails (err e) = true
fails (ok a) = false

networks-IsDaemon : IsDaemon networks (λ w. w)
networks-IsDaemon = record {
  listed = λ ctx w v ns e. (sym (ap (λ r. value [] r.0) e), sym (ap (λ r. r.1) e));
  created = λ ctx n id w v o e.
      subst (λ ns. mem_text n ns ≡ true) (ap (λ r. r.1) e) (ground (arith, =s_iff n n));
}

get_default_network-exists_example : mem_text "reaper_default" ("reaper_default" ∷ []) ≡ true
unfolding get_default_network
get_default_network-exists_example =
    get_default_network-exists networks [] (λ w. w) networks-IsDaemon 0 provider provider []
      ("reaper_default" ∷ []) "reaper_default" refl

-- A daemon whose world is the number of open connections, and that does all it is asked for.
abbrev pub counted : Daemon ℕ ℕ ℕ
counted = record {
  network_list = λ ctx w. (ok ("bridge" ∷ []), w);
  network_create = λ ctx name o w. (ok name, w);
  network_inspect = λ ctx name w. (ok (record { id = name; gateways = [] }), w);
  network_remove = λ ctx id w. (none, w);
  close = λ w. w;
  host_override = λ w. none;
  daemon_url = ok ("unix", "");
  in_a_container = λ w. false;
  default_gateway_ip = λ w. (err (new "no gateway"), w);
}

-- Connecting adds one, and a send takes one away.
abbrev pub reaping : Reaping ℕ ℕ ℕ ℕ
reaping = record {
  reuse_or_create_reaper = λ ctx l. (ok 0, l);
  connect = λ r l. (ok 7, (l.0, suc l.1));
  send = λ s w. w - 1;
  try_send = λ s w. w - 1;
}

pub reaping-IsReaping : IsReaping reaping (λ w. w)
reaping-IsReaping = record {
  reuse = λ ctx l. refl;
  opened = λ r l l' s e. sym (ap (λ x. x.1.1) e);
  unopened = λ r l l' e h. absurd (ground (arith, ap (λ x. fails x.0) h));
  ended = λ s w k e. omega (arith, e);
}

abbrev pub once : {A : Type 0} → Attempt A × ℕ → Result A × ℕ
once (achieved a, w) = (ok a, w)
once (again e, w) = (err e, w)
once (permanent e, w) = (err e, w)

once-kept : {A : Type 0} (r : Attempt A × ℕ) → (once r).1 ≡ r.1
once-kept (achieved a, w) = refl
once-kept (again e, w) = refl
once-kept (permanent e, w) = refl

abbrev pub images : Registry ℕ ℕ ℕ ℕ ℕ ℕ
images = record {
  image_inspect =
      λ ctx i w. (ok (record { exposed_ports = []; architecture = "amd64"; os = "linux" }), w);
  is_err_not_found = λ e. false;
  docker_image_auth = λ ctx i w. (("docker.io", ok 0), w);
  encoded = λ a. ok "";
  image_pull = λ ctx i p a w. (ok 0, w);
  image_build = λ ctx o w. (ok 0, w);
  build_options = λ w. (ok 0, w);
  first_tag = λ o. "built:latest";
  close_context = λ o w. w;
  read_all = λ r w. (none, w);
  display = λ r w. (none, w);
  close_body = λ r w. w;
  close = λ w. w;
  printf = λ t w. w;
  retry_pull = λ ctx f m w. once (m w);
  retry_build = λ ctx f m w. once (m w);
  parse_platform = λ s. ok 0;
  architecture = λ p. "amd64";
  os = λ p. "linux";
}

images-IsQuiet : IsQuiet images (λ w. w)
images-IsQuiet = record {
  inspect = λ ctx i w. refl;
  auth = λ ctx i w. refl;
  pull = λ ctx i p a w. refl;
  build = λ ctx o w. refl;
  options = λ w. refl;
  close_context = λ o w. refl;
  read = λ r w. refl;
  display = λ r w. refl;
  close_body = λ r w. refl;
  close = λ w. refl;
  printf = λ t w. refl;
  retry_pull = λ ctx f m h k w. once-kept (m w) ∙ k w;
  retry_build = λ ctx f m h k w. once-kept (m w) ∙ k w;
}

-- The daemon refuses to create a container.
abbrev session : Session ℕ ℕ ℕ ℕ
session = record {
  session_id = "session";
  default_labels = ("org.testcontainers", "true") ∷ [];
  is_reaper_image = λ i. false;
  join = λ a b. ok b;
  registry = λ i. "";
  container_create = λ ctx i p name w. (err (new "no space left on device"), w);
  network_connect = λ ctx id c aliases w. (none, w);
}

session-IsQuietDaemon : IsQuietDaemon counted session (λ w. w)
session-IsQuietDaemon = record {
  list = λ ctx w. refl;
  create = λ ctx name o w. refl;
  inspect = λ ctx name w. refl;
  close = λ w. refl;
  container_create = λ ctx i p name w. refl;
  network_connect = λ ctx id c aliases w. refl;
}

abbrev pub nat : Nat
nat = record {
  parse_port_specs = λ ports. ok (ports, []);
  strip = λ p. p;
  number = λ p. p;
  is_container = λ m. false;
}

abbrev client : Client ℕ (Setup ℕ ℕ)
client = record {
  container_start = λ ctx id s. (none, s);
  container_stop = λ ctx id t s. (none, s);
  container_remove = λ ctx id s. (none, s);
  image_remove = λ ctx i s. (none, s);
  close = λ s. s;
  signal = λ s. s;
  ctx_done = λ ctx s. false;
  rescue = λ s. 0;
  logs = λ ctx id s. (ok (ok ""), s);
  printf = λ t s. s;
}

abbrev defaults : Defaults ℕ ℕ ℕ ℕ ℕ
defaults = record {
  logging = no_hooks;
  copying = no_hooks;
  consuming = no_hooks;
  readiness = no_hooks;
  mounts = [];
  expose_host_ports = none;
}

abbrev Quiet : Type 0
Quiet = IsQuietHooks counted reaping images [] session nat client defaults [] (λ w. w)

last_hook-kept :
    {S : Type 0} (n : S → ℕ) (r : Option Error × S) → n (first_failure r (λ s. (none, s))).1 ≡ n r.1
unfolding first_failure
last_hook-kept n (none, s) = refl
last_hook-kept n (some e, s) = refl

one_hook-kept :
    {Request S : Type 0} (n : S → ℕ) (f : RequestHook ℕ Request S)
    (h : ContainerLifecycleHooks ℕ Request S) (ctx : ℕ) (req : Request) (s : S)
    → h.pre_creates ≡ f ∷ []
    → n (f ctx req s).1 ≡ n s
    → n (creating_hook (h ∷ []) ctx req s).1 ≡ n s
unfolding creating_hook creating collect run_request_hooks
one_hook-kept n f h ctx req s e k =
    ap (λ hs. n (run_request_hooks hs ctx req s).1) e ∙ last_hook-kept n (f ctx req s) ∙ k

abbrev pre_create : RequestHook ℕ (ContainerRequest ℕ ℕ ℕ) (Held (Setup ℕ ℕ))
pre_create ctx req =
    without_container (pre_create_container_hook counted images.image_inspect nat [] ctx req)

pre_create-kept :
    (ctx : ℕ) (req : ContainerRequest ℕ ℕ ℕ) (s : Held (Setup ℕ ℕ))
    → (pre_create ctx req s).1.1.1.1 ≡ s.1.1.1
unfolding without_container
pre_create-kept ctx req (c, s) =
    pre_create-Keeps counted images.image_inspect nat (λ w. w) (λ ctx name w. refl)
      (λ ctx name w. refl) [] ctx req s

abbrev combined : Hooks ℕ ℕ ℕ ℕ ℕ
combined =
    combine_container_hooks
      (no_hooks
        ∷ default_pre_create_hook counted reaping images [] session nat client []
        ∷ no_hooks
        ∷ no_hooks
        ∷ no_hooks
        ∷ [])
      []

hooks-IsQuiet : Quiet
unfolding hooks_of combine_container_hooks default_pre_create_hook run_stage
hooks-IsQuiet = record {
  no_ports = refl;
  before = λ ctx req s.
      one_hook-kept (λ s. s.1.1.1) pre_create combined ctx req s refl (pre_create-kept ctx req s);
  after = λ ctx s. refl;
}

create_container-Balanced_example :
    Balanced
      (λ w. w)
      0
      (create_container counted reaping images [] session nat client 0 defaults [] [] request
        (provider, 0))
create_container-Balanced_example =
    create_container-Balanced counted reaping images [] session nat client defaults [] (λ w. w)
      session-IsQuietDaemon images-IsQuiet hooks-IsQuiet reaping-IsReaping 0 [] request
      (provider, 0)
