-- ===== src/Lifecycle.antt =====
-- lifecycle.go: the hooks of a container's life, how they are combined, and how they are run.
-- A hook changes the world `W`, which holds the container too, and may return an error. The
-- container itself does not change its identity and is part of `W`; a request is passed by value.
pub mod Order
pub mod Running
use testcontainers_go.Base.{
  Bool, true, false, Option, none, some, List, [], ◌∷◌, ◌++◌, if◌then◌else◌, M,
}
use testcontainers_go.Errors.{Error, join}

-- `ContainerRequestHook`
abbrev pub RequestHook : Type 0 → Type 0 → Type 0 → Type 0
RequestHook Ctx Request W = Ctx → Request → M W (Option Error)

-- `ContainerHook`, at the container of the world.
abbrev pub ContainerHook : Type 0 → Type 0 → Type 0
ContainerHook Ctx W = Ctx → M W (Option Error)

pub record ContainerLifecycleHooks (Ctx Request W : Type 0) : Type 0 where
  pub pre_creates : List (RequestHook Ctx Request W)
  pub post_creates : List (ContainerHook Ctx W)
  pub pre_starts : List (ContainerHook Ctx W)
  pub post_starts : List (ContainerHook Ctx W)
  pub post_readies : List (ContainerHook Ctx W)
  pub pre_stops : List (ContainerHook Ctx W)
  pub post_stops : List (ContainerHook Ctx W)
  pub pre_terminates : List (ContainerHook Ctx W)
  pub post_terminates : List (ContainerHook Ctx W)

-- `for i, x := range xs { errs[i] = f(x) }`: every call is made.
unfoldable pub collect :
    {W A : Type 0} → (A → M W (Option Error)) → List A → M W (List (Option Error))
collect f [] w = ([], w)
collect f (x ∷ xs) w = let (e, v) = f x w in let (es, w') = collect f xs v in (e ∷ es, w')

-- `containerHookFn`
unfoldable pub container_hook_fn :
    {Ctx W : Type 0} → Ctx → List (ContainerHook Ctx W) → M W (Option Error)
unfolding collect join
container_hook_fn ctx hooks w = let (es, w') = collect (λ h. h ctx) hooks w in (join es, w')

-- `if err := hook(ctx, req); err != nil { return err }`
unfoldable pub first_failure :
    {W : Type 0} → Option Error × W → M W (Option Error) → Option Error × W
first_failure (some e, w) rest = (some e, w)
first_failure (none, w) rest = rest w

-- The logs are printed where the hooks failed and the caller asks for it. `ctx_done` says whether
-- the context is done, `rescue` makes the context of five seconds, and `print_logs` prints.
unfoldable pub log_failure :
    {Ctx W : Type 0}
    → Bool
    → (W → Bool)
    → (W → Ctx)
    → (Ctx → Error → W → W)
    → Ctx
    → Option Error
    → W
    → W
log_failure log_error ctx_done rescue print_logs ctx none w = w
log_failure log_error ctx_done rescue print_logs ctx (some e) w =
    if log_error then print_logs (if ctx_done w then rescue w else ctx) e w else w

module _ {Ctx Request W : Type 0} where
  -- The loop of `Creating`.
  unfoldable pub run_request_hooks :
      List (RequestHook Ctx Request W) → Ctx → Request → M W (Option Error)
  unfolding first_failure
  run_request_hooks [] ctx req w = (none, w)
  run_request_hooks (h ∷ hs) ctx req w = first_failure (h ctx req w) (run_request_hooks hs ctx req)

  unfoldable pub creating :
      ContainerLifecycleHooks Ctx Request W → Ctx → Request → M W (Option Error)
  unfolding run_request_hooks
  creating hooks = run_request_hooks hooks.pre_creates

  unfoldable pub creating_hook :
      List (ContainerLifecycleHooks Ctx Request W) → Ctx → Request → M W (Option Error)
  unfolding creating collect join
  creating_hook hooks ctx req w =
      let (es, w') = collect (λ h. creating h ctx req) hooks w in (join es, w')

  -- `applyLifecycleHooks`
  unfoldable pub apply_lifecycle_hooks :
      (W → Bool)
      → (W → Ctx)
      → (Ctx → Error → W → W)
      → Ctx
      → Bool
      → (ContainerLifecycleHooks Ctx Request W → List (ContainerHook Ctx W))
      → List (ContainerLifecycleHooks Ctx Request W)
      → M W (Option Error)
  unfolding container_hook_fn log_failure
  apply_lifecycle_hooks ctx_done rescue print_logs ctx log_error select hooks w =
      let (es, v) = collect (λ h. container_hook_fn ctx (select h)) hooks w in
      (join es, log_failure log_error ctx_done rescue print_logs ctx (join es) v)

  abbrev pub no_hooks : ContainerLifecycleHooks Ctx Request W
  no_hooks = record {
    pre_creates = [];
    post_creates = [];
    pre_starts = [];
    post_starts = [];
    post_readies = [];
    pre_stops = [];
    post_stops = [];
    pre_terminates = [];
    post_terminates = [];
  }

  -- The bodies of the three loops of `combineContainerHooks`, on the lists built so far.
  unfoldable pub append_pre :
      ContainerLifecycleHooks Ctx Request W
      → ContainerLifecycleHooks Ctx Request W
      → ContainerLifecycleHooks Ctx Request W
  append_pre acc h = record acc {
    pre_creates = acc.pre_creates ++ h.pre_creates;
    pre_starts = acc.pre_starts ++ h.pre_starts;
    pre_stops = acc.pre_stops ++ h.pre_stops;
    pre_terminates = acc.pre_terminates ++ h.pre_terminates;
  }

  unfoldable pub append_all :
      ContainerLifecycleHooks Ctx Request W
      → ContainerLifecycleHooks Ctx Request W
      → ContainerLifecycleHooks Ctx Request W
  append_all acc h = record {
    pre_creates = acc.pre_creates ++ h.pre_creates;
    post_creates = acc.post_creates ++ h.post_creates;
    pre_starts = acc.pre_starts ++ h.pre_starts;
    post_starts = acc.post_starts ++ h.post_starts;
    post_readies = acc.post_readies ++ h.post_readies;
    pre_stops = acc.pre_stops ++ h.pre_stops;
    post_stops = acc.post_stops ++ h.post_stops;
    pre_terminates = acc.pre_terminates ++ h.pre_terminates;
    post_terminates = acc.post_terminates ++ h.post_terminates;
  }

  unfoldable pub append_post :
      ContainerLifecycleHooks Ctx Request W
      → ContainerLifecycleHooks Ctx Request W
      → ContainerLifecycleHooks Ctx Request W
  append_post acc h = record acc {
    post_creates = acc.post_creates ++ h.post_creates;
    post_starts = acc.post_starts ++ h.post_starts;
    post_readies = acc.post_readies ++ h.post_readies;
    post_stops = acc.post_stops ++ h.post_stops;
    post_terminates = acc.post_terminates ++ h.post_terminates;
  }

  unfoldable pub each :
      (ContainerLifecycleHooks Ctx Request W
        → ContainerLifecycleHooks Ctx Request W
        → ContainerLifecycleHooks Ctx Request W)
      → List (ContainerLifecycleHooks Ctx Request W)
      → ContainerLifecycleHooks Ctx Request W
      → ContainerLifecycleHooks Ctx Request W
  each body [] acc = acc
  each body (h ∷ hs) acc = each body hs (body acc h)

  unfoldable pub combine_container_hooks :
      List (ContainerLifecycleHooks Ctx Request W)
      → List (ContainerLifecycleHooks Ctx Request W)
      → ContainerLifecycleHooks Ctx Request W
  unfolding append_pre append_all append_post each
  combine_container_hooks default user =
      each append_post default (each append_all user (each append_pre default no_hooks))
