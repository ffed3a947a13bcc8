-- ===== src/Provider/Reuse.antt =====
-- docker.go: the search for a container by its name, ReuseOrCreateContainer and RunContainer.
pub mod Leaks
use testcontainers_go.Base.{
  ℕ, String, ◌<>◌, ◌=s◌, Bool, true, false, ◌&&◌, not, Option, none, some, List, [], ◌∷◌,
  if◌then◌else◌, M,
}
use testcontainers_go.Errors.{Error, new, wrap, followed, Result, ok, err}
use testcontainers_go.Errors.Flow.{Try, and_then, ◌>>=◌, done, fail}
use testcontainers_go.Lifecycle.{ContainerLifecycleHooks, combine_container_hooks}
use testcontainers_go.Container.{
  DockerContainer, Client, started_hook, readied_hook, set_running, Live as Held,
}
use testcontainers_go.Provider.{Live, outside, at_world}
use testcontainers_go.Provider.Reaping.{Reaping, connected}
use testcontainers_go.Provider.Images.{
  Attempt, achieved, again, permanent, is_permanent_client_error,
}
use testcontainers_go.Provider.Creation.{Made}

-- `types.Container`, as far as the program reads it.
pub record Listed : Type 0 where
  pub id : String
  pub image : String

-- `container_list` lists by the filter on names, `is_name_conflict` is the regular expression on
-- the text of an error, and `retry_wait` the retry with its backoff and notification.
pub record Lister (Ctx W : Type 0) : Type 0 where
  pub container_list : Ctx → String → Try W (List Listed)
  pub close : W → W
  pub is_not_found : Error → Bool
  pub not_found : String → Error
  pub is_name_conflict : Error → Bool
  pub retry_wait : Ctx → M W (Attempt Listed) → Try W Listed

unfoldable pub first_listed : List Listed → Option Listed
first_listed [] = none
first_listed (c ∷ cs) = some c

module _ {Ctx W : Type 0} (B : Lister Ctx W) (permanent_client_errors : List (Error → Bool)) where
  unfoldable pub found_first : Result (List Listed) × W → Result (Option Listed) × W
  unfolding first_listed
  found_first (err e, w) = (err e, w)
  found_first (ok cs, w) = (ok (first_listed cs), B.close w)

  unfoldable pub find_container_by_name : Ctx → String → Try W (Option Listed)
  unfolding found_first
  find_container_by_name ctx name w =
      if name =s ""
      then (ok none, w)
      else found_first (B.container_list ctx ("^" <> (name <> "$")) w)

  unfoldable pub found_attempt : String → Result (Option Listed) → Attempt Listed
  unfolding is_permanent_client_error
  found_attempt name (err e) =
      if not (B.is_not_found e) && is_permanent_client_error permanent_client_errors e
      then permanent e
      else again e
  found_attempt name (ok none) = again (B.not_found ("container " <> (name <> " not found")))
  found_attempt name (ok (some c)) = achieved c

  unfoldable pub wait_container_creation : Ctx → String → Try W Listed
  unfolding find_container_by_name found_attempt
  wait_container_creation ctx name =
      B.retry_wait ctx
        (λ w. let (r, v) = find_container_by_name ctx name w in (found_attempt name r, v))

module _ {Ctx Request Reaper Signal W : Type 0} (P : Reaping Ctx Reaper Signal W)
    (K : Client Ctx (Live W)) (session_id : String)
    (hooks : List (ContainerLifecycleHooks Ctx Request (Held (Live W)))) where
  unfoldable pub reuse_signal : Ctx → Try (Live W) (Option Signal)
  unfolding connected
  reuse_signal ctx l =
      if not l.0.ryuk_disabled
      then connected P ctx (wrap "reaper") (λ e. followed e "connecting to reaper failed") l
      else (ok none, l)

  unfoldable pub reused_container :
      List String
      → Option Signal
      → Listed
      → Made Signal (List (ContainerLifecycleHooks Ctx Request (Held (Live W))))
  reused_container exposed_ports signal c = record {
    container = record {
      id = c.id;
      image = c.image;
      image_was_built = false;
      keep_built_image = false;
      session_id = session_id;
      is_running = false;
    };
    exposed_ports = exposed_ports;
    termination_signal = signal;
    hooks = hooks;
  }

  unfoldable pub readied :
      Made Signal (List (ContainerLifecycleHooks Ctx Request (Held (Live W))))
      → Option Error × Held (Live W)
      → Result (Made Signal (List (ContainerLifecycleHooks Ctx Request (Held (Live W))))) × Live W
  readied m (some e, (c, l)) = (err e, l)
  readied m (none, (c, l)) = (ok (record m { container = c }), l)

  unfoldable pub started_then : Ctx → Option Error × Held (Live W) → Option Error × Held (Live W)
  unfolding readied_hook set_running
  started_then ctx (some e, s) = (some e, s)
  started_then ctx (none, s) = readied_hook K hooks ctx (set_running true s)

  unfoldable pub reuse_stage :
      Ctx
      → Made Signal (List (ContainerLifecycleHooks Ctx Request (Held (Live W))))
      → Try (Live W) (Made Signal (List (ContainerLifecycleHooks Ctx Request (Held (Live W)))))
  unfolding readied started_then started_hook
  reuse_stage ctx m l = readied m (started_then ctx (started_hook K hooks ctx (m.container, l)))

  -- From the container that was found on.
  unfoldable pub reused :
      Ctx
      → List String
      → Listed
      → Try (Live W) (Made Signal (List (ContainerLifecycleHooks Ctx Request (Held (Live W)))))
  unfolding ◌>>=◌ reuse_signal reused_container reuse_stage
  reused ctx exposed_ports c = do
    signal ← reuse_signal ctx
    reuse_stage ctx (reused_container exposed_ports signal c)

  -- `create` is `CreateContainer` at the request.
  module _ (B : Lister Ctx W) (permanent_client_errors : List (Error → Bool))
      (create : Ctx
        → Try
            (Live W)
            (Made Signal (List (ContainerLifecycleHooks Ctx Request (Held (Live W)))))) where
    unfoldable pub after_conflict :
        Ctx
        → String
        → List String
        → Result (Made Signal (List (ContainerLifecycleHooks Ctx Request (Held (Live W))))) × Live W
        → Result (Made Signal (List (ContainerLifecycleHooks Ctx Request (Held (Live W))))) × Live W
    unfolding and_then outside wait_container_creation reused
    after_conflict ctx name ports (ok m, l) = (ok m, l)
    after_conflict ctx name ports (err e, l) =
        if not (B.is_name_conflict e)
        then (err e, l)
        else and_then (outside (wait_container_creation B permanent_client_errors ctx name) l)
            (reused ctx ports)

    unfoldable pub found_or_created :
        Ctx
        → String
        → List String
        → Option Listed
        → Try (Live W) (Made Signal (List (ContainerLifecycleHooks Ctx Request (Held (Live W)))))
    unfolding after_conflict reused
    found_or_created ctx name ports (some c) l = reused ctx ports c l
    found_or_created ctx name ports none l = after_conflict ctx name ports (create ctx l)

    unfoldable pub reuse_or_create_container :
        Ctx
        → String
        → List String
        → Try (Live W) (Made Signal (List (ContainerLifecycleHooks Ctx Request (Held (Live W)))))
    unfolding ◌>>=◌ outside find_container_by_name found_or_created
    reuse_or_create_container ctx name ports = do
      c ← outside (find_container_by_name B permanent_client_errors ctx name)
      found_or_created ctx name ports c

-- `RunContainer`: a container that does not start is returned too.
unfoldable pub started_or_failed :
    {M W : Type 0} → M → Option Error × W → (Option M × Option Error) × W
started_or_failed m (none, w) = ((some m, none), w)
started_or_failed m (some e, w) = ((some m, some (followed e "could not start container")), w)

unfoldable pub run_container :
    {M W : Type 0} → (M → W → Option Error × W) → Result M × W → (Option M × Option Error) × W
unfolding started_or_failed
run_container start (err e, w) = ((none, some e), w)
run_container start (ok m, w) = started_or_failed m (start m w)
