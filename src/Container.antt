-- ===== src/Container.antt =====
-- docker.go: the operations on a container, around which its hooks run, and its ports.
-- The hooks and the client act on the container and on the rest of the world `W` at once.
pub mod Laws
use testcontainers_go.Base.{
  ℕ, String, ◌<>◌, ◌=s◌, Bool, true, false, ◌&&◌, not, ◌/◌, Option, none, some, List, [], ◌∷◌, ◌++◌,
  if◌then◌else◌, M,
}
use testcontainers_go.Errors.{Error, new, wrap, Result, ok, err, join, message}
use testcontainers_go.Lifecycle.{ContainerLifecycleHooks, ContainerHook, apply_lifecycle_hooks}

pub record DockerContainer : Type 0 where
  pub id : String
  pub image : String
  pub image_was_built : Bool
  pub keep_built_image : Bool
  pub session_id : String
  pub is_running : Bool

-- A container, and the world around it.
abbrev pub Live : Type 0 → Type 0
Live W = DockerContainer × W

-- The calls of the Docker client and of the logger that the operations make. `signal` is the send
-- on the termination channel, which is skipped where nobody receives; `logs` opens the logs and,
-- where they open, reads them.
pub record Client (Ctx W : Type 0) : Type 0 where
  pub container_start : Ctx → String → M W (Option Error)
  pub container_stop : Ctx → String → Option ℕ → M W (Option Error)
  pub container_remove : Ctx → String → M W (Option Error)
  pub image_remove : Ctx → String → M W (Option Error)
  pub close : W → W
  pub signal : W → W
  pub ctx_done : Ctx → W → Bool
  pub rescue : W → Ctx
  pub logs : Ctx → String → M W (Result (Result String))
  pub printf : String → W → W

-- `if err != nil { return … }`, with what is done to the error.
unfoldable pub or_return :
    {S : Type 0} → (Error → Error) → Option Error × S → M S (Option Error) → Option Error × S
or_return f (some e, s) rest = (some (f e), s)
or_return f (none, s) rest = rest s

-- A call that acts on the world and leaves the container as it is.
unfoldable pub outside : {W A : Type 0} → M W A → M (Live W) A
outside f (c, w) = let (a, v) = f w in (a, (c, v))

-- A deferred call.
unfoldable pub deferred : {W : Type 0} → (W → W) → Option Error × Live W → Option Error × Live W
deferred f (r, (c, w)) = (r, (c, f w))

unfoldable pub set_running : {W : Type 0} → Bool → Live W → Live W
set_running b (c, w) = (record c { is_running = b }, w)

unfoldable pub forget_session : {W : Type 0} → Live W → Live W
forget_session (c, w) = (record c { session_id = ""; is_running = false }, w)

unfoldable pub seconds : Option ℕ → Option ℕ
seconds none = none
seconds (some d) = some (d / 1000000000)

module _ {Ctx W : Type 0} (K : Client Ctx W) where
  unfoldable pub printed : Error → Result (Result String) → W → W
  printed cause (err e) w = K.printf ("failed accessing container logs: " <> message e <> "\n") w
  printed cause (ok (err e)) w = K.printf ("failed reading container logs: " <> message e <> "\n") w
  printed cause (ok (ok text)) w =
      K.printf ("container logs (" <> message cause <> "):\n" <> text) w

  -- `printLogs`
  unfoldable pub print_logs : Ctx → Error → Live W → Live W
  unfolding printed
  print_logs ctx cause (c, w) = let (r, v) = K.logs ctx c.id w in (c, printed cause r v)

  -- The image is removed where it was built and is not to be kept.
  unfoldable pub remove_image : Ctx → M (Live W) (List (Option Error))
  unfolding outside
  remove_image ctx l =
      if l.0.image_was_built && not l.0.keep_built_image
      then (let (e, s) = outside (K.image_remove ctx l.0.image) l in (e ∷ [], s))
      else ([], l)

module _ {Ctx Request W : Type 0} (K : Client Ctx W)
    (hooks : List (ContainerLifecycleHooks Ctx Request (Live W))) where
  -- `c.applyLifecycleHooks`, at the container's hooks of one stage.
  unfoldable pub run_stage :
      Ctx
      → Bool
      → (ContainerLifecycleHooks Ctx Request (Live W) → List (ContainerHook Ctx (Live W)))
      → M (Live W) (Option Error)
  unfolding print_logs apply_lifecycle_hooks
  run_stage ctx log_error stage l =
      apply_lifecycle_hooks (λ s. K.ctx_done ctx s.1) (λ s. K.rescue s.1) (print_logs K) ctx
        log_error stage hooks l

  unfoldable pub starting_hook : Ctx → M (Live W) (Option Error)
  unfolding run_stage
  starting_hook ctx = run_stage ctx true (λ h. h.pre_starts)

  unfoldable pub started_hook : Ctx → M (Live W) (Option Error)
  unfolding run_stage
  started_hook ctx = run_stage ctx true (λ h. h.post_starts)

  unfoldable pub readied_hook : Ctx → M (Live W) (Option Error)
  unfolding run_stage
  readied_hook ctx = run_stage ctx true (λ h. h.post_readies)

  unfoldable pub stopping_hook : Ctx → M (Live W) (Option Error)
  unfolding run_stage
  stopping_hook ctx = run_stage ctx false (λ h. h.pre_stops)

  unfoldable pub stopped_hook : Ctx → M (Live W) (Option Error)
  unfolding run_stage
  stopped_hook ctx = run_stage ctx false (λ h. h.post_stops)

  unfoldable pub terminating_hook : Ctx → M (Live W) (Option Error)
  unfolding run_stage
  terminating_hook ctx = run_stage ctx false (λ h. h.pre_terminates)

  unfoldable pub terminated_hook : Ctx → M (Live W) (Option Error)
  unfolding run_stage
  terminated_hook ctx = run_stage ctx false (λ h. h.post_terminates)

  -- From the start of the container on; the client is closed at the end.
  unfoldable pub after_start : Ctx → M (Live W) (Option Error)
  unfolding or_return set_running started_hook readied_hook deferred
  after_start ctx l = deferred K.close (
      or_return (wrap "started hook") (started_hook ctx l) (λ s.
        or_return (wrap "readied hook") (readied_hook ctx (set_running true s)) (λ t. (none, t))))

  unfoldable pub start : Ctx → M (Live W) (Option Error)
  unfolding or_return outside starting_hook after_start
  start ctx l = or_return (wrap "starting hook") (starting_hook ctx l) (λ s.
      or_return (wrap "container start") (outside (K.container_start ctx s.0.id) s)
        (after_start ctx))

  unfoldable pub stop : Ctx → Option ℕ → M (Live W) (Option Error)
  unfolding or_return outside stopping_hook stopped_hook set_running deferred seconds
  stop ctx timeout l =
      or_return (λ e. e) (stopping_hook ctx l)
        (λ s.
          or_return (λ e. e) (outside (K.container_stop ctx s.0.id (seconds timeout)) s)
            (λ t. deferred K.close (stopped_hook ctx (set_running false t))))

  unfoldable pub terminate : Ctx → M (Live W) (Option Error)
  unfolding terminating_hook terminated_hook outside remove_image forget_session deferred join
  terminate ctx l =
      let (e1, s1) = terminating_hook ctx (l.0, K.signal l.1) in
      let (e2, s2) = outside (K.container_remove ctx s1.0.id) s1 in
      let (e3, s3) = terminated_hook ctx s2 in
      let (es, s4) = remove_image K ctx s3 in
      deferred K.close (join (e1 ∷ e2 ∷ e3 ∷ es), forget_session s4)
