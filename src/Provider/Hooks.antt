-- ===== src/Provider/Hooks.antt =====
-- lifecycle.go: the default hooks of a container.
-- A hook acts on the container and on the rest of the world `V`.
pub mod Copies
use testcontainers_go.Base.{
  ℕ, String, ◌<>◌, ◌=s◌, Bool, true, false, ◌&&◌, is_none, Option, none, some, List, [], ◌∷◌, map,
  ◌==◌, length, if◌then◌else◌, M, Bytes,
}
use testcontainers_go.Errors.{Error, new, wrap, Result, ok, err}
use testcontainers_go.Errors.Flow.{
  Try, and_then, ◌>>=◌, ◌>>◌, done, fail, wrapped, mapped_error, checked, result_of,
}
use testcontainers_go.Lifecycle.{ContainerLifecycleHooks, ContainerHook, RequestHook, no_hooks}
use testcontainers_go.Container.{DockerContainer, Live, outside, set_running}
use testcontainers_go.Ports.{check_ports_mapped}
use testcontainers_go.Request.{ContainerFile}

-- A call's only result, its error.
unfoldable pub error_of : {A : Type 0} → Result A → Option Error
error_of (err e) = some e
error_of (ok a) = none

unfoldable pub ending : {S : Type 0} → Try S Unit → M S (Option Error)
unfolding error_of
ending m s = let (r, s') = m s in (error_of r, s')

-- A hook that prints a line with the container's short identity.
unfoldable pub logged :
    {Ctx V : Type 0}
    → (String → V → V)
    → (String → String)
    → String
    → List (ContainerHook Ctx (Live V))
logged printf short text = (λ ctx l. (none, (l.0, printf (text <> short l.0.id) l.1))) ∷ []

-- `DefaultLoggingHook`: `short` is `shortContainerID`, and `image` gives the request's image.
unfoldable pub default_logging_hook :
    {Ctx Request V : Type 0}
    → (String → V → V)
    → (String → String)
    → (Request → String)
    → ContainerLifecycleHooks Ctx Request (Live V)
unfolding logged
default_logging_hook printf short image = record {
  pre_creates =
      (λ ctx req l. (none, (l.0, printf ("🐳 Creating container for image " <> image req) l.1)))
      ∷ [];
  post_creates = logged printf short "✅ Container created: ";
  pre_starts = logged printf short "🐳 Starting container: ";
  post_starts = logged printf short "✅ Container started: ";
  post_readies = logged printf short "🔔 Container is ready: ";
  pre_stops = logged printf short "🐳 Stopping container: ";
  post_stops = logged printf short "✅ Container stopped: ";
  pre_terminates = logged printf short "🐳 Terminating container: ";
  post_terminates = logged printf short "🚫 Container terminated: ";
}

-- `validate` of container.go
unfoldable pub validate_file : {F : Type 0} → ContainerFile F → Option Error
validate_file f =
    if (f.host_file_path =s "") && is_none f.reader
    then some (new "either HostFilePath or Reader must be specified")
    else if f.container_file_path =s ""
    then some (new "ContainerFilePath must be specified")
    else none

-- `read_all` is `io.ReadAll`; the other two are the methods of the container.
module _ {Ctx F V : Type 0} (read_all : F → Try (Live V) Bytes)
    (copy_to_container : Ctx → Bytes → String → ℕ → M (Live V) (Option Error))
    (copy_file_to_container : Ctx → String → String → ℕ → M (Live V) (Option Error)) where
  unfoldable pub copy_content : Ctx → ContainerFile F → Option F → Try (Live V) Unit
  unfolding ◌>>=◌ wrapped checked
  copy_content ctx f none =
      wrapped (wrap ("can't copy " <> f.host_file_path <> " to container"))
        (checked (copy_file_to_container ctx f.host_file_path f.container_file_path f.file_mode))
  copy_content ctx f (some r) = do
    bs ← wrapped (wrap "can't read from reader") (read_all r)
    wrapped (wrap ("can't copy " <> f.host_file_path <> " to container"))
        (checked (copy_to_container ctx bs f.container_file_path f.file_mode))

  unfoldable pub copy_file : Ctx → ContainerFile F → Try (Live V) Unit
  unfolding ◌>>◌ wrapped checked validate_file copy_content
  copy_file ctx f = do
    wrapped (wrap "invalid file") (checked (λ l. (validate_file f, l)))
    copy_content ctx f f.reader

  unfoldable pub copy_files : Ctx → List (ContainerFile F) → Try (Live V) Unit
  unfolding ◌>>◌ copy_file
  copy_files ctx [] = done tt
  copy_files ctx (f ∷ fs) = do copy_file ctx f; copy_files ctx fs

  unfoldable pub default_copy_file_to_container_hook :
      {Request : Type 0} → List (ContainerFile F) → ContainerLifecycleHooks Ctx Request (Live V)
  unfolding copy_files ending
  default_copy_file_to_container_hook files = record no_hooks {
    post_creates = (λ ctx. ending (copy_files ctx files)) ∷ [];
  }

-- `follow` sets the consumers of the container to those of the configuration; a nil
-- configuration has none of them.
module _ {Consumer V : Type 0} (follow : List Consumer → V → V)
    (start_production stop_production : M (Live V) (Option Error)) where
  unfoldable pub start_consumers : List Consumer → M (Live V) (Option Error)
  start_consumers [] l = (none, l)
  start_consumers (c ∷ cs) l = start_production (l.0, follow (c ∷ cs) l.1)

  unfoldable pub stop_consumers : List Consumer → M (Live V) (Option Error)
  stop_consumers [] l = (none, l)
  stop_consumers (c ∷ cs) l = stop_production l

  unfoldable pub default_log_consumers_hook :
      {Ctx Request : Type 0} → List Consumer → ContainerLifecycleHooks Ctx Request (Live V)
  unfolding start_consumers stop_consumers
  default_log_consumers_hook consumers = record no_hooks {
    post_starts = (λ ctx. start_consumers consumers) ∷ [];
    post_stops = (λ ctx. stop_consumers consumers) ∷ [];
  }

unfoldable pub mapped_check :
    {V : Type 0} → Result (List String) → Result (List String) × Live V → Option Error × Live V
unfolding check_ports_mapped
mapped_check parsed (err e, l) = (some e, l)
mapped_check parsed (ok ports, l) = (check_ports_mapped ports parsed, l)

unfoldable pub waited : {V : Type 0} → Option Error × Live V → Option Error × Live V
unfolding set_running
waited (some e, l) = (some (wrap "wait until ready" e), l)
waited (none, l) = (none, set_running true l)

unfoldable pub wait_until_ready :
    {Ctx V : Type 0} → Option (Ctx → M (Live V) (Option Error)) → Ctx → M (Live V) (Option Error)
unfolding waited set_running
wait_until_ready none ctx l = (none, set_running true l)
wait_until_ready (some strategy) ctx l = waited (strategy ctx l)

-- `inspect_ports` inspects the container and gives the keys of its ports, `retry` is the retry
-- with its backoff, `parsed` is what the exposed ports parse to, and `wait` waits for the
-- strategy of the container.
module _ {Ctx V : Type 0} (inspect_ports : Ctx → Try (Live V) (List String))
    (retry : M (Live V) (Option Error) → M (Live V) (Option Error)) (parsed : Result (List String))
    (exposed_ports : String) (wait : Option (Ctx → M (Live V) (Option Error))) where
  unfoldable pub all_mapped : Ctx → M (Live V) (Option Error)
  unfolding ending wrapped checked mapped_check
  all_mapped ctx = ending (
      wrapped (wrap ("all exposed ports, " <> exposed_ports <> ", were not mapped in 5s"))
        (checked (retry (λ l. mapped_check parsed (inspect_ports ctx l)))))

  unfoldable pub default_readiness_hook :
      {Request : Type 0} → ContainerLifecycleHooks Ctx Request (Live V)
  unfolding all_mapped wait_until_ready
  default_readiness_hook = record no_hooks { post_starts = all_mapped ∷ wait_until_ready wait ∷ [] }
