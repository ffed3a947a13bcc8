-- ===== src/Exec.antt =====
-- exec/processor.go, and Exec of docker.go: the options of a process and its run in a container.
-- What never returns is `none`, also where the rounds of the loop do not suffice.
pub mod Blocking
use testcontainers_go.Base.{
  ℕ, zero, suc, String, Bool, true, false, Option, none, some, List, [], ◌∷◌, ◌++◌, if◌then◌else◌,
  Bytes, M, ◌*◌,
}
use testcontainers_go.Errors.{Error, wrap, Result, ok, err}
use testcontainers_go.Errors.Flow.{Try}

-- `ProcessOptions`: a reader is what is still to be read from it.
pub record ProcessOptions : Type 0 where
  pub cmd : List String
  pub user : String
  pub working_dir : String
  pub env : List String
  pub detach : Bool
  pub attach_stdout : Bool
  pub attach_stderr : Bool
  pub reader : Option Bytes

unfoldable pub new_process_options : List String → ProcessOptions
new_process_options cmd = record {
  cmd = cmd;
  user = "";
  working_dir = "";
  env = [];
  detach = false;
  attach_stdout = true;
  attach_stderr = true;
  reader = none;
}

abbrev pub ProcessOption : Type 0
ProcessOption = ProcessOptions → Option ProcessOptions

unfoldable pub with_user : String → ProcessOption
with_user user opts = some (record opts { user = user })

unfoldable pub with_working_dir : String → ProcessOption
with_working_dir dir opts = some (record opts { working_dir = dir })

unfoldable pub with_process_env : List String → ProcessOption
with_process_env env opts = some (record opts { env = env })

-- `<-done`: the channel is closed only where the copy did not fail.
unfoldable pub demultiplexed : ProcessOptions → Option (Bytes × Bytes) → Option ProcessOptions
demultiplexed opts none = none
demultiplexed opts (some (out, errors)) = some (record opts { reader = some (out ++ errors) })

unfoldable pub from_reader :
    (Bytes → Option (Bytes × Bytes)) → ProcessOptions → Option Bytes → Option ProcessOptions
unfolding demultiplexed
from_reader std_copy opts none = some opts
from_reader std_copy opts (some bs) = demultiplexed opts (std_copy bs)

-- `std_copy` is `stdcopy.StdCopy`, which fails or gives the two streams.
unfoldable pub multiplexed : (Bytes → Option (Bytes × Bytes)) → ProcessOption
unfolding from_reader
multiplexed std_copy opts = from_reader std_copy opts opts.reader

-- The loop over the options.
unfoldable pub apply_all : List ProcessOption → ProcessOptions → Option ProcessOptions
apply_all [] opts = some opts
apply_all (o ∷ os) opts = elim (o opts) [ none ↦ none | some opts' ↦ apply_all os opts' ]

-- What the daemon tells of a command.
pub record ExecInspect : Type 0 where
  pub running : Bool
  pub exit_code : ℕ

pub record Commands (Ctx W : Type 0) : Type 0 where
  pub exec_create : Ctx → String → ProcessOptions → Try W String
  pub exec_attach : Ctx → String → Try W Bytes
  pub exec_inspect : Ctx → String → Try W ExecInspect
  pub sleep : ℕ → W → W

unfoldable pub with_reader :
    {W : Type 0} → Option Bytes → Option (Result ℕ × W) → Option (Result (ℕ × Option Bytes) × W)
with_reader reader none = none
with_reader reader (some (err e, w)) = some (err e, w)
with_reader reader (some (ok code, w)) = some (ok (code, reader), w)

module _ {Ctx W : Type 0} (C : Commands Ctx W) where
  unfoldable pub exit_or :
      (W → Option (Result ℕ × W)) → Result ExecInspect × W → Option (Result ℕ × W)
  exit_or again (err e, w) = some (err (wrap "container exec inspect" e), w)
  exit_or again (ok r, w) =
      if r.running then again (C.sleep (100 * 1000000) w) else some (ok r.exit_code, w)

  -- The loop for the exit code, in rounds.
  unfoldable pub exit_code_of : ℕ → Ctx → String → W → Option (Result ℕ × W)
  unfolding exit_or
  exit_code_of zero ctx id w = none
  exit_code_of (suc n) ctx id w = exit_or (exit_code_of n ctx id) (C.exec_inspect ctx id w)

  unfoldable pub exec_read :
      ℕ → Ctx → String → Option ProcessOptions → W → Option (Result (ℕ × Option Bytes) × W)
  unfolding exit_code_of with_reader
  exec_read n ctx id none w = none
  exec_read n ctx id (some opts) w = with_reader opts.reader (exit_code_of n ctx id w)

  -- The second loop over the options, now with a reader.
  unfoldable pub exec_attached :
      ℕ
      → Ctx
      → String
      → List ProcessOption
      → ProcessOptions
      → Result Bytes × W
      → Option (Result (ℕ × Option Bytes) × W)
  unfolding apply_all exec_read
  exec_attached n ctx id options opts (err e, w) = some (err (wrap "container exec attach" e), w)
  exec_attached n ctx id options opts (ok bs, w) =
      exec_read n ctx id (apply_all options (record opts { reader = some bs })) w

  unfoldable pub exec_created :
      ℕ
      → Ctx
      → List ProcessOption
      → ProcessOptions
      → Result String × W
      → Option (Result (ℕ × Option Bytes) × W)
  unfolding exec_attached
  exec_created n ctx options opts (err e, w) = some (err (wrap "container exec create" e), w)
  exec_created n ctx options opts (ok id, w) =
      exec_attached n ctx id options opts (C.exec_attach ctx id w)

  unfoldable pub exec_with :
      ℕ
      → Ctx
      → String
      → List ProcessOption
      → Option ProcessOptions
      → W
      → Option (Result (ℕ × Option Bytes) × W)
  unfolding exec_created
  exec_with n ctx container options none w = none
  exec_with n ctx container options (some opts) w =
      exec_created n ctx options opts (C.exec_create ctx container opts w)

  -- `Exec`
  unfoldable pub exec :
      ℕ
      → Ctx
      → String
      → List String
      → List ProcessOption
      → W
      → Option (Result (ℕ × Option Bytes) × W)
  unfolding apply_all new_process_options exec_with
  exec n ctx container cmd options w =
      exec_with n ctx container options (apply_all options (new_process_options cmd)) w
