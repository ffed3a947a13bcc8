-- ===== src/Tests/Processes.antt =====
-- internal/core/images.go, exec/processor.go and Exec of docker.go: the theorems at concrete inputs.
use testcontainers_go.Base.{ℕ, suc, ◌≡◌, refl, Option, none, [], ◌∷◌, ◌==◌, Bytes}
use testcontainers_go.Errors.{ok}
use testcontainers_go.Exec.{Commands, ExecInspect, multiplexed, exec, exit_code_of}
use testcontainers_go.Exec.Blocking.{read_result, exec-multiplexed}

abbrev inspect_at : ℕ → ExecInspect
inspect_at w = record { running = w == 1; exit_code = 3 }

-- A command that runs until the world is 2, and whose output cannot be copied.
abbrev commands : Commands ℕ ℕ
commands = record {
  exec_create = λ ctx id opts w. (ok "e1", w);
  exec_attach = λ ctx id w. (ok (1 ∷ 2 ∷ []), w);
  exec_inspect = λ ctx id w. (ok (inspect_at w), w);
  sleep = λ d w. suc w;
}

abbrev broken : Bytes → Option (Bytes × Bytes)
broken bs = none

exec-multiplexed_example :
    exec commands 5 0 "c1" ("ls" ∷ []) (multiplexed broken ∷ []) 1
    ≡ read_result none (exit_code_of commands 5 0 "e1" 1)
exec-multiplexed_example =
    exec-multiplexed commands broken 5 0 "c1" "e1" ("ls" ∷ []) (1 ∷ 2 ∷ []) 1 1 1 refl refl
