-- ===== src/Exec/Blocking.antt =====
-- When a command with multiplexed streams returns.
use testcontainers_go.Base.{
  zero, suc, ◌*◌, ◌<◌, true, false, if◌then◌else◌, arith, ℕ, ◌≡◌, refl, ◌∙◌, ap, String, Option,
  none, some, List, [], ◌∷◌, ◌++◌, Bytes,
}
use testcontainers_go.Errors.{Result, ok}
use testcontainers_go.Exec.{
  ExecInspect, exit_or, ProcessOptions, new_process_options, multiplexed, from_reader,
  demultiplexed, apply_all, Commands, exit_code_of, with_reader, exec_read, exec_attached,
  exec_created, exec_with, exec,
}

-- What a run gives once the command is attached, by the copy of its output.
abbrev pub read_result :
    {W : Type 0}
    → Option (Bytes × Bytes)
    → Option (Result ℕ × W)
    → Option (Result (ℕ × Option Bytes) × W)
read_result none r = none
read_result (some (out, errors)) r = with_reader (some (out ++ errors)) r

module _ {Ctx W : Type 0} (C : Commands Ctx W) where
  copied :
      (std_copy : Bytes → Option (Bytes × Bytes)) (n : ℕ) (ctx : Ctx) (id : String)
      (opts : ProcessOptions) (o : Option (Bytes × Bytes)) (bs : Bytes) (w : W)
      → std_copy bs ≡ o
      → exec_attached C n ctx id (multiplexed std_copy ∷ []) opts (ok bs, w)
        ≡ read_result o (exit_code_of C n ctx id w)
  unfolding exec_attached multiplexed from_reader apply_all exec_read demultiplexed
  copied std_copy n ctx id opts none bs w h =
      ap
        (λ o.
          exec_read C n ctx id
            (elim (demultiplexed (record opts { reader = some bs }) o) [
              | none ↦ none
              | some p ↦ some p
            ])
            w)
        h
  copied std_copy n ctx id opts (some (out, errors)) bs w h =
      ap
        (λ o.
          exec_read C n ctx id
            (elim (demultiplexed (record opts { reader = some bs }) o) [
              | none ↦ none
              | some p ↦ some p
            ])
            w)
        h

  -- If creating and attaching succeed, an Exec with the multiplexed option alone gives nothing, in
  -- any number of rounds, where the copy of the streams fails, and otherwise what the loop for the
  -- exit code gives, a code with the copied output followed by the copied errors as its reader.
  pub exec-multiplexed :
      (std_copy : Bytes → Option (Bytes × Bytes)) (n : ℕ) (ctx : Ctx) (container id : String)
      (cmd : List String) (bs : Bytes) (w v u : W)
      → C.exec_create ctx container (new_process_options cmd) w ≡ (ok id, v)
      → C.exec_attach ctx id v ≡ (ok bs, u)
      → exec C n ctx container cmd (multiplexed std_copy ∷ []) w
        ≡ read_result (std_copy bs) (exit_code_of C n ctx id u)
  unfolding exec exec_with exec_created apply_all multiplexed from_reader new_process_options
  exec-multiplexed std_copy n ctx container id cmd bs w v u h k =
      ap (exec_created C n ctx (multiplexed std_copy ∷ []) (new_process_options cmd)) h
      ∙ ap (exec_attached C n ctx id (multiplexed std_copy ∷ []) (new_process_options cmd)) k
      ∙ copied std_copy n ctx id (new_process_options cmd) (std_copy bs) bs u refl

  -- The process runs for so many looks at it, and ends with a code.
  pub data Stops (ctx : Ctx) (id : String) : ℕ → W → ℕ → W → Type 0 where
    stopped :
        {w v : W} (r : ExecInspect)
        → C.exec_inspect ctx id w ≡ (ok r, v)
        → r.running ≡ false
        → Stops ctx id 0 w r.exit_code v
    runs :
        {k c : ℕ} {w v u : W} (r : ExecInspect)
        → C.exec_inspect ctx id w ≡ (ok r, v)
        → r.running ≡ true
        → Stops ctx id k (C.sleep (100 * 1000000) v) c u
        → Stops ctx id (suc k) w c u

  look :
      (n : ℕ) (ctx : Ctx) (id : String) (w v : W) (r : ExecInspect)
      → C.exec_inspect ctx id w ≡ (ok r, v)
      → exit_code_of C (suc n) ctx id w ≡ (
          if r.running
          then exit_code_of C n ctx id (C.sleep (100 * 1000000) v)
          else some (ok r.exit_code, v))
  unfolding exit_code_of exit_or
  look n ctx id w v r h = ap (exit_or C (exit_code_of C n ctx id)) h

  -- The loop for the exit code of a command returns the code within n rounds if the command is
  -- seen to run at k looks, with k less than n, and then to have ended with that code.
  pub exit_code_of-within :
      (ctx : Ctx) (id : String) (n : ℕ) {k c : ℕ} {w u : W}
      → k < n
      → Stops ctx id k w c u
      → exit_code_of C n ctx id w ≡ some (ok c, u)
  exit_code_of-within ctx id zero l s = absurd (omega arith)
  exit_code_of-within ctx id (suc n) l (stopped {w = w} {v = v} r h e) =
      look n ctx id w v r h ∙ (rw e refl)
  exit_code_of-within ctx id (suc n) l (runs {w = w} {v = v} r h e s) =
      look n ctx id w v r h ∙ (rw e (exit_code_of-within ctx id n (omega arith) s))
