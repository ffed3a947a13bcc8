-- ===== src/Session.antt =====
-- internal/core/bootstrap.go: the session of the tests, from the process that runs them.
use testcontainers_go.Base.{
  ℕ, String, ◌<>◌, ◌==◌, ◌≡◌, refl, true, false, List, [], ◌∷◌, ◌++◌, if◌then◌else◌, decimal,
}
use testcontainers_go.Errors.{Result, ok, err}

-- The operating system, as one start of the program sees it: `uuid` are the identifiers that it
-- makes, for its process and for its session, and `sum` is the hash in hexadecimal digits.
pub record System (Process : Type 0) : Type 0 where
  pub process_uuid : String
  pub session_uuid : String
  pub parent_pid : ℕ
  pub getwd : Result String
  pub temp_dir : String
  pub processes : Result (List Process)
  pub pid : Process → ℕ
  pub cwd : Process → Result String
  pub create_time : Process → Result ℕ
  pub sum : String → Result String

pub record TestSession : Type 0 where
  pub process_id : String
  pub project_path : String
  pub session_id : String

unfoldable pub result_or : {A : Type 0} → A → Result A → A
result_or d (err e) = d
result_or d (ok a) = a

-- `fmt.Sprintf(sessionIDPlaceholder, …)`
unfoldable pub session_text : ℕ → ℕ → String
session_text pid time = "testcontainers-go:" <> decimal pid <> ":" <> decimal time

module _ {Process : Type 0} (S : System Process) where
  unfoldable pub session_at : String → String → TestSession
  session_at path id = record { process_id = S.process_uuid; project_path = path; session_id = id }

  unfoldable pub fallback_cwd : String
  unfolding result_or
  fallback_cwd = result_or S.temp_dir S.getwd

  unfoldable pub session_hashed : String → ℕ → TestSession
  unfolding result_or session_at session_text
  session_hashed path time =
      session_at path (result_or S.session_uuid (S.sum (session_text S.parent_pid time)))

  unfoldable pub created_at : String → Result ℕ → TestSession
  unfolding session_hashed session_at
  created_at path (err e) = session_at path S.session_uuid
  created_at path (ok time) = session_hashed path time

  -- The loop: the first process with the number of the parent.
  unfoldable pub session_of : List Process → TestSession
  unfolding created_at result_or fallback_cwd session_hashed
  session_of [] = session_hashed "" 0
  session_of (p ∷ ps) =
      let rest = session_of ps in
      if S.pid p == S.parent_pid
      then created_at (result_or fallback_cwd (S.cwd p)) (S.create_time p)
      else rest

  unfoldable pub session_among : Result (List Process) → TestSession
  unfolding session_of session_at fallback_cwd
  session_among (err e) = session_at fallback_cwd S.session_uuid
  session_among (ok ps) = session_of ps

  -- `init`
  unfoldable pub init : TestSession
  unfolding session_among
  init = session_among S.processes

  -- No process of the list is the parent.
  abbrev pub Foreign : List Process → Type 0
  Foreign [] = Unit
  Foreign (q ∷ qs) = (S.pid q == S.parent_pid ≡ false) × Foreign qs

  session_of-first :
      (qs ps : List Process) (p : Process)
      → Foreign qs
      → (S.pid p == S.parent_pid) ≡ true
      → session_of (qs ++ p ∷ ps) ≡ created_at (result_or fallback_cwd (S.cwd p)) (S.create_time p)
  unfolding session_of
  session_of-first [] ps p f h = rw h refl
  session_of-first (q ∷ qs) ps p (n, f) h = rw n (session_of-first qs ps p f h)

  session_of-Foreign : (ps : List Process) → Foreign ps → session_of ps ≡ session_hashed "" 0
  unfolding session_of
  session_of-Foreign [] f = refl
  session_of-Foreign (q ∷ qs) (n, f) = rw n (session_of-Foreign qs f)

  -- Where no process of the system is the parent, the project path is empty: it is not the working
  -- directory of the tests.
  init_without_parent :
      (ps : List Process) → S.processes ≡ ok ps → Foreign ps → init.project_path ≡ ""
  unfolding init session_among session_hashed session_at
  init_without_parent ps h f = rw (h, session_of-Foreign ps f) refl

  -- Where the processes can be listed, the parent's time of creation is known and the hash does not
  -- fail, the session is the hash of the parent and that time, whatever process of it asks.
  init_shared :
      (qs ps : List Process) (p : Process) (time : ℕ) (digest : String)
      → S.processes ≡ ok (qs ++ p ∷ ps)
      → Foreign qs
      → (S.pid p == S.parent_pid) ≡ true
      → S.create_time p ≡ ok time
      → S.sum (session_text S.parent_pid time) ≡ ok digest
      → init.session_id ≡ digest
  unfolding init session_among created_at session_hashed session_at result_or
  init_shared qs ps p time digest h f e t d = rw (h, session_of-first qs ps p f e, t, d) refl
