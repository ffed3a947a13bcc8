-- ===== src/Logs/Production/Within.antt =====
-- How long a stop of a production of logs waits.
use testcontainers_go.Base.{
  ℕ, ◌+◌, ◌*◌, ◌≤◌, ◌<◌, ◌≡◌, Bool, true, false, Option, none, some, arith,
}
use testcontainers_go.Errors.{Error}
use testcontainers_go.Logs.Production.{
  Phase, asking, polling, reading, finished, Caller, calling, waiting, returned, Production,
  production, Step, Steps, ask_fails, asks, polls, stops, reads, resets, quits, sends, receives,
  observes, here, next, started, log_production_timeout,
}
use testcontainers_go.Logs.Production.Stopping.{IsSafe, Step-IsSafe, Started-IsSafe, CallerFits}

abbrev phase_left : Phase → ℕ
phase_left reading = 3
phase_left asking = 2
phase_left polling = 1
phase_left finished = 0

abbrev error_left : Option (Option Error) → ℕ
error_left none = 0
error_left (some x) = 1

abbrev caller_left : Caller → ℕ
caller_left calling = 0
caller_left waiting = 1
caller_left (returned r) = 0

abbrev left : Production → ℕ
left (production p s e c) = 2 * phase_left p + error_left e + caller_left c

-- The send was made.
abbrev CallerSent : Caller → Type 0
CallerSent calling = true ≡ false
CallerSent waiting = Unit
CallerSent (returned r) = Unit

abbrev IsSent : Production → Type 0
IsSent (production p s e c) = CallerSent c

-- After the send a goroutine that runs finds the stop.
found_stop :
    (e : Option (Option Error)) (c : Caller)
    → CallerFits true false e c
    → IsSent (production polling false e c)
    → true ≡ false
found_stop e calling h k = k
found_stop e waiting (h, k) l = ground (arith, k)
found_stop e (returned r) h k = h

error_bit : (e : Option (Option Error)) → error_left e ≤ 1
error_bit none = omega arith
error_bit (some x) = omega arith

sent_step : {s t : Production} → Step s t → IsSafe s → IsSent s → left t < left s
sent_step (ask_fails x) h k = omega arith
sent_step (asks) h k = omega arith
sent_step (polls {e = e} {c = c}) h k = absurd (ground (arith, found_stop e c h k))
sent_step (stops x) h k = omega arith
sent_step (reads) h k = omega arith
sent_step (resets) h k = omega arith
sent_step (quits) h k = omega arith
sent_step (sends) h k = absurd (ground (arith, k))
sent_step (receives) h k = omega arith
sent_step (observes) h k = omega arith

Step-IsSent : {s t : Production} → Step s t → IsSent s → IsSent t
Step-IsSent (ask_fails x) h = h
Step-IsSent (asks) h = h
Step-IsSent (polls) h = h
Step-IsSent (stops x) h = h
Step-IsSent (reads) h = h
Step-IsSent (resets) h = h
Step-IsSent (quits) h = h
Step-IsSent (sends) h = tt
Step-IsSent (receives) h = tt
Step-IsSent (observes) h = h

IsSent-steps :
    {m : ℕ} {s t : Production}
    → Steps m s t
    → IsSafe s
    → IsSent s
    → IsSafe t × IsSent t × (left t + m ≤ left s)
IsSent-steps here h k = (h, k, omega arith)
IsSent-steps (next r st) h k =
    let (i, j, b) = IsSent-steps r h k in
    (Step-IsSafe st i, Step-IsSent st j, omega (arith, sent_step st i j))

left_bound :
    (p : Phase) (s : Bool) (e : Option (Option Error))
    → IsSafe (production p s e waiting)
    → left (production p s e waiting) ≤ 7
left_bound asking s e h = omega (arith, error_bit e)
left_bound polling s e h = omega (arith, error_bit e)
left_bound reading s e (h, k) = rw h (omega arith)
left_bound finished s e h = omega (arith, error_bit e)

-- After the send of the stop at most seven steps of the production, its reader and its stop
-- follow.
pub stop_within :
    {n m : ℕ} {p : Phase} {s : Bool} {e : Option (Option Error)} {t : Production}
    → Steps n started (production p s e waiting)
    → Steps m (production p s e waiting) t
    → m ≤ 7
stop_within {p = p} {e = e} h r =
    let b = IsSent-steps r (Started-IsSafe h) tt in
    omega (arith, left_bound p _ e (Started-IsSafe h), b.2)

-- The timeout of a log production is at least five seconds and at most sixty, and is the one that
-- is asked for where that lies between them.
pub log_production_timeout_bounds :
    (d : Option ℕ)
    → (5000000000 ≤ log_production_timeout d)
      × (log_production_timeout d ≤ 60000000000)
      × ((n : ℕ) → 5000000000 ≤ n → n ≤ 60000000000 → log_production_timeout (some n) ≡ n)
unfolding log_production_timeout
log_production_timeout_bounds none = (omega arith, omega arith, (λ n h k. ground arith))
log_production_timeout_bounds (some d) = (ground arith, ground arith, (λ n h k. ground arith))
