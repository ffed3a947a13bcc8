-- ===== src/Logs/Production/Stopping.antt =====
-- How a production of logs is stopped.
use testcontainers_go.Base.{
  ℕ, ◌≡◌, ◌↔◌, refl, Bool, true, false, ◌||◌, Option, none, some, if◌then◌else◌, arith,
}
use testcontainers_go.Errors.{Error, is}
use testcontainers_go.Clock.{deadline_exceeded, context_canceled}
use testcontainers_go.Logs.Production.{
  Phase, asking, polling, reading, finished, Caller, calling, waiting, returned, Production,
  production, Step, Steps, ask_fails, asks, polls, stops, reads, resets, quits, sends, receives,
  observes, here, next, stop_result, started, stop_again,
}

abbrev pub IsUseful : Option Error → Type 0
IsUseful none = Unit
IsUseful (some e) = (is e deadline_exceeded ≡ false) × (is e context_canceled ≡ false)

IsUseful-unless :
    (a b : Bool) (e : Error)
    → is e deadline_exceeded ≡ a
    → is e context_canceled ≡ b
    → IsUseful (if a || b then none else some e)
IsUseful-unless true b e h k = tt
IsUseful-unless false true e h k = tt
IsUseful-unless false false e h k = (h, k)

stop_result-IsUseful : (e : Option (Option Error)) → IsUseful (stop_result e)
unfolding stop_result
stop_result-IsUseful none = tt
stop_result-IsUseful (some none) = tt
stop_result-IsUseful (some (some e)) =
    IsUseful-unless (is e deadline_exceeded) (is e context_canceled) e refl refl

abbrev pub active : Phase → Bool
active asking = true
active polling = true
active reading = true
active finished = false

-- While the goroutine runs, its channel has no error, and a stop is there exactly after the send.
abbrev pub CallerFits : Bool → Bool → Option (Option Error) → Caller → Type 0
CallerFits true s e calling = (e ≡ none) × (s ≡ false)
CallerFits true s e waiting = (e ≡ none) × (s ≡ true)
CallerFits true s e (returned r) = true ≡ false
CallerFits false s e calling = s ≡ false
CallerFits false s e waiting = Unit
CallerFits false s e (returned r) = (e ≡ none) × IsUseful r

abbrev pub IsSafe : Production → Type 0
IsSafe (production p s e c) = CallerFits (active p) s e c

CallerFits-end :
    (s : Bool) (e x : Option (Option Error)) (c : Caller)
    → CallerFits true s e c
    → CallerFits false s x c
CallerFits-end s e x calling (h, k) = k
CallerFits-end s e x waiting h = tt
CallerFits-end s e x (returned r) h = absurd (ground (arith, h))

CallerFits-stopped :
    (e x : Option (Option Error)) (c : Caller)
    → CallerFits true true e c
    → CallerFits false false x c
CallerFits-stopped e x calling h = refl
CallerFits-stopped e x waiting h = tt
CallerFits-stopped e x (returned r) h = absurd (ground (arith, h))

CallerFits-sent :
    (b : Bool) (e : Option (Option Error))
    → CallerFits b false e calling
    → CallerFits b true e waiting
CallerFits-sent true e (h, k) = (h, refl)
CallerFits-sent false e h = tt

CallerFits-observed :
    (b s : Bool) (e : Option (Option Error)) (c : Caller)
    → CallerFits b s e c
    → CallerFits b s none c
CallerFits-observed true s e calling (h, k) = (refl, k)
CallerFits-observed true s e waiting (h, k) = (refl, k)
CallerFits-observed true s e (returned r) h = h
CallerFits-observed false s e calling h = h
CallerFits-observed false s e waiting h = h
CallerFits-observed false s e (returned r) (h, k) = (refl, k)

pub Step-IsSafe : {s t : Production} → Step s t → IsSafe s → IsSafe t
Step-IsSafe (ask_fails x {c = c}) h = CallerFits-end _ _ _ c h
Step-IsSafe (asks) h = h
Step-IsSafe (polls) h = h
Step-IsSafe (stops x {c = c}) h = CallerFits-stopped _ _ c h
Step-IsSafe (reads) h = h
Step-IsSafe (resets) h = h
Step-IsSafe (quits {c = c}) h = CallerFits-end _ _ _ c h
Step-IsSafe (sends {p = p}) h = CallerFits-sent (active p) _ h
Step-IsSafe (receives {e = e}) h = (refl, stop_result-IsUseful e)
Step-IsSafe (observes {p = p} {c = c}) h = CallerFits-observed (active p) _ _ c h

pub Steps-IsSafe : {n : ℕ} {s t : Production} → Steps n s t → IsSafe s → IsSafe t
Steps-IsSafe here h = h
Steps-IsSafe (next r st) h = Step-IsSafe st (Steps-IsSafe r h)

IsSafe-returned :
    (p : Phase) (s : Bool) (e : Option (Option Error)) (r : Option Error)
    → IsSafe (production p s e (returned r))
    → (p ≡ finished) × (e ≡ none) × IsUseful r
IsSafe-returned asking s e r h = absurd (ground (arith, h))
IsSafe-returned polling s e r h = absurd (ground (arith, h))
IsSafe-returned reading s e r h = absurd (ground (arith, h))
IsSafe-returned finished s e r (h, k) = (refl, h, k)

IsSafe-calling :
    (p : Phase) (s : Bool) (e : Option (Option Error))
    → IsSafe (production p s e calling)
    → s ≡ false
IsSafe-calling asking s e h = h.1
IsSafe-calling polling s e h = h.1
IsSafe-calling reading s e h = h.1
IsSafe-calling finished s e h = h

pub Started-IsSafe : {n : ℕ} {s : Production} → Steps n started s → IsSafe s
Started-IsSafe h = Steps-IsSafe h (refl, refl)

-- Where a stop of a production has returned, the goroutine is over, and what the stop returned is
-- no error of a context that was canceled or whose deadline was exceeded.
pub stop_returned-IsUseful :
    {n : ℕ} {p : Phase} {s : Bool} {e : Option (Option Error)} {r : Option Error}
    → Steps n started (production p s e (returned r))
    → (p ≡ finished) × IsUseful r
stop_returned-IsUseful {p = p} h = let k = IsSafe-returned p _ _ _ (Started-IsSafe h) in (k.0, k.2)

blocked : {t : Production} → ¬ Step (production finished true none calling) t
blocked s = elim s [ ]

again_iff :
    (s : Bool) → ((t : Production) × Step (production finished s none calling) t) ↔ (s ≡ false)
again_iff true = ((λ x. absurd (blocked x.1)), (λ h. absurd (ground (arith, h))))
again_iff false = ((λ x. refl), (λ h. (production finished true none waiting, sends)))

-- After a stop of a production that has returned, another stop can take a step exactly where the
-- first stop is no longer in the channel: it blocks for ever where the goroutine had ended by
-- itself.
pub stop_again_blocks :
    {n : ℕ} {p : Phase} {s : Bool} {e : Option (Option Error)} {r : Option Error}
    → Steps n started (production p s e (returned r))
    → ((t : Production) × Step (stop_again (production p s e (returned r))) t) ↔ (s ≡ false)
unfolding stop_again
stop_again_blocks {p = p} {s = s} h =
    let k = IsSafe-returned p _ _ _ (Started-IsSafe h) in rw (k.0, k.1) (again_iff s)

-- The first call of stopLogProduction.
asks_on :
    (p : Phase) (s : Bool) (e : Option (Option Error))
    → IsSafe (production p s e waiting)
    → (t : Production) × Step (production p s e waiting) t
asks_on asking s e h = (_, asks)
asks_on polling s e (h, k) = rw (h, k) (_, stops none)
asks_on reading s e h = (_, reads)
asks_on finished s e h = (_, receives)

-- After the send of the stop, a production whose stop has not returned can take a step.
pub stop_goes_on :
    {n : ℕ} {p : Phase} {s : Bool} {e : Option (Option Error)}
    → Steps n started (production p s e waiting)
    → (t : Production) × Step (production p s e waiting) t
stop_goes_on {p = p} h = asks_on p _ _ (Started-IsSafe h)
