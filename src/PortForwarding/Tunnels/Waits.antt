-- ===== src/PortForwarding/Tunnels/Waits.antt =====
-- When exposeHostPort returns, and what.
use testcontainers_go.Base.{
  ℕ, suc, ◌+◌, ◌*◌, ◌≤◌, ◌≡◌, ◌↔◌, ◌⊎◌, inl, inr, refl, sym, ap, ◌∙◌, true, ◌&&◌, Option, none,
  some, List, [], ◌∷◌, ◌++◌, map, length, all, is_none, arith,
}
use testcontainers_go.Errors.{Error, join}
use testcontainers_go.PortForwarding.Tunnels.{
  Forwarder, dialing, offering, heard, Exposure, exposure, launched, Step, connect, receive, Steps,
  here, next, remaining,
}

-- The steps that are left at most; a forwarder that has been heard allows none.
abbrev weight : Forwarder → ℕ
weight dialing = 2
weight (offering o) = 1
weight heard = 0

abbrev weights : List Forwarder → ℕ
weights [] = 0
weights (f ∷ fs) = weight f + weights fs

abbrev left : Exposure → ℕ
left (exposure rs e fs) = weights fs

weights-append : (fs gs : List Forwarder) → weights (fs ++ gs) ≡ weights fs + weights gs
weights-append [] gs = omega arith
weights-append (f ∷ fs) gs = omega (arith, weights-append fs gs)

-- None was heard before.
abbrev IsFresh : List Forwarder → Type 0
IsFresh [] = Unit
IsFresh (dialing ∷ fs) = IsFresh fs
IsFresh (offering o ∷ fs) = IsFresh fs
IsFresh (heard ∷ fs) = ⊥

IsFresh-connect :
    (before after : List Forwarder) (o : Option Error)
    → IsFresh (before ++ dialing ∷ after)
    → IsFresh (before ++ offering o ∷ after)
IsFresh-connect [] after o h = h
IsFresh-connect (dialing ∷ before) after o h = IsFresh-connect before after o h
IsFresh-connect (offering p ∷ before) after o h = IsFresh-connect before after o h
IsFresh-connect (heard ∷ before) after o h = absurd h

-- The error so far is none exactly when nothing that was received is an error, and none is heard.
abbrev IsSound : Exposure → Type 0
IsSound (exposure rs e fs) = IsFresh fs × (is_none e ≡ all is_none rs)

all-snoc :
    (rs : List (Option Error)) (o : Option Error)
    → all is_none (rs ++ o ∷ []) ≡ (all is_none rs && is_none o)
all-snoc [] o = ground arith
all-snoc (r ∷ rs) o = ground (arith, all-snoc rs o)

joined_two : (e o : Option Error) → is_none (join (e ∷ o ∷ [])) ≡ (is_none e && is_none o)
unfolding join
joined_two none none = refl
joined_two none (some b) = refl
joined_two (some a) none = refl
joined_two (some a) (some b) = refl

Step-keeps : {s t : Exposure} → Step s t → IsSound s → IsSound t × (suc (left t) ≡ left s)
Step-keeps (connect before after o) (f, h) = (
  (IsFresh-connect before after o f, h),
  omega
      (arith, weights-append before (dialing ∷ after), weights-append before (offering o ∷ after)),
)
Step-keeps (receive o {rs = rs} {e = e}) (f, h) =
    ((f, joined_two e o ∙ ap (λ b. b && is_none o) h ∙ sym (all-snoc rs o)), omega arith)

Steps-keep : {n : ℕ} {s t : Exposure} → Steps n s t → IsSound s → IsSound t × (n + left t ≡ left s)
Steps-keep here h = (h, omega arith)
Steps-keep (next step rest) h =
    let (i, l) = Step-keeps step h in let (j, k) = Steps-keep rest i in (j, omega (arith, l, k))

-- The loop ends, or there is a step.
ended_or : (t : Exposure) → IsSound t → (remaining t ≡ []) ⊎ ((u : Exposure) × Step t u)
unfolding remaining
ended_or (exposure rs e []) h = inl refl
ended_or (exposure rs e (dialing ∷ fs)) h = inr (_, connect [] fs none)
ended_or (exposure rs e (offering o ∷ fs)) h = inr (_, receive o)
ended_or (exposure rs e (heard ∷ fs)) h = absurd h.0

dialing-IsFresh :
    (ports : List ℕ)
    → IsFresh (map (λ p. dialing) ports) × (weights (map (λ p. dialing) ports) ≡ 2 * length ports)
dialing-IsFresh [] = (tt, refl)
dialing-IsFresh (p ∷ ports) = let (f, h) = dialing-IsFresh ports in (f, omega (arith, h))

none-of : (e : Option Error) → is_none e ≡ true → e ≡ none
none-of none h = refl
none-of (some e) h = cc

-- A first exposure of ports takes at most two steps for each port, can take a step where its loop
-- has not ended, and its error is none exactly where no forwarder has sent an error.
pub expose-first :
    (ports : List ℕ) {n : ℕ} {rs : List (Option Error)} {e : Option Error} {fs : List Forwarder}
    → Steps n (launched [] ports) (exposure rs e fs)
    → (n ≤ 2 * length ports)
      × ((fs ≡ []) ⊎ ((u : Exposure) × Step (exposure rs e fs) u))
      × ((e ≡ none) ↔ (all is_none rs ≡ true))
unfolding launched remaining
expose-first ports {rs = rs} {e = e} {fs = fs} r =
    let (f, w) = dialing-IsFresh ports in
    let ((g, h), l) = Steps-keep r (f, refl) in
    (
      omega (arith, w, l),
      ended_or (exposure rs e fs) (g, h),
      (λ p. sym h ∙ ap is_none p, λ q. none-of e (h ∙ q)),
    )
