-- ===== src/Wait/Poll.antt =====
-- The `for { select { … } }` loops of the strategies: a body that says whether to go round again,
-- run on fuel, and the relation that says what the loop does without fuel.
use testcontainers_go.Base.{
  ℕ, zero, suc, ◌+◌, ◌*◌, ◌≤◌, ◌<◌, ◌≡◌, refl, ◌≢◌, Option, none, some, arith, M,
}
use testcontainers_go.Errors.{Error}

-- `continue`, or `return err`.
pub data Step : Type 0 where
  again : Step
  stop : Option Error → Step

-- `case <-ctx.Done(): return ctx.Err()`, or the other case.
unfoldable pub on_tick : {W : Type 0} → Option Error → M W Step → M W Step
on_tick (some e) k w = (stop (some e), w)
on_tick none k w = k w

unfoldable pub resume :
    {W : Type 0} → Step × W → M W (Option (Option Error)) → Option (Option Error) × W
resume (again, w) rest = rest w
resume (stop r, w) rest = (some r, w)

-- The loop, with a bound on its rounds; `none` says that they did not suffice.
unfoldable pub poll : {W : Type 0} → ℕ → M W Step → M W (Option (Option Error))
unfolding resume
poll zero body w = (none, w)
poll (suc n) body w = resume (body w) (poll n body)

-- What the loop returns, with no bound: rounds that go on, and one that stops.
pub data Returns {W : Type 0} (body : M W Step) : W → Option Error → W → Type 0 where
  last : (w : W) {w' : W} {r : Option Error} → body w ≡ (stop r, w') → Returns body w r w'
  round :
      (w : W) {v w' : W} {r : Option Error}
      → body w ≡ (again, v)
      → Returns body v r w'
      → Returns body w r w'

-- The fuel that a run needs.
pub rounds : {W : Type 0} {body : M W Step} {w w' : W} {r : Option Error} → Returns body w r w' → ℕ
rounds (last w e) = 1
rounds (round w e rest) = suc (rounds rest)

-- A round that goes on, or that returns no error, has seen its timer fire.
pub tick_again :
    {W : Type 0} (k : M W Step) {w v : W} (e : Option Error)
    → on_tick e k w ≡ (again, v)
    → (e ≡ none) × (k w ≡ (again, v))
unfolding on_tick
tick_again k none h = (refl, h)
tick_again k (some e) h = cc

pub tick_stop :
    {W : Type 0} (k : M W Step) {w v : W} (e : Option Error)
    → on_tick e k w ≡ (stop none, v)
    → (e ≡ none) × (k w ≡ (stop none, v))
unfolding on_tick
tick_stop k none h = (refl, h)
tick_stop k (some e) h = cc

pub rounds_pos :
    {W : Type 0} {body : M W Step} {w w' : W} {r : Option Error} (run : Returns body w r w')
    → 0 < rounds run
unfolding rounds
rounds_pos (last w e) = omega arith
rounds_pos (round w e rest) = omega arith

module _ {W : Type 0} (body : M W Step) where
  one_round :
      (w w' : W) (r : Option Error) (s : Step × W) (rest : M W (Option (Option Error)))
      → body w ≡ s
      → resume s rest ≡ (some r, w')
      → ((v : W) → rest v ≡ (some r, w') → Returns body v r w')
      → Returns body w r w'
  unfolding resume
  one_round w w' r (again, v) rest e h later = round w e (later v h)
  one_round w w' r (stop q, v) rest e h later = last w (ground arith)

  -- The loop on fuel returns what the relation says.
  pub poll_sound :
      (n : ℕ) (w w' : W) (r : Option Error) → poll n body w ≡ (some r, w') → Returns body w r w'
  unfolding poll
  poll_sound zero w w' r h = cc
  poll_sound (suc n) w w' r h =
      one_round w w' r (body w) (poll n body) refl h (λ v k. poll_sound n v w' r k)

  -- Any fuel from the run's own length on gives that result.
  pub poll_complete :
      (n : ℕ) {w w' : W} {r : Option Error} (run : Returns body w r w')
      → rounds run ≤ n
      → poll n body w ≡ (some r, w')
  unfolding poll rounds
  poll_complete zero run h = absurd (omega (arith, rounds_pos run))
  poll_complete (suc n) (last w e) h = rw e
  poll_complete (suc n) (round w e rest) h = rw e (poll_complete n rest (omega arith))

  step_within :
      (n : ℕ) (w : W) (s : Step × W)
      → body w ≡ s
      → ((v : W) → body w ≡ (again, v) → (poll n body v).0 ≢ none)
      → (resume s (poll n body)).0 ≢ none
  unfolding resume
  step_within n w (again, v) e h = h v e
  step_within n w (stop r, v) e h = λ k. cc

  -- If each round that goes on was begun before the deadline `d` and lets `p` pass, then `n + 1`
  -- rounds suffice whenever the deadline is at most `n` intervals away.
  pub poll_within :
      (now : W → ℕ) (d p n : ℕ) (w : W)
      → ((u v : W) → body u ≡ (again, v) → (now u < d) × (now u + p ≤ now v))
      → d ≤ now w + n * p
      → (poll (suc n) body w).0 ≢ none
  unfolding poll
  poll_within now d p zero w turn h =
      step_within zero w (body w) refl (λ v e. absurd (omega (arith, turn w v e)))
  poll_within now d p (suc n) w turn h =
      step_within (suc n) w (body w) refl
        (λ v e. poll_within now d p n v turn (omega (arith, turn w v e)))
