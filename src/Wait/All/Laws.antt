-- ===== src/Wait/All/Laws.antt =====
-- What a group of strategies adds to its members.
use testcontainers_go.Base.{
  ℕ, ◌+◌, ◌≡◌, refl, Bool, false, Option, none, some, List, [], ◌∷◌, map, leb, le→leb,
  if◌then◌else◌, M, ap, fun_ext,
}
use testcontainers_go.Errors.{Error, new}
use testcontainers_go.Clock.{Ctx, Clock, with_timeout}
use testcontainers_go.Clock.Laws.{EndsBy, with_timeout-EndsBy, with_timeout-keeps}
use testcontainers_go.Wait.All.{
  Strategy, MultiStrategy, strategy_ctx, next_strategy, run_all, run_some, multi_wait,
}

-- Every strategy returned in turn with no error, each from where the one before it left the world.
pub data AllReady {W : Type 0} (C : Clock W) (timeout : Option ℕ) (ctx : Ctx)
    : List (Strategy W) → W → W → Type 0 where
  done : (w : W) → AllReady C timeout ctx [] w w
  ready :
      (s : Strategy W) {ss : List (Strategy W)} {w v w' : W}
      → s.wait (strategy_ctx C timeout s.own_timeout ctx w) w ≡ (some none, v)
      → AllReady C timeout ctx ss v w'
      → AllReady C timeout ctx (s ∷ ss) w w'

module _ {W : Type 0} (C : Clock W) (timeout : Option ℕ) (ctx : Ctx) where
  one_ready :
      (s : Strategy W) (ss : List (Strategy W)) (w w' : W) (r : Option (Option Error) × W)
      (rest : M W (Option (Option Error)))
      → s.wait (strategy_ctx C timeout s.own_timeout ctx w) w ≡ r
      → next_strategy C r rest ≡ (some none, w')
      → ((v : W) → rest v ≡ (some none, w') → AllReady C timeout ctx ss v w')
      → AllReady C timeout ctx (s ∷ ss) w w'
  unfolding next_strategy
  one_ready s ss w w' (none, v) rest e h later = cc
  one_ready s ss w w' (some (some x), v) rest e h later = cc
  one_ready s ss w w' (some none, v) rest e h later = ready s e (later v h)

  nothing_ready : (w w' : W) → w ≡ w' → AllReady C timeout ctx [] w w'
  nothing_ready w w' e = rw (← e) (done w)

  pub run_all-AllReady :
      (ss : List (Strategy W)) (w w' : W)
      → run_all C timeout ss ctx w ≡ (some none, w')
      → AllReady C timeout ctx ss w w'
  unfolding run_all
  run_all-AllReady [] w w' h = nothing_ready w w' (ap (λ s. s.1) h)
  run_all-AllReady (s ∷ ss) w w' h =
      one_ready s ss w w' _ (run_all C timeout ss ctx) refl h (λ v k. run_all-AllReady ss v w' k)

  pub AllReady-run_all :
      {ss : List (Strategy W)} {w w' : W}
      → AllReady C timeout ctx ss w w'
      → run_all C timeout ss ctx w ≡ (some none, w')
  unfolding run_all next_strategy
  AllReady-run_all (done w) = refl
  AllReady-run_all (ready s e rest) = rw e (AllReady-run_all rest)

-- The strategy, but failing where its context may last beyond the time `t`.
abbrev ends_by : Option ℕ → ℕ → Bool
ends_by none t = false
ends_by (some d) t = leb d t

abbrev pub clipped : {W : Type 0} → ℕ → Strategy W → Strategy W
clipped t s = record s {
  wait = λ ctx w.
      if ends_by ctx.deadline t then s.wait ctx w else (some (some (new "late context")), w);
}

module _ {W : Type 0} (C : Clock W) where
  strategy_ctx-EndsBy :
      (timeout : Option ℕ) (own : Option (Option ℕ)) (ctx : Ctx) (t : ℕ) (w : W)
      → EndsBy C ctx t
      → EndsBy C (strategy_ctx C timeout own ctx w) t
  unfolding strategy_ctx
  strategy_ctx-EndsBy (some d) (some none) ctx t w h = with_timeout-keeps C ctx d t w h
  strategy_ctx-EndsBy (some d) (some (some e)) ctx t w h = h
  strategy_ctx-EndsBy (some d) none ctx t w h = h
  strategy_ctx-EndsBy none own ctx t w h = h

  -- At a context that ends in time the clipped strategy is the strategy.
  clipped_wait :
      (t : ℕ) (s : Strategy W) (ctx : Ctx) (w : W)
      → EndsBy C ctx t
      → (clipped t s).wait ctx w ≡ s.wait ctx w
  clipped_wait t s ctx w (d, e, le) = rw e (rw (le→leb d t le))

  run_all-clipped :
      (timeout : Option ℕ) (ss : List (Strategy W)) (ctx : Ctx) (t : ℕ) (w : W)
      → EndsBy C ctx t
      → run_all C timeout (map (clipped t) ss) ctx w ≡ run_all C timeout ss ctx w
  unfolding run_all
  run_all-clipped timeout [] ctx t w h = refl
  run_all-clipped timeout (s ∷ ss) ctx t w h =
      rw
        (clipped_wait t s (strategy_ctx C timeout s.own_timeout ctx w) w
          (strategy_ctx-EndsBy timeout s.own_timeout ctx t w h))
        (ap (next_strategy C _) (fun_ext λ v. run_all-clipped timeout ss ctx t v h))

-- A group with a deadline lets none of its strategies wait beyond it: replacing each strategy by
-- one that fails where its context has no end, or one later than the group's start plus the
-- deadline, makes no difference.
pub multi_wait-clipped :
    {W : Type 0} (C : Clock W) (ms : MultiStrategy W) (ctx : Ctx) (w : W) (d : ℕ)
    → ms.deadline ≡ some d
    → multi_wait C (record ms { strategies = map (clipped (C.now w + d)) ms.strategies }) ctx w
      ≡ multi_wait C ms ctx w
unfolding multi_wait
multi_wait-clipped C ms ctx w d e = rw e (clip ms.strategies)
  where
    clip :
        (ss : List (Strategy _))
        → run_some C ms (map (clipped (C.now w + d)) ss) (with_timeout C ctx d w) w
          ≡ run_some C ms ss (with_timeout C ctx d w) w
    clip [] = refl
    clip (s ∷ ss) =
        run_all-clipped C ms.timeout (s ∷ ss) (with_timeout C ctx d w) (C.now w + d) w
          (with_timeout-EndsBy C ctx d w)
