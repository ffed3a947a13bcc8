-- ===== src/Clock.antt =====
-- Contexts with deadlines, and the passing of time as the Go runtime gives it.
-- Durations are whole nanoseconds and not negative; a context is its deadline, and its caller's
-- cancellation is a fact about the world.
pub mod Laws
use testcontainers_go.Base.{
  ℕ, ◌+◌, ◌≤◌, ◌<◌, ◌≡◌, String, Bool, Option, none, some, leb, if◌then◌else◌, M,
}
use testcontainers_go.Errors.{Error, new}

pub record Ctx : Type 0 where
  pub deadline : Option ℕ

-- `select_after` is `select { case <-ctx.Done(): … case <-time.After(d): … }`: `none` says that
-- the timer fired, and an error is `ctx.Err()`. `select_tick` is the same with a running ticker,
-- given by its period, in place of the timer.
pub record Clock (W : Type 0) : Type 0 where
  pub now : W → ℕ
  pub canceled : W → Bool
  pub sleep : ℕ → W → W
  pub select_after : Ctx → ℕ → M W (Option Error)
  pub select_tick : Ctx → ℕ → M W (Option Error)

abbrev pub deadline_exceeded : String
deadline_exceeded = "context deadline exceeded"

abbrev pub context_canceled : String
context_canceled = "context canceled"

abbrev pub background : Ctx
background = record { deadline = none }

unfoldable pub deadline_err : Option ℕ → ℕ → Option Error
deadline_err none t = none
deadline_err (some d) t = if leb d t then some (new deadline_exceeded) else none

unfoldable pub earlier : Option ℕ → ℕ → ℕ
earlier none t = t
earlier (some d) t = if leb d t then d else t

module _ {W : Type 0} (C : Clock W) where
  -- `ctx.Err()`; `<-ctx.Done()` is ready exactly when it is not nil.
  unfoldable pub ctx_err : Ctx → W → Option Error
  unfolding deadline_err
  ctx_err ctx w =
      if C.canceled w then some (new context_canceled) else deadline_err ctx.deadline (C.now w)

  -- `context.WithTimeout(ctx, d)`: the earlier of the parent's deadline and now + d.
  unfoldable pub with_timeout : Ctx → ℕ → W → Ctx
  unfolding earlier
  with_timeout ctx d w = record { deadline = some (earlier ctx.deadline (C.now w + d)) }

  -- What the runtime documents of its timers: a timer that fires has let its duration pass and was
  -- waited for by a context that was open, and a context reported as done is done.
  pub record IsClock : Type 0 where
    pub sleep_grows : (d : ℕ) (w : W) → C.now w + d ≤ C.now (C.sleep d w)
    pub tick_open :
        (ctx : Ctx) (d : ℕ) (w : W)
        → 0 < d
        → (C.select_after ctx d w).0 ≡ none
        → ctx_err ctx w ≡ none
    pub tick_grows :
        (ctx : Ctx) (d : ℕ) (w : W)
        → (C.select_after ctx d w).0 ≡ none
        → C.now w + d ≤ C.now (C.select_after ctx d w).1
    pub done_err :
        (ctx : Ctx) (d : ℕ) (w : W) (e : Error)
        → (C.select_after ctx d w).0 ≡ some e
        → ctx_err ctx (C.select_after ctx d w).1 ≡ some e
