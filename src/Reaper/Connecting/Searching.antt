-- ===== src/Reaper/Connecting/Searching.antt =====
-- That the search for a reaper after a conflict of names ends.
use testcontainers_go.Base.{
  ℕ, zero, suc, ◌+◌, ◌*◌, ◌≤◌, ◌≡◌, ◌⊎◌, inl, inr, true, Option, none, some, ltb, arith, Bool-cases,
}
use testcontainers_go.Errors.{Result}
use testcontainers_go.Reaper.Connecting.{Search, timeout, cooldown, is_found, search}

module _ {Container W : Type 0} (L : Search Container W) where
  -- A look-up does not turn the clock back, and a pause lets its time pass.
  pub record IsPaused : Type 0 where
    pub look_up_grows : (w : W) → L.since w ≤ L.since (L.look_up w).1
    pub pause_grows : (d : ℕ) (w : W) → L.since w + d ≤ L.since (L.pause d w)

  -- What the search returns is found, or it is out of time.
  abbrev pub Ended : Option (Result (Option Container) × W) → Type 0
  Ended none = ⊥
  Ended (some (r, w)) = (is_found L r ≡ true) ⊎ (timeout ≤ L.since w)

  search-ends :
      (p : IsPaused) (n : ℕ) (last : Result (Option Container)) (w : W)
      → timeout ≤ L.since w + n * cooldown
      → Ended (search L (suc n) last w)
  unfolding search
  search-ends p zero last w h = elim (Bool-cases (ltb (L.since w) timeout)) [
    | inl t ↦ absurd (ground (arith, t, h))
    | inr t ↦ rw t (inr (ground (arith, t)))
  ]
  search-ends p (suc n) last w h = elim (Bool-cases (ltb (L.since w) timeout)) [
    | inl t ↦ elim (Bool-cases (is_found L (L.look_up w).0)) [
      | inl f ↦ rw (t, f) (inl f)
      | inr f ↦
          rw (t, f)
            (search-ends p n (L.look_up w).0 (L.pause cooldown (L.look_up w).1)
              (omega (arith, h, p.look_up_grows w, p.pause_grows cooldown (L.look_up w).1)))
    ]
    | inr t ↦ rw t (inr (ground (arith, t)))
  ]

  -- Where each pause lasts as long as the retries let it, a search that may pause 51 times ends.
  pub search-within :
      (p : IsPaused) (last : Result (Option Container)) (w : W) → Ended (search L 51 last w)
  search-within p last w = search-ends p 50 last w (omega arith)
