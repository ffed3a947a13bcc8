-- ===== src/Reaper/Instance.antt =====
-- That there is one reaper at a time, and that a call without an error gives it.
use testcontainers_go.Base.{
  ◌≡◌, refl, sym, ◌∙◌, ap, subst, String, Bool, true, false, Option, none, some, arith, Bool-cases,
  inl, inr, if◌then◌else◌,
}
use testcontainers_go.Errors.{Result, ok, err}
use testcontainers_go.Reaper.{
  Shared, Engine, created_once, create_once, assign_reused, reuse_or_create, search_and_create,
  verified, from_instance, reuse_or_create_reaper, new_reaper, reuse_reaper_container,
  look_up_reaper_container,
}

abbrev is_there : {A : Type 0} → Option A → Bool
is_there none = false
is_there (some a) = true

-- Once the creation was done, there is an instance.
abbrev pub IsSafe : {Reaper : Type 0} → Shared Reaper → Type 0
IsSafe s = s.once_done ≡ true → is_there s.instance ≡ true

-- A result without an error is the instance, and there is one.
abbrev pub IsSound : {Reaper W : Type 0} → Result (Option Reaper) × (Shared Reaper × W) → Type 0
IsSound (err e, (s, w)) = IsSafe s
IsSound (ok none, (s, w)) = true ≡ false
IsSound (ok (some r), (s, w)) = (s.instance ≡ some r) × IsSafe s

module _ {Ctx Container Reaper W : Type 0} (E : Engine Ctx Container Reaper W) where
  undone-IsSafe : (s : Shared Reaper) → s.once_done ≡ false → IsSafe s
  undone-IsSafe s h d = absurd (ground (arith, h, d))

  created-IsSound : (s : Shared Reaper) (r : Result Reaper × W) → IsSound (created_once E s r)
  unfolding created_once
  created-IsSound s (err e, w) = λ d. absurd (ground (arith, d))
  created-IsSound s (ok r, w) = (refl, (λ d. refl))

  create-IsSound :
      (ctx : Ctx) (s : Shared Reaper) (w : W)
      → s.once_done ≡ false
      → IsSound (create_once E ctx s w)
  unfolding create_once
  create-IsSound ctx s w h =
      subst
        (λ b.
          IsSound (if b then (ok s.instance, (s, w)) else created_once E s (new_reaper E ctx w)))
        (sym h) (created-IsSound s (new_reaper E ctx w))

  assigned-IsSound :
      (s : Shared Reaper) (r : Result Reaper × W)
      → s.once_done ≡ false
      → IsSound (assign_reused E s r)
  unfolding assign_reused
  assigned-IsSound s (err e, w) h = undone-IsSafe (record s { instance = none }) h
  assigned-IsSound s (ok r, w) h = (refl, undone-IsSafe (record s { instance = some r }) h)

  found-IsSound :
      (ctx : Ctx) (s : Shared Reaper) (r : Result (Option Container) × W)
      → s.once_done ≡ false
      → IsSound (reuse_or_create E ctx s r)
  unfolding reuse_or_create
  found-IsSound ctx s (err e, w) h = create-IsSound ctx s w h
  found-IsSound ctx s (ok none, w) h = create-IsSound ctx s w h
  found-IsSound ctx s (ok (some c), w) h = assigned-IsSound s (reuse_reaper_container E ctx c w) h

  search-IsSound :
      (b ctx : Ctx) (id : String) (s : Shared Reaper) (w : W)
      → s.once_done ≡ false
      → IsSound (search_and_create E b ctx id s w)
  unfolding search_and_create
  search-IsSound b ctx id s w h = found-IsSound ctx s (look_up_reaper_container E b id w) h

  verified-IsSound :
      (b ctx : Ctx) (id : String) (s : Shared Reaper) (r : Reaper) (o : Result Bool × W)
      → s.instance ≡ some r
      → IsSafe s
      → IsSound (verified E b ctx id s r o)
  unfolding verified
  verified-IsSound b ctx id s r (err e, w) i h = elim (Bool-cases (E.is_not_found e)) [
    | inl x ↦ rw x (search-IsSound b ctx id (record s { once_done = false }) w refl)
    | inr x ↦ rw x h
  ]
  verified-IsSound b ctx id s r (ok true, w) i h = (i, h)
  verified-IsSound b ctx id s r (ok false, w) i h =
      search-IsSound b ctx id (record s { once_done = false }) w refl

  none_undone :
      (s : Shared Reaper) (d : Bool)
      → s.instance ≡ none
      → s.once_done ≡ d
      → IsSafe s
      → s.once_done ≡ false
  none_undone s true i e h = absurd (ground (arith, h e, ap is_there i))
  none_undone s false i e h = e

  from-IsSound :
      (b ctx : Ctx) (id : String) (s : Shared Reaper) (o : Option Reaper) (w : W)
      → s.instance ≡ o
      → IsSafe s
      → IsSound (from_instance E b ctx id s o w)
  unfolding from_instance
  from-IsSound b ctx id s none w i h =
      search-IsSound b ctx id s w (none_undone s s.once_done i refl h)
  from-IsSound b ctx id s (some r) w i h = verified-IsSound b ctx id s r (E.running ctx r w) i h

  pub reuse_or_create_reaper-IsSound :
      (background ctx : Ctx) (session_id : String) (s : Shared Reaper) (w : W)
      → IsSafe s
      → IsSound (reuse_or_create_reaper E background ctx session_id (s, w))
  unfolding reuse_or_create_reaper
  reuse_or_create_reaper-IsSound background ctx session_id s w h =
      from-IsSound background ctx session_id s s.instance w refl h

  -- A reaper that a call of reuseOrCreateReaper returned, from a state as the calls leave it, is
  -- returned by the next call too, with nothing changed but by the look at its state, if its
  -- container runs.
  pub reaper_returned_again :
      (background ctx : Ctx) (session_id : String) (s s' : Shared Reaper) (w w' v : W) (r : Reaper)
      → IsSafe s
      → reuse_or_create_reaper E background ctx session_id (s, w) ≡ (ok (some r), (s', w'))
      → E.running ctx r w' ≡ (ok true, v)
      → reuse_or_create_reaper E background ctx session_id (s', w') ≡ (ok (some r), (s', v))
  unfolding reuse_or_create_reaper from_instance verified
  reaper_returned_again background ctx session_id s s' w w' v r h e u =
      let k = subst IsSound e (reuse_or_create_reaper-IsSound background ctx session_id s w h) in
      ap (λ o. from_instance E background ctx session_id s' o w') k.0
      ∙ ap (verified E background ctx session_id s' r) u
