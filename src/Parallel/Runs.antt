-- ===== src/Parallel/Runs.antt =====
-- The runs of the workers: what they keep, how long they are, and that they do not get stuck.
use testcontainers_go.Base.{
  ℕ, suc, ◌+◌, ◌*◌, ◌≤◌, ◌≡◌, refl, ◌↔◌, ◌∙◌, All, true, none, List, [], ◌∷◌, ◌++◌, length,
  length-append, arith,
}
use testcontainers_go.Errors.{Error, Result, err}
use testcontainers_go.Parallel.{
  Progress, progress, launched, is_over, returned_by, some_failed, Step, take, made, failed, Steps,
  here, next, tasks_size,
}

module _ {Request Container : Type 0} where
  -- The requests, wherever they are.
  abbrev pub accounted : Progress Request Container → ℕ
  accounted (progress waiting busy containers errors) =
      length waiting + length busy + length containers + length errors

  -- The steps that are left at most.
  abbrev pub left : Progress Request Container → ℕ
  left (progress waiting busy containers errors) = 2 * length waiting + length busy

  abbrev pub busy_workers : Progress Request Container → ℕ
  busy_workers (progress waiting busy containers errors) = length busy

module _ {Request Container : Type 0} (Makes : Request → Result Container → Type 0)
    (workers : ℕ) where
  Step-keeps :
      {s t : Progress Request Container}
      → Step Makes workers s t
      → (accounted t ≡ accounted s)
        × (left s ≡ suc (left t))
        × (busy_workers s ≤ workers → busy_workers t ≤ workers)
  Step-keeps (take r {busy = busy} free) = (
    omega (arith, length-append busy (r ∷ [])),
    omega (arith, length-append busy (r ∷ [])),
    λ h. omega (arith, length-append busy (r ∷ [])),
  )
  Step-keeps (made before after r c {cs = cs} m) =
      let a = length-append before after in
      let b = length-append before (r ∷ after) in
      (
        omega (arith, a, b, length-append cs (c ∷ [])),
        omega (arith, a, b),
        λ h. omega (arith, a, b, h),
      )
  Step-keeps (failed before after r e {es = es} m) =
      let a = length-append before after in
      let b = length-append before (r ∷ after) in
      (
        omega (arith, a, b, length-append es ((r, e) ∷ [])),
        omega (arith, a, b),
        λ h. omega (arith, a, b, h),
      )

  Steps-keep :
      {n : ℕ} {s t : Progress Request Container}
      → Steps Makes workers n s t
      → (accounted t ≡ accounted s)
        × (left s ≡ n + left t)
        × (busy_workers s ≤ workers → busy_workers t ≤ workers)
  Steps-keep here = (refl, omega arith, λ h. h)
  Steps-keep (next step rest) =
      let (a, b, c) = Step-keeps step in
      let (a', b', c') = Steps-keep rest in (a' ∙ a, omega (arith, b, b'), λ h. c' (c h))

  -- The errors collected are errors that `GenericContainer` returned for their requests.
  abbrev pub IsReported : Progress Request Container → Type 0
  IsReported (progress waiting busy containers errors) = All (λ p. Makes p.0 (err p.1)) errors

  All-snoc :
      (es : List (Request × Error)) (p : Request × Error)
      → All (λ q. Makes q.0 (err q.1)) es
      → Makes p.0 (err p.1)
      → All (λ q. Makes q.0 (err q.1)) (es ++ p ∷ [])
  All-snoc [] p h m = (m, tt)
  All-snoc (e ∷ es) p (q, h) m = (q, All-snoc es p h m)

  Step-IsReported :
      {s t : Progress Request Container} → Step Makes workers s t → IsReported s → IsReported t
  Step-IsReported (take r free) h = h
  Step-IsReported (made before after r c m) h = h
  Step-IsReported (failed before after r e {es = es} m) h = All-snoc es (r, e) h m

  Steps-IsReported :
      {n : ℕ} {s t : Progress Request Container}
      → Steps Makes workers n s t
      → IsReported s
      → IsReported t
  Steps-IsReported here h = h
  Steps-IsReported (next step rest) h = Steps-IsReported rest (Step-IsReported step h)

  over_left : (t : Progress Request Container) → is_over t ≡ true → left t ≡ 0
  unfolding is_over
  over_left (progress waiting busy containers errors) h = ground arith

  pub parallel_accounted :
      (reqs : List Request) (n : ℕ) (cs : List Container) (es : List (Request × Error))
      (ws bs : List Request)
      → Steps Makes workers n (launched reqs) (progress ws bs cs es)
      → is_over (progress ws bs cs es) ≡ true
      → (n ≡ 2 * length reqs)
        × (length cs + length es ≡ length reqs)
        × All (λ p. Makes p.0 (err p.1)) es
  unfolding launched is_over
  parallel_accounted reqs n cs es ws bs run over =
      let (a, b, c) = Steps-keep run in
      let z = over_left (progress ws bs cs es) over in
      (omega (arith, b, z), omega (arith, a, b, z), Steps-IsReported run tt)

  -- At no time of a run are more workers busy than were launched.
  pub parallel_bounded :
      (reqs : List Request) (n : ℕ) (t : Progress Request Container)
      → Steps Makes workers n (launched reqs) t
      → busy_workers t ≤ workers
  unfolding launched
  parallel_bounded reqs n t run = let (a, b, c) = Steps-keep run in c (omega arith)

-- When the workers are done, no error is returned exactly when there are as many containers as
-- requests.
pub returned_all :
    {Request Container : Type 0} (Makes : Request → Result Container → Type 0) (reqs : List Request)
    (count n : ℕ) (t : Progress Request Container)
    → Steps Makes (tasks_size count (length reqs)) n (launched reqs) t
    → is_over t ≡ true
    → ((returned_by t).1 ≡ none) ↔ (length (returned_by t).0 ≡ length reqs)
unfolding returned_by some_failed
returned_all Makes reqs count n (progress ws bs cs []) run over =
    let (a, b, c) = parallel_accounted Makes _ reqs n cs [] ws bs run over in
    (λ h. omega (arith, b), λ h. refl)
returned_all Makes reqs count n (progress ws bs cs (e ∷ es)) run over =
    let (a, b, c) = parallel_accounted Makes _ reqs n cs (e ∷ es) ws bs run over in
    (λ h. cc, λ h. absurd (omega (arith, b, h)))
