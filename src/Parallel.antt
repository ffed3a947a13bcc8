-- ===== src/Parallel.antt =====
-- parallel.go: the workers that make containers at once, as steps of their shared state.
-- A send on the unbuffered channels of results is one step with the receipt of the collector.
-- `Makes r o` says that `GenericContainer` may return `o` for the request `r`.
pub mod Runs
use testcontainers_go.Base.{
  ℕ, suc, ◌<◌, String, Bool, Option, none, some, List, [], ◌∷◌, ◌++◌, length, if◌then◌else◌, ltb,
  ◌==◌, ◌&&◌,
}
use testcontainers_go.Errors.{Error, Result, ok, err}

abbrev pub default_workers_count : ℕ
default_workers_count = 8

-- The requests that no worker has taken, those that a worker is at, and what was collected.
pub data Progress (Request Container : Type 0) : Type 0 where
  progress :
      List Request
      → List Request
      → List Container
      → List (Request × Error)
      → Progress Request Container

-- `tasksChanSize`, which is also the number of workers.
unfoldable pub tasks_size : ℕ → ℕ → ℕ
tasks_size workers_count requests =
    let count = if workers_count == 0 then default_workers_count else workers_count in
    if ltb requests count then requests else count

unfoldable pub some_failed :
    {Request : Type 0} → List (Request × Error) → Option (List (Request × Error))
some_failed [] = none
some_failed (e ∷ es) = some (e ∷ es)

module _ {Request Container : Type 0} where
  unfoldable pub launched : List Request → Progress Request Container
  launched reqs = progress reqs [] [] []

  -- `wg.Wait()` is over: the channel of requests is closed and empty, and no worker is busy.
  unfoldable pub is_over : Progress Request Container → Bool
  is_over (progress waiting busy containers errors) = length waiting == 0 && length busy == 0

  -- What `ParallelContainers` returns in the end.
  unfoldable pub returned_by :
      Progress Request Container → List Container × Option (List (Request × Error))
  unfolding some_failed
  returned_by (progress waiting busy containers errors) = (containers, some_failed errors)

module _ {Request Container : Type 0} (Makes : Request → Result Container → Type 0)
    (workers : ℕ) where
  -- A free worker takes the next request; a worker's container or error is collected.
  pub data Step : Progress Request Container → Progress Request Container → Type 0 where
    take :
        (r : Request) {rs busy : List Request} {cs : List Container} {es : List (Request × Error)}
        → length busy < workers
        → Step (progress (r ∷ rs) busy cs es) (progress rs (busy ++ r ∷ []) cs es)
    made :
        (before after : List Request) (r : Request) (c : Container) {rs : List Request}
        {cs : List Container} {es : List (Request × Error)}
        → Makes r (ok c)
        → Step
            (progress rs (before ++ r ∷ after) cs es)
            (progress rs (before ++ after) (cs ++ c ∷ []) es)
    failed :
        (before after : List Request) (r : Request) (e : Error) {rs : List Request}
        {cs : List Container} {es : List (Request × Error)}
        → Makes r (err e)
        → Step
            (progress rs (before ++ r ∷ after) cs es)
            (progress rs (before ++ after) cs (es ++ (r, e) ∷ []))

  -- So many steps.
  pub data Steps : ℕ → Progress Request Container → Progress Request Container → Type 0 where
    here : {s : Progress Request Container} → Steps 0 s s
    next : {n : ℕ} {s t u : Progress Request Container} → Step s t → Steps n t u → Steps (suc n) s u
