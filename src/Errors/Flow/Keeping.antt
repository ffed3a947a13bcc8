-- ===== src/Errors/Flow/Keeping.antt =====
-- A number that a computation leaves as it is, through the operations on computations.
use testcontainers_go.Base.{ℕ, ◌≡◌, ◌∙◌, Bool, true, false, if◌then◌else◌, M, Option}
use testcontainers_go.Errors.{Error, Result, ok, err}
use testcontainers_go.Errors.Flow.{Try, and_then, ◌>>=◌, ◌>>◌, wrapped, checked}

abbrev pub Keeps : {S A : Type 0} → (S → ℕ) → M S A → Type 0
Keeps {S = S} n m = (s : S) → n (m s).1 ≡ n s

module _ {S : Type 0} (n : S → ℕ) where
  pub and_then-kept :
      {A B : Type 0} (k : ℕ) (r : Result A × S) (f : A → Try S B)
      → n r.1 ≡ k
      → ((a : A) → Keeps n (f a))
      → n (and_then r f).1 ≡ k
  unfolding and_then
  and_then-kept k (err e, s) f h g = h
  and_then-kept k (ok a, s) f h g = g a s ∙ h

  pub bind-Keeps :
      {A B : Type 0} (m : Try S A) (f : A → Try S B)
      → Keeps n m
      → ((a : A) → Keeps n (f a))
      → Keeps n (m >>= f)
  unfolding ◌>>=◌
  bind-Keeps m f h g s = and_then-kept (n s) (m s) f (h s) g

  pub then-Keeps :
      {A B : Type 0} (m : Try S A) (k : Try S B) → Keeps n m → Keeps n k → Keeps n (m >> k)
  unfolding ◌>>◌
  then-Keeps m k h g s = and_then-kept (n s) (m s) (λ a. k) (h s) (λ a. g)

  pub wrapped-Keeps :
      {A : Type 0} (f : Error → Error) (m : Try S A) → Keeps n m → Keeps n (wrapped f m)
  unfolding wrapped
  wrapped-Keeps f m h s = h s

  pub checked-Keeps : (m : M S (Option Error)) → Keeps n m → Keeps n (checked m)
  unfolding checked
  checked-Keeps m h s = h s

  pub if-Keeps :
      {A : Type 0} (b : Bool) (m k : M S A)
      → Keeps n m
      → Keeps n k
      → Keeps n (λ s. if b then m s else k s)
  if-Keeps true m k h g s = h s
  if-Keeps false m k h g s = g s

  -- What holds after a first step that keeps the number, by what follows it.
  and_then-after :
      {A B : Type 0} (Q : Result B × S → Type 0) (k : ℕ) (r : Result A × S) (f : A → Try S B)
      → n r.1 ≡ k
      → ((e : Error) (s : S) → n s ≡ k → Q (err e, s))
      → ((a : A) (s : S) → n s ≡ k → Q (f a s))
      → Q (and_then r f)
  unfolding and_then
  and_then-after Q k (err e, s) f h g j = g e s h
  and_then-after Q k (ok a, s) f h g j = j a s h

  pub bind-after :
      {A B : Type 0} (Q : Result B × S → Type 0) (m : Try S A) (f : A → Try S B) (s : S)
      → Keeps n m
      → ((e : Error) (s' : S) → n s' ≡ n s → Q (err e, s'))
      → ((a : A) (s' : S) → n s' ≡ n s → Q (f a s'))
      → Q ((m >>= f) s)
  unfolding ◌>>=◌
  bind-after Q m f s h g j = and_then-after Q (n s) (m s) f (h s) g j

  pub then-after :
      {A B : Type 0} (Q : Result B × S → Type 0) (m : Try S A) (f : Try S B) (s : S)
      → Keeps n m
      → ((e : Error) (s' : S) → n s' ≡ n s → Q (err e, s'))
      → ((s' : S) → n s' ≡ n s → Q (f s'))
      → Q ((m >> f) s)
  unfolding ◌>>◌
  then-after Q m f s h g j = and_then-after Q (n s) (m s) (λ a. f) (h s) g (λ a. j)
