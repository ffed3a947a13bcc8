-- ===== src/Errors/Flow.antt =====
-- Stateful code that stops at the first error, and `do` for it.
pub mod Keeping
use testcontainers_go.Base.{Option, none, some, M}
use testcontainers_go.Errors.{Error, Result, ok, err}

abbrev pub Try : Type 0 → Type 0 → Type 0
Try W A = M W (Result A)

-- `if err != nil { return …, err }`
unfoldable pub and_then : {W A B : Type 0} → Result A × W → (A → Try W B) → Result B × W
and_then (err e, w) f = (err e, w)
and_then (ok a, w) f = f a w

infixl 5 ◌>>=◌ ◌>>◌
unfoldable pub ◌>>=◌ : {W A B : Type 0} → Try W A → (A → Try W B) → Try W B
unfolding and_then
◌>>=◌ m f w = and_then (m w) f

unfoldable pub ◌>>◌ : {W A B : Type 0} → Try W A → Try W B → Try W B
unfolding and_then
◌>>◌ m k w = and_then (m w) (λ a. k)

abbrev pub done : {W A : Type 0} → A → Try W A
done a w = (ok a, w)

abbrev pub fail : {W A : Type 0} → Error → Try W A
fail e w = (err e, w)

-- The error of a call is wrapped.
unfoldable pub mapped_error : {A : Type 0} → (Error → Error) → Result A → Result A
mapped_error f (err e) = err (f e)
mapped_error f (ok a) = ok a

unfoldable pub wrapped : {W A : Type 0} → (Error → Error) → Try W A → Try W A
unfolding mapped_error
wrapped f m w = let (r, v) = m w in (mapped_error f r, v)

-- A call that returns an error or nothing.
unfoldable pub result_of : Option Error → Result Unit
result_of none = ok tt
result_of (some e) = err e

unfoldable pub checked : {W : Type 0} → M W (Option Error) → Try W Unit
unfolding result_of
checked m w = let (e, v) = m w in (result_of e, v)

-- `defer`
unfoldable pub finally : {W A : Type 0} → (W → W) → Try W A → Try W A
finally f m w = let (r, v) = m w in (r, f v)

-- A deferred call that only an error makes.
unfoldable pub undone : {W A : Type 0} → (W → W) → Result A × W → Result A × W
undone f (err e, w) = (err e, f w)
undone f (ok a, w) = (ok a, w)

unfoldable pub on_error : {W A : Type 0} → (W → W) → Try W A → Try W A
unfolding undone
on_error f m w = undone f (m w)
