-- ===== src/Base/State.antt =====
-- Stateful code as functions on a world, and `do` for them.
abbrev pub M : Type 0 → Type 0 → Type 0
M W A = W → A × W

infixl 5 ◌>>=◌ ◌>>◌
abbrev pub ◌>>=◌ : {W A B : Type 0} → M W A → (A → M W B) → M W B
◌>>=◌ m f w = let (a, w') = m w in f a w'

abbrev pub ◌>>◌ : {W A B : Type 0} → M W A → M W B → M W B
◌>>◌ m k w = k (m w).1

abbrev pub pure : {W A : Type 0} → A → M W A
pure a w = (a, w)
