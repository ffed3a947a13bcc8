-- ===== src/Base/Rearranged.antt =====
-- Lists that differ in the order of their elements.
use mathlib.Core.Path.{◌≡◌, refl, ◌∙◌}
use mathlib.Core.List.{List, [], ◌∷◌, ◌++◌}
use Prim.Native.String.{String}
use native.Mathlib.Omega.{arith}
use testcontainers_go.Base.Texts.{=s_iff}
use testcontainers_go.Base.Dict.{Dict, lookup, IsMap}

pub data Rearranged {ℓ} {A : Type ℓ} : List A → List A → Type ℓ where
  same : {xs : List A} → Rearranged xs xs
  cons : (x : A) {xs ys : List A} → Rearranged xs ys → Rearranged (x ∷ xs) (x ∷ ys)
  swap : (x y : A) (xs : List A) → Rearranged (x ∷ y ∷ xs) (y ∷ x ∷ xs)
  trans : {xs ys zs : List A} → Rearranged xs ys → Rearranged ys zs → Rearranged xs zs

module _ {ℓ} {A : Type ℓ} where
  pub Rearranged-prefix :
      (ps : List A) {xs ys : List A} → Rearranged xs ys → Rearranged (ps ++ xs) (ps ++ ys)
  Rearranged-prefix [] r = r
  Rearranged-prefix (p ∷ ps) r = cons p (Rearranged-prefix ps r)

  -- An element may come first.
  pub Rearranged-first :
      (xs : List A) (x : A) (ys : List A) → Rearranged (xs ++ x ∷ ys) (x ∷ (xs ++ ys))
  Rearranged-first [] x ys = same
  Rearranged-first (w ∷ xs) x ys = trans (cons w (Rearranged-first xs x ys)) (swap w x (xs ++ ys))

module _ {ℓ} {V : Type ℓ} where
  -- The order of a map does not matter.
  pub Rearranged-lookup :
      {m n : Dict V} → Rearranged m n → IsMap m → IsMap n × ((k : String) → lookup k m ≡ lookup k n)
  unfolding lookup
  Rearranged-lookup same h = (h, λ k. refl)
  Rearranged-lookup (cons (j, v) r) (u, h) =
      let (i, e) = Rearranged-lookup r h in ((ground (arith, e j), i), λ k. ground (arith, e k))
  Rearranged-lookup (swap (j, v) (i, w) m) (u, (t, h)) = (
    (ground (arith, =s_iff j i, =s_iff i j), (ground (arith, =s_iff i j), h)),
    λ k. ground (arith, =s_iff j k, =s_iff i k, =s_iff i j),
  )
  Rearranged-lookup (trans r s) h =
      let (i, e) = Rearranged-lookup r h in
      let (i', e') = Rearranged-lookup s i in (i', λ k. e k ∙ e' k)
