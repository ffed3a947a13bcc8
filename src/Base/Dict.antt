-- ===== src/Base/Dict.antt =====
-- Go maps with text keys, as association lists without repeated keys.
use Prim.Native.String.{String}
use mathlib.Core.Path.{◌≡◌, refl}
use mathlib.Core.Option.{Option, none, some}
use mathlib.Core.List.{List, [], ◌∷◌}
use native.Mathlib.Omega.{arith}
use testcontainers_go.Base.Tests.{if◌then◌else◌}
use testcontainers_go.Base.Texts.{◌=s◌, =s_iff}

abbrev pub Dict {ℓ} : Type ℓ → Type ℓ
Dict V = List (String × V)

module _ {ℓ} {V : Type ℓ} where
  -- `m[k]`, with its second result
  unfoldable pub lookup : String → Dict V → Option V
  lookup k [] = none
  lookup k ((j, v) ∷ m) = if j =s k then some v else lookup k m

  -- `m[k] = v`
  unfoldable pub insert : String → V → Dict V → Dict V
  insert k v [] = (k, v) ∷ []
  insert k v ((j, w) ∷ m) = if j =s k then (k, v) ∷ m else (j, w) ∷ insert k v m

  -- The keys of a map: each stands in it once.
  abbrev pub IsMap : Dict V → Type ℓ
  IsMap [] = Unit
  IsMap ((k, v) ∷ m) = (lookup k m ≡ none) × IsMap m

  -- `for k, v := range src { dst[k] = v }`
  unfoldable pub insert_all : Dict V → Dict V → Dict V
  unfolding insert
  insert_all [] dst = dst
  insert_all ((k, v) ∷ src) dst = insert_all src (insert k v dst)

  pub lookup-insert :
      (j k : String) (v : V) (m : Dict V)
      → lookup j (insert k v m) ≡ (if k =s j then some v else lookup j m)
  unfolding lookup insert
  lookup-insert j k v [] = refl
  lookup-insert j k v ((i, w) ∷ m) =
      ground (arith, =s_iff k j, =s_iff i k, =s_iff i j, lookup-insert j k v m)

  pub lookup-insert_all :
      (k : String) (src dst : Dict V)
      → IsMap src
      → lookup k (insert_all src dst)
        ≡ elim (lookup k src) [ none ↦ lookup k dst | some v ↦ some v ]
  unfolding lookup insert_all
  lookup-insert_all k [] dst m = refl
  lookup-insert_all k ((j, v) ∷ src) dst (u, m) =
      ground
        (arith, =s_iff j k, lookup-insert k j v dst, lookup-insert_all k src (insert j v dst) m)
