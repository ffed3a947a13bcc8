-- ===== src/Auth/Collecting.antt =====
-- What getDockerAuthConfigs makes of the results, in whatever order they arrive.
use testcontainers_go.Base.{
  String, Bool, true, false, ◌≡◌, refl, sym, ap, ◌∙◌, inl, inr, Option, none, some, List, [], ◌∷◌,
  ◌++◌, append-nil, append_assoc, arith, Bool-cases,
}
use testcontainers_go.Base.Dict.{Dict, IsMap, lookup, insert, insert_all, lookup-insert_all}
use testcontainers_go.Base.Rearranged.{Rearranged, same, cons, swap, trans, Rearranged-lookup}
use testcontainers_go.Errors.{Error, Result, ok, err, join}
use testcontainers_go.Auth.{AuthConfig, AuthConfigResult, gathered, joined_or, collected_configs}

-- The results that are configurations, and those that are errors.
abbrev pub oks : List AuthConfigResult → Dict AuthConfig
oks [] = []
oks (err e ∷ rs) = oks rs
oks (ok p ∷ rs) = p ∷ oks rs

abbrev pub errors : List AuthConfigResult → List (Option Error)
errors [] = []
errors (err e ∷ rs) = some e ∷ errors rs
errors (ok p ∷ rs) = errors rs

abbrev pub has_failed : List AuthConfigResult → Bool
has_failed [] = false
has_failed (err e ∷ rs) = true
has_failed (ok p ∷ rs) = has_failed rs

gathered-parts :
    (rs : List AuthConfigResult) (es : List (Option Error)) (m : Dict AuthConfig)
    → gathered rs es m ≡ (es ++ errors rs, insert_all (oks rs) m)
unfolding gathered insert_all
gathered-parts [] es m = ap (λ l. (l, m)) (sym (append-nil es))
gathered-parts (err e ∷ rs) es m =
    gathered-parts rs (es ++ some e ∷ []) m
    ∙ ap (λ l. (l, insert_all (oks rs) m)) (append_assoc es (some e ∷ []) (errors rs))
gathered-parts (ok (k, c) ∷ rs) es m = gathered-parts rs es (insert k c m)

join-errors : (rs : List AuthConfigResult) → has_failed rs ≡ false → join (errors rs) ≡ none
unfolding join
join-errors [] h = refl
join-errors (err e ∷ rs) h = cc
join-errors (ok p ∷ rs) h = join-errors rs h

join-errors_failed :
    (rs : List AuthConfigResult) → has_failed rs ≡ true → (e : Error) × (join (errors rs) ≡ some e)
unfolding join
join-errors_failed [] h = cc
join-errors_failed (err e ∷ rs) h = (_, refl)
join-errors_failed (ok p ∷ rs) h = join-errors_failed rs h

Rearranged-failed :
    {rs ss : List AuthConfigResult} → Rearranged rs ss → has_failed rs ≡ has_failed ss
Rearranged-failed same = refl
Rearranged-failed (cons (err e) r) = refl
Rearranged-failed (cons (ok p) r) = Rearranged-failed r
Rearranged-failed (swap (err e) (err f) rs) = refl
Rearranged-failed (swap (err e) (ok p) rs) = refl
Rearranged-failed (swap (ok p) (err e) rs) = refl
Rearranged-failed (swap (ok p) (ok q) rs) = refl
Rearranged-failed (trans r s) = Rearranged-failed r ∙ Rearranged-failed s

Rearranged-oks : {rs ss : List AuthConfigResult} → Rearranged rs ss → Rearranged (oks rs) (oks ss)
Rearranged-oks same = same
Rearranged-oks (cons (err e) r) = Rearranged-oks r
Rearranged-oks (cons (ok p) r) = cons p (Rearranged-oks r)
Rearranged-oks (swap (err e) (err f) rs) = same
Rearranged-oks (swap (err e) (ok p) rs) = same
Rearranged-oks (swap (ok p) (err e) rs) = same
Rearranged-oks (swap (ok p) (ok q) rs) = swap p q (oks rs)
Rearranged-oks (trans r s) = trans (Rearranged-oks r) (Rearranged-oks s)

-- Two outcomes are the same but for the order of the map, and for which errors are joined how.
abbrev pub SameConfigs : Result (Dict AuthConfig) → Result (Dict AuthConfig) → Type 0
SameConfigs (ok m) (ok n) = (k : String) → lookup k m ≡ lookup k n
SameConfigs (ok m) (err f) = ⊥
SameConfigs (err e) (ok n) = ⊥
SameConfigs (err e) (err f) = Unit

collected_configs-parts :
    (rs : List AuthConfigResult)
    → collected_configs rs ≡ joined_or (join (errors rs)) (insert_all (oks rs) [])
unfolding collected_configs
collected_configs-parts rs = rw (gathered-parts rs [] []) refl

-- The order of the results does not matter, where each registry is found once.
pub Rearranged-SameConfigs :
    {rs ss : List AuthConfigResult}
    → Rearranged rs ss
    → IsMap (oks rs)
    → SameConfigs (collected_configs rs) (collected_configs ss)
unfolding joined_or
Rearranged-SameConfigs {rs} {ss} r m =
    let (n, e) = Rearranged-lookup (Rearranged-oks r) m in
    let f = Rearranged-failed r in
    elim (Bool-cases (has_failed rs)) [
      | inl h ↦
          let (a, p) = join-errors_failed rs h in
          let (b, q) = join-errors_failed ss (sym f ∙ h) in
          rw (collected_configs-parts rs, collected_configs-parts ss, p, q) tt
      | inr h ↦
          rw
            (
              collected_configs-parts rs,
              collected_configs-parts ss,
              join-errors rs h,
              join-errors ss (sym f ∙ h),
            )
            (λ k.
              ground
                (arith, lookup-insert_all k (oks rs) [] m, lookup-insert_all k (oks ss) [] n, e k))
    ]
