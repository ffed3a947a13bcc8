-- ===== src/Errors/Laws.antt =====
-- What joining keeps of the errors joined.
use testcontainers_go.Base.{
  ◌≡◌, refl, String, Bool, true, false, ◌||◌, Option, none, some, List, [], ◌∷◌, all, is_none, ◌↔◌,
}
use testcontainers_go.Errors.{Error, present, join, is, is_some}

-- Nothing is reported exactly when nothing failed.
pub join-none : (es : List (Option Error)) → (join es ≡ none) ↔ (all is_none es ≡ true)
unfolding join
join-none [] = (λ _. refl, λ _. refl)
join-none (none ∷ es) = join-none es
join-none (some e ∷ es) = (λ h. cc, λ h. cc)

-- Whether some error of the list wraps the sentinel.
unfoldable pub any_is : List (Option Error) → String → Bool
any_is [] s = false
any_is (none ∷ es) s = any_is es s
any_is (some e ∷ es) s = is e s || any_is es s

pub is_some-present : (es : List (Option Error)) (s : String) → is_some (present es) s ≡ any_is es s
unfolding present any_is is
is_some-present [] s = refl
is_some-present (none ∷ es) s = is_some-present es s
is_some-present (some e ∷ es) s = rw (is_some-present es s)
