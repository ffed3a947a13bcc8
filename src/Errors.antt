-- ===== src/Errors.antt =====
-- Go's `error` values as the program builds and inspects them: `errors.New`, `fmt.Errorf` with
-- `%w`, `errors.Join` and `errors.Is`. A nil error is `none`. A sentinel is told apart by its text.
pub mod Laws
pub mod Flow
use testcontainers_go.Base.{
  ℕ, String, Bool, true, false, ◌||◌, Option, none, some, List, [], ◌∷◌, ◌=s◌, ◌<>◌, decimal,
}

mutual
  -- `coded` and `quoted` are formats with one number or one text that is not an error; `wrap` has
  -- its text in front of the error that it wraps, and `suffix` and `followed` have it
  -- behind, after a comma and after a colon.
  pub data Error : Type 0 where
    new : String → Error
    coded : String → ℕ → Error
    quoted : String → String → Error
    wrap : String → Error → Error
    suffix : Error → String → Error
    followed : Error → String → Error
    wrap_two : Error → Error → Error
    joined : Errors → Error

  pub data Errors : Type 0 where
    nil : Errors
    cons : Error → Errors → Errors

-- A value, or an error.
pub data Result (A : Type 0) : Type 0 where
  ok : A → Result A
  err : Error → Result A

-- The errors that are not nil, in order.
unfoldable pub present : List (Option Error) → Errors
present [] = nil
present (none ∷ es) = present es
present (some e ∷ es) = cons e (present es)

unfoldable pub join_present : Errors → Option Error
join_present nil = none
join_present (cons e es) = some (joined (cons e es))

-- `errors.Join`
unfoldable pub join : List (Option Error) → Option Error
unfolding present join_present
join es = join_present (present es)

-- `errors.Is(err, target)` at a sentinel target.
unfoldable mutual
  pub is : Error → String → Bool
  is (new t) s = t =s s
  is (coded _ _) s = false
  is (quoted _ _) s = false
  is (wrap _ e) s = is e s
  is (suffix e _) s = is e s
  is (followed e _) s = is e s
  is (wrap_two e f) s = is e s || is f s
  is (joined es) s = is_some es s

  pub is_some : Errors → String → Bool
  is_some nil s = false
  is_some (cons e es) s = is e s || is_some es s

-- `err == sentinel`
unfoldable pub same : Error → String → Bool
same (new t) s = t =s s
same _ s = false

-- `err.Error()`
unfoldable mutual
  pub message : Error → String
  message (new t) = t
  message (coded t n) = t <> (" " <> decimal n)
  message (quoted t q) = t <> (" \"" <> (q <> "\""))
  message (wrap t e) = t <> (": " <> message e)
  message (suffix e t) = message e <> (", " <> t)
  message (followed e t) = message e <> (": " <> t)
  message (wrap_two e f) = message e <> (": " <> message f)
  message (joined es) = messages es

  pub messages : Errors → String
  messages nil = ""
  messages (cons e nil) = message e
  messages (cons e (cons f es)) = message e <> ("\n" <> messages (cons f es))
