-- ===== src/Base/Texts.antt =====
-- Equality of texts, and a table of texts.
use Prim.Native.Nat.{ℕ, zero, suc, ◌+◌, ◌/◌, ◌%◌}
use Prim.Native.String.{String, ◌++◌, len}
use mathlib.Core.Path.{◌≡◌}
use mathlib.Core.Logic.{◌↔◌}
use mathlib.Core.Bool.{Bool, true, false, not, ◌||◌}
use mathlib.Core.Option.{Option, none, some}
use mathlib.Core.List.{List, [], ◌∷◌}
use text.Mathlib.Text.{◌==◌ as test, starts_with, find?, get?}
use testcontainers_go.Base.Tests.{is_none, ltb, ◌==◌, if◌then◌else◌}
use text.Mathlib.TextEquality.{eq_iff as test_iff}

infix 50 ◌=s◌
-- Go's `==` on strings.
abbrev pub ◌=s◌ : String → String → Bool
s =s t = test s t

pub =s_iff : (s t : String) → ((s =s t) ≡ true) ↔ (s ≡ t)
=s_iff = test_iff

abbrev pub mem_text : String → List String → Bool
mem_text s [] = false
mem_text s (t ∷ ts) = s =s t || mem_text s ts

-- `strings.Contains`
abbrev pub contains : String → String → Bool
contains s t = not (is_none (find? s t))

-- `strings.HasPrefix`
abbrev pub has_prefix : String → String → Bool
has_prefix s t = starts_with s t

digit : ℕ → String
digit zero = "0"
digit (suc zero) = "1"
digit (suc (suc zero)) = "2"
digit (suc (suc (suc zero))) = "3"
digit (suc (suc (suc (suc zero)))) = "4"
digit (suc (suc (suc (suc (suc zero))))) = "5"
digit (suc (suc (suc (suc (suc (suc zero)))))) = "6"
digit (suc (suc (suc (suc (suc (suc (suc zero))))))) = "7"
digit (suc (suc (suc (suc (suc (suc (suc (suc zero)))))))) = "8"
digit (suc (suc (suc (suc (suc (suc (suc (suc (suc n))))))))) = "9"

decimal_from : ℕ → ℕ → String → String
decimal_from zero n rest = rest
decimal_from (suc f) n rest =
    let more = decimal_from f (n / 10) (digit (n % 10) ++ rest) in
    if ltb n 10 then digit n ++ rest else more

-- `%d`: a number has at most as many digits as its successor counts.
unfoldable pub decimal : ℕ → String
unfolding decimal_from digit
decimal n = decimal_from (suc n) n ""

hex_digit : ℕ → String
unfolding digit
hex_digit n =
    if n == 10
    then "a"
    else if n == 11
    then "b"
    else if n == 12
    then "c"
    else if n == 13
    then "d"
    else if n == 14
    then "e"
    else if n == 15
    then "f"
    else digit n

hex_from : ℕ → ℕ → String → String
hex_from zero n rest = rest
hex_from (suc f) n rest =
    let more = hex_from f (n / 16) (hex_digit (n % 16) ++ rest) in
    if ltb n 16 then hex_digit n ++ rest else more

-- `%04x`
unfoldable pub hex_four : ℕ → String
unfolding hex_from hex_digit
hex_four n =
    let digits = hex_from (suc n) n "" in
    if ltb n 16
    then "000" ++ digits
    else if ltb n 256
    then "00" ++ digits
    else if ltb n 4096
    then "0" ++ digits
    else digits

abbrev or_empty : Option String → String
or_empty none = ""
or_empty (some s) = s

replaced_at : String → String → String → Option ℕ → String
replaced_at s old fresh none = s
replaced_at s old fresh (some i) =
    or_empty (get? s 0 i) ++ (fresh ++ or_empty (get? s (i + len old) (len s)))

-- `strings.Replace(s, old, fresh, 1)`
unfoldable pub replace_first : String → String → String → String
unfolding replaced_at
replace_first s old fresh = replaced_at s old fresh (find? s old)
