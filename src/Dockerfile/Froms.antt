-- ===== src/Dockerfile/Froms.antt =====
-- What is made of the instructions of a Dockerfile that name an image.
use testcontainers_go.Base.{
  ℕ, ◌≡◌, ◌<◌, refl, ◌∙◌, ap, Bool, true, false, none, some, [], ◌∷◌, ◌++◌, map, if◌then◌else◌,
  Bytes, All, arith, Bool-cases, inl, inr,
}
use testcontainers_go.Dockerfile.{
  is_space, trim_left, trimmed, trim_right, trim_space, upper, starts_with, dropped, trim_prefix,
  first_part, interpolate, from, image_of_line,
}

-- A text without white space.
abbrev pub IsWord : Bytes → Type 0
IsWord = All (λ c. is_space c ≡ false)

trim_right-word : (c : ℕ) (cs : Bytes) → IsWord (c ∷ cs) → trim_right (c ∷ cs) ≡ c ∷ cs
unfolding trim_right trimmed
trim_right-word c [] (h, k) = rw h refl
trim_right-word c (d ∷ ds) (h, k) = ap (trimmed c) (trim_right-word d ds k)

trim_right-before :
    (xs : Bytes) (c : ℕ) (cs : Bytes)
    → trim_right (c ∷ cs) ≡ c ∷ cs
    → trim_right (xs ++ c ∷ cs) ≡ xs ++ c ∷ cs
unfolding trim_right trimmed
trim_right-before [] c cs h = h
trim_right-before (x ∷ []) c cs h = ap (trimmed x) h
trim_right-before (x ∷ y ∷ xs) c cs h = ap (trimmed x) (trim_right-before (y ∷ xs) c cs h)

-- A line that begins without white space, and ends with a word.
trim_space-line :
    (x : ℕ) (xs : Bytes) (c : ℕ) (cs : Bytes)
    → is_space x ≡ false
    → IsWord (c ∷ cs)
    → trim_space (x ∷ (xs ++ c ∷ cs)) ≡ x ∷ (xs ++ c ∷ cs)
unfolding trim_space trim_left
trim_space-line x xs c cs h k = rw h (trim_right-before (x ∷ xs) c cs (trim_right-word c cs k))

trim_space-word : (c : ℕ) (cs : Bytes) → IsWord (c ∷ cs) → trim_space (32 ∷ c ∷ cs) ≡ c ∷ cs
unfolding trim_space trim_left
trim_space-word c cs (h, k) = rw h (trim_right-word c cs (h, k))

first_part-word : (cs : Bytes) → IsWord cs → first_part cs ≡ cs
unfolding first_part is_space
first_part-word [] h = refl
first_part-word (c ∷ cs) (h, k) = let e = first_part-word cs k in ground (arith, e, h)

upper-letter : (c n : ℕ) → upper c ≡ n → 64 < n → n < 91 → is_space c ≡ false
unfolding upper is_space
upper-letter c n h l k = ground (arith, h, l, k)

first_part-blank : (w i : Bytes) → IsWord w → first_part (w ++ 32 ∷ i) ≡ w
unfolding first_part is_space
first_part-blank [] i h = refl
first_part-blank (c ∷ cs) i (h, k) = let e = first_part-blank cs i k in ground (arith, e, h)

-- Whether four bytes are the instruction in capitals.
abbrev pub is_from : ℕ → ℕ → ℕ → ℕ → Bool
is_from a b c d = starts_with from (a ∷ b ∷ c ∷ d ∷ [])

capital-from :
    (a b c d : ℕ) (rest : Bytes)
    → upper a ≡ 70
    → upper b ≡ 82
    → upper c ≡ 79
    → upper d ≡ 77
    → starts_with from (map upper (a ∷ b ∷ c ∷ d ∷ rest)) ≡ true
unfolding starts_with
capital-from a b c d rest ha hb hc hd = rw (ha, hb, hc, hd) refl

-- What is left of a line by the cut and the first blank.
first_word :
    (a b c d x : ℕ) (i : Bytes)
    → IsWord (a ∷ b ∷ c ∷ d ∷ [])
    → IsWord (x ∷ i)
    → first_part (trim_space (trim_prefix from (a ∷ b ∷ c ∷ d ∷ 32 ∷ x ∷ i)))
      ≡ (if is_from a b c d then x ∷ i else a ∷ b ∷ c ∷ d ∷ [])
unfolding trim_prefix starts_with dropped
first_word a b c d x i k w = elim (Bool-cases (is_from a b c d)) [
  | inl e ↦ rw e (ap first_part (trim_space-word x i w) ∙ first_part-word (x ∷ i) w)
  | inr e ↦ rw e (
      ap first_part (trim_space-line a (b ∷ c ∷ d ∷ 32 ∷ []) x i k.0 w)
      ∙ first_part-blank (a ∷ b ∷ c ∷ d ∷ []) (x ∷ i) k)
]

-- Of a line without build arguments that is a word of four letters whose capitals are FROM, a
-- blank and a word, the image that is extracted is the second word where the first is written in
-- capitals, and the first word itself otherwise.
pub image_of_line-from :
    (a b c d x : ℕ) (i : Bytes)
    → upper a ≡ 70
    → upper b ≡ 82
    → upper c ≡ 79
    → upper d ≡ 77
    → IsWord (x ∷ i)
    → image_of_line [] (a ∷ b ∷ c ∷ d ∷ 32 ∷ x ∷ i)
      ≡ some (if is_from a b c d then x ∷ i else a ∷ b ∷ c ∷ d ∷ [])
unfolding image_of_line interpolate
image_of_line-from a b c d x i ha hb hc hd w =
    let letters : IsWord (a ∷ b ∷ c ∷ d ∷ []) = (
      upper-letter a 70 ha (omega arith) (omega arith),
      (
        upper-letter b 82 hb (omega arith) (omega arith),
        (
          upper-letter c 79 hc (omega arith) (omega arith),
          (upper-letter d 77 hd (omega arith) (omega arith), tt),
        ),
      ),
    ) in
    ap
      (λ l.
        if starts_with from (map upper l)
        then some (first_part (trim_space (trim_prefix from l)))
        else none)
      (trim_space-line a (b ∷ c ∷ d ∷ 32 ∷ []) x i letters.0 w)
    ∙ (rw (capital-from a b c d (32 ∷ x ∷ i) ha hb hc hd) refl)
    ∙ ap some (first_word a b c d x i letters w)
