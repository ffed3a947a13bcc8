-- ===== src/Logs/Lines/Headers.antt =====
-- What the reader of `Logs` makes of the frames of a stream.
use testcontainers_go.Base.{
  ℕ, zero, suc, ◌<◌, ◌≡◌, ◌≢◌, refl, sym, ◌∙◌, ap, Bool, true, Option, none, some, List, [], ◌∷◌,
  ◌++◌, ◌⊎◌, length, Bytes, arith, All, concat_map, length-append, append_assoc,
}
use testcontainers_go.Logs.Lines.{
  terminated, push, read_slice, drop_return, drop, trim_header, prepend, relay,
}

-- Bytes without a newline, that a newline follows, within the buffer.
read_slice-line :
    (b : ℕ) (l rest : Bytes)
    → All (λ c. c ≢ 10) l
    → length l < b
    → read_slice b (l ++ 10 ∷ rest) ≡ terminated l rest
unfolding read_slice push
read_slice-line zero l rest h e = absurd (omega arith)
read_slice-line (suc b) [] rest h e = refl
read_slice-line (suc b) (c ∷ cs) rest (h, hs) e =
    rw (read_slice-line b cs rest hs (omega arith)) ground arith

-- A line that no carriage return ends is kept.
abbrev pub Kept : Bytes → Type 0
Kept [] = Unit
Kept (c ∷ []) = c ≢ 13
Kept (c ∷ d ∷ cs) = Kept (d ∷ cs)

Kept-last : (x : Bytes) (y : ℕ) → y ≢ 13 → Kept (x ++ y ∷ [])
Kept-last [] y h = h
Kept-last (c ∷ []) y h = h
Kept-last (c ∷ d ∷ x) y h = Kept-last (d ∷ x) y h

drop_return-Kept : (l : Bytes) → Kept l → drop_return l ≡ l
unfolding drop_return
drop_return-Kept [] h = refl
drop_return-Kept (c ∷ []) h = ground arith
drop_return-Kept (c ∷ d ∷ cs) h = ap (λ x. c ∷ x) (drop_return-Kept (d ∷ cs) h)

-- Eight bytes of a header, and a line.
abbrev pub framed : Bytes × Bytes → Bytes
framed (h, l) = (h ++ l) ++ 10 ∷ []

abbrev pub shown : Bytes × Bytes → Bytes
shown (h, l) = l ++ 10 ∷ []

-- A header without a newline, and a line without one, that the buffer holds together.
abbrev pub Fits : ℕ → Bytes × Bytes → Type 0
Fits b (h, l) = (length h ≡ 8) × All (λ c. c ≢ 10) (h ++ l) × Kept (h ++ l) × (length (h ++ l) < b)

drop-header : (h l : Bytes) → drop (length h) (h ++ l) ≡ l
unfolding drop
drop-header [] l = refl
drop-header (c ∷ h) l = drop-header h l

trim-header : (h l : Bytes) → length h ≡ 8 → trim_header true (h ++ l) ≡ l
unfolding trim_header
trim-header h l e = let d = drop-header h l in let k = length-append h l in ground (arith, e)

relay-terminated :
    (n b : ℕ) (started : Bool) (bs l rest : Bytes)
    → read_slice b bs ≡ terminated l rest
    → Kept l
    → relay (suc n) b started bs ≡ prepend (trim_header started l ++ 10 ∷ []) (relay n b true rest)
unfolding relay prepend
relay-terminated n b started bs l rest e k =
    rw (e, relay)
      (ap (λ x. prepend (trim_header started x ++ 10 ∷ []) (relay n b true rest))
        (drop_return-Kept l k))

-- A line within the buffer that no other newline and no carriage return ends.
relay-line :
    (n b : ℕ) (started : Bool) (l rest : Bytes)
    → All (λ c. c ≢ 10) l
    → Kept l
    → length l < b
    → relay (suc n) b started (l ++ 10 ∷ rest)
      ≡ prepend (trim_header started l ++ 10 ∷ []) (relay n b true rest)
relay-line n b started l rest h k s =
    relay-terminated n b started (l ++ 10 ∷ rest) l rest (read_slice-line b l rest h s) k

relay-frame :
    (n b : ℕ) (p : Bytes × Bytes) (rest : Bytes)
    → Fits b p
    → relay (suc n) b true (framed p ++ rest) ≡ prepend (shown p) (relay n b true rest)
relay-frame n b (h, l) rest (e, n10, k, s) =
    ap (relay (suc n) b true) (append_assoc (h ++ l) (10 ∷ []) rest)
    ∙ relay-line n b true (h ++ l) rest n10 k s
    ∙ ap (λ x. prepend (x ++ 10 ∷ []) (relay n b true rest)) (trim-header h l e)

-- If each frame has a header of eight bytes without a newline and one line without a newline or a
-- carriage return at its end, and fits into the buffer, the reader of Logs gets the lines without
-- their headers, and an empty line at the end.
pub relay-frames :
    (n b : ℕ) (ps : List (Bytes × Bytes))
    → 0 < b
    → length ps < n
    → All (Fits b) ps
    → relay n b true (concat_map framed ps) ≡ some (concat_map shown ps ++ 10 ∷ [])
unfolding prepend
relay-frames zero b ps z e h = absurd (omega arith)
relay-frames (suc n) zero [] z e h = absurd (omega arith)
relay-frames (suc n) (suc b) [] z e h = unfold relay read_slice in refl
relay-frames (suc n) b (p ∷ ps) z e (f, fs) =
    relay-frame n b p (concat_map framed ps) f
    ∙ ap (prepend (shown p)) (relay-frames n b ps z (omega arith) fs)
    ∙ ap some (sym (append_assoc (shown p) (concat_map shown ps) (10 ∷ [])))

prepend-prepend :
    (xs ys : Bytes) (o : Option Bytes) → prepend xs (prepend ys o) ≡ prepend (xs ++ ys) o
unfolding prepend
prepend-prepend xs ys none = refl
prepend-prepend xs ys (some zs) = ap some (sym (append_assoc xs ys zs))

-- Of a frame of ten bytes, whose header ends with the byte of a newline, with a buffer of more
-- than ten bytes, a line of nine bytes without a newline and not ended by a carriage return, the
-- reader of Logs gets a line with seven bytes of the header, and a line with the last byte alone:
-- the first eight bytes are lost.
pub relay-ten :
    (n b t : ℕ) (x : Bytes) (y : ℕ) (rest : Bytes)
    → 10 < b
    → ((t ≡ 1) ⊎ (t ≡ 2))
    → length x ≡ 8
    → All (λ c. c ≢ 10) (x ++ y ∷ [])
    → y ≢ 13
    → relay (suc (suc n)) b true (t ∷ 0 ∷ 0 ∷ 0 ∷ 0 ∷ 0 ∷ 0 ∷ 10 ∷ ((x ++ y ∷ []) ++ 10 ∷ rest))
      ≡ prepend (t ∷ 0 ∷ 0 ∷ 0 ∷ 0 ∷ 0 ∷ 0 ∷ 10 ∷ y ∷ 10 ∷ []) (relay n b true rest)
relay-ten n b t x y rest bh th xh nh yh =
    relay-line (suc n) b true (t ∷ 0 ∷ 0 ∷ 0 ∷ 0 ∷ 0 ∷ 0 ∷ []) ((x ++ y ∷ []) ++ 10 ∷ rest)
      (
        omega arith,
        (
          omega arith,
          (omega arith, (omega arith, (omega arith, (omega arith, (omega arith, tt))))),
        ),
      )
      (omega arith) (omega arith)
    ∙ ap (prepend (trim_header true (t ∷ 0 ∷ 0 ∷ 0 ∷ 0 ∷ 0 ∷ 0 ∷ []) ++ 10 ∷ [])) (
        relay-line n b true (x ++ y ∷ []) rest nh (Kept-last x y yh)
          (omega (arith, length-append x (y ∷ []))))
    ∙ prepend-prepend (trim_header true (t ∷ 0 ∷ 0 ∷ 0 ∷ 0 ∷ 0 ∷ 0 ∷ []) ++ 10 ∷ [])
        (trim_header true (x ++ y ∷ []) ++ 10 ∷ []) (relay n b true rest)
    ∙ ap
        (λ v.
          prepend ((trim_header true (t ∷ 0 ∷ 0 ∷ 0 ∷ 0 ∷ 0 ∷ 0 ∷ []) ++ 10 ∷ []) ++ (v ++ 10 ∷ []))
            (relay n b true rest))
        (trim-header x (y ∷ []) xh)
    ∙ (unfold trim_header in refl)
