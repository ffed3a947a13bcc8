-- ===== src/Logs/Frames/RoundTrip.antt =====
-- What the loop reads from a stream of frames.
use testcontainers_go.Base.{
  ℕ, ◌/◌, ◌%◌, ◌<◌, ◌≡◌, refl, some, List, [], ◌∷◌, ◌++◌, if◌then◌else◌, ◌==◌, length, Bytes, arith,
}
use testcontainers_go.Logs.Frames.{
  Log, read_full, count_of, log_type_of, read_content, read_frame, skipped,
}

-- A frame, as the daemon writes it: the type of the stream, three bytes, the size, and the content.
pub record Frame : Type 0 where
  pub stream : ℕ
  pub content : Bytes

abbrev pub header : ℕ → ℕ → Bytes
header t n =
    t ∷ 0 ∷ 0 ∷ 0 ∷ (n / 16777216 % 256) ∷ (n / 65536 % 256) ∷ (n / 256 % 256) ∷ (n % 256) ∷ []

abbrev pub frame_bytes : Frame → Bytes
frame_bytes f = header f.stream (length f.content) ++ f.content

abbrev pub logs_of : List Frame → List Log
logs_of [] = []
logs_of (f ∷ fs) =
    let rest = logs_of fs in
    if length f.content == 0
    then rest
    else record { log_type = log_type_of (f.stream ∷ []); content = f.content } ∷ rest

read_full-append : (xs ys : Bytes) → read_full (length xs) (xs ++ ys) ≡ some (xs, ys)
unfolding read_full
read_full-append [] ys = refl
read_full-append (x ∷ xs) ys = rw (read_full-append xs ys) refl

count_of-header : (t n : ℕ) → n < 4294967296 → count_of (header t n) ≡ n
unfolding count_of
count_of-header t n h = omega arith

-- One frame is read, and leaves what follows it.
after_header :
    (t : ℕ) (c rest : Bytes)
    → length c < 4294967296
    → read_frame (header t (length c) ++ (c ++ rest)) ≡ (
        if length c == 0
        then skipped (c ++ rest)
        else read_content (header t (length c)) (some (c, rest)))
unfolding read_frame read_full
after_header t c rest h = rw (count_of-header t (length c) h, read_full-append c rest) refl

empty_frame : (t : ℕ) (rest : Bytes) → read_frame (header t 0 ++ rest) ≡ skipped rest
empty_frame t rest = after_header t [] rest (omega arith)
