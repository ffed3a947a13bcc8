-- ===== src/Logs/Frames.antt =====
-- docker.go, startLogProduction: the loop that reads frames, a header of eight bytes and a content,
-- and gives each content to the consumers.
pub mod RoundTrip
use testcontainers_go.Base.{
  ℕ, zero, suc, ◌+◌, ◌*◌, String, Bool, Option, none, some, List, [], ◌∷◌, if◌then◌else◌, ◌==◌, ltb,
  length, Bytes,
}

-- `Log`
pub record Log : Type 0 where
  pub log_type : String
  pub content : Bytes

-- `io.ReadFull`, into so many bytes.
unfoldable pub read_full : ℕ → Bytes → Option (Bytes × Bytes)
read_full zero bs = some ([], bs)
read_full (suc n) [] = none
read_full (suc n) (b ∷ bs) = elim (read_full n bs) [
  | none ↦ none
  | some (h, rest) ↦ some (b ∷ h, rest)
]

-- `binary.BigEndian.Uint32(h[4:])`
unfoldable pub count_of : Bytes → ℕ
count_of (t ∷ x ∷ y ∷ z ∷ a ∷ b ∷ c ∷ d ∷ []) = ((a * 256 + b) * 256 + c) * 256 + d
count_of _ = 0

-- `logTypes[logType]`, after an invalid type was turned into that of stdout.
unfoldable pub log_type_of : Bytes → String
log_type_of [] = ""
log_type_of (t ∷ h) =
    if ltb 2 t then "STDOUT" else if t == 0 then "" else if t == 1 then "STDOUT" else "STDERR"

-- What one read leads to: the reading stopped, an empty frame, or a log.
pub data Read : Type 0 where
  stopped : Read
  skipped : Bytes → Read
  accepted : Log → Bytes → Read

unfoldable pub read_content : Bytes → Option (Bytes × Bytes) → Read
unfolding log_type_of
read_content h none = stopped
read_content h (some (b, rest)) = accepted (record { log_type = log_type_of h; content = b }) rest

unfoldable pub read_frame : Bytes → Read
unfolding read_full count_of read_content
read_frame bs = elim (read_full 8 bs) [
  | none ↦ stopped
  | some (h, rest) ↦
      if count_of h == 0 then skipped rest else read_content h (read_full (count_of h) rest)
]

-- What the consumers are given of a stream that ends after the bytes, in rounds of the loop; `none`
-- says that the rounds did not suffice.
unfoldable pub consume : ℕ → Bytes → Option (List Log)
unfolding read_frame
consume zero bs = none
consume (suc n) bs = elim (read_frame bs) [
  | stopped ↦ some []
  | skipped rest ↦ consume n rest
  | accepted l rest ↦ elim (consume n rest) [ none ↦ none | some ls ↦ some (l ∷ ls) ]
]
