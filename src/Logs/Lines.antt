-- ===== src/Logs/Lines.antt =====
-- docker.go, Logs: the goroutine that reads lines from the daemon's stream, cuts the header of a
-- frame off the start of each, and writes them to a pipe. `bufio.Reader.ReadLine` is modelled with
-- the size of its buffer.
pub mod Headers
use testcontainers_go.Base.{
  ℕ, zero, suc, Bool, true, false, ◌&&◌, Option, none, some, List, [], ◌∷◌, ◌++◌, if◌then◌else◌,
  ◌==◌, leb, length, Bytes,
}

-- What the buffer holds next: a line with its newline, a buffer without one, or the end.
pub data Slice : Type 0 where
  terminated : Bytes → Bytes → Slice
  full : Bytes → Bytes → Slice
  ended : Bytes → Slice

unfoldable pub push : ℕ → Slice → Slice
push c (terminated l rest) = terminated (c ∷ l) rest
push c (full l rest) = full (c ∷ l) rest
push c (ended l) = ended (c ∷ l)

unfoldable pub read_slice : ℕ → Bytes → Slice
unfolding push
read_slice zero bs = full [] bs
read_slice (suc b) [] = ended []
read_slice (suc b) (c ∷ cs) =
    let more = push c (read_slice b cs) in if c == 10 then terminated [] cs else more

-- A line without the carriage return that ends it.
unfoldable pub drop_return : Bytes → Bytes
drop_return [] = []
drop_return (c ∷ []) = if c == 13 then [] else c ∷ []
drop_return (c ∷ d ∷ cs) = c ∷ drop_return (d ∷ cs)

unfoldable pub ends_in_return : Bytes → Bool
ends_in_return [] = false
ends_in_return (c ∷ []) = c == 13
ends_in_return (c ∷ d ∷ cs) = ends_in_return (d ∷ cs)

unfoldable pub drop : ℕ → Bytes → Bytes
drop zero bs = bs
drop (suc n) [] = []
drop (suc n) (b ∷ bs) = drop n bs

-- `line[streamHeaderSize:]`, at the start of a line that is long enough.
unfoldable pub trim_header : Bool → Bytes → Bytes
unfolding drop
trim_header line_started line = if line_started && leb 8 (length line) then drop 8 line else line

-- `lineStarted`, after a line that goes on.
unfoldable pub still_started : Bool → Bytes → Bool
still_started line_started line =
    if line_started && leb 8 (length line) then false else line_started

unfoldable pub prepend : Bytes → Option Bytes → Option Bytes
prepend bs none = none
prepend bs (some out) = some (bs ++ out)

-- The loop, in rounds: what is written until the pipe is closed. The last write, an empty line, is
-- made at the end of the stream. A carriage return at the end of a full buffer is read again.
unfoldable pub relay : ℕ → ℕ → Bool → Bytes → Option Bytes
unfolding read_slice drop_return ends_in_return trim_header still_started prepend
relay zero b started bs = none
relay (suc n) b started bs = elim (read_slice b bs) [
  | terminated l rest ↦
      prepend (trim_header started (drop_return l) ++ 10 ∷ []) (relay n b true rest)
  | full l rest ↦
      let line = drop_return l in
      prepend (trim_header started line)
        (relay n b (still_started started line) (if ends_in_return l then 13 ∷ rest else rest))
  | ended [] ↦ some (10 ∷ [])
  | ended (c ∷ l) ↦ prepend (trim_header started (c ∷ l) ++ 10 ∷ []) (relay n b true [])
]
