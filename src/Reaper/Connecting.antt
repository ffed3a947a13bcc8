-- ===== src/Reaper/Connecting.antt =====
-- reaper.go: the connection to a reaper, what is announced on it, and the search for a reaper that
-- another creation made at the same time.
pub mod Searching
use testcontainers_go.Base.{
  ℕ, zero, suc, ◌*◌, String, ◌<>◌, ◌=s◌, Bool, true, false, Option, none, some, List, [], ◌∷◌,
  if◌then◌else◌, ltb, M,
}
use testcontainers_go.Base.Dict.{Dict}
use testcontainers_go.Errors.{Error, wrap, followed, Result, ok, err}
use testcontainers_go.Errors.Flow.{
  Try, and_then, ◌>>=◌, ◌>>◌, done, checked, result_of, mapped_error,
}
use testcontainers_go.Labels.{default_labels}

-- The filters of the labels, in the order of the iteration.
unfoldable pub label_filters : Dict String → List String
label_filters [] = []
label_filters ((l, v) ∷ labels) = ("label=" <> l <> "=" <> v) ∷ label_filters labels

-- `strings.Join(…, "&")`
unfoldable pub join_and : List String → String
join_and [] = ""
join_and (f ∷ []) = f
join_and (f ∷ g ∷ fs) = f <> "&" <> join_and (g ∷ fs)

-- The buffered reader and writer on a connection.
pub record Socket (W : Type 0) : Type 0 where
  pub write_string : String → M W (Option Error)
  pub flush : M W (Option Error)
  pub read_line : Try W String

module _ {W : Type 0} (S : Socket W) where
  -- One round: whether the reaper acknowledged. An error is not told apart from another answer.
  unfoldable pub announce_round : String → Try W Bool
  unfolding ◌>>=◌ ◌>>◌ and_then checked
  announce_round filters = do
    checked (S.write_string filters)
    checked (S.write_string "\n")
    checked S.flush
    resp ← S.read_line
    done (resp =s "ACK\n")

  unfoldable pub acknowledged : Result Bool → Bool
  acknowledged (err e) = false
  acknowledged (ok b) = b

  -- The loop, with the rounds that are left.
  unfoldable pub announce : String → ℕ → M W Bool
  unfolding announce_round acknowledged
  announce filters zero w = (false, w)
  announce filters (suc n) w =
      let (r, v) = announce_round filters w in
      let rest = announce filters n v in if acknowledged r then (true, v) else rest

  -- What the goroutine does before it waits for its signal.
  unfoldable pub announce_session : String → M W Bool
  unfolding announce label_filters join_and default_labels
  announce_session session_id = announce (join_and (label_filters (default_labels session_id))) 3

-- What Connect returns: its goroutine goes on by itself. `dial` is `net.DialTimeout`.
unfoldable pub connect_reaper : {C W : Type 0} → (String → Try W C) → String → Try W C
unfolding mapped_error
connect_reaper dial endpoint w =
    let (r, v) = dial endpoint w in
    (mapped_error (λ e. followed e ("Connecting to Ryuk on " <> endpoint <> " failed")) r, v)

-- The look-up, the time since the start, and the pause of a round, which ends at once if the context
-- is done.
pub record Search (Container W : Type 0) : Type 0 where
  pub look_up : Try W (Option Container)
  pub since : W → ℕ
  pub pause : ℕ → W → W

abbrev pub timeout : ℕ
timeout = 5 * 1000000000

abbrev pub cooldown : ℕ
cooldown = 100 * 1000000

module _ {Container W : Type 0} (L : Search Container W) where
  unfoldable pub is_found : Result (Option Container) → Bool
  is_found (err e) = false
  is_found (ok none) = false
  is_found (ok (some c)) = true

  -- The loop, in rounds; `last` is what the look-up gave last.
  unfoldable pub search : ℕ → Result (Option Container) → W → Option (Result (Option Container) × W)
  unfolding is_found
  search zero last w = none
  search (suc n) last w =
      let (r, v) = L.look_up w in
      let rest = search n r (L.pause cooldown v) in
      if ltb (L.since w) timeout then (if is_found r then some (r, v) else rest) else some (last, w)
