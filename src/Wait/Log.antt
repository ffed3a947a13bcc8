-- ===== src/Wait/Log.antt =====
-- wait/log.go: a text is waited for in the container's logs. Logs are lists of bytes.
use testcontainers_go.Base.{
  ℕ, zero, suc, ◌+◌, ◌-◌, Bool, true, false, ◌&&◌, not, is_none, Option, none, some, [], ◌∷◌,
  length, if◌then◌else◌, ◌==◌, leb, ltb, M, Bytes,
}
use testcontainers_go.Errors.{Error, Result, ok, err}
use testcontainers_go.Clock.{Ctx, Clock, ctx_err, with_timeout}
use testcontainers_go.Wait.Target.{Target, check_target, default_poll_interval, timeout_or_default}
use testcontainers_go.Wait.Poll.{Step, again, stop, poll}

pub record LogStrategy : Type 0 where
  pub timeout : Option ℕ
  pub log : Bytes
  pub is_regexp : Bool
  pub occurrence : ℕ
  pub poll_interval : ℕ

unfoldable pub new_log_strategy : Bytes → LogStrategy
new_log_strategy log = record {
  timeout = none;
  log = log;
  is_regexp = false;
  occurrence = 1;
  poll_interval = default_poll_interval;
}

unfoldable pub as_regexp : LogStrategy → LogStrategy
as_regexp ws = record ws { is_regexp = true }

unfoldable pub with_startup_timeout : LogStrategy → ℕ → LogStrategy
with_startup_timeout ws d = record ws { timeout = some d }

unfoldable pub with_poll_interval : LogStrategy → ℕ → LogStrategy
with_poll_interval ws d = record ws { poll_interval = d }

-- A number below 1 is taken for 1; the negative ones are not modelled apart from 0.
unfoldable pub with_occurrence : LogStrategy → ℕ → LogStrategy
with_occurrence ws o = record ws { occurrence = if leb o 0 then 1 else o }

unfoldable pub is_prefix : Bytes → Bytes → Bool
is_prefix [] s = true
is_prefix (c ∷ p) [] = false
is_prefix (c ∷ p) (d ∷ s) = (c == d) && is_prefix p s

-- The occurrences of a text that is not empty, none overlapping another; `skip` bytes belong to
-- the last one found.
unfoldable pub count_from : Bytes → ℕ → Bytes → ℕ
unfolding is_prefix
count_from p skip [] = 0
count_from p (suc skip) (c ∷ s) = count_from p skip s
count_from p zero (c ∷ s) =
    let here = is_prefix p (c ∷ s) in
    (if here then 1 else 0) + count_from p (if here then length p - 1 else 0) s

-- The code points of a valid UTF-8 text: the bytes that do not continue one.
unfoldable pub rune_count : Bytes → ℕ
rune_count [] = 0
rune_count (c ∷ s) = (if leb 128 c && ltb c 192 then 0 else 1) + rune_count s

-- `strings.Count(s, p)`
unfoldable pub count_text : Bytes → Bytes → ℕ
unfolding count_from rune_count
count_text s [] = rune_count s + 1
count_text s (c ∷ p) = count_from (c ∷ p) 0 s

-- `find_all` gives the number of matches of a regular expression that compiles.
module _ (find_all : Bytes → Bytes → ℕ) where
  unfoldable pub check_logs : LogStrategy → Bytes → Bool
  unfolding count_text
  check_logs ws b =
      if ws.is_regexp
      then leb ws.occurrence (find_all ws.log b)
      else leb ws.occurrence (count_text b ws.log)

-- `read_all` is `io.ReadAll`. The loop keeps the length of the logs that it read last.
module _ {W Body : Type 0} (C : Clock W) (T : Target W Body) (find_all : Bytes → Bytes → ℕ)
    (read_all : Body → Result Bytes) where
  unfoldable pub log_switch : LogStrategy → ℕ → Bytes → Option Error → M W (Step × ℕ)
  unfolding check_logs
  log_switch ws len logs alive w =
      if (len == length logs) && not (is_none alive)
      then ((stop alive, len), w)
      else if check_logs find_all ws logs
      then ((stop none, len), w)
      else ((again, length logs), C.sleep ws.poll_interval w)

  unfoldable pub log_read : LogStrategy → ℕ → Option Error → Result Bytes → M W (Step × ℕ)
  unfolding log_switch
  log_read ws len alive (err e) w = ((again, len), C.sleep ws.poll_interval w)
  log_read ws len alive (ok logs) w = log_switch ws len logs alive w

  unfoldable pub log_opened : LogStrategy → ℕ → Option Error → Result Body → M W (Step × ℕ)
  unfolding log_read
  log_opened ws len alive (err e) w = ((again, len), C.sleep ws.poll_interval w)
  log_opened ws len alive (ok reader) w = log_read ws len alive (read_all reader) w

  unfoldable pub log_open : LogStrategy → Ctx → ℕ → M W (Step × ℕ)
  unfolding log_opened check_target
  log_open ws ctx len w =
      let (alive, w1) = check_target T ctx w in
      let (r, w2) = T.logs ctx w1 in log_opened ws len alive r w2

  unfoldable pub log_selected : LogStrategy → Ctx → Option Error → ℕ → M W (Step × ℕ)
  unfolding log_open
  log_selected ws ctx (some e) len w = ((stop (some e), len), w)
  log_selected ws ctx none len w = log_open ws ctx len w

  unfoldable pub log_round : LogStrategy → Ctx → M (ℕ × W) Step
  unfolding log_selected
  log_round ws ctx (len, w) =
      let ((s, len'), w') = log_selected ws ctx (ctx_err C ctx w) len w in (s, (len', w'))

  unfoldable pub log_wait : ℕ → LogStrategy → Ctx → M W (Option (Option Error))
  unfolding log_round poll with_timeout timeout_or_default
  log_wait n ws ctx w =
      let inner = with_timeout C ctx (timeout_or_default ws.timeout) w in
      let (r, s) = poll n (log_round ws inner) (0, w) in (r, s.1)
