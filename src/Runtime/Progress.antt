-- ===== src/Runtime/Progress.antt =====
-- internal/runtime/progress.go, the type progressLog: the lifecycle lines of a load, fanned out to
-- its followers until the load ends. A channel in `subs` is kept with its unread lines; a channel
-- that left the map is in `ended`. `none` is a panic: a send on or a close of a closed channel.
pub mod Invariant
pub mod Followers
use inferia_worker.Common.{
  ℕ, suc, ◌+◌, ◌-◌, ◌≡◌, Bool, true, false, List, [], ◌∷◌, ◌++◌, Option, none, some, String,
  if◌then◌else◌, ltb, length, drop, Dict, ◌>>=◌,
}

pub record Chan : Type 0 where
  pub buffer : List String
  pub closed : Bool

pub record ProgressLog : Type 0 where
  pub lines : List String
  pub subs : Dict ℕ Chan
  pub ended : Dict ℕ Chan
  pub next_chan : ℕ
  pub cid : String
  pub failed : Bool
  pub done : Bool

abbrev pub progress_log_cap : ℕ
progress_log_cap = 1000

abbrev pub chan_cap : ℕ
chan_cap = 64

unfoldable pub new_progress_log : ProgressLog
new_progress_log = record {
  lines = [];
  subs = [];
  ended = [];
  next_chan = 0;
  cid = "";
  failed = false;
  done = false;
}

-- A full channel drops the line.
unfoldable pub deliver : String → Chan → Chan
deliver line c =
    if ltb (length c.buffer) chan_cap then record c { buffer = c.buffer ++ line ∷ [] } else c

-- The `select` with a default.
unfoldable pub send : String → Chan → Option Chan
send line c = if c.closed then none else some (deliver line c)

unfoldable pub fan_out : String → Dict ℕ Chan → Option (Dict ℕ Chan)
fan_out line [] = some []
fan_out line ((k, c) ∷ m) = do c' ← send line c; m' ← fan_out line m; some ((k, c') ∷ m')

unfoldable pub trim : List String → List String
trim lines =
    if ltb progress_log_cap (length lines)
    then drop (length lines - progress_log_cap) lines
    else lines

unfoldable pub append : ProgressLog → String → Option ProgressLog
unfolding trim
append p line = if p.done then some p else do
  subs ← fan_out line p.subs
  some (record p { lines = trim (p.lines ++ line ∷ []); subs = subs })

unfoldable pub close : Chan → Option Chan
close c = if c.closed then none else some (record c { closed = true })

unfoldable pub close_all : Dict ℕ Chan → Option (Dict ℕ Chan)
close_all [] = some []
close_all ((k, c) ∷ m) = do c' ← close c; m' ← close_all m; some ((k, c') ∷ m')

unfoldable pub close_subs_locked : ProgressLog → Option ProgressLog
close_subs_locked p = do
  closed ← close_all p.subs
  some (record p { subs = []; ended = closed ++ p.ended })

unfoldable pub mark_container_started : ProgressLog → String → Option ProgressLog
unfolding close_subs_locked
mark_container_started p cid =
    if p.done then some p else close_subs_locked (record p { cid = cid; done = true })

unfoldable pub mark_failed : ProgressLog → Option ProgressLog
unfolding close_subs_locked
mark_failed p =
    if p.done then some p else close_subs_locked (record p { failed = true; done = true })

-- The lines so far and the new channel, which is closed already if the load has ended.
unfoldable pub subscribe : ProgressLog → ProgressLog × List String × ℕ
subscribe p =
    if p.done
    then (
      record p {
        ended = (p.next_chan, record { buffer = []; closed = true }) ∷ p.ended;
        next_chan = suc p.next_chan;
      },
      p.lines,
      p.next_chan,
    )
    else (
      record p {
        subs = (p.next_chan, record { buffer = []; closed = false }) ∷ p.subs;
        next_chan = suc p.next_chan;
      },
      p.lines,
      p.next_chan,
    )

unfoldable pub outcome : ProgressLog → String × Bool
outcome p = (p.cid, p.failed)

-- The calls that the loader and the followers make.
pub data Call : Type 0 where
  appends : String → Call
  starts : String → Call
  fails : Call
  subscribes : Call

unfoldable pub step : ProgressLog → Call → Option ProgressLog
unfolding append mark_container_started mark_failed subscribe
step p (appends line) = append p line
step p (starts cid) = mark_container_started p cid
step p fails = mark_failed p
step p subscribes = some (subscribe p).0

unfoldable pub run : ProgressLog → List Call → Option ProgressLog
run p [] = some p
run p (c ∷ cs) = step p c >>= λ q. run q cs
