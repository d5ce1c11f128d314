-- ===== src/Shellbridge/ProgressLogs.antt =====
-- internal/shellbridge/progress_logs.go: the progress of a load shown as its logs, until the
-- container runs and its own logs follow.
pub mod Handoff
use inferia_worker.Common.{
  ℕ, zero, suc, String, List, [], ◌∷◌, ◌++◌, map, Bool, true, false, Option, none, some, ite,
  string_dec, if◌then◌else◌,
}

-- What the successive selects of the second loop see: a cancelled context, a line, or the end of
-- the channel.
pub data Answers : Type 0 where
  cancelled closes : Answers
  line : String → Answers → Answers

-- The calls of `onLine`, and what Stream returns.
pub record Streamed : Type 0 where
  pub emitted : List (String × String)
  pub reason : String
  pub error : Option String

-- What SubscribeProgress returns.
pub record Subscription : Type 0 where
  pub replay : List String
  pub lines : Answers
  pub outcome : String × Bool

abbrev pub on_stdout : String → String × String
on_stdout l = ("stdout", l)

unfoldable pub finished : String → Option String → Streamed
finished reason error = record { emitted = []; reason = reason; error = error }

unfoldable pub emit : String → Streamed → Streamed
emit l s = record s { emitted = on_stdout l ∷ s.emitted }

-- `ctx_err` is the error of the cancelled context, and `handoff` the logs of a container.
module _ (ctx_err : String) (handoff : String → Streamed) where
  unfoldable pub stream_outcome : String × Bool → Streamed
  unfolding finished
  stream_outcome (cid, true) = finished "deployment failed" none
  stream_outcome (cid, false) =
      ite (string_dec cid "") (finished "deployment ended" none) (handoff cid)

  unfoldable pub follow_loop : Answers → String × Bool → Streamed
  unfolding stream_outcome emit
  follow_loop cancelled outcome = finished "" (some ctx_err)
  follow_loop closes outcome = stream_outcome outcome
  follow_loop (line l rest) outcome = emit l (follow_loop rest outcome)

  -- The context is cancelled after so many lines of the replay, or not during it.
  unfoldable pub replay_loop : Option ℕ → List String → Streamed → Streamed
  unfolding emit finished
  replay_loop stop [] next = next
  replay_loop none (l ∷ ls) next = emit l (replay_loop none ls next)
  replay_loop (some zero) (l ∷ ls) next = finished "" (some ctx_err)
  replay_loop (some (suc n)) (l ∷ ls) next = emit l (replay_loop (some n) ls next)

  unfoldable pub stream : Option Subscription → Option ℕ → Streamed
  unfolding replay_loop follow_loop
  stream none stop = finished "deployment has no progress" none
  stream (some s) stop = replay_loop stop s.replay (follow_loop s.lines s.outcome)
