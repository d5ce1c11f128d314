-- ===== src/Shellbridge/ProgressLogs/Handoff.antt =====
-- A follower of a load sees its lines and then the logs of its container.
use inferia_worker.Common.{
  ℕ, String, List, [], ◌∷◌, ◌++◌, map, Bool, true, false, none, some, ◌≡◌, ◌≢◌, refl, ap, ◌∙◌,
  arith, length, ◌≤◌, ◌>>=◌, lookup, Dict, nat_key,
}
use mathlib.Core.List.{append_assoc}
use inferia_worker.Runtime.Progress.{
  Chan, ProgressLog, chan_cap, subscribe, mark_container_started, outcome,
}
use inferia_worker.Runtime.Progress.Invariant.{Inv, shut_all, close_all_open}
use inferia_worker.Runtime.Progress.Followers.{
  append_all, append_all_live, fresh, joined, subscribe_live, lookup-joined, joined-Inv,
}
use inferia_worker.Shellbridge.ProgressLogs.{
  Answers, closes, line, Streamed, Subscription, on_stdout, emit, stream_outcome, follow_loop,
  replay_loop, stream,
}

-- A closed channel gives what is left in it and then its end.
abbrev pub read_all : List String → Answers
read_all [] = closes
read_all (l ∷ ls) = line l (read_all ls)

abbrev pub before : List String → Streamed → Streamed
before ls s = record s { emitted = map on_stdout ls ++ s.emitted }

module _ (ctx_err : String) (handoff : String → Streamed) where
  follow_loop-read_all :
      (ls : List String) (o : String × Bool)
      → follow_loop ctx_err handoff (read_all ls) o ≡ before ls (stream_outcome ctx_err handoff o)
  unfolding follow_loop emit
  follow_loop-read_all [] o = refl
  follow_loop-read_all (l ∷ ls) o = ap (emit l) (follow_loop-read_all ls o)

  replay_loop-before :
      (ls : List String) (s : Streamed) → replay_loop ctx_err handoff none ls s ≡ before ls s
  unfolding replay_loop emit
  replay_loop-before [] s = refl
  replay_loop-before (l ∷ ls) s = ap (emit l) (replay_loop-before ls s)

map-append : (xs ys : List String) → map on_stdout (xs ++ ys) ≡ map on_stdout xs ++ map on_stdout ys
map-append [] ys = refl
map-append (x ∷ xs) ys = ap (λ l. on_stdout x ∷ l) (map-append xs ys)

before-before : (xs ys : List String) (s : Streamed) → before xs (before ys s) ≡ before (xs ++ ys) s
before-before xs ys s =
    cc (map-append xs ys, append_assoc (map on_stdout xs) (map on_stdout ys) s.emitted)

outcome_started :
    (ctx_err : String) (handoff : String → Streamed) (cid : String) (failed : Bool)
    → cid ≢ ""
    → failed ≡ false
    → stream_outcome ctx_err handoff (cid, failed) ≡ handoff cid
unfolding stream_outcome
outcome_started ctx_err handoff cid true n f = cc f
outcome_started ctx_err handoff cid false n f = ground (arith, n)

stream_started :
    (ctx_err : String) (handoff : String → Streamed) (kept lines : List String) (cid : String)
    (failed : Bool)
    → cid ≢ ""
    → failed ≡ false
    → replay_loop ctx_err handoff none kept
        (follow_loop ctx_err handoff (read_all lines) (cid, failed))
      ≡ before (kept ++ lines) (handoff cid)
stream_started ctx_err handoff kept lines cid failed n f =
    replay_loop-before ctx_err handoff kept _
    ∙ ap (before kept) (
        follow_loop-read_all ctx_err handoff lines (cid, failed)
        ∙ ap (before lines) (outcome_started ctx_err handoff cid failed n f))
    ∙ before-before kept lines (handoff cid)

lookup-shut_all :
    (k : ℕ) (m shut : Dict ℕ Chan) (c : Chan)
    → lookup k m ≡ some c
    → lookup k (shut_all m ++ shut) ≡ some (record c { closed = true })
lookup-shut_all k [] shut c h = cc h
lookup-shut_all k ((j, d) ∷ m) shut c h = ground (arith, lookup-shut_all k m shut c)

mark_live :
    (p : ProgressLog) (cid : String)
    → Inv p
    → p.done ≡ false
    → mark_container_started p cid
      ≡ some (record p { subs = []; ended = shut_all p.subs ++ p.ended; cid = cid; done = true })
unfolding mark_container_started
mark_live p cid v l = rw (l, close_all_open p.subs v.followed) refl

-- A follower that joins a live load and leaves at most 64 lines unread until the container has
-- started is handed over to its logs: no call panics, its channel is closed, and from it the stream
-- emits the lines kept so far, the lines since, and then all that the logs of the container emit,
-- with their reason and error.
pub stream-mark_container_started :
    (ctx_err : String) (handoff : String → Streamed) (p : ProgressLog) (lines : List String)
    (cid : String)
    → Inv p
    → p.done ≡ false
    → length lines ≤ chan_cap
    → cid ≢ ""
    → (q : ProgressLog) × ((append_all (subscribe p).0 lines >>= λ r. mark_container_started r cid)
        ≡ some q)
      × (lookup (subscribe p).2 q.ended ≡ some (record { buffer = lines; closed = true }))
      × (let s : Subscription = record {
        replay = (subscribe p).1;
        lines = read_all lines;
        outcome = outcome q;
      } in
          stream ctx_err handoff (some s) none ≡ before (p.lines ++ lines) (handoff cid))
unfolding stream outcome
stream-mark_container_started ctx_err handoff p lines cid v l room n =
    let (q, e, a) = append_all_live lines (joined p) (joined-Inv p v l) l in
    let heard = a.heard _ fresh (lookup-joined p) (omega arith) in
    rw (subscribe_live p l) (
      record q { subs = []; ended = shut_all q.subs ++ q.ended; cid = cid; done = true },
      rw e (mark_live q cid a.inv a.live),
      lookup-shut_all p.next_chan q.subs q.ended _ heard,
      stream_started ctx_err handoff p.lines lines cid q.failed n (a.inv.pending a.live).0,
    )
