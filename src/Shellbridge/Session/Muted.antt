-- ===== src/Shellbridge/Session/Muted.antt =====
-- A closed session whose pump does not wait for the exit code.
use mathlib.Core.List.{append-nil, append_assoc}
use inferia_worker.Common.{
  String, List, [], ◌∷◌, ◌++◌, map, Bool, true, false, Option, none, some, if◌then◌else◌, ite,
  string_dec, ◌≡◌, refl, sym, ap, ◌∙◌,
}
use inferia_worker.Shellbridge.Session.{
  Fault, ExitCode, output, Pump, reading, done, failed, reaping, Closer, idle, waiting, returned,
  timed_out, ShellSession, Action, reads, looks, reaps, closes, pump_seen, waited, read, read_step,
  look_step, reap_step, close_step, seen_step, waited_step, step, run, is_done, after_read,
}
use inferia_worker.Shellbridge.Session.Callbacks.{all_set, map-append}

-- The pump does not wait for the exit code.
pub data IsEarly : Pump → Type 0 where
  at_read : IsEarly reading
  at_fault : (f : Fault) → IsEarly (failed f)
  at_end : IsEarly done

pub record IsMuted (s : ShellSession) : Type 0 where
  pub closed : s.closed ≡ true
  pub early : IsEarly s.pump

-- From one state to another only chunks are called back, and the session stays muted.
record Chunks (s t : ShellSession) : Type 0 where
  muted : IsMuted t
  chunks : List String
  calls : t.calls ≡ s.calls ++ map output chunks

unchanged : (s t : ShellSession) → IsMuted t → t.calls ≡ s.calls → Chunks s t
unchanged s t m e = record { muted = m; chunks = []; calls = e ∙ sym (append-nil s.calls) }

after_read-IsEarly : (o : Option Fault) → IsEarly (after_read o)
after_read-IsEarly none = at_read
after_read-IsEarly (some f) = at_fault f

read-Chunks :
    (chunk : String) (fault : Option Fault) (s : ShellSession)
    → IsMuted s
    → Chunks s (read all_set chunk fault s)
unfolding read
read-Chunks chunk fault s m = go (string_dec chunk "")
  where
    after : IsMuted (record s { pump = after_read fault })
    after = record { closed = m.closed; early = after_read-IsEarly fault }

    go :
        (d : Dec (chunk ≡ ""))
        → Chunks s (
            ite d
              (record s { pump = after_read fault })
              (record s {
                pump = after_read fault;
                received = s.received ++ chunk ∷ [];
                calls = s.calls ++ output chunk ∷ [];
              }))
    go (yes e) = unchanged s (record s { pump = after_read fault }) after refl
    go (no n) = record {
      muted = record { closed = m.closed; early = after_read-IsEarly fault };
      chunks = chunk ∷ [];
      calls = refl;
    }

read_step-Chunks :
    (chunk : String) (fault : Option Fault) (p : Pump) (s : ShellSession)
    → IsMuted s
    → Chunks s (read_step all_set chunk fault p s)
unfolding read_step
read_step-Chunks chunk fault reading s m = read-Chunks chunk fault s m
read_step-Chunks chunk fault done s m = unchanged s s m refl
read_step-Chunks chunk fault (failed f) s m = unchanged s s m refl
read_step-Chunks chunk fault (reaping f) s m = unchanged s s m refl

look_step-Chunks : (p : Pump) (s : ShellSession) → IsMuted s → Chunks s (look_step p s)
unfolding look_step
look_step-Chunks reading s m = unchanged s s m refl
look_step-Chunks done s m = unchanged s s m refl
look_step-Chunks (reaping f) s m = unchanged s s m refl
look_step-Chunks (failed f) s m = go s.closed m.closed
  where
    go : (b : Bool) → b ≡ true → Chunks s (record s { pump = if b then done else reaping f })
    go true e =
        unchanged s (record s { pump = done }) (record { closed = m.closed; early = at_end }) refl
    go false e = cc e

reap_step-Chunks :
    (code : ExitCode) (werr : Option Fault) (p : Pump) (s : ShellSession)
    → IsEarly p
    → IsMuted s
    → Chunks s (reap_step all_set code werr p s)
unfolding reap_step
reap_step-Chunks code werr _ s at_read m = unchanged s s m refl
reap_step-Chunks code werr _ s (at_fault f) m = unchanged s s m refl
reap_step-Chunks code werr _ s at_end m = unchanged s s m refl

close_step-Chunks : (s : ShellSession) → IsMuted s → Chunks s (close_step s)
unfolding close_step
close_step-Chunks s m = go s.closed
  where
    go : (b : Bool) → Chunks s (if b then s else record s { closed = true; closer = waiting })
    go true = unchanged s s m refl
    go false =
        unchanged s (record s { closed = true; closer = waiting })
          (record { closed = refl; early = m.early }) refl

closer-Chunks : (s : ShellSession) (c : Closer) → IsMuted s → Chunks s (record s { closer = c })
closer-Chunks s c m =
    unchanged s (record s { closer = c }) (record { closed = m.closed; early = m.early }) refl

seen_step-Chunks : (c : Closer) (s : ShellSession) → IsMuted s → Chunks s (seen_step c s)
unfolding seen_step
seen_step-Chunks idle s m = unchanged s s m refl
seen_step-Chunks returned s m = unchanged s s m refl
seen_step-Chunks timed_out s m = unchanged s s m refl
seen_step-Chunks waiting s m = go (is_done s.pump)
  where
    go : (b : Bool) → Chunks s (if b then record s { closer = returned } else s)
    go true = closer-Chunks s returned m
    go false = unchanged s s m refl

waited_step-Chunks : (c : Closer) (s : ShellSession) → IsMuted s → Chunks s (waited_step c s)
unfolding waited_step
waited_step-Chunks idle s m = unchanged s s m refl
waited_step-Chunks returned s m = unchanged s s m refl
waited_step-Chunks timed_out s m = unchanged s s m refl
waited_step-Chunks waiting s m = closer-Chunks s timed_out m

step-Chunks : (a : Action) (s : ShellSession) → IsMuted s → Chunks s (step all_set a s)
unfolding step
step-Chunks (reads chunk fault) s m = read_step-Chunks chunk fault s.pump s m
step-Chunks looks s m = look_step-Chunks s.pump s m
step-Chunks (reaps code werr) s m = reap_step-Chunks code werr s.pump s m.early m
step-Chunks closes s m = close_step-Chunks s m
step-Chunks pump_seen s m = seen_step-Chunks s.closer s m
step-Chunks waited s m = waited_step-Chunks s.closer s m

pub run-IsMuted :
    (acts : List Action) (s : ShellSession)
    → IsMuted s
    → (chunks : List String) × ((run all_set acts s).calls ≡ s.calls ++ map output chunks)
unfolding run
run-IsMuted [] s m = ([], sym (append-nil s.calls))
run-IsMuted (a ∷ acts) s m =
    let one = step-Chunks a s m in
    let (more, e) = run-IsMuted acts (step all_set a s) one.muted in
    (
      one.chunks ++ more,
      e
          ∙ ap (λ c. c ++ map output more) one.calls
          ∙ append_assoc s.calls (map output one.chunks) (map output more)
          ∙ ap (λ c. s.calls ++ c) (sym (map-append one.chunks more)),
    )
