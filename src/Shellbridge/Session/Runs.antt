-- ===== src/Shellbridge/Session/Runs.antt =====
-- Whole runs of a session.
use inferia_worker.Common.{
  String, List, [], ◌∷◌, ◌++◌, map, Bool, true, false, Option, if◌then◌else◌, ◌≡◌, refl, ◌∙◌,
}
use inferia_worker.Shellbridge.Session.{
  Fault, ExitCode, output, Pump, reading, done, failed, reaping, Closer, idle, waiting, returned,
  timed_out, ShellSession, Action, reads, looks, reaps, closes, pump_seen, waited, started,
  read_step, look_step, reap_step, close_step, seen_step, waited_step, step, run, is_done,
}
use inferia_worker.Shellbridge.Session.Muted.{IsMuted, run-IsMuted}
use inferia_worker.Shellbridge.Session.Callbacks.{
  all_set, Called, Inv, started-Inv, close_step-Inv, seen_step-Inv, waited_step-Inv, read_step-Inv,
  look_step-Inv, reap_step-Inv,
}

step-Inv : (a : Action) (s : ShellSession) → Inv s → Inv (step all_set a s)
unfolding step
step-Inv (reads chunk fault) s v = read_step-Inv chunk fault s.pump s refl v
step-Inv looks s v = look_step-Inv s.pump s refl v
step-Inv (reaps code werr) s v = reap_step-Inv code werr s.pump s refl v
step-Inv closes s v = close_step-Inv s v
step-Inv pump_seen s v = seen_step-Inv s.closer s v
step-Inv waited s v = waited_step-Inv s.closer s v

run-Inv : (acts : List Action) (s : ShellSession) → Inv s → Inv (run all_set acts s)
unfolding run
run-Inv [] s v = v
run-Inv (a ∷ acts) s v = run-Inv acts (step all_set a s) (step-Inv a s v)

-- A pump that has returned stays so, and calls nothing.
Quiet : ShellSession → ShellSession → Type 0
Quiet s t = (t.pump ≡ done) × (t.calls ≡ s.calls)

read_step-done :
    (chunk : String) (fault : Option Fault) (p : Pump) (s : ShellSession)
    → p ≡ done
    → s.pump ≡ done
    → Quiet s (read_step all_set chunk fault p s)
unfolding read_step Quiet
read_step-done chunk fault reading s p e = cc p
read_step-done chunk fault done s p e = (e, refl)
read_step-done chunk fault (failed f) s p e = cc p
read_step-done chunk fault (reaping f) s p e = cc p

look_step-done : (p : Pump) (s : ShellSession) → p ≡ done → s.pump ≡ done → Quiet s (look_step p s)
unfolding look_step Quiet
look_step-done reading s p e = cc p
look_step-done done s p e = (e, refl)
look_step-done (failed f) s p e = cc p
look_step-done (reaping f) s p e = cc p

reap_step-done :
    (code : ExitCode) (werr : Option Fault) (p : Pump) (s : ShellSession)
    → p ≡ done
    → s.pump ≡ done
    → Quiet s (reap_step all_set code werr p s)
unfolding reap_step Quiet
reap_step-done code werr reading s p e = cc p
reap_step-done code werr done s p e = (e, refl)
reap_step-done code werr (failed f) s p e = cc p
reap_step-done code werr (reaping f) s p e = cc p

if-Quiet : (b : Bool) (s t u : ShellSession) → Quiet s t → Quiet s u → Quiet s (if b then t else u)
if-Quiet true s t u h k = h
if-Quiet false s t u h k = k

close_step-done : (s : ShellSession) → s.pump ≡ done → Quiet s (close_step s)
unfolding close_step Quiet
close_step-done s e = if-Quiet s.closed s s _ (e, refl) (e, refl)

seen_step-done : (c : Closer) (s : ShellSession) → s.pump ≡ done → Quiet s (seen_step c s)
unfolding seen_step Quiet
seen_step-done waiting s e = if-Quiet (is_done s.pump) s _ s (e, refl) (e, refl)
seen_step-done idle s e = (e, refl)
seen_step-done returned s e = (e, refl)
seen_step-done timed_out s e = (e, refl)

waited_step-done : (c : Closer) (s : ShellSession) → s.pump ≡ done → Quiet s (waited_step c s)
unfolding waited_step Quiet
waited_step-done waiting s e = (e, refl)
waited_step-done idle s e = (e, refl)
waited_step-done returned s e = (e, refl)
waited_step-done timed_out s e = (e, refl)

step-done : (a : Action) (s : ShellSession) → s.pump ≡ done → Quiet s (step all_set a s)
unfolding step
step-done (reads chunk fault) s e = read_step-done chunk fault s.pump s e e
step-done looks s e = look_step-done s.pump s e e
step-done (reaps code werr) s e = reap_step-done code werr s.pump s e e
step-done closes s e = close_step-done s e
step-done pump_seen s e = seen_step-done s.closer s e
step-done waited s e = waited_step-done s.closer s e

run-done :
    (acts : List Action) (s : ShellSession) → s.pump ≡ done → (run all_set acts s).calls ≡ s.calls
unfolding run Quiet
run-done [] s e = refl
run-done (a ∷ acts) s e = let (d, c) = step-done a s e in run-done acts (step all_set a s) d ∙ c

-- In whatever order a session with all its callbacks reads, ends and is closed: the callbacks are the
-- chunks that came, each once and in order, and then, only when the read pump has returned, exactly
-- one of exit and error, or neither if the session was closed. Once a Close has returned because the
-- pump was done, nothing is called back any more. Once the session is closed while its pump has not
-- begun to wait for the exit code, chunks are all that is called back.
pub run-started :
    (acts later : List Action)
    → let s = run all_set acts started in
      Called s.pump s.closed s.received s.calls
      × (s.closer ≡ returned → (run all_set later s).calls ≡ s.calls)
      × (IsMuted s
          → (chunks : List String) × ((run all_set later s).calls ≡ s.calls ++ map output chunks))
run-started acts later =
    let v = run-Inv acts started started-Inv in
    (
      v.called,
      λ e. run-done later (run all_set acts started) (v.seen e),
      run-IsMuted later (run all_set acts started),
    )
