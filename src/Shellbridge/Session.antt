-- ===== src/Shellbridge/Session.antt =====
-- internal/shellbridge/shell.go: a shell session. The read pump is a goroutine of its own, so the
-- steps are its calls and those of Close, in any order; what the transport answers comes with the
-- step. A chunk is not nil but may be empty.
pub mod Callbacks
pub mod Muted
pub mod Runs
use inferia_worker.Common.{
  ℕ, String, List, [], ◌∷◌, ◌++◌, Bool, true, false, not, ◌&&◌, Option, none, some, Result, ok, err,
  if◌then◌else◌, ite, string_dec, ltb, ◌&◌,
}

-- An error, of which io.EOF is told apart.
pub data Fault : Type 0 where
  eof : Fault
  broken : String → Fault

-- An exit code; the code -1 stands for one that is not known.
pub data ExitCode : Type 0 where
  unknown : ExitCode
  exited : ℕ → ExitCode

pub data Callback : Type 0 where
  output : String → Callback
  exit : ExitCode → String → Callback
  error : String → Callback

-- Which callbacks are not nil.
pub record Handlers : Type 0 where
  pub on_output : Bool
  pub on_exit : Bool
  pub on_error : Bool

-- Where the read pump is: before a read, with an error before it looks at `closed`, waiting for the
-- exit code, or returned.
pub data Pump : Type 0 where
  reading done : Pump
  failed reaping : Fault → Pump

-- Where the first call of Close is: not made, waiting for the pump, returned because the pump is
-- done, or returned after two seconds.
pub data Closer : Type 0 where
  idle waiting returned timed_out : Closer

-- `received` keeps the chunks that the transport has given, `calls` the callbacks that were called.
pub record ShellSession : Type 0 where
  pub closed : Bool
  pub pump : Pump
  pub closer : Closer
  pub received : List String
  pub calls : List Callback

pub data Action : Type 0 where
  reads : String → Option Fault → Action
  looks : Action
  reaps : ExitCode → Option Fault → Action
  closes : Action
  pump_seen waited : Action

abbrev pub started : ShellSession
started = record { closed = false; pump = reading; closer = idle; received = []; calls = [] }

abbrev call : Callback → ShellSession → ShellSession
call c s = record s { calls = s.calls ++ c ∷ [] }

abbrev pub after_read : Option Fault → Pump
after_read none = reading
after_read (some f) = failed f

-- `rw.Read`, and the callback for a chunk that is not empty.
unfoldable pub read : Handlers → String → Option Fault → ShellSession → ShellSession
read cbs chunk fault s =
    let s1 : ShellSession = record s { pump = after_read fault } in
    ite (string_dec chunk "") s1 (record s1 {
      received = s.received ++ chunk ∷ [];
      calls = if cbs.on_output then s.calls ++ output chunk ∷ [] else s.calls;
    })

abbrev is_eof : Fault → Bool
is_eof eof = true
is_eof (broken m) = false

abbrev pub reason : Fault → String
reason eof = ""
reason (broken m) = m

abbrev pub fault_text : Fault → String
fault_text eof = "EOF"
fault_text (broken m) = m

-- The exit code could not be had, and neither error is the end of the stream.
abbrev pub is_hard : Fault → Option Fault → Bool
is_hard rerr none = false
is_hard rerr (some werr) = not (is_eof werr) && not (is_eof rerr)

-- The callback that ends the session.
unfoldable pub ending : Handlers → Fault → ExitCode → Option Fault → List Callback
ending cbs rerr code werr =
    if is_hard rerr werr && cbs.on_error
    then error ("shell read: " & fault_text rerr) ∷ []
    else if cbs.on_exit
    then exit code (reason rerr) ∷ []
    else []

abbrev pub is_done : Pump → Bool
is_done done = true
is_done p = false

-- A step that the session is not ready for changes nothing.
unfoldable pub read_step : Handlers → String → Option Fault → Pump → ShellSession → ShellSession
unfolding read
read_step cbs chunk fault reading s = read cbs chunk fault s
read_step cbs chunk fault p s = s

-- `if s.closed.Load() { return }`.
unfoldable pub look_step : Pump → ShellSession → ShellSession
look_step (failed f) s = record s { pump = if s.closed then done else reaping f }
look_step p s = s

unfoldable pub reap_step : Handlers → ExitCode → Option Fault → Pump → ShellSession → ShellSession
unfolding ending
reap_step cbs code werr (reaping f) s = record s {
  pump = done;
  calls = s.calls ++ ending cbs f code werr;
}
reap_step cbs code werr p s = s

-- The compare-and-swap of Close.
unfoldable pub close_step : ShellSession → ShellSession
close_step s = if s.closed then s else record s { closed = true; closer = waiting }

-- The two cases of the select of Close.
unfoldable pub seen_step : Closer → ShellSession → ShellSession
seen_step waiting s = if is_done s.pump then record s { closer = returned } else s
seen_step c s = s

unfoldable pub waited_step : Closer → ShellSession → ShellSession
waited_step waiting s = record s { closer = timed_out }
waited_step c s = s

unfoldable pub step : Handlers → Action → ShellSession → ShellSession
unfolding read_step look_step reap_step close_step seen_step waited_step
step cbs (reads chunk fault) s = read_step cbs chunk fault s.pump s
step cbs looks s = look_step s.pump s
step cbs (reaps code werr) s = reap_step cbs code werr s.pump s
step cbs closes s = close_step s
step cbs pump_seen s = seen_step s.closer s
step cbs waited s = waited_step s.closer s

unfoldable pub run : Handlers → List Action → ShellSession → ShellSession
unfolding step
run cbs [] s = s
run cbs (a ∷ acts) s = run cbs acts (step cbs a s)

-- WriteInput and Resize: what is passed to the transport, or an error.
unfoldable pub pass_on : ShellSession → Option String → Option String
pass_on s sent = if s.closed then some "shellbridge: session closed" else sent
