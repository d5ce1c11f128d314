-- ===== src/Control/Tunnel.antt =====
-- The table of shell and logs sessions of one connection, internal/control/shell_tunnel.go. The channel
-- handles each frame in a goroutine, so the steps here are the sections that a handler runs under
-- the mutex; an open is two of them, and its session starts in between. Sessions are numbered as they
-- start; what they are told is kept in order. A session's starter is the environment's: its answer
-- comes with the step.
pub mod Owned
pub mod Steps
pub mod Leak
pub mod Reopened
pub mod Frames
pub mod Delivery
use inferia_worker.Common.{
  ℕ, ◌+◌, String, List, [], ◌∷◌, ◌++◌, Bool, true, false, Option, none, some, ite, string_dec,
  if◌then◌else◌, ltb, ◌==◌, ◌||◌, Dict, lookup, insert, delete, string_key, ℕ_discrete,
}

pub data Kind : Type 0 where
  shell logs : Kind

pub Kind-discrete : Discrete Kind
Kind-discrete = hlevel

pub record OpenBody : Type 0 where
  pub stream_id : String
  pub shell : String
  pub user : String
  pub deployment_id : String
  pub container_id : String
  pub cols : ℕ
  pub rows : ℕ

-- The frames to the control plane: an error, an exit with its code, the end of logs.
pub data Frame : Type 0 where
  shell_error : String → String → Frame
  shell_exit : String → ℕ → String → Frame
  logs_end : String → String → Frame

-- A session that is being started: its configuration and whether it runs on the host.
pub record Spawn : Type 0 where
  pub kind : Kind
  pub body : OpenBody
  pub initial_cols : ℕ
  pub initial_rows : ℕ
  pub on_host : Bool

-- An open between its two sections, with the session started.
pub record Opening : Type 0 where
  pub kind : Kind
  pub stream : String
  pub session : ℕ

pub data Told : Type 0 where
  input : String → Told
  resize : ℕ → ℕ → Told

pub record Tunnel : Type 0 where
  pub tables : Kind → Dict String ℕ
  pub disposed : Bool
  pub openings : List Opening
  pub live : ℕ → Bool
  pub next_session : ℕ
  pub spawned : List Spawn
  pub told : List (ℕ × Told)
  pub sent : List Frame

unfoldable pub new_tunnel : Tunnel
new_tunnel = record {
  tables = λ k. [];
  disposed = false;
  openings = [];
  live = λ n. false;
  next_session = 0;
  spawned = [];
  told = [];
  sent = [];
}

-- A count that is not a uint16 reads as 0.
unfoldable pub uint16safe : ℕ → ℕ
uint16safe n = if ltb 65535 n then 0 else n

abbrev send : Tunnel → Frame → Tunnel
send t f = record t { sent = t.sent ++ f ∷ [] }

-- `sendError`, `sendLogsEnd`.
unfoldable pub refusal : Kind → String → String → Frame
refusal shell stream message = shell_error stream message
refusal logs stream message = logs_end stream message

abbrev pub with_table : (Kind → Dict String ℕ) → Kind → Dict String ℕ → Kind → Dict String ℕ
with_table ts k m j = ite (Kind-discrete k j) m (ts j)

-- `sess.Close()`.
abbrev pub close_session : ℕ → (ℕ → Bool) → ℕ → Bool
close_session h live n = ite (ℕ_discrete h n) false (live n)

abbrev pub missing_stream : Kind → String
missing_stream shell = "ShellOpen missing stream_id"
missing_stream logs = "LogsOpen missing stream_id"

-- A shell with no target runs on the host.
unfoldable pub goes_to_host : Kind → OpenBody → Bool
goes_to_host logs body = false
goes_to_host shell body =
    ite (string_dec body.deployment_id "") (ite (string_dec body.container_id "") true false) false

-- The starter's answer to an open that passed the checks: an error, or a session.
unfoldable pub start_session : Tunnel → Kind → OpenBody → Option String → Tunnel
unfolding uint16safe refusal goes_to_host
start_session t k body answer =
    let spawn : Spawn = record {
      kind = k;
      body = body;
      initial_cols = uint16safe body.cols;
      initial_rows = uint16safe body.rows;
      on_host = goes_to_host k body;
    } in
    let t1 = record t { spawned = t.spawned ++ spawn ∷ [] } in
    elim answer [
      | some e ↦ send t1 (refusal k body.stream_id e)
      | none ↦ record t1 {
        openings =
            record { kind = k; stream = body.stream_id; session = t.next_session } ∷ t.openings;
        live = λ n. ite (ℕ_discrete t.next_session n) true (t.live n);
        next_session = t.next_session + 1;
      }
    ]

-- The first section of an open, and the start.
unfoldable pub handle_open : Tunnel → Kind → OpenBody → Option String → Tunnel
unfolding start_session refusal
handle_open t k body answer =
    ite (string_dec body.stream_id "") (send t (refusal k "" (missing_stream k))) (
      if t.disposed
      then send t (refusal k body.stream_id "tunnel closed")
      else elim (lookup body.stream_id (t.tables k)) [
        | some h ↦ t
        | none ↦ start_session t k body answer
      ])

unfoldable pub without : ℕ → List Opening → List Opening
without h [] = []
without h (o ∷ os) = let rest = without h os in ite (ℕ_discrete o.session h) rest (o ∷ rest)

-- The second section: register the session, or close it if the tunnel is disposed.
unfoldable pub finish_open : Tunnel → Opening → Tunnel
unfolding without
finish_open t o =
    let t1 = record t { openings = without o.session t.openings } in
    if t.disposed then record t1 { live = close_session o.session t.live } else record t1 {
      tables = with_table t.tables o.kind (insert o.stream o.session (t.tables o.kind));
    }

unfoldable pub handle_close : Tunnel → Kind → String → Tunnel
handle_close t k stream = record t {
  tables = with_table t.tables k (delete stream (t.tables k));
  live = elim (lookup stream (t.tables k)) [ none ↦ t.live | some h ↦ close_session h t.live ];
}

-- The session of a shell that is told something, if the stream is known.
abbrev tell : Tunnel → String → Told → Tunnel
tell t stream what = record t {
  told = elim (lookup stream (t.tables shell)) [
    | none ↦ t.told
    | some h ↦ t.told ++ (h, what) ∷ []
  ];
}

unfoldable pub handle_shell_input : Tunnel → String → String → Tunnel
handle_shell_input t stream text = tell t stream (input text)

unfoldable pub handle_shell_resize : Tunnel → String → ℕ → ℕ → Tunnel
unfolding uint16safe
handle_shell_resize t stream cols rows = tell t stream (resize (uint16safe cols) (uint16safe rows))

-- A session ends by itself: OnExit, OnError and OnEnd drop the stream and send a frame.
unfoldable pub session_ends : Tunnel → Kind → String → ℕ → Frame → Tunnel
session_ends t k stream h frame =
    send
      (record t {
        live = close_session h t.live;
        tables = with_table t.tables k (delete stream (t.tables k));
      })
      frame

unfoldable pub holds : ℕ → Dict String ℕ → Bool
holds h [] = false
holds h ((_, g) ∷ m) = let rest = holds h m in ite (ℕ_discrete g h) true rest

unfoldable pub close_all : Tunnel → Tunnel
unfolding holds
close_all t = if t.disposed then t else record t {
  disposed = true;
  tables = λ k. [];
  live = λ n. if holds n (t.tables shell) || holds n (t.tables logs) then false else t.live n;
}
