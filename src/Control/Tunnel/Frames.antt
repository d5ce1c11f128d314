-- ===== src/Control/Tunnel/Frames.antt =====
-- Handle and the handlers of each frame, internal/control/shell_tunnel.go. A body that does not decode
-- is `none`. Decoding is the JSON library's; so the decoded body comes with the frame.
-- A handler runs to its end here; the steps of Control.Tunnel are its sections, which may interleave.
use inferia_worker.Common.{
  ℕ, String, Bool, true, false, Option, none, some, [], ◌∷◌, ◌++◌, ltb, if◌then◌else◌,
}
use inferia_worker.Control.Tunnel.{
  Kind, OpenBody, Opening, shell, logs, Frame, shell_error, logs_end, Tunnel, handle_open,
  finish_open, handle_close, handle_shell_input, handle_shell_resize,
}

pub record LogsOpenBody : Type 0 where
  pub stream_id : String
  pub deployment_id : String
  pub container_id : String

-- The frames of the control plane, the starter's answer with an open; those that only a worker sends;
-- and those that are not of the tunnel.
pub data Inbound : Type 0 where
  shell_open : Option OpenBody → Option String → Inbound
  shell_input : Option (String × String) → Inbound
  shell_resize : Option (String × ℕ × ℕ) → Inbound
  shell_close : Option String → Inbound
  logs_open : Option LogsOpenBody → Option String → Inbound
  logs_close : Option String → Inbound
  of_worker : Inbound
  other : Inbound

-- Both sections of an open with the start between them, when nothing else comes in between: the
-- session, if one started, is the next one.
unfoldable pub open_at_once : Tunnel → Kind → OpenBody → Option String → Tunnel
unfolding handle_open finish_open
open_at_once t k body answer =
    let t1 = handle_open t k body answer in
    let o : Opening = record { kind = k; stream = body.stream_id; session = t.next_session } in
    if ltb t.next_session t1.next_session then finish_open t1 o else t1

unfoldable pub handle_shell_open : Tunnel → OpenBody → Option String → Tunnel
unfolding open_at_once
handle_shell_open t body answer = open_at_once t shell body answer

unfoldable pub handle_logs_open : Tunnel → LogsOpenBody → Option String → Tunnel
unfolding open_at_once
handle_logs_open t body answer =
    open_at_once t logs
      (record {
        stream_id = body.stream_id;
        shell = "";
        user = "";
        deployment_id = body.deployment_id;
        container_id = body.container_id;
        cols = 0;
        rows = 0;
      })
      answer

unfoldable pub handle_shell_close : Tunnel → String → Tunnel
unfolding handle_close
handle_shell_close t stream = handle_close t shell stream

unfoldable pub handle_logs_close : Tunnel → String → Tunnel
unfolding handle_close
handle_logs_close t stream = handle_close t logs stream

abbrev sending : Tunnel → Frame → Tunnel × Bool
sending t f = (record t { sent = t.sent ++ f ∷ [] }, true)

-- The tunnel after the frame, and whether the frame was the tunnel's.
unfoldable pub handle : Tunnel → Inbound → Tunnel × Bool
unfolding handle_shell_open handle_logs_open handle_shell_close handle_logs_close handle_shell_input
    handle_shell_resize
handle t (shell_open none _) = sending t (shell_error "" "bad ShellOpen body")
handle t (shell_open (some body) answer) = (handle_shell_open t body answer, true)
handle t (shell_input none) = (t, true)
handle t (shell_input (some (stream, text))) = (handle_shell_input t stream text, true)
handle t (shell_resize none) = (t, true)
handle t (shell_resize (some (stream, cols, rows))) = (handle_shell_resize t stream cols rows, true)
handle t (shell_close none) = (t, true)
handle t (shell_close (some stream)) = (handle_shell_close t stream, true)
handle t (logs_open none _) = sending t (logs_end "" "bad LogsOpen body")
handle t (logs_open (some body) answer) = (handle_logs_open t body answer, true)
handle t (logs_close none) = (t, true)
handle t (logs_close (some stream)) = (handle_logs_close t stream, true)
handle t of_worker = (t, true)
handle t other = (t, false)
