-- ===== src/Control/Commands.antt =====
-- The commands of the control plane, `handle` of internal/control/channel.go after the tunnel: each
-- runs through the deduplication and is answered. Commands follow one another here; the code runs
-- each in a goroutine. The dispatcher is the interface Dispatcher, a record of two operations on its
-- state `S`. A body that does not decode is `none`.
pub mod Replies
use inferia_worker.Common.{ℕ, String, List, [], ◌∷◌, Option, none, some, Result, ok, err}
use inferia_worker.Control.Dedup.{Dedup, Outcome, run}

pub record CommandResultBody : Type 0 where
  pub in_reply_to : String
  pub status : String
  pub detail : String
  pub endpoint_url : String

pub record Dispatcher (S Load : Type 0) : Type 0 where
  pub load_model : Load → S → Result String × S
  pub unload_model : String → S → Option String × S

-- The frames: the two commands, and those that are passed over.
pub data Command (Load : Type 0) : Type 0 where
  load : Option Load → Command Load
  unload : Option String → Command Load
  hello ping : Command Load
  unknown : Command Load

-- The worker after a frame, and the reply.
pub record Handled (S : Type 0) : Type 0 where
  pub dedup : Dedup CommandResultBody
  pub state : S
  pub reply : Option CommandResultBody

unfoldable pub failed_reply : String → String → CommandResultBody
failed_reply id detail = record {
  in_reply_to = id;
  status = "failed";
  detail = detail;
  endpoint_url = "";
}

unfoldable pub ok_reply : String → String → CommandResultBody
ok_reply id endpoint = record {
  in_reply_to = id;
  status = "ok";
  detail = "";
  endpoint_url = endpoint;
}

unfoldable pub reply_to_load : String → Result String → CommandResultBody
unfolding failed_reply ok_reply
reply_to_load id (err m) = failed_reply id m
reply_to_load id (ok endpoint) = ok_reply id endpoint

unfoldable pub reply_to_unload : String → Option String → CommandResultBody
unfolding failed_reply ok_reply
reply_to_unload id (some m) = failed_reply id m
reply_to_unload id none = ok_reply id ""

module _ {S Load : Type 0} (d : Dispatcher S Load) where
  -- The functions that the deduplication runs.
  unfoldable pub run_load : String → Load → S → CommandResultBody × S
  unfolding reply_to_load
  run_load id body s = let (res, s') = d.load_model body s in (reply_to_load id res, s')

  unfoldable pub run_unload : String → String → S → CommandResultBody × S
  unfolding reply_to_unload
  run_unload id body s = let (e, s') = d.unload_model body s in (reply_to_unload id e, s')

  abbrev pub answered : Outcome CommandResultBody S → Handled S
  answered o = record { dedup = o.dedup; state = o.state; reply = some o.result }

  unfoldable pub handle_command :
      Dedup CommandResultBody → S → ℕ → String → Command Load → Handled S
  unfolding failed_reply run run_load run_unload
  handle_command q s now id (load none) = record {
    dedup = q;
    state = s;
    reply = some (failed_reply id "bad LoadModel body");
  }
  handle_command q s now id (load (some body)) = answered (run q now id (run_load id body) s)
  handle_command q s now id (unload none) = record {
    dedup = q;
    state = s;
    reply = some (failed_reply id "bad UnloadModel body");
  }
  handle_command q s now id (unload (some body)) = answered (run q now id (run_unload id body) s)
  handle_command q s now id hello = record { dedup = q; state = s; reply = none }
  handle_command q s now id ping = record { dedup = q; state = s; reply = none }
  handle_command q s now id unknown = record { dedup = q; state = s; reply = none }
