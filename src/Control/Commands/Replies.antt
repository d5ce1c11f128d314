-- ===== src/Control/Commands/Replies.antt =====
-- A command that is sent again, internal/control/channel.go and dedup.go.
use inferia_worker.Common.{
  ℕ, ◌+◌, ◌<◌, ◌≡◌, ◌≢◌, refl, ap, sym, ◌∙◌, String, List, Option, none, some, Result, ok, err,
}
use inferia_worker.Control.Dedup.{Dedup, cached, run}
use inferia_worker.Control.Dedup.Window.{Call, run_all, Before, miss-run, run_replays}
use inferia_worker.Control.Commands.{
  CommandResultBody, Dispatcher, Command, load, unload, Handled, reply_to_load, reply_to_unload,
  failed_reply, ok_reply, run_load, run_unload, answered, handle_command,
}

module _ {S Load : Type 0} (d : Dispatcher S Load) where
  -- The two commands, with a body.
  pub data IsCommand : Command Load → Type 0 where
    loads : (body : Load) → IsCommand (load (some body))
    unloads : (id : String) → IsCommand (unload (some id))

  -- The function that a command runs.
  abbrev action : String → {c : Command Load} → IsCommand c → S → CommandResultBody × S
  action id (loads body) = run_load d id body
  action id (unloads body) = run_unload d id body

  handle-action :
      (q : Dedup CommandResultBody) (s : S) (now : ℕ) (id : String) {c : Command Load}
      (i : IsCommand c)
      → handle_command d q s now id c ≡ answered d (run q now id (action id i) s)
  unfolding handle_command
  handle-action q s now id (loads body) = refl
  handle-action q s now id (unloads body) = refl

  -- The reply to a load and to an unload, by the dispatcher's answer.
  pub LoadReply : String → Result String → CommandResultBody → Type 0
  LoadReply id (ok endpoint) r =
      (r.in_reply_to ≡ id) × (r.status ≡ "ok") × (r.endpoint_url ≡ endpoint)
  LoadReply id (err m) r = (r.in_reply_to ≡ id) × (r.status ≡ "failed") × (r.detail ≡ m)

  pub UnloadReply : String → Option String → CommandResultBody → Type 0
  UnloadReply id none r = (r.in_reply_to ≡ id) × (r.status ≡ "ok")
  UnloadReply id (some m) r = (r.in_reply_to ≡ id) × (r.status ≡ "failed") × (r.detail ≡ m)

  -- The dispatcher has run the command, once, and what it answered is the reply.
  pub Executed : String → S → {c : Command Load} → IsCommand c → Handled S → Type 0
  unfolding LoadReply UnloadReply
  Executed id s (loads body) x =
      (r : CommandResultBody) × (x.reply ≡ some r)
      × LoadReply id (d.load_model body s).0 r
      × (x.state ≡ (d.load_model body s).1)
  Executed id s (unloads target) x =
      (r : CommandResultBody) × (x.reply ≡ some r)
      × UnloadReply id (d.unload_model target s).0 r
      × (x.state ≡ (d.unload_model target s).1)

  load_reply : (id : String) (o : Result String) → LoadReply id o (reply_to_load id o)
  unfolding LoadReply reply_to_load failed_reply ok_reply
  load_reply id (ok endpoint) = (refl, refl, refl)
  load_reply id (err m) = (refl, refl, refl)

  unload_reply : (id : String) (o : Option String) → UnloadReply id o (reply_to_unload id o)
  unfolding UnloadReply reply_to_unload failed_reply ok_reply
  unload_reply id none = (refl, refl)
  unload_reply id (some m) = (refl, refl, refl)

  action-Executed :
      (id : String) (s : S) {c : Command Load} (i : IsCommand c) (x : Handled S)
      → x.reply ≡ some (action id i s).0
      → x.state ≡ (action id i s).1
      → Executed id s i x
  unfolding Executed run_load run_unload
  action-Executed id s (loads body) x a b = (_, a, load_reply id (d.load_model body s).0, b)
  action-Executed id s (unloads target) x a b =
      (_, a, unload_reply id (d.unload_model target s).0, b)

  -- Commands that follow one another, so that the first is answered before the next comes. A command
  -- with an id that is not in the window is run by the dispatcher, and the reply has its id and says
  -- what the dispatcher answered: the endpoint, or the error. Whatever commands come in between, a
  -- retry of the id before the first run's start plus ttl, when those in between come before it too,
  -- gets the same reply and changes nothing: the dispatcher is not called again.
  pub handle_command-retry :
      (q : Dedup CommandResultBody) (s : S) (t0 t : ℕ) (id : String) (c c' : Command Load)
      (between : List (Call CommandResultBody S)) (i : IsCommand c) (i' : IsCommand c')
      → id ≢ ""
      → cached q t0 id ≡ none
      → Before (t0 + q.ttl) between
      → t < t0 + q.ttl
      → let first = handle_command d q s t0 id c in
        let later = run_all first.dedup first.state between in
        Executed id s i first
        × (handle_command d later.0 later.1 t id c'
            ≡ record { dedup = later.0; state = later.1; reply = first.reply })
  handle_command-retry q s t0 t id c c' between i i' named miss b l =
      let fn = action id i in
      let first = run q t0 id fn s in
      let later = run_all first.dedup first.state between in
      let missed = miss-run q t0 id fn s named miss in
      let same : first.result ≡ (fn s).0 = ap (λ o. o.result) missed in
      (
        action-Executed id s i (handle_command d q s t0 id c)
            (ap (λ x. x.reply) (handle-action q s t0 id i) ∙ ap some same)
            (ap (λ x. x.state) (handle-action q s t0 id i) ∙ ap (λ o. o.state) missed),
        rw (handle-action q s t0 id i) (
            handle-action later.0 later.1 t id i'
            ∙ ap (λ o. answered d o)
                (run_replays q s t0 t id fn (action id i') between named miss b l)
            ∙ ap (λ x. record { dedup = later.0; state = later.1; reply = some x }) (sym same)),
      )
