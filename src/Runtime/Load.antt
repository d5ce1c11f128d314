-- ===== src/Runtime/Load.antt =====
-- LoadModel and UnloadModel of internal/runtime/runtime.go, and the wait for readiness. Each stage
-- of LoadModel is a function; an early return is a stage that does not call the next. Calls follow
-- one another, so the locks are left out.
pub mod Waiting
pub mod Cleanup
pub mod Ending
pub mod Again
pub mod Unloading
use inferia_worker.Common.{
  ℕ, zero, suc, ◌+◌, String, List, [], ◌∷◌, Bool, true, false, Option, none, some, Result, ok, err,
  ite, string_dec, if◌then◌else◌, ◌==◌, ltb, ◌&◌, itoa, Dict, lookup, insert, string_key,
}
use inferia_worker.Recipes.Plan.{Plan}
use inferia_worker.Docker.Spec.{ContainerSpec, build_container_spec}
use inferia_worker.Runtime.Ports.{next}
use inferia_worker.Runtime.Host.{Host, Ctx, request, cleanup}
use inferia_worker.Runtime.State.{
  Runtime, Deployment, State, State-discrete, absent, pulling, starting, running, stopping, failed,
  status_of, endpoint_url, container_for_deployment, get_or_create, set_state, set_container_id,
  drop_deployment, append_progress, append_lines, progress_started, progress_failed, update,
  at_world,
}

unfoldable pub readiness_timeout : {W : Type 0} → Runtime W → Plan → ℕ
readiness_timeout r plan =
    if ltb 0 plan.readiness_timeout then plan.readiness_timeout else r.cfg.readiness_timeout

module _ (h : Host) where
  open h use {W}

  -- The loop of `waitReady`; the fuel is the rounds left, and `none` means that it ran out.
  unfoldable pub wait_loop : ℕ → String → ℕ → ℕ → W → W × Option Bool
  wait_loop zero url deadline poll w = (w, none)
  wait_loop (suc fuel) url deadline poll w = elim (ltb (h.now w) deadline) [
    | false ↦ (w, some false)
    | true ↦
        let (w', up) = h.probe url w in
        elim up [
          | true ↦ (w', some true)
          | false ↦
              let (w'', on) = h.pause poll w' in
              elim on [ true ↦ wait_loop fuel url deadline poll w'' | false ↦ (w'', some false) ]
        ]
  ]

  unfoldable pub wait_ready : Runtime W → String → ℕ → W × Bool
  wait_ready r url timeout =
      let (w, result) =
        wait_loop (suc timeout) url (h.now r.world + timeout) r.cfg.readiness_poll_interval
          r.world in
      (w, elim result [ none ↦ false | some ready ↦ ready ])

  abbrev now_of : Runtime W → ℕ
  now_of r = h.now r.world

  -- `setState(id, StateFailed); drop(id)`, and the error.
  unfoldable pub fail : Runtime W → String → String → Runtime W × Result String
  fail r id message = (drop_deployment (set_state r (now_of r) id failed) id, err message)

  -- The same after a line in the progress log, which ends it.
  unfoldable pub fail_logged : Runtime W → String → String → String → Runtime W × Result String
  unfolding fail
  fail_logged r id stage e =
      fail (progress_failed (append_progress r id ("Failed: " & stage & ": " & e)) id) id
        (stage & ": " & e)

  -- Best-effort teardown under a fresh context: stop and remove.
  unfoldable pub stop_and_remove : String → W → W
  stop_and_remove cid w = (h.remove cleanup cid (h.stop cleanup cid w).0).0

  unfoldable pub load_finish :
      Runtime W → String → Plan → String → String → Runtime W × Result String
  load_finish r id plan cid endpoint =
      let r1 = at_world r (h.remove_image request plan.image r.world).0 in
      let r2 = update r1 id (λ d. record d {
        container_id = cid;
        host_port = plan.host_port;
        endpoint_url = endpoint;
        plan = plan;
      }) in
      (set_state r2 (now_of r2) id running, ok endpoint)

  unfoldable pub load_ollama :
      Runtime W → String → Plan → String → String → Runtime W × Result String
  unfolding load_finish fail stop_and_remove
  load_ollama r id plan cid endpoint =
      let (w, e) = h.ollama_pull_if_needed request plan endpoint r.cfg.pull_timeout r.world in
      elim e [
        | some m ↦ fail (at_world r (stop_and_remove cid w)) id ("ollama pull-after-ready: " & m)
        | none ↦ load_finish (at_world r w) id plan cid endpoint
      ]

  unfoldable pub load_ready : Runtime W → String → Plan → String → Runtime W × Result String
  unfolding load_ollama fail stop_and_remove wait_ready
  load_ready r id plan cid =
      let endpoint = "http://" & r.cfg.advertise_host & ":" & itoa plan.host_port in
      let (w, ready) = wait_ready r (endpoint & plan.ready_path) (readiness_timeout r plan) in
      if ready
      then load_ollama (at_world r w) id plan cid endpoint
      else fail (at_world r (stop_and_remove cid w)) id "readiness probe timed out"

  unfoldable pub load_start : Runtime W → String → Plan → String → Runtime W × Result String
  unfolding load_ready fail_logged
  load_start r id plan cid =
      let r1 = set_container_id r id cid in
      let r2 = append_progress (set_state r1 (now_of r1) id starting) id "Starting container…" in
      let (w, e) = h.start request cid r2.world in
      elim e [
        | some m ↦ fail_logged (at_world r2 (h.remove cleanup cid w).0) id "start" m
        | none ↦
            let r3 =
              append_progress (at_world r2 w) id "Container started. Streaming container logs…" in
            load_ready (progress_started r3 id cid) id plan cid
      ]

  -- The line on a stale container that could not be removed.
  unfoldable pub note_stale : Runtime W → String → String → Option String → Runtime W
  note_stale r id name none = r
  note_stale r id name (some m) =
      append_progress r id ("Note: could not clear stale container " & name & ": " & m)

  unfoldable pub load_spec : Runtime W → String → Plan → ContainerSpec → Runtime W × Result String
  unfolding load_start fail_logged note_stale
  load_spec r id plan spec =
      let (w, e) = h.remove_by_name request spec.name r.world in
      let r1 = note_stale (at_world r w) id spec.name e in
      let (w', made) = h.create request spec r1.world in
      elim made [
        | err m ↦ fail_logged (at_world r1 w') id "create" m
        | ok cid ↦ load_start (at_world r1 w') id plan cid
      ]

  unfoldable pub load_create : Runtime W → String → Plan → Runtime W × Result String
  unfolding load_spec fail_logged build_container_spec
  load_create r id plan = elim (build_container_spec plan r.cfg.network) [
    | err m ↦ fail_logged r id "spec" m
    | ok spec ↦ load_spec r id plan spec
  ]

  unfoldable pub load_pull : Runtime W → String → Plan → Runtime W × Result String
  unfolding load_create fail_logged
  load_pull r id plan =
      let r1 =
        append_progress (set_state r (now_of r) id pulling) id
          ("Pulling image " & plan.image & " …") in
      let (w, lines, e) = h.pull request plan.image r1.world in
      let r2 = append_lines (at_world r1 w) id lines in
      elim e [
        | some m ↦ fail_logged r2 id "pull" m
        | none ↦ load_create (append_progress r2 id "Image ready. Creating container…") id plan
      ]

  -- The recipe's port, or the next one of the allocator.
  unfoldable pub load_port : Runtime W → String → Plan → Runtime W × Result String
  unfolding load_pull
  load_port r id plan =
      let (ports, p) = next r.host_ports in
      elim (plan.host_port == 0) [
        | false ↦ load_pull r id plan
        | true ↦ elim p [
          | none ↦ (r, err "port allocation: port range exhausted")
          | some port ↦
              load_pull (record r { host_ports = ports }) id (record plan { host_port = port })
        ]
      ]

  -- Whether the deployment is up, so that a load has nothing to do.
  unfoldable pub is_loaded : Runtime W → String → Bool
  is_loaded r id =
      ite (State-discrete (status_of r id) running)
        (ite (string_dec (endpoint_url r id) "") false true) false

  unfoldable pub load_model : Runtime W → String → Plan → Runtime W × Result String
  unfolding load_port is_loaded
  load_model r id plan =
      let r1 = get_or_create r id in
      if is_loaded r1 id then (r1, ok (endpoint_url r1 id)) else load_port r1 id plan

  -- `UnloadModel`: the error of a stop or a removal, which leaves the deployment stopping.
  unfoldable pub unload_container : Runtime W → String → String → Runtime W × Option String
  unload_container r id cid =
      let (w, e) = h.stop request cid r.world in
      elim e [
        | some m ↦ (at_world r w, some ("stop: " & m))
        | none ↦
            let (w', e') = h.remove request cid w in
            elim e' [
              | some m ↦ (at_world r w', some ("remove: " & m))
              | none ↦ (drop_deployment (at_world r w') id, none)
            ]
      ]

  unfoldable pub unload_model : Runtime W → String → Runtime W × Option String
  unfolding unload_container
  unload_model r id = elim (lookup id r.deployments) [
    | none ↦ (r, none)
    | some d ↦
        let r1 = set_state r (now_of r) id stopping in
        ite (string_dec d.container_id "") (drop_deployment r1 id, none)
          (unload_container r1 id d.container_id)
  ]
