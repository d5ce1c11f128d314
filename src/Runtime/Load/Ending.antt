-- ===== src/Runtime/Load/Ending.antt =====
-- LoadModel, stage by stage: how each ends.
use inferia_worker.Common.{
  ◌≡◌, refl, String, true, Option, none, some, lookup, string_key, inl, inr, subst, Bool-cases,
  Option-cases, arith, ◌==◌, ⊎_map, Result-cases, ◌&◌, itoa, insert, suc,
}
use inferia_worker.Recipes.Plan.{Plan}
use inferia_worker.Docker.Spec.{ContainerSpec, build_container_spec}
use inferia_worker.Runtime.Ports.{next}
use inferia_worker.Runtime.Host.{Host, HostLaws, request, Within}
use inferia_worker.Runtime.State.{
  Runtime, Deployment, running, status_of, endpoint_url, set_state, starting, pulling,
  set_container_id, append_progress, append_lines, progress_started, state_key,
  container_for_deployment, get_or_create, update, at_world,
}
use inferia_worker.Runtime.State.Updates.{
  Known, lookup-update, update-Keeps, append_lines-Keeps, Keeps, set_state-Keeps,
  append_progress-Keeps, trans-Keeps, progress_started-Keeps, set_container_id-Keeps,
  get_or_create-Known, get_or_create-world,
}
use inferia_worker.Runtime.Load.{
  load_model, readiness_timeout, load_finish, load_ollama, load_ready, load_start, load_spec,
  note_stale, load_create, load_pull, load_port, is_loaded, wait_ready,
}
use inferia_worker.Runtime.Load.Cleanup.{
  Works, Beside, Ended, failed_clean, serving, Within-Beside, Keeps-Within, Keeps-Beside,
  fail-Ended, fail_logged-Ended, remove-Within, stop_and_remove-Within, wait_loop-Within,
}

module _ (h : Host) (laws : HostLaws h) (works : Works h laws) where
  open h use {W}
  open laws use {
    pull_makes, remove_by_name_makes, start_makes, stop_makes, remove_makes, remove_image_makes,
    ollama_makes, probe_makes, pause_makes, create_failed, create_made, removed,
  }

  load_finish-Ended :
      {w : W} (r : Runtime W) (id : String) (plan : Plan) (cid endpoint : String)
      → Known r id
      → Beside h laws w cid r.world
      → Ended h laws w id (load_finish h r id plan cid endpoint)
  unfolding load_finish set_state status_of container_for_deployment endpoint_url
  load_finish-Ended r id plan cid endpoint (d, e) b =
      let r1 = at_world r (h.remove_image request plan.image r.world).0 in
      let f : Deployment → Deployment = λ d. record d {
        container_id = cid;
        host_port = plan.host_port;
        endpoint_url = endpoint;
        plan = plan;
      } in
      let r2 : Runtime W = update r1 id f in
      let t = h.now r2.world in
      let r3 : Runtime W = set_state r2 t id running in
      let g : Deployment → Deployment =
        λ d. record d { state = running; entered_at = insert running t d.entered_at } in
      let e3 : lookup id r3.deployments ≡ some (g (f d)) =
        lookup-update r2 id g (f d) (lookup-update r1 id f d e) in
      serving r3 cid endpoint (rw (status_of, e3) refl) (rw (container_for_deployment, e3) refl)
        (rw (endpoint_url, e3) refl)
        (Keeps-Beside h laws (trans-Keeps (update-Keeps r1 id f) (set_state-Keeps r2 t id running))
          (Within-Beside h laws (remove_image_makes request plan.image r.world) b))

  load_ollama-Ended :
      {w : W} (r : Runtime W) (id : String) (plan : Plan) (cid endpoint : String)
      → Known r id
      → Beside h laws w cid r.world
      → Ended h laws w id (load_ollama h r id plan cid endpoint)
  unfolding load_ollama
  load_ollama-Ended r id plan cid endpoint k b =
      let v = (h.ollama_pull_if_needed request plan endpoint r.cfg.pull_timeout r.world).0 in
      let b' =
        Within-Beside h laws (ollama_makes request plan endpoint r.cfg.pull_timeout r.world) b in
      elim (Option-cases
        (h.ollama_pull_if_needed request plan endpoint r.cfg.pull_timeout r.world).1) [
          | inl e ↦ rw (load_ollama, e) (load_finish-Ended (at_world r v) id plan cid endpoint k b')
          | inr (m, e) ↦
              rw (load_ollama, e)
                (fail-Ended h laws _ id _ (stop_and_remove-Within h laws works v b'))
        ]

  load_ready-Ended :
      {w : W} (r : Runtime W) (id : String) (plan : Plan) (cid : String)
      → Known r id
      → Beside h laws w cid r.world
      → Ended h laws w id (load_ready h r id plan cid)
  unfolding load_ready wait_ready
  load_ready-Ended r id plan cid k b =
      let endpoint = "http://" & r.cfg.advertise_host & ":" & itoa plan.host_port in
      let t = readiness_timeout r plan in
      let v = (wait_ready h r (endpoint & plan.ready_path) t).0 in
      let b' : Beside h laws _ cid v =
        Within-Beside h laws (wait_loop-Within h laws (suc t) _ _ _ r.world) b in
      elim (Bool-cases (wait_ready h r (endpoint & plan.ready_path) t).1) [
        | inl e ↦ rw (load_ready, e) (load_ollama-Ended (at_world r v) id plan cid endpoint k b')
        | inr e ↦
            rw (load_ready, e) (fail-Ended h laws _ id _ (stop_and_remove-Within h laws works v b'))
      ]

  load_start-Ended :
      {w : W} (r : Runtime W) (id : String) (plan : Plan) (cid : String)
      → Known r id
      → Beside h laws w cid r.world
      → Ended h laws w id (load_start h r id plan cid)
  unfolding load_start
  load_start-Ended r id plan cid k b =
      let r1 = set_container_id r id cid in
      let r2 =
        append_progress (set_state r1 (h.now r1.world) id starting) id "Starting container…" in
      let k2 : Keeps r r2 id =
        trans-Keeps (set_container_id-Keeps r id cid)
          (trans-Keeps (set_state-Keeps r1 _ id starting) (append_progress-Keeps _ id _)) in
      let v = (h.start request cid r2.world).0 in
      let b2 = Within-Beside h laws (start_makes request cid r2.world) (Keeps-Beside h laws k2 b) in
      let r3 = append_progress (at_world r2 v) id "Container started. Streaming container logs…" in
      let k3 : Keeps (at_world r2 v) (progress_started r3 id cid) id =
        trans-Keeps (append_progress-Keeps _ id _) (progress_started-Keeps r3 id cid) in
      elim (Option-cases (h.start request cid r2.world).1) [
        | inl e ↦
            rw (load_start, e)
              (load_ready-Ended _ id plan cid (k3.known (k2.known k)) (Keeps-Beside h laws k3 b2))
        | inr (m, e) ↦
            rw (load_start, e) (fail_logged-Ended h laws _ id _ m (remove-Within h laws works v b2))
      ]

  note_stale-Keeps :
      (r : Runtime W) (id name : String) (e : Option String) → Keeps r (note_stale h r id name e) id
  unfolding note_stale
  note_stale-Keeps r id name none = record { known = λ k. k; same_world = refl }
  note_stale-Keeps r id name (some m) = append_progress-Keeps r id _

  load_spec-Ended :
      {w : W} (r : Runtime W) (id : String) (plan : Plan) (spec : ContainerSpec)
      → Known r id
      → Within h w r.world
      → Ended h laws w id (load_spec h r id plan spec)
  unfolding load_spec
  load_spec-Ended {w} r id plan spec k b =
      let v = (h.remove_by_name request spec.name r.world).0 in
      let r0 = at_world r v in
      let b0 : Within h w v = λ c p. b c (remove_by_name_makes request spec.name r.world c p) in
      let r1 = note_stale h r0 id spec.name (h.remove_by_name request spec.name r.world).1 in
      let k1 : Keeps r0 r1 id = note_stale-Keeps r0 id spec.name _ in
      let b1 : Within h w r1.world = Keeps-Within h laws k1 b0 in
      elim (Result-cases (h.create request spec r1.world).1) [
        | inl (cid, e) ↦
            rw (load_spec, e)
              (load_start-Ended _ id plan cid (k1.known k)
                (λ c p. ⊎_map (λ q. q) (b1 c) (create_made request spec r1.world cid e c p)))
        | inr (m, e) ↦
            rw (load_spec, e)
              (fail_logged-Ended h laws _ id _ m
                (λ c p. b1 c (create_failed request spec r1.world m e c p)))
      ]

  load_create-Ended :
      {w : W} (r : Runtime W) (id : String) (plan : Plan)
      → Known r id
      → Within h w r.world
      → Ended h laws w id (load_create h r id plan)
  unfolding load_create
  load_create-Ended r id plan k b = elim (Result-cases (build_container_spec plan r.cfg.network)) [
    | inl (spec, e) ↦ rw (load_create, e) (load_spec-Ended r id plan spec k b)
    | inr (m, e) ↦ rw (load_create, e) (fail_logged-Ended h laws r id _ m b)
  ]

  load_pull-Ended :
      {w : W} (r : Runtime W) (id : String) (plan : Plan)
      → Known r id
      → Within h w r.world
      → Ended h laws w id (load_pull h r id plan)
  unfolding load_pull
  load_pull-Ended r id plan k b =
      let r0 = set_state r (h.now r.world) id pulling in
      let r1 = append_progress r0 id ("Pulling image " & plan.image & " …") in
      let k1 : Keeps r r1 id =
        trans-Keeps (set_state-Keeps r _ id pulling) (append_progress-Keeps r0 id _) in
      let v = (h.pull request plan.image r1.world).0 in
      let lines = (h.pull request plan.image r1.world).1 in
      let b1 : Within h _ v =
        λ c p. Keeps-Within h laws k1 b c (pull_makes request plan.image r1.world c p) in
      let r2 = append_lines (at_world r1 v) id lines in
      let k2 : Keeps (at_world r1 v) r2 id = append_lines-Keeps (at_world r1 v) id lines in
      let k3 = append_progress-Keeps r2 id "Image ready. Creating container…" in
      elim (Option-cases (h.pull request plan.image r1.world).2) [
        | inl e ↦
            rw (load_pull, e)
              (load_create-Ended _ id plan (k3.known (k2.known (k1.known k)))
                (Keeps-Within h laws k3 (Keeps-Within h laws k2 b1)))
        | inr (m, e) ↦
            rw (load_pull, e) (fail_logged-Ended h laws r2 id _ m (Keeps-Within h laws k2 b1))
      ]

  load_port-Ended :
      {w : W} (r : Runtime W) (id : String) (plan : Plan)
      → Known r id
      → Within h w r.world
      → Ended h laws w id (load_port h r id plan)
  unfolding load_port
  load_port-Ended r id plan k b = elim (Bool-cases (plan.host_port == 0)) [
    | inr e ↦ rw (load_port, e) (load_pull-Ended r id plan k b)
    | inl e ↦ elim (Option-cases (next r.host_ports).1) [
      | inl e' ↦ rw (load_port, e, e') (failed_clean r _ b)
      | inr (port, e') ↦
          rw (load_port, e, e') (load_pull-Ended _ id (record plan { host_port = port }) k b)
    ]
  ]

  is_loaded-running :
      (r : Runtime W) (id : String) → is_loaded h r id ≡ true → status_of r id ≡ running
  unfolding is_loaded
  is_loaded-running r id e = ground arith

  -- However LoadModel ends, it leaves no container behind: if it fails, whatever the host did, each
  -- container of the host was there before; if it succeeds, the deployment is running at the
  -- endpoint returned, and the only container that may be new is the one recorded for it. The
  -- host obeys HostLaws (only `create` makes containers), and the removals of the cleanup work.
  pub load_model-Ended :
      (r : Runtime W) (id : String) (plan : Plan) → Ended h laws r.world id (load_model h r id plan)
  unfolding load_model is_loaded
  load_model-Ended r id plan =
      let r1 = get_or_create r id in
      let b : Within h r.world r1.world =
        λ c p. subst (λ x. h.present x c ≡ true) (get_or_create-world r id) p in
      elim (Bool-cases (is_loaded h r1 id)) [
        | inr e ↦ rw (load_model, e) (load_port-Ended r1 id plan (get_or_create-Known r id) b)
        | inl e ↦
            rw (load_model, e)
              (serving r1 _ _ (is_loaded-running r1 id e) refl refl (λ c p. inr (b c p)))
      ]
