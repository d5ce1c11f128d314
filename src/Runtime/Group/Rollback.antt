-- ===== src/Runtime/Group/Rollback.antt =====
-- What a group's load leaves on the host: LoadDeploymentGroup and rollbackGroup of
-- internal/runtime/runtime.go.
use inferia_worker.Common.{
  List-cases, ℕ, suc, ◌≡◌, ◌≢◌, sym, ap, ◌∙◌, String, List, [], ◌∷◌, true, none, some, Result, ok,
  err, ite, string_dec, ◌⊎◌, inl, inr, ⊎_map, Option-cases, Result-cases, Bool-cases, arith, ◌&◌,
  itoa, Dict, lookup, insert, string_key, lookup-insert,
}
use inferia_worker.Recipes.Plan.{Plan, ContainerPlan, DeploymentPlan, to_plan}
use inferia_worker.Docker.Spec.{build_container_spec}
use inferia_worker.Runtime.Ports.{PortAllocator, next}
use inferia_worker.Runtime.Host.{Host, HostLaws, request, Within}
use inferia_worker.Runtime.State.{ContainerInfo, DeploymentGroup, Runtime, at_world}
use inferia_worker.Runtime.Load.{wait_ready}
use inferia_worker.Runtime.Load.Cleanup.{
  Works, Beside, Within-Beside, remove-Within, stop_and_remove-Within, wait_loop-Within,
}
use inferia_worker.Runtime.Group.{
  or_vllm, new_group, start_created, create_and_start_container, remove_all, rollback_group,
  start_replicas, load_decode, load_prefill, load_deployment_group,
}

-- The container is one of the replicas.
unfoldable pub Listed : List ContainerInfo → String → Type 0
Listed [] c = ⊥
Listed (ci ∷ l) c = (c ≡ ci.container_id) ⊎ Listed l c

module _ (h : Host) (laws : HostLaws h) (works : Works h laws) where
  open h use {W}
  open laws use {
    stop_makes, start_makes, remove_makes, create_made, create_failed, removed, remove_image_makes,
    pull_makes,
  }

  -- One replica: the only new container is the one returned.
  abbrev OneMore : W → W × Result String → Type 0
  OneMore w x = (c : String) → h.present x.0 c ≡ true → (x.1 ≡ ok c) ⊎ (h.present w c ≡ true)

  start_created-OneMore :
      (w : W) (r : Runtime W) (plan : Plan) (cid : String)
      → Beside h laws w cid r.world
      → OneMore w (start_created h r plan cid)
  unfolding start_created wait_ready
  start_created-OneMore w r plan cid b =
      let url = "http://" & r.cfg.advertise_host & ":" & itoa plan.host_port & plan.ready_path in
      let w1 = (h.start request cid r.world).0 in
      let x = wait_ready h (at_world r w1) url r.cfg.readiness_timeout in
      let b1 : Beside h laws w cid w1 = Within-Beside h laws (start_makes request cid r.world) b in
      let b2 : Beside h laws w cid x.0 =
        Within-Beside h laws (wait_loop-Within h laws (suc r.cfg.readiness_timeout) url _ _ w1)
          b1 in
      elim (Option-cases (h.start request cid r.world).1) [
        | inr (m, e) ↦ rw (start_created, e) (λ c p. inr (remove-Within h laws works w1 b1 c p))
        | inl e ↦ elim (Bool-cases x.1) [
          | inl u ↦ rw (start_created, e, u) (λ c p. ⊎_map (λ q. ap ok (sym q)) (λ q. q) (b2 c p))
          | inr u ↦
              rw (start_created, e, u) (λ c p. inr (stop_and_remove-Within h laws works x.0 b2 c p))
        ]
      ]

  create_and_start_container-OneMore :
      (r : Runtime W) (plan : Plan) → OneMore r.world (create_and_start_container h r plan)
  unfolding create_and_start_container
  create_and_start_container-OneMore r plan =
      elim (Result-cases (build_container_spec plan r.cfg.network)) [
        | inr (m, e) ↦ rw (create_and_start_container, e) (λ c p. inr p)
        | inl (spec, e) ↦
            let w = (h.create request spec r.world).0 in
            elim (Result-cases (h.create request spec r.world).1) [
              | inr (m, e') ↦
                  rw (create_and_start_container, e, e')
                    (λ c p. inr (create_failed request spec r.world m e' c p))
              | inl (cid, e') ↦
                  rw (create_and_start_container, e, e')
                    (start_created-OneMore r.world (at_world r w) plan cid
                      (create_made request spec r.world cid e'))
            ]
      ]

  -- The new containers of a world are among the replicas listed.
  abbrev pub Among : W → List ContainerInfo → W → Type 0
  Among w infos w' = (c : String) → h.present w' c ≡ true → Listed infos c ⊎ (h.present w c ≡ true)

  start_replicas-Among :
      (cps : List ContainerPlan) (r : Runtime W) (prefix role : String) (i : ℕ)
      (ports : PortAllocator) (w : W)
      → Among w
          (start_replicas h r prefix role i cps ports w).2
          (start_replicas h r prefix role i cps ports w).0
  unfolding start_replicas Listed
  start_replicas-Among [] r prefix role i ports w = λ c p. inr p
  start_replicas-Among (cp ∷ cps) r prefix role i ports w = elim (Option-cases (next ports).1) [
    | inl e ↦ rw (start_replicas, e) (λ c p. inr p)
    | inr (port, e) ↦
        let plan = to_plan cp (prefix & itoa i) port in
        let x = create_and_start_container h (at_world r w) plan in
        let one = create_and_start_container-OneMore (at_world r w) plan in
        elim (Result-cases x.1) [
          | inr (m, e') ↦
              rw (start_replicas, e, e')
                (λ c p. inr (elim (one c p) [ inl q ↦ cc (e', q) | inr q ↦ q ]))
          | inl (cid, e') ↦
              let rest = start_replicas-Among cps r prefix role (suc i) (next ports).0 x.0 in
              rw (start_replicas, e, e')
                (λ c p. elim (rest c p) [
                  | inl k ↦ inl (inr k)
                  | inr q ↦ elim (one c q) [ inl o ↦ inl (inl (cc (e', o))) | inr q' ↦ inr q' ]
                ])
        ]
  ]

  -- The removals of the request's context work.
  module _ (request_works : (c : String) (w : W) → (h.remove request c w).1 ≡ none) where
    removed_one :
        (ci : ContainerInfo) (w : W) (c : String)
        → c ≢ ""
        → (q : Dec (ci.container_id ≡ ""))
        → h.present
            (ite q w (h.remove request ci.container_id (h.stop request ci.container_id w).0).0)
            c
          ≡ true
        → (h.present w c ≡ true) × (c ≢ ci.container_id)
    removed_one ci w c n (yes e) p = (p, λ k. n (k ∙ e))
    removed_one ci w c n (no m) p =
        let w1 = (h.stop request ci.container_id w).0 in
        let gone = removed request ci.container_id w1 (request_works ci.container_id w1) in
        (
          stop_makes request ci.container_id w c (remove_makes request ci.container_id w1 c p),
          λ k. cc (k, gone, p),
        )

    -- Removing all leaves only containers that were there and are not listed.
    remove_all-gone :
        (l : List ContainerInfo) (w : W) (c : String)
        → c ≢ ""
        → h.present (remove_all h request l w) c ≡ true
        → (h.present w c ≡ true) × (Listed l c → ⊥)
    unfolding remove_all Listed
    remove_all-gone [] w c n p = (p, λ k. k)
    remove_all-gone (ci ∷ l) w c n p =
        let (q, m) = remove_all-gone l _ c n p in
        let (q', m') = removed_one ci w c n (string_dec ci.container_id "") q in
        (q', λ k. elim k [ inl e ↦ m' e | inr k' ↦ m k' ])

    -- How the load of a group may end, from the host's state `w`. A container without an id is
    -- nothing that the rollback can name.
    pub data GroupEnded (w : W) (id : String) : Runtime W × Result DeploymentGroup → Type 0 where
      rolled_back :
          (r : Runtime W) (m : String)
          → ((c : String) → c ≢ "" → h.present r.world c ≡ true → h.present w c ≡ true)
          → GroupEnded w id (r, err m)
      serving :
          (r : Runtime W) (g : DeploymentGroup)
          → lookup id r.groups ≡ some g
          → ((c : String)
              → h.present r.world c ≡ true
              → Listed g.prefill c ⊎ Listed g.decode c ⊎ (h.present w c ≡ true))
          → GroupEnded w id (r, ok g)

    rollback_group-clean :
        (w : W) (prefill decode : List ContainerInfo) (w1 w2 : W)
        → Among w prefill w1
        → Among w1 decode w2
        → (c : String) → c ≢ ""
        → h.present (rollback_group h prefill decode w2) c ≡ true
        → h.present w c ≡ true
    unfolding rollback_group
    rollback_group-clean w prefill decode w1 w2 a b c n p =
        let (q, m) = remove_all-gone decode (remove_all h request prefill w2) c n p in
        let (q', m') = remove_all-gone prefill w2 c n q in
        elim (b c q') [
          | inl k ↦ absurd (m k)
          | inr u ↦ elim (a c u) [ inl k ↦ absurd (m' k) | inr v ↦ v ]
        ]

    insert-same :
        (id : String) (g : DeploymentGroup) (m : Dict String DeploymentGroup)
        → lookup id (insert id g m) ≡ some g
    insert-same id g m = rw (lookup-insert id id g m) (ground arith)

    load_decode-Ended :
        (w : W) (r : Runtime W) (plan : DeploymentPlan) (image : String)
        (prefill : List ContainerInfo)
        → Among w prefill r.world
        → GroupEnded w plan.deployment_id (load_decode h r plan image prefill)
    unfolding load_decode
    load_decode-Ended w r plan image prefill a =
        let prefix = or_vllm plan.container_prefix & "-d-" & plan.deployment_id & "-" in
        let x = start_replicas h r prefix "decode" 0 plan.decode r.decode_ports r.world in
        let b = start_replicas-Among plan.decode r prefix "decode" 0 r.decode_ports r.world in
        elim (Option-cases x.3) [
          | inr (m, e) ↦
              rw (load_decode, e)
                (rolled_back _ m (rollback_group-clean w prefill x.2 r.world x.0 a b))
          | inl e ↦
              rw (load_decode, e)
                (serving _ (new_group plan prefill x.2)
                  (insert-same plan.deployment_id (new_group plan prefill x.2) r.groups)
                  (λ c p. elim (b c (remove_image_makes request image x.0 c p)) [
                    | inl k ↦ inr (inl k)
                    | inr u ↦ elim (a c u) [ inl k ↦ inl k | inr v ↦ inr (inr v) ]
                  ]))
        ]

    load_prefill-Ended :
        (r : Runtime W) (plan : DeploymentPlan) (image : String)
        → GroupEnded r.world plan.deployment_id (load_prefill h r plan image)
    unfolding load_prefill
    load_prefill-Ended r plan image =
        let prefix = or_vllm plan.container_prefix & "-p-" & plan.deployment_id & "-" in
        let x = start_replicas h r prefix "prefill" 0 plan.prefill r.prefill_ports r.world in
        let a = start_replicas-Among plan.prefill r prefix "prefill" 0 r.prefill_ports r.world in
        elim (Option-cases x.3) [
          | inr (m, e) ↦
              rw (load_prefill, e)
                (rolled_back _ m (rollback_group-clean r.world x.2 [] x.0 x.0 a (λ c p. inr p)))
          | inl e ↦ rw (load_prefill, e) (load_decode-Ended r.world _ plan image x.2 a)
        ]

    Within-GroupEnded :
        {w v : W} {id : String} {x : Runtime W × Result DeploymentGroup}
        → Within h w v
        → GroupEnded v id x
        → GroupEnded w id x
    Within-GroupEnded k (rolled_back r m f) = rolled_back r m (λ c n p. k c (f c n p))
    Within-GroupEnded k (serving r g e f) =
        serving r g e (λ c p. ⊎_map (λ q. q) (⊎_map (λ q. q) (k c)) (f c p))

    -- LoadDeploymentGroup of a plan with a prefill replica ends in one of two ways, whatever the host
    -- does: with an error, and then each container of the host was there before, or with the group
    -- registered, and then the only containers that may be new are those of its replicas. The host
    -- obeys HostLaws (only `create` makes containers), and removals work, those in the request's
    -- context included. A container whose id is empty is not counted.
    pub load_deployment_group-Ended :
        (r : Runtime W) (plan : DeploymentPlan)
        → plan.prefill ≢ []
        → (x : Runtime W × Result DeploymentGroup) × (load_deployment_group h r plan ≡ some x)
          × GroupEnded r.world plan.deployment_id x
    unfolding load_deployment_group
    load_deployment_group-Ended r plan n = elim (List-cases plan.prefill) [
      | inl e ↦ absurd (n e)
      | inr (cp, cps, e) ↦
          let w = (h.pull request cp.image r.world).0 in
          let k = pull_makes request cp.image r.world in
          elim (Option-cases (h.pull request cp.image r.world).2) [
            | inr (m, e') ↦ (
              _,
              simp (load_deployment_group, e, e'),
              rolled_back (at_world r w) ("pull: " & m) (λ c _ p. k c p),
            )
            | inl e' ↦ (
              load_prefill h (at_world r w) plan cp.image,
              simp (load_deployment_group, e, e'),
              Within-GroupEnded k (load_prefill-Ended (at_world r w) plan cp.image),
            )
          ]
    ]
