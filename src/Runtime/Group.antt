-- ===== src/Runtime/Group.antt =====
-- The groups of internal/runtime: createAndStartContainer, LoadDeploymentGroup, rollbackGroup and
-- UnloadDeploymentGroup of runtime.go, and the round robin of deployment.go.
pub mod RoundRobin
pub mod Rollback
pub mod Leak
use inferia_worker.Common.{
  ℕ, zero, suc, ◌+◌, ◌-◌, ◌%◌, ◌^◌, String, List, [], ◌∷◌, ◌++◌, Bool, true, false, Option, none,
  some, Result, ok, err, ite, string_dec, length, get_elem?, ◌&◌, itoa, lookup, insert, delete,
  string_key, take, ◌==◌, if◌then◌else◌, replicate, set,
}
use inferia_worker.Recipes.Plan.{Plan, ContainerPlan, DeploymentPlan, KvRole, to_plan}
use inferia_worker.Docker.Spec.{ContainerSpec, build_container_spec}
use inferia_worker.Runtime.Ports.{PortAllocator, next}
use inferia_worker.Runtime.Host.{Host, Ctx, request, cleanup}
use inferia_worker.Runtime.State.{Config, ContainerInfo, DeploymentGroup, Runtime, at_world}
use inferia_worker.Runtime.Load.{wait_ready, stop_and_remove}

-- `next.Add(1) - 1`, on a uint32, and the replica that it names.
unfoldable pub turn : ℕ → ℕ
turn n = (n + 1) % 2 ^ 32

unfoldable pub url_at : List ContainerInfo → ℕ → String
url_at l i = elim (get_elem? l i) [ none ↦ "" | some ci ↦ "http://127.0.0.1:" & itoa ci.host_port ]

unfoldable pub next_prefill : DeploymentGroup → DeploymentGroup × String
unfolding turn url_at
next_prefill g = elim g.prefill [
  | [] ↦ (g, "")
  | ci ∷ l ↦ (
    record g { prefill_next = turn g.prefill_next },
    url_at g.prefill (g.prefill_next % length g.prefill),
  )
]

unfoldable pub next_decode : DeploymentGroup → DeploymentGroup × String
unfolding turn url_at
next_decode g = elim g.decode [
  | [] ↦ (g, "")
  | ci ∷ l ↦ (
    record g { decode_next = turn g.decode_next },
    url_at g.decode (g.decode_next % length g.decode),
  )
]

abbrev pub or_vllm : String → String
or_vllm prefix = ite (string_dec prefix "") "inferia-vllm" prefix

abbrev pub new_group : DeploymentPlan → List ContainerInfo → List ContainerInfo → DeploymentGroup
new_group plan prefill decode = record {
  id = plan.deployment_id;
  model = plan.model;
  prefill = prefill;
  decode = decode;
  prefill_next = 0;
  decode_next = 0;
}

module _ (h : Host) where
  open h use {W}

  -- The end of `createAndStartContainer`, the container made.
  unfoldable pub start_created : Runtime W → Plan → String → W × Result String
  unfolding wait_ready stop_and_remove
  start_created r plan cid =
      let url = "http://" & r.cfg.advertise_host & ":" & itoa plan.host_port & plan.ready_path in
      let (w1, e) = h.start request cid r.world in
      let (w2, ready) = wait_ready h (at_world r w1) url r.cfg.readiness_timeout in
      elim e [
        | some m ↦ ((h.remove cleanup cid w1).0, err ("start: " & m))
        | none ↦ elim ready [
          | true ↦ (w2, ok cid)
          | false ↦ (stop_and_remove h cid w2, err "readiness probe timed out")
        ]
      ]

  unfoldable pub create_and_start_container : Runtime W → Plan → W × Result String
  unfolding build_container_spec start_created
  create_and_start_container r plan = elim (build_container_spec plan r.cfg.network) [
    | err m ↦ (r.world, err ("spec: " & m))
    | ok spec ↦
        let (w, made) = h.create request spec r.world in
        elim made [
          | err m ↦ (w, err ("create: " & m))
          | ok cid ↦ start_created (at_world r w) plan cid
        ]
  ]

  -- The containers stopped and removed, in a context; errors are passed over.
  unfoldable pub remove_all : Ctx → List ContainerInfo → W → W
  remove_all x [] w = w
  remove_all x (ci ∷ l) w = remove_all x l (
      ite (string_dec ci.container_id "") w
        (h.remove x ci.container_id (h.stop x ci.container_id w).0).0)

  -- The replicas started so far are the first ones; the context is the request's.
  unfoldable pub rollback_group : List ContainerInfo → List ContainerInfo → W → W
  unfolding remove_all
  rollback_group prefill decode w = remove_all request decode (remove_all request prefill w)

  -- The loop over the replicas of one role: those started, and the error that ended it. `next_port`
  -- is the allocator, whose state is handed on.
  unfoldable pub start_replicas :
      Runtime W
      → String
      → String
      → ℕ
      → List ContainerPlan
      → PortAllocator
      → W
      → W × PortAllocator × List ContainerInfo × Option String
  unfolding create_and_start_container
  start_replicas r prefix role i [] ports w = (w, ports, [], none)
  start_replicas r prefix role i (cp ∷ cps) ports w =
      let (ports1, p) = next ports in
      elim p [
        | none ↦ (w, ports1, [], some (role & " port " & itoa i & ": port range exhausted"))
        | some port ↦
            let (w1, made) =
              create_and_start_container (at_world r w) (to_plan cp (prefix & itoa i) port) in
            elim made [
              | err m ↦ (w1, ports1, [], some (role & " " & itoa i & ": " & m))
              | ok cid ↦
                  let info : ContainerInfo = record {
                    container_id = cid;
                    host_port = port;
                    role = cp.role;
                    replica_idx = cp.replica_idx;
                  } in
                  let (w2, ports2, infos, e) = start_replicas r prefix role (suc i) cps ports1 w1 in
                  (w2, ports2, info ∷ infos, e)
            ]
      ]

  -- The decode replicas, once the prefill replicas are up.
  unfoldable pub load_decode :
      Runtime W → DeploymentPlan → String → List ContainerInfo → Runtime W × Result DeploymentGroup
  unfolding start_replicas rollback_group
  load_decode r plan image prefill =
      let prefix = or_vllm plan.container_prefix & "-d-" & plan.deployment_id & "-" in
      let (w, ports, decode, e) =
        start_replicas r prefix "decode" 0 plan.decode r.decode_ports r.world in
      let r1 = record r { decode_ports = ports } in
      elim e [
        | some m ↦ (at_world r1 (rollback_group prefill decode w), err m)
        | none ↦
            let group = new_group plan prefill decode in
            (
              record (at_world r1 (h.remove_image request image w).0) {
                groups = insert plan.deployment_id group r.groups;
              },
              ok group,
            )
      ]

  unfoldable pub load_prefill :
      Runtime W → DeploymentPlan → String → Runtime W × Result DeploymentGroup
  unfolding start_replicas rollback_group load_decode
  load_prefill r plan image =
      let prefix = or_vllm plan.container_prefix & "-p-" & plan.deployment_id & "-" in
      let (w, ports, prefill, e) =
        start_replicas r prefix "prefill" 0 plan.prefill r.prefill_ports r.world in
      let r1 = record r { prefill_ports = ports; world = w } in
      elim e [
        | some m ↦ (at_world r1 (rollback_group prefill [] w), err m)
        | none ↦ load_decode r1 plan image prefill
      ]

  -- `LoadDeploymentGroup`; `none` is the panic on a plan with no prefill replica.
  unfoldable pub load_deployment_group :
      Runtime W → DeploymentPlan → Option (Runtime W × Result DeploymentGroup)
  unfolding load_prefill
  load_deployment_group r plan = elim plan.prefill [
    | [] ↦ none
    | cp ∷ cps ↦
        let (w, lines, e) = h.pull request cp.image r.world in
        elim e [
          | some m ↦ some (at_world r w, err ("pull: " & m))
          | none ↦ some (load_prefill (at_world r w) plan cp.image)
        ]
  ]

  unfoldable pub unload_deployment_group : Runtime W → String → Runtime W
  unfolding remove_all
  unload_deployment_group r id = elim (lookup id r.groups) [
    | none ↦ record r { groups = delete id r.groups }
    | some g ↦
        let r1 = record r { groups = delete id r.groups } in
        at_world r1 (remove_all request g.decode (remove_all request g.prefill r.world))
  ]
