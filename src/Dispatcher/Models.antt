-- ===== src/Dispatcher/Models.antt =====
-- LoadModel and UnloadModel of internal/dispatcher/dispatcher.go, on the runtime of
-- internal/runtime. The recipes' registry is the parameter `Recipes`: a recipe builds a plan, or
-- reports an error. A GPU index is a natural number.
pub mod Unloading
pub mod Checking
use inferia_worker.Common.{
  ℕ, ◌+◌, String, List, [], ◌∷◌, Bool, true, false, Option, none, some, Result, ok, err, ltb, leb,
  if◌then◌else◌, ◌==◌, ◌&◌, itoa, Dict, length,
}
use inferia_worker.Recipes.Plan.{Plan, DeploymentPlan, BuildInput}
use inferia_worker.Runtime.Host.{Host}
use inferia_worker.Runtime.State.{Runtime, DeploymentGroup}
use inferia_worker.Runtime.Load.{load_model, unload_model}
use inferia_worker.Runtime.Group.{load_deployment_group, unload_deployment_group}
use inferia_worker.Metrics.Collector.{Collector, remove_deployment}
use inferia_worker.Inference.Registry.{DeploymentRegistry, register_disagg, deregister}
use inferia_worker.Dispatcher.Gpu.{Amounts, GpuAllocator, allocate, release}

pub record ModelRef : Type 0 where
  pub artifact_uri : String
  pub format : String
  pub backend : String

-- The body of the command to load; `Config` is the recipe's own configuration.
pub record LoadModelBody (Config : Type 0) : Type 0 where
  pub deployment_id : String
  pub recipe : String
  pub model : ModelRef
  pub config : Config
  pub gpu_indices : List ℕ
  pub port : ℕ
  pub env : Dict String String
  pub prefill_replicas : ℕ
  pub decode_replicas : ℕ
  pub prefill_gpu_indices : List ℕ
  pub decode_gpu_indices : List ℕ

pub record Recipes : Type 1 where
  pub Config : Type 0
  pub get : String → Result (BuildInput Config → Result Plan)
  pub multi_get : String → Result (BuildInput Config → Result DeploymentPlan)

pub record Dispatcher (W : Type 0) : Type 0 where
  pub rt : Runtime W
  pub metrics : Option Collector
  pub gpu_name : String
  pub gpu_mem_mib : ℕ
  pub total_gpus : ℕ
  pub registry : Option DeploymentRegistry
  pub allocator : Option GpuAllocator

unfoldable pub out_of_range : ℕ → List ℕ → Option String
out_of_range total [] = none
out_of_range total (g ∷ gs) =
    if leb total g
    then some ("GPU index " & itoa g & " out of range [0, " & itoa total & ")")
    else out_of_range total gs

unfoldable pub validate_gpu_indices : List ℕ → ℕ → Option String
unfolding out_of_range
validate_gpu_indices gs total = if total == 0 then none else out_of_range total gs

abbrev pub or_else : List ℕ → List ℕ → List ℕ
or_else [] d = d
or_else (g ∷ gs) d = g ∷ gs

module _ (h : Host) (f : Amounts) (sort : (ℕ → ℕ → Bool) → List ℕ → List ℕ)
    (recipes : Recipes) where
  open recipes use {Config}

  -- The allocator's answer, where there is an allocator.
  unfoldable pub allocate_for : Dispatcher h.W → String → List ℕ → Dispatcher h.W × List ℕ
  unfolding allocate
  allocate_for d id gpus = elim d.allocator [
    | none ↦ (d, gpus)
    | some a ↦ let (a', got) = allocate f sort a id gpus in (record d { allocator = some a' }, got)
  ]

  -- `BuildPlan` and the load, the recipe found and the GPUs assigned.
  unfoldable pub load_built :
      Dispatcher h.W → LoadModelBody Config → Result Plan → Dispatcher h.W × Result String
  unfolding load_model
  load_built d body (err m) = (d, err m)
  load_built d body (ok plan) =
      let plan1 : Plan = if body.port == 0 then record plan { host_port = 0 } else plan in
      let (rt, res) = load_model h d.rt body.deployment_id plan1 in (record d { rt = rt }, res)

  unfoldable pub load_single :
      Dispatcher h.W
      → LoadModelBody Config
      → (BuildInput Config → Result Plan)
      → Dispatcher h.W × Result String
  unfolding validate_gpu_indices allocate_for load_built
  load_single d body build = elim (validate_gpu_indices body.gpu_indices d.total_gpus) [
    | some m ↦ (d, err m)
    | none ↦
        let (d1, gpus) = allocate_for d body.deployment_id body.gpu_indices in
        load_built d1 body (
          build (record {
            deployment_id = body.deployment_id;
            artifact_uri = body.model.artifact_uri;
            config = body.config;
            gpu_indices = gpus;
            prefill_gpu_indices = [];
            decode_gpu_indices = [];
            host_port = if body.port == 0 then 1 else body.port;
            env = body.env;
            gpu_name = d1.gpu_name;
            gpu_memory_mib = d1.gpu_mem_mib;
            prefill_replicas = 0;
            decode_replicas = 0;
            shm_size = 0;
          }))
  ]

  -- The group's registration and the answer.
  unfoldable pub load_registered :
      Dispatcher h.W
      → LoadModelBody Config
      → DeploymentPlan
      → Result DeploymentGroup
      → Dispatcher h.W × Result String
  load_registered d body plan (err m) = (d, err m)
  load_registered d body plan (ok group) =
      let registry = elim d.registry as (λ x. Option DeploymentRegistry) [
        | none ↦ none
        | some r ↦ some (register_disagg r body.deployment_id plan.model group)
      ] in
      (
        record d { registry = registry },
        elim group.prefill [
          | [] ↦ err ("deployment " & plan.deployment_id & ": no prefill containers started")
          | ci ∷ _ ↦ ok ("http://127.0.0.1:" & itoa ci.host_port)
        ],
      )

  -- `none` is the panic of LoadDeploymentGroup on a plan with no prefill replica.
  unfoldable pub load_group_built :
      Dispatcher h.W
      → LoadModelBody Config
      → Result DeploymentPlan
      → Option (Dispatcher h.W × Result String)
  unfolding load_registered load_deployment_group
  load_group_built d body (err m) = some (d, err m)
  load_group_built d body (ok plan) = elim (load_deployment_group h d.rt plan) [
    | none ↦ none
    | some (rt, group) ↦ some (load_registered (record d { rt = rt }) body plan group)
  ]

  -- The first of the two checks that fails, if there is an allocator.
  unfoldable pub check_group : Dispatcher h.W → List ℕ → List ℕ → Option String
  unfolding validate_gpu_indices
  check_group d prefill decode = elim d.allocator [
    | none ↦ none
    | some a ↦ elim (validate_gpu_indices prefill d.total_gpus) [
      | some m ↦ some ("prefill: " & m)
      | none ↦ elim (validate_gpu_indices decode d.total_gpus) [
        | some m ↦ some ("decode: " & m)
        | none ↦ none
      ]
    ]
  ]

  unfoldable pub load_group :
      Dispatcher h.W
      → LoadModelBody Config
      → (BuildInput Config → Result DeploymentPlan)
      → Option (Dispatcher h.W × Result String)
  unfolding check_group allocate_for load_group_built
  load_group d body build =
      let prefill = or_else body.prefill_gpu_indices body.gpu_indices in
      let decode = or_else body.decode_gpu_indices body.gpu_indices in
      elim (check_group d prefill decode) [
        | some m ↦ some (d, err m)
        | none ↦
            let (d1, prefill_gpus) = allocate_for d (body.deployment_id & "/prefill") prefill in
            let (d2, decode_gpus) = allocate_for d1 (body.deployment_id & "/decode") decode in
            load_group_built d2 body (
              build (record {
                deployment_id = body.deployment_id;
                artifact_uri = body.model.artifact_uri;
                config = body.config;
                gpu_indices = body.gpu_indices;
                prefill_gpu_indices = prefill_gpus;
                decode_gpu_indices = decode_gpus;
                host_port = 1;
                env = body.env;
                gpu_name = d2.gpu_name;
                gpu_memory_mib = d2.gpu_mem_mib;
                prefill_replicas = body.prefill_replicas;
                decode_replicas = body.decode_replicas;
                shm_size = 0;
              }))
      ]

  unfoldable pub load :
      Dispatcher h.W → LoadModelBody Config → Option (Dispatcher h.W × Result String)
  unfolding load_group load_single
  load d body = elim (ltb 0 body.prefill_replicas) [
    | true ↦ elim (recipes.multi_get body.recipe) [
      | err m ↦ some (d, err m)
      | ok build ↦ load_group d body build
    ]
    | false ↦ elim (recipes.get body.recipe) [
      | err m ↦ some (d, err m)
      | ok build ↦ some (load_single d body build)
    ]
  ]

abbrev pub release_all : GpuAllocator → String → GpuAllocator
release_all a id = release (release (release a id) (id & "/prefill")) (id & "/decode")

-- The part of the interface Runtime that UnloadModel calls, each with its error.
pub record Unloads (R : Type 0) : Type 0 where
  pub unload_deployment_group : String → R → R × Option String
  pub unload_model : String → R → R × Option String

-- That of internal/runtime, whose UnloadDeploymentGroup reports no error.
unfoldable pub runtime_unloads : (h : Host) → Unloads (Runtime h.W)
unfolding unload_deployment_group unload_model
runtime_unloads h = record {
  unload_deployment_group = λ id rt. (unload_deployment_group h rt id, none);
  unload_model = λ id rt. unload_model h rt id;
}

module _ {W : Type 0} where
  -- What is let go of before the runtime is asked.
  unfoldable pub let_go : Dispatcher W → String → Dispatcher W
  unfolding deregister release
  let_go d id = record d {
    registry = elim d.registry [ none ↦ none | some r ↦ some (deregister r id) ];
    allocator = elim d.allocator [ none ↦ none | some a ↦ some (release_all a id) ];
  }

  -- The error when both fail, and otherwise the metrics go.
  unfoldable pub settled :
      Dispatcher W → String → Option String → Option String → Dispatcher W × Option String
  unfolding remove_deployment
  settled d id (some group_error) (some single_error) = (d, some single_error)
  settled d id group_error single_error = (
    record d { metrics = elim d.metrics [ none ↦ none | some c ↦ some (remove_deployment c id) ] },
    none,
  )

  -- `UnloadModel`.
  unfoldable pub unload : Unloads (Runtime W) → Dispatcher W → String → Dispatcher W × Option String
  unfolding let_go settled
  unload u d id =
      let (rt1, group_error) = u.unload_deployment_group id d.rt in
      let (rt2, single_error) = u.unload_model id rt1 in
      settled (record (let_go d id) { rt = rt2 }) id group_error single_error
