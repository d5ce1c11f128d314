-- ===== src/Recipes/Disaggregated.antt =====
-- The recipes that run prefill and decode apart: vllm_prefill_decode.go and
-- sglang_prefill_decode.go of internal/runtime/recipes.
pub mod Replicas
use inferia_worker.Common.{
  ℕ, zero, suc, ◌*◌, String, List, [], ◌∷◌, Bool, true, false, Option, Result, if◌then◌else◌, ◌==◌,
  ◌&&◌,
}
use inferia_worker.Config.Values.{ConfigMap, EnvMap, Getenv}
use inferia_worker.Config.Vllm as Store
use inferia_worker.Config.Sglang as Sglang
use inferia_worker.Recipes.Plan.{
  Mount, BuildInput, KvRole, producer, consumer, ContainerPlan, DeploymentPlan,
}
use inferia_worker.Recipes.Inputs.{Input, strip_scheme}
use inferia_worker.Recipes.Vllm.{
  Image, gpu_checks, checked, merge_env, vllm_cmd, vllm_env, mooncake_mount,
}
use inferia_worker.Recipes.Sglang.{sglang_shm_size, sglang_cmd, sglang_env}

-- At least one replica.
unfoldable pub at_least_one : ℕ → ℕ
at_least_one zero = 1
at_least_one (suc n) = suc n

abbrev pub or_all : List ℕ → List ℕ → List ℕ
or_all [] all = all
or_all (g ∷ gs) all = g ∷ gs

-- The replicas from index `k` on, each with its index.
unfoldable pub replicas : ContainerPlan → ℕ → ℕ → List ContainerPlan
replicas c k zero = []
replicas c k (suc n) = record c { replica_idx = k } ∷ replicas c (suc k) n

-- What one role's replicas have in common.
abbrev pub role_plan :
    Image
    → Input
    → KvRole
    → List ℕ
    → List String
    → List String
    → EnvMap
    → List Mount
    → ℕ
    → ContainerPlan
role_plan r i role gpus cmd entrypoint env mounts shm = record {
  image = r.image;
  cmd = cmd;
  entrypoint = entrypoint;
  env = env;
  mounts = mounts;
  container_port = r.port;
  gpu_indices = or_all gpus i.gpu_indices;
  shm_size = shm;
  ready_path = r.ready_path;
  role = role;
  replica_idx = 0;
}

abbrev pub group_plan : Input → String → ContainerPlan → ContainerPlan → DeploymentPlan
group_plan i prefix p d = record {
  deployment_id = i.deployment_id;
  model = strip_scheme i.artifact_uri;
  prefill = replicas p 0 (at_least_one i.prefill_replicas);
  decode = replicas d 0 (at_least_one i.decode_replicas);
  container_prefix = prefix;
}

module _ (getenv : Getenv) where
  -- The command, the variables and the rest of a vLLM replica of a role.
  unfoldable pub vllm_role : Image → Input → KvRole → String → List ℕ → ContainerPlan
  unfolding Store.mooncake_cmd Store.mooncake_env mooncake_mount vllm_cmd vllm_env merge_env
  vllm_role r i role kv_role gpus =
      let on = Store.mooncake_enabled getenv in
      let cmd = vllm_cmd r.port i in
      let env = merge_env i.env (vllm_env i) in
      let shm = if i.shm_size == 0 && on then 32 * 1024 * 1024 * 1024 else i.shm_size in
      role_plan r i role gpus (if on then Store.mooncake_cmd kv_role cmd else cmd)
        (if on then Store.mooncake_entrypoint else [])
        (if on then Store.mooncake_env getenv env else env)
        (if on then mooncake_mount getenv ∷ [] else []) shm

  unfoldable pub vllm_build_deployment_plan : Image → Input → Result DeploymentPlan
  unfolding gpu_checks vllm_role strip_scheme at_least_one replicas
  vllm_build_deployment_plan r i = checked (gpu_checks i) (
      group_plan i "inferia-vllm" (vllm_role r i producer "kv_producer" i.prefill_gpu_indices)
        (vllm_role r i consumer "kv_consumer" i.decode_gpu_indices))

  -- The variables of a role with the disaggregated mode on.
  unfoldable pub sglang_role :
      Image → Input → KvRole → String → (EnvMap → EnvMap) → List ℕ → ContainerPlan
  unfolding Sglang.mooncake_cmd sglang_cmd sglang_env merge_env
  sglang_role r i role mode role_env gpus =
      let on = Sglang.mooncake_enabled getenv in
      let cmd = sglang_cmd r.port i in
      let env = merge_env i.env (sglang_env i) in
      let shm = if i.shm_size == 0 then sglang_shm_size else i.shm_size in
      role_plan r i role gpus (if on then Sglang.mooncake_cmd getenv mode cmd else cmd)
        (if on then Sglang.mooncake_entrypoint else []) (if on then role_env env else env) [] shm

  unfoldable pub sglang_build_deployment_plan : Image → Input → Result DeploymentPlan
  unfolding gpu_checks sglang_role strip_scheme at_least_one replicas Sglang.prefill_env
      Sglang.decode_env
  sglang_build_deployment_plan r i = checked (gpu_checks i) (
      group_plan i "inferia-sglang"
        (sglang_role r i producer "prefill" (Sglang.prefill_env getenv) i.prefill_gpu_indices)
        (sglang_role r i consumer "decode" (Sglang.decode_env getenv) i.decode_gpu_indices))
