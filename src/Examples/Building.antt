-- ===== src/Examples/Building.antt =====
-- Runs of internal/runtime/recipes and internal/config.
use Prim.Native.String.{len, slice}
use text.Mathlib.Text.{find?}
use inferia_worker.Common.{
  ℕ, ◌+◌, ◌≤◌, String, [], ◌∷◌, none, some, Result, ok, err, ◌≡◌, refl, map, lookup, string_key,
  ◌&◌, itoa, string_dec,
}
use inferia_worker.Config.Values.{str, int, Getenv}
use inferia_worker.Config.Load.{Url, load_from, read}
use inferia_worker.Config.Load.Bounds.{IsValid}
use inferia_worker.Config.Load.Loaded.{load_from-IsValid}
use inferia_worker.Docker.Spec.{ContainerSpec, build_container_spec, cdi_nvidia_vendor}
use inferia_worker.Recipes.Plan.{DeploymentPlan, producer, consumer, env_get}
use inferia_worker.Recipes.Inputs.{Input, is_allowed, mem}
use inferia_worker.Recipes.Vllm.{Image, vllm_config, vllm_plan, vllm_build_plan}
use inferia_worker.Recipes.Vllm.Options.{Passes, vllm_build_plan-Passes}
use inferia_worker.Recipes.Vllm.Batches.{vllm_config-Capped}
use inferia_worker.Recipes.Disaggregated.{group_plan, vllm_role, vllm_build_deployment_plan}
use inferia_worker.Recipes.Disaggregated.Replicas.{Both, multi_get-Both}
use inferia_worker.Recipes.Registry.{get, multi_get, image}
use inferia_worker.Recipes.Registry.Accepted.{get-Accepted}

-- No Mooncake.
abbrev bare : Getenv
bare k = ""

abbrev input : Input
input = record {
  deployment_id = "d1";
  artifact_uri = "hf://org/model";
  config = ("dtype", str "half") ∷ [];
  gpu_indices = 0 ∷ 1 ∷ [];
  prefill_gpu_indices = 0 ∷ [];
  decode_gpu_indices = [];
  host_port = 19000;
  env = ("HF_TOKEN", "t") ∷ [];
  gpu_name = "NVIDIA H100 80GB HBM3";
  gpu_memory_mib = 81559;
  prefill_replicas = 2;
  decode_replicas = 0;
  shm_size = 0;
}

abbrev vllm_image : Image
vllm_image = image "docker.io/vllm/vllm-openai:v0.22.1" 8000 "/health"

checks_input : vllm_build_plan bare vllm_image input ≡ ok (vllm_plan bare vllm_image input)
unfolding vllm_build_plan string_dec
checks_input = refl

finds_vllm : get bare "vllm" ≡ ok (vllm_build_plan bare vllm_image)
unfolding get string_dec
finds_vllm = refl

get-Accepted_example :
    (s : ContainerSpec) × (build_container_spec (vllm_plan bare vllm_image input) "models" ≡ ok s)
    × (s.gpu_device_ids ≡ map (λ g. cdi_nvidia_vendor & "=" & itoa g) (0 ∷ 1 ∷ []))
    × ((k v : String) → lookup k input.env ≡ some v → lookup k s.env ≡ some v)
    × (s.port_binding.host_port ≡ itoa 19000)
    × (1 ≤ 19000)
    × (19000 ≤ 65535)
get-Accepted_example =
    get-Accepted bare "vllm" "models" (vllm_build_plan bare vllm_image) input
      (vllm_plan bare vllm_image input) finds_vllm checks_input

vllm_build_plan-Passes_example : Passes (vllm_plan bare vllm_image input).cmd "dtype" (str "half")
unfolding is_allowed mem string_dec
vllm_build_plan-Passes_example =
    vllm_build_plan-Passes bare vllm_image input (vllm_plan bare vllm_image input) "dtype"
      (str "half") checks_input refl refl refl refl

vllm_config-Capped_example :
    (n : ℕ) × (lookup "max_num_batched_tokens" (vllm_config input) ≡ some (int n)) × (n ≤ 16384)
vllm_config-Capped_example = vllm_config-Capped input

abbrev group : DeploymentPlan
group =
    group_plan input "inferia-vllm"
      (vllm_role bare vllm_image input producer "kv_producer" (0 ∷ []))
      (vllm_role bare vllm_image input consumer "kv_consumer" [])

checks_group : vllm_build_deployment_plan bare vllm_image input ≡ ok group
unfolding vllm_build_deployment_plan string_dec
checks_group = refl

finds_group : multi_get bare "vllm-prefill-decode" ≡ ok (vllm_build_deployment_plan bare vllm_image)
unfolding multi_get string_dec
finds_group = refl

multi_get-Both_example : Both input group
multi_get-Both_example =
    multi_get-Both bare "vllm-prefill-decode" (vllm_build_deployment_plan bare vllm_image) input
      group finds_group checks_group

abbrev settings : Getenv
settings = env_get (
    ("CONTROL_PLANE_URL", "https://cp.example")
    ∷ ("BOOTSTRAP_TOKEN", "boot")
    ∷ ("NODE_NAME", "node-1")
    ∷ ("POOL_ID", "123e4567-e89b-12d3-a456-426614174000")
    ∷ ("WORKER_ADVERTISE_URL", "https://node-1.example:8080")
    ∷ ("INFERENCE_TOKEN", "0123456789abcdef")
    ∷ ("HEARTBEAT_INTERVAL_SECONDS", "+10")
    ∷ [])

-- The part of url.Parse that the example meets.
abbrev parse_https : String → Result Url
parse_https raw = elim (find? raw "://") [
  | none ↦ err "no scheme"
  | some i ↦ ok (record { scheme = slice raw 0 i; host = slice raw (i + 3) (len raw) })
]

settings_load : load_from parse_https settings ≡ ok (read settings)
unfolding load_from read env_get string_dec
settings_load = refl

load_from-IsValid_example : IsValid parse_https settings (read settings)
load_from-IsValid_example = load_from-IsValid parse_https settings (read settings) settings_load
