-- ===== src/Recipes/Others.antt =====
-- The other recipes: internal/runtime/recipes/others.go.
use inferia_worker.Common.{
  ℕ, ◌*◌, String, List, [], ◌∷◌, ◌++◌, Bool, true, false, Option, none, some, Result, lookup,
  string_key, itoa, if◌then◌else◌, string_dec, ite,
}
use inferia_worker.Config.Values.{Value, str, ConfigMap, EnvMap}
use inferia_worker.Recipes.Plan.{Plan}
use inferia_worker.Recipes.Inputs.{
  Input, validate, strip_scheme, sanitise_config, container_name, cli_arg, switch,
}
use inferia_worker.Recipes.Vllm.{Image, gpu_checks, checked, merge_env}

-- The fields that these recipes fill alike.
abbrev plan_of : Image → Input → String → List String → EnvMap → ℕ → Plan
plan_of r i prefix cmd env timeout = record {
  image = r.image;
  container_name = container_name prefix i.deployment_id;
  cmd = cmd;
  entrypoint = [];
  env = env;
  mounts = [];
  container_port = r.port;
  host_port = i.host_port;
  gpu_indices = i.gpu_indices;
  shm_size = 0;
  ready_path = r.ready_path;
  readiness_timeout = timeout;
}

unfoldable pub ollama_build_plan : Image → Input → Result Plan
unfolding validate strip_scheme container_name merge_env
ollama_build_plan r i =
    let env = merge_env i.env (
      ("OLLAMA_HOST", "0.0.0.0:11434")
      ∷ ("INFERIA_OLLAMA_MODEL", strip_scheme i.artifact_uri)
      ∷ []) in
    checked (validate i) (plan_of r i "inferia-ollama" ("serve" ∷ []) env 0)

abbrev option_as : String → String → ConfigMap → List String
option_as k option cfg = elim (lookup k cfg) [ none ↦ [] | some v ↦ option ∷ cli_arg v ∷ [] ]

unfoldable pub infinity_cmd : Input → List String
unfolding strip_scheme sanitise_config cli_arg
infinity_cmd i =
    let cfg = sanitise_config i.config in
    ("v2"
      ∷ "--model-id"
      ∷ strip_scheme i.artifact_uri
      ∷ "--port"
      ∷ "7997"
      ∷ "--host"
      ∷ "0.0.0.0"
      ∷ [])
    ++ (option_as "max_batch_size" "--batch-size" cfg ++ option_as "dtype" "--dtype" cfg)

unfoldable pub infinity_build_plan : Image → Input → Result Plan
unfolding validate infinity_cmd container_name merge_env
infinity_build_plan r i =
    checked (validate i) (plan_of r i "inferia-infinity" (infinity_cmd i) (merge_env i.env []) 0)

unfoldable pub triton_build_plan : Image → Input → Result Plan
unfolding gpu_checks container_name merge_env
triton_build_plan r i =
    let cmd =
      "tritonserver" ∷ "--model-repository=/models" ∷ "--allow-http=true" ∷ "--http-port=8000"
      ∷ [] in
    checked (gpu_checks i) (plan_of r i "inferia-triton" cmd (merge_env i.env []) 0)

abbrev pub diffusion_readiness_timeout : ℕ
diffusion_readiness_timeout = 1800 * 1000000000

abbrev is_one_of : String → String → String → Bool
is_one_of s a b = ite (string_dec s a) true (ite (string_dec s b) true false)

abbrev model_type_option : Option Value → List String
model_type_option (some (str s)) =
    if is_one_of s "image_generation" "image"
    then "--model-type" ∷ "image" ∷ []
    else if is_one_of s "video_generation" "video"
    then "--model-type" ∷ "video" ∷ []
    else []
model_type_option v = []

unfoldable pub diffusion_cmd : ℕ → Input → List String
unfolding strip_scheme sanitise_config switch
diffusion_cmd port i =
    let cfg = sanitise_config i.config in
    ("inferiadiffusion"
      ∷ "serve"
      ∷ "--model"
      ∷ strip_scheme i.artifact_uri
      ∷ "--host"
      ∷ "0.0.0.0"
      ∷ "--port"
      ∷ itoa port
      ∷ [])
    ++ (model_type_option (lookup "model_type" cfg)
        ++ (switch "trust_remote_code" "--trust-remote-code" cfg
            ++ (switch "model_offload" "--model-offload" cfg
                ++ switch "group_offload" "--group-offload" cfg)))

unfoldable pub diffusion_build_plan : Image → Input → Result Plan
unfolding gpu_checks diffusion_cmd container_name merge_env
diffusion_build_plan r i = checked (gpu_checks i) (
    plan_of r i "inferia-diff" (diffusion_cmd r.port i) (merge_env i.env [])
      diffusion_readiness_timeout)
