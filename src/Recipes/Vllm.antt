-- ===== src/Recipes/Vllm.antt =====
-- The recipes of vLLM: internal/runtime/recipes/vllm.go, and vllm_omni.go for diffusion models. The
-- image, the port and the path are those of the registry in recipes.go.
pub mod Options
pub mod Batches
use inferia_worker.Common.{
  ℕ, ◌≡◌, refl, String, List, [], ◌∷◌, ◌++◌, Bool, true, false, Option, none, some, Result, ok, err,
  length, ite, string_dec, Dict, insert, lookup, string_key, if◌then◌else◌, itoa, put_all, fill,
}
use inferia_worker.Config.Values.{Value, str, ConfigMap, EnvMap, Getenv}
use inferia_worker.Config.Vllm.{
  gpu_optimal_config, mooncake_enabled, mooncake_config_volume, mooncake_config_mount_path,
  mooncake_env, mooncake_cmd, mooncake_entrypoint,
}
use inferia_worker.Config.Omni.{defaults}
use inferia_worker.Recipes.Plan.{Plan, Mount, BuildInput}
use inferia_worker.Recipes.Inputs.{
  Input, validate, require_gpu, strip_scheme, sanitise_config, container_name, options, switch,
  dashed, cli_arg,
}

pub record Image : Type 0 where
  pub image : String
  pub port : ℕ
  pub ready_path : String

-- `validate` and `requireGPU`.
unfoldable pub gpu_checks : Input → Option String
unfolding validate require_gpu
gpu_checks i = elim (validate i) [ some m ↦ some m | none ↦ require_gpu i ]

-- The plan, when the checks find nothing.
abbrev pub checked {ℓ} : {A : Type ℓ} → Option String → A → Result A
checked (some m) a = err m
checked none a = ok a

pub checked-ok :
    {A : Type 0} (c : Option String) (a b : A) → checked c a ≡ ok b → (c ≡ none) × (a ≡ b)
checked-ok (some m) a b e = cc e
checked-ok none a b e = (refl, cc e)

-- The user's variables over the defaults.
unfoldable pub merge_env : EnvMap → EnvMap → EnvMap
merge_env user defaults = put_all user (put_all defaults [])

abbrev pub ld_library_path : String
ld_library_path = "/usr/lib/x86_64-linux-gnu:/usr/local/nvidia/lib64:/usr/local/cuda/lib64"

unfoldable pub vllm_config : Input → ConfigMap
unfolding gpu_optimal_config sanitise_config
vllm_config i =
    fill (gpu_optimal_config i.gpu_name i.gpu_memory_mib (length i.gpu_indices)).0
      (sanitise_config i.config)

unfoldable pub vllm_env : Input → EnvMap
unfolding gpu_optimal_config
vllm_env i = insert "LD_LIBRARY_PATH" ld_library_path (
    put_all (gpu_optimal_config i.gpu_name i.gpu_memory_mib (length i.gpu_indices)).1
      (("CUDA_MODULE_LOADING", "LAZY") ∷ []))

abbrev pub vllm_keys : List String
vllm_keys =
    "tensor_parallel_size" ∷ "pipeline_parallel_size" ∷ "dtype" ∷ "max_model_len" ∷ "max_num_seqs"
    ∷ "gpu_memory_utilization" ∷ "quantization" ∷ "max_batch_size" ∷ "max_input_length"
    ∷ "max_total_tokens" ∷ "kv_cache_dtype" ∷ "max_num_batched_tokens" ∷ []

unfoldable pub vllm_base : ℕ → String → List String
vllm_base port model =
    model ∷ "--served-model-name" ∷ model ∷ "--host" ∷ "0.0.0.0" ∷ "--port" ∷ itoa port ∷ []

unfoldable pub vllm_switches : ConfigMap → List String
unfolding switch
vllm_switches cfg =
    switch "enforce_eager" "--enforce-eager" cfg
    ++ (switch "enable_prefix_caching" "--enable-prefix-caching" cfg
        ++ switch "trust_remote_code" "--trust-remote-code" cfg)

-- The command without the flags of Mooncake.
unfoldable pub vllm_cmd : ℕ → Input → List String
unfolding vllm_base strip_scheme options vllm_switches vllm_config
vllm_cmd port i =
    vllm_base port (strip_scheme i.artifact_uri)
    ++ (options vllm_keys (vllm_config i) ++ vllm_switches (vllm_config i))

module _ (getenv : Getenv) where
  unfoldable pub mooncake_mount : Mount
  unfolding mooncake_config_volume mooncake_config_mount_path
  mooncake_mount = record {
    kind = "volume";
    source = mooncake_config_volume getenv;
    target = mooncake_config_mount_path getenv;
    read_only = true;
  }

  abbrev when_mooncake {ℓ} : {A : Type ℓ} → A → A → A
  when_mooncake a d = if mooncake_enabled getenv then a else d

  unfoldable pub vllm_plan : Image → Input → Plan
  unfolding mooncake_mount mooncake_env mooncake_cmd vllm_cmd vllm_env merge_env container_name
  vllm_plan r i = record {
    image = r.image;
    container_name = container_name "inferia-vllm" i.deployment_id;
    cmd = when_mooncake (mooncake_cmd "kv_both" (vllm_cmd r.port i)) (vllm_cmd r.port i);
    entrypoint = when_mooncake mooncake_entrypoint [];
    env = merge_env i.env (when_mooncake (mooncake_env getenv (vllm_env i)) (vllm_env i));
    mounts = when_mooncake (mooncake_mount ∷ []) [];
    container_port = r.port;
    host_port = i.host_port;
    gpu_indices = i.gpu_indices;
    shm_size = 0;
    ready_path = r.ready_path;
    readiness_timeout = 0;
  }

  unfoldable pub vllm_build_plan : Image → Input → Result Plan
  unfolding gpu_checks vllm_plan
  vllm_build_plan r i = checked (gpu_checks i) (vllm_plan r i)

abbrev pub omni_keys : List String
omni_keys =
    "tensor_parallel_size" ∷ "pipeline_parallel_size" ∷ "dtype" ∷ "gpu_memory_utilization"
    ∷ "quantization" ∷ "ignored_layers" ∷ "usp" ∷ "ring" ∷ "vae_patch_parallel_size"
    ∷ "hsdp_shard_size" ∷ "flow_shift" ∷ "boundary_ratio" ∷ "cache_backend" ∷ []

-- The text "none" switches an option off.
abbrev option_unless_none : String → Value → List String
option_unless_none k (str s) = ite (string_dec s "none") [] (dashed k ∷ s ∷ [])
option_unless_none k v = dashed k ∷ cli_arg v ∷ []

unfoldable pub omni_options : List String → ConfigMap → List String
unfolding dashed cli_arg
omni_options [] cfg = []
omni_options (k ∷ ks) cfg =
    let rest = omni_options ks cfg in
    elim (lookup k cfg) [ none ↦ rest | some v ↦ option_unless_none k v ++ rest ]

unfoldable pub omni_defaults : Input → ConfigMap × EnvMap
unfolding defaults strip_scheme
omni_defaults i =
    defaults i.gpu_name i.gpu_memory_mib (length i.gpu_indices) (strip_scheme i.artifact_uri)

unfoldable pub omni_cmd : ℕ → Input → List String
unfolding omni_defaults sanitise_config strip_scheme omni_options switch
omni_cmd port i =
    let model = strip_scheme i.artifact_uri in
    let cfg = fill (omni_defaults i).0 (sanitise_config i.config) in
    ("vllm"
      ∷ "serve"
      ∷ model
      ∷ "--omni"
      ∷ "--served-model-name"
      ∷ model
      ∷ "--host"
      ∷ "0.0.0.0"
      ∷ "--port"
      ∷ itoa port
      ∷ [])
    ++ (omni_options omni_keys cfg
        ++ (switch "enforce_eager" "--enforce-eager" cfg
            ++ (switch "vae_use_slicing" "--vae-use-slicing" cfg
                ++ (switch "vae_use_tiling" "--vae-use-tiling" cfg
                    ++ (switch "use_hsdp" "--use-hsdp" cfg
                        ++ switch "trust_remote_code" "--trust-remote-code" cfg)))))

unfoldable pub omni_build_plan : Image → Input → Result Plan
unfolding gpu_checks omni_cmd omni_defaults merge_env container_name
omni_build_plan r i = checked (gpu_checks i) (record {
  image = r.image;
  container_name = container_name "inferia-vllm-omni" i.deployment_id;
  cmd = omni_cmd r.port i;
  entrypoint = [];
  env = merge_env i.env (insert "CUDA_MODULE_LOADING" "LAZY" (omni_defaults i).1);
  mounts = [];
  container_port = r.port;
  host_port = i.host_port;
  gpu_indices = i.gpu_indices;
  shm_size = 0;
  ready_path = r.ready_path;
  readiness_timeout = 0;
})
