-- ===== src/Recipes/Sglang.antt =====
-- The recipe of SGLang: internal/runtime/recipes/sglang.go.
use inferia_worker.Common.{
  ℕ, ◌*◌, String, List, [], ◌∷◌, ◌++◌, Result, length, if◌then◌else◌, itoa, put_all, fill,
  string_key,
}
use inferia_worker.Config.Values.{ConfigMap, EnvMap, Getenv}
use inferia_worker.Config.Sglang.{
  gpu_optimal_config, mooncake_enabled, mooncake_cmd, prefill_env, mooncake_entrypoint,
}
use inferia_worker.Recipes.Plan.{Plan}
use inferia_worker.Recipes.Inputs.{
  Input, strip_scheme, sanitise_config, container_name, options, switch,
}
use inferia_worker.Recipes.Vllm.{Image, gpu_checks, checked, merge_env}

abbrev pub sglang_shm_size : ℕ
sglang_shm_size = 32 * 1024 * 1024 * 1024

unfoldable pub sglang_config : Input → ConfigMap
unfolding gpu_optimal_config sanitise_config
sglang_config i =
    fill (gpu_optimal_config i.gpu_name i.gpu_memory_mib (length i.gpu_indices)).0
      (sanitise_config i.config)

unfoldable pub sglang_env : Input → EnvMap
unfolding gpu_optimal_config
sglang_env i = put_all (gpu_optimal_config i.gpu_name i.gpu_memory_mib (length i.gpu_indices)).1 []

abbrev pub sglang_keys : List String
sglang_keys =
    "tensor_parallel_size" ∷ "dtype" ∷ "kv_cache_dtype" ∷ "attention_backend" ∷ "sampling_backend"
    ∷ "mem_fraction_static" ∷ "chunked_prefill_size" ∷ "quantization" ∷ "max_model_len"
    ∷ "max_running_requests" ∷ "max_total_tokens" ∷ []

unfoldable pub sglang_cmd : ℕ → Input → List String
unfolding strip_scheme options switch sglang_config
sglang_cmd port i =
    let cfg = sglang_config i in
    ("python3"
      ∷ "-m"
      ∷ "sglang.launch_server"
      ∷ "--model-path"
      ∷ strip_scheme i.artifact_uri
      ∷ "--host"
      ∷ "0.0.0.0"
      ∷ "--port"
      ∷ itoa port
      ∷ [])
    ++ (options sglang_keys cfg
        ++ (switch "enable_prefix_caching" "--enable-prefix-caching" cfg
            ++ switch "trust_remote_code" "--trust-remote-code" cfg))

module _ (getenv : Getenv) where
  abbrev when_mooncake {ℓ} : {A : Type ℓ} → A → A → A
  when_mooncake a d = if mooncake_enabled getenv then a else d

  unfoldable pub sglang_plan : Image → Input → Plan
  unfolding mooncake_cmd prefill_env sglang_cmd sglang_env merge_env container_name
  sglang_plan r i = record {
    image = r.image;
    container_name = container_name "inferia-sglang" i.deployment_id;
    cmd = when_mooncake (mooncake_cmd getenv "prefill" (sglang_cmd r.port i)) (sglang_cmd r.port i);
    entrypoint = when_mooncake mooncake_entrypoint [];
    env = merge_env i.env (when_mooncake (prefill_env getenv (sglang_env i)) (sglang_env i));
    mounts = [];
    container_port = r.port;
    host_port = i.host_port;
    gpu_indices = i.gpu_indices;
    shm_size = sglang_shm_size;
    ready_path = r.ready_path;
    readiness_timeout = 0;
  }

  unfoldable pub sglang_build_plan : Image → Input → Result Plan
  unfolding gpu_checks sglang_plan
  sglang_build_plan r i = checked (gpu_checks i) (sglang_plan r i)
