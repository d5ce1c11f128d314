-- ===== src/Config/Vllm.antt =====
-- internal/config/vllm: the defaults of vLLM for a GPU (gpuprofile.go), and the flags of the
-- Mooncake store (mooncake.go). A GPU is known by a prefix of its name.
pub mod Profiles
use inferia_worker.Common.{
  ℕ, String, List, [], ◌∷◌, ◌++◌, Bool, true, false, Option, none, some, ite, string_dec, Dict,
  lookup, insert, string_key, ltb, if◌then◌else◌, ◌&◌, itoa, put_all,
}
use inferia_worker.Config.Values.{
  Value, str, flag, int, float, ConfigMap, EnvMap, Getenv, set_text, env_or, first_prefix,
}
use inferia_worker.Config.Vllm.Profiles.{
  Profile, Sizing, gpu_profiles, sizing_table, sizing_by_vram, sorted_profile_keys, fallback,
}

unfoldable pub lookup_profile : String → Option Profile
unfolding first_prefix
lookup_profile name = elim (first_prefix sorted_profile_keys name) [
  | none ↦ none
  | some p ↦ lookup p gpu_profiles
]

-- The value, or else what follows.
abbrev pub or_sizing : Option Sizing → Sizing → Sizing
or_sizing none s = s
or_sizing (some s) d = s

-- The single-GPU default, after the two overrides.
unfoldable pub sizing_of : String → ℕ → ℕ → Sizing
sizing_of prefix vram n =
    let base = or_sizing (lookup prefix sizing_table) fallback in
    let multi = or_sizing (lookup (prefix & ":" & itoa n) sizing_table) base in
    let rest = if ltb 1 n then multi else base in
    let exact = or_sizing (lookup (prefix & ":" & itoa n & ":" & itoa vram) sizing_by_vram) rest in
    if ltb 0 vram then exact else rest

unfoldable pub sizing_at : Option String → ℕ → ℕ → Sizing
unfolding sizing_of
sizing_at none vram n = fallback
sizing_at (some prefix) vram n = sizing_of prefix vram n

unfoldable pub lookup_sizing : String → ℕ → ℕ → Sizing
unfolding first_prefix sizing_at
lookup_sizing name vram n = sizing_at (first_prefix sorted_profile_keys name) vram n

unfoldable pub put_sizing : Sizing → ConfigMap → ConfigMap
put_sizing s m = insert "max_num_batched_tokens" (int s.mbt) (
    insert "max_num_seqs" (int s.mns)
      (insert "max_model_len" (int s.mml) (insert "gpu_memory_utilization" (float s.gmu) m)))

unfoldable pub put_profile : Option Profile → ConfigMap → ConfigMap
unfolding set_text
put_profile none m = m
put_profile (some p) m =
    let m1 =
      set_text "quantization" p.quant
        (set_text "kv_cache_dtype" p.kv_dtype (set_text "dtype" p.dtype m)) in
    if p.eager then insert "enforce_eager" (flag true) m1 else m1

unfoldable pub profile_env : Option Profile → EnvMap
profile_env none = []
profile_env (some p) = put_all p.env []

unfoldable pub put_count : ℕ → ConfigMap → ConfigMap
put_count n m = if ltb 1 n then insert "tensor_parallel_size" (int n) m else m

unfoldable pub unknown_config : ConfigMap × EnvMap
unfolding put_sizing
unknown_config = (insert "enable_prefix_caching" (flag true) (put_sizing fallback []), [])

unfoldable pub known_config : String → ℕ → ℕ → ConfigMap × EnvMap
unfolding lookup_profile lookup_sizing put_sizing put_profile profile_env put_count
known_config name memory_mib num_gpus = (
  put_count num_gpus (
      insert "enable_prefix_caching" (flag true) (
        put_sizing (lookup_sizing name memory_mib num_gpus)
          (put_profile (lookup_profile name) []))),
  profile_env (lookup_profile name),
)

unfoldable pub gpu_optimal_config : String → ℕ → ℕ → ConfigMap × EnvMap
unfolding unknown_config known_config
gpu_optimal_config name memory_mib num_gpus =
    ite (string_dec name "") unknown_config (known_config name memory_mib num_gpus)

module _ (getenv : Getenv) where
  unfoldable pub mooncake_enabled : Bool
  mooncake_enabled = ite (string_dec (getenv "MOONCAKE_KV_ENABLED") "true") true false

  unfoldable pub mooncake_config_volume : String
  unfolding env_or
  mooncake_config_volume = env_or getenv "MOONCAKE_CONFIG_VOLUME" "mooncake-config"

  unfoldable pub mooncake_config_mount_path : String
  unfolding env_or
  mooncake_config_mount_path = env_or getenv "MOONCAKE_CONFIG_MOUNT_PATH" "/etc/mooncake"

  -- What the three variants write to the environment.
  unfoldable pub mooncake_env : EnvMap → EnvMap
  unfolding mooncake_config_mount_path
  mooncake_env env =
      insert "PYTHONHASHSEED" "0"
        (insert "MOONCAKE_CONFIG_PATH" (mooncake_config_mount_path & "/mooncake_config.json") env)

-- What they append to the command; the role is "kv_both", "kv_producer" or "kv_consumer".
unfoldable pub mooncake_cmd : String → List String → List String
mooncake_cmd role cmd =
    cmd
    ++ "--kv-transfer-config"
      ∷ ("{\"kv_connector\":\"MooncakeStoreConnector\",\"kv_role\":\"" & role & "\"}")
      ∷ []

abbrev pub mooncake_entrypoint : List String
mooncake_entrypoint =
    "/bin/sh" ∷ "-c" ∷ "pip install --no-cache-dir mooncake-transfer-engine && exec \"$@\""
    ∷ "entrypoint" ∷ []
