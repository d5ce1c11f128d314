-- ===== src/Config/Sglang.antt =====
-- internal/config/sglang: the defaults of SGLang for a GPU (gpuprofile.go), and the flags of the
-- disaggregated mode (mooncake.go).
use inferia_worker.Common.{
  ℕ, String, List, [], ◌∷◌, ◌++◌, Bool, true, false, Option, none, some, ite, string_dec, Dict,
  lookup, insert, string_key, ltb, if◌then◌else◌, ◌&◌, itoa,
}
use inferia_worker.Config.Values.{
  flag, int, float, ConfigMap, EnvMap, Getenv, set_text, first_prefix,
}
use inferia_worker.Config.Vllm.Profiles.{sorted_profile_keys}

pub record SglangProfile : Type 0 where
  pub dtype : String
  pub kv_dtype : String
  pub attention_backend : String
  pub sampling_backend : String
  pub quant : String

-- `mem_fraction` is the text of a float64.
pub record Sizing : Type 0 where
  pub mem_fraction : String
  pub chunked_prefill : ℕ

abbrev profile : String → String → String → String → String → SglangProfile
profile dtype kv_dtype attention sampling quant = record {
  dtype = dtype;
  kv_dtype = kv_dtype;
  attention_backend = attention;
  sampling_backend = sampling;
  quant = quant;
}

abbrev sizing : String → ℕ → Sizing
sizing mem_fraction chunked_prefill = record {
  mem_fraction = mem_fraction;
  chunked_prefill = chunked_prefill;
}

abbrev pub gpu_profiles : Dict String SglangProfile
gpu_profiles =
    ("Tesla T4", profile "float16" "auto" "triton" "pytorch" "")
    ∷ ("Tesla V100", profile "float16" "auto" "triton" "pytorch" "")
    ∷ ("NVIDIA A10G", profile "bfloat16" "auto" "" "" "")
    ∷ ("NVIDIA L4", profile "bfloat16" "fp8_e4m3" "" "" "fp8")
    ∷ ("NVIDIA L40S", profile "bfloat16" "fp8_e4m3" "" "" "fp8")
    ∷ ("NVIDIA A100", profile "bfloat16" "fp8_e4m3" "" "" "")
    ∷ ("NVIDIA H100", profile "bfloat16" "fp8_e4m3" "" "" "fp8")
    ∷ ("NVIDIA H200", profile "bfloat16" "fp8_e4m3" "" "" "fp8")
    ∷ ("NVIDIA GH200", profile "bfloat16" "fp8_e4m3" "" "" "fp8")
    ∷ []

abbrev pub sizing_table : Dict String Sizing
sizing_table =
    ("Tesla T4", sizing "0.88" 4096)
    ∷ ("Tesla V100", sizing "0.88" 3072)
    ∷ ("NVIDIA A10G", sizing "0.9" 8192)
    ∷ ("NVIDIA L4", sizing "0.92" 8192)
    ∷ ("NVIDIA L40S", sizing "0.9" 8192)
    ∷ ("NVIDIA A100", sizing "0.9" 8192)
    ∷ ("NVIDIA H100", sizing "0.92" 8192)
    ∷ ("NVIDIA H200", sizing "0.93" 8192)
    ∷ ("NVIDIA GH200", sizing "0.93" 8192)
    ∷ []

abbrev pub sizing_by_vram : Dict String Sizing
sizing_by_vram =
    ("NVIDIA A100:1:40960", sizing "0.88" 8192) ∷ ("NVIDIA A100:1:81920", sizing "0.9" 8192) ∷ []

abbrev pub fallback : Sizing
fallback = sizing "0.9" 8192

unfoldable pub lookup_profile : String → Option SglangProfile
unfolding first_prefix
lookup_profile name = elim (first_prefix sorted_profile_keys name) [
  | none ↦ none
  | some p ↦ lookup p gpu_profiles
]

abbrev or_sizing : Option Sizing → Sizing → Sizing
or_sizing none s = s
or_sizing (some s) d = s

unfoldable pub sizing_of : String → ℕ → ℕ → Sizing
sizing_of prefix vram n =
    let base = or_sizing (lookup prefix sizing_table) fallback in
    let exact = or_sizing (lookup (prefix & ":" & itoa n & ":" & itoa vram) sizing_by_vram) base in
    if ltb 0 vram then exact else base

unfoldable pub lookup_sizing : String → ℕ → ℕ → Sizing
unfolding first_prefix sizing_of
lookup_sizing name vram n = elim (first_prefix sorted_profile_keys name) [
  | none ↦ fallback
  | some p ↦ sizing_of p vram n
]

unfoldable pub put_profile : Option SglangProfile → ConfigMap → ConfigMap
unfolding set_text
put_profile none m = m
put_profile (some p) m = set_text "quantization" p.quant (
    set_text "sampling_backend" p.sampling_backend (
      set_text "attention_backend" p.attention_backend
        (set_text "kv_cache_dtype" p.kv_dtype (set_text "dtype" p.dtype m))))

unfoldable pub put_sizing : Sizing → ConfigMap → ConfigMap
put_sizing s m =
    insert "chunked_prefill_size" (int s.chunked_prefill)
      (insert "mem_fraction_static" (float s.mem_fraction) m)

unfoldable pub gpu_optimal_config : String → ℕ → ℕ → ConfigMap × EnvMap
unfolding lookup_profile lookup_sizing put_sizing put_profile
gpu_optimal_config name memory_mib num_gpus =
    ite (string_dec name "")
      (insert "enable_prefix_caching" (flag true) (put_sizing fallback []), [])
      (
        let m = insert "enable_prefix_caching" (flag true) (
              put_sizing (lookup_sizing name memory_mib num_gpus)
                (put_profile (lookup_profile name) [])) in
            (if ltb 1 num_gpus then insert "tensor_parallel_size" (int num_gpus) m else m),
        [],
      )

module _ (getenv : Getenv) where
  unfoldable pub mooncake_enabled : Bool
  mooncake_enabled = ite (string_dec (getenv "MOONCAKE_KV_ENABLED") "true") true false

  unfoldable pub forward_env_vars : List String → EnvMap → EnvMap
  forward_env_vars [] dst = dst
  forward_env_vars (k ∷ ks) dst =
      forward_env_vars ks (ite (string_dec (getenv k) "") dst (insert k (getenv k) dst))

  -- The flags of both roles; the mode is "prefill" or "decode".
  unfoldable pub mooncake_cmd : String → List String → List String
  mooncake_cmd mode cmd =
      let dev = getenv "SGLANG_DISAGG_IB_DEVICE" in
      (cmd ++ "--disaggregation-mode" ∷ mode ∷ [])
      ++ ite (string_dec dev "") [] ("--disaggregation-ib-device" ∷ dev ∷ [])

  unfoldable pub prefill_env : EnvMap → EnvMap
  unfolding forward_env_vars
  prefill_env env =
      forward_env_vars
        ("SGLANG_MOONCAKE_CUSTOM_MEM_POOL" ∷ "MC_INTRANODE_NVLINK" ∷ "MC_FORCE_MNNVL"
          ∷ "SGLANG_DISAGGREGATION_THREAD_POOL_SIZE" ∷ "SGLANG_DISAGGREGATION_QUEUE_SIZE"
          ∷ "SGLANG_DISAGGREGATION_BOOTSTRAP_TIMEOUT" ∷ [])
        (insert "PYTHONHASHSEED" "0" env)

  unfoldable pub decode_env : EnvMap → EnvMap
  unfolding forward_env_vars
  decode_env env =
      forward_env_vars
        ("SGLANG_MOONCAKE_CUSTOM_MEM_POOL" ∷ "MC_INTRANODE_NVLINK" ∷ "MC_FORCE_MNNVL"
          ∷ "SGLANG_DISAGGREGATION_HEARTBEAT_INTERVAL"
          ∷ "SGLANG_DISAGGREGATION_HEARTBEAT_MAX_FAILURE" ∷ "SGLANG_DISAGGREGATION_WAITING_TIMEOUT"
          ∷ [])
        (insert "PYTHONHASHSEED" "0" env)

abbrev pub mooncake_entrypoint : List String
mooncake_entrypoint =
    "/bin/sh" ∷ "-c" ∷ "pip install --no-cache-dir mooncake-transfer-engine && exec \"$@\""
    ∷ "entrypoint" ∷ []
