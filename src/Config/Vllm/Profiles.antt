-- ===== src/Config/Vllm/Profiles.antt =====
-- The tables of internal/config/vllm/gpuprofile.go.
use inferia_worker.Common.{ℕ, String, List, [], ◌∷◌, Bool, true, false, Dict}
use inferia_worker.Config.Values.{EnvMap}

pub record Profile : Type 0 where
  pub dtype : String
  pub kv_dtype : String
  pub quant : String
  pub eager : Bool
  pub env : EnvMap

-- `gmu` is the text of a float64.
pub record Sizing : Type 0 where
  pub gmu : String
  pub mml : ℕ
  pub mns : ℕ
  pub mbt : ℕ

abbrev profile : String → String → String → Bool → EnvMap → Profile
profile dtype kv_dtype quant eager env = record {
  dtype = dtype;
  kv_dtype = kv_dtype;
  quant = quant;
  eager = eager;
  env = env;
}

abbrev sizing : String → ℕ → ℕ → ℕ → Sizing
sizing gmu mml mns mbt = record { gmu = gmu; mml = mml; mns = mns; mbt = mbt }

abbrev xformers : EnvMap
xformers = ("VLLM_ATTENTION_BACKEND", "XFORMERS") ∷ []

abbrev pub gpu_profiles : Dict String Profile
gpu_profiles =
    ("Tesla T4", profile "float16" "int8" "" true xformers)
    ∷ ("Tesla V100", profile "float16" "int8" "" true xformers)
    ∷ ("NVIDIA A10G", profile "bfloat16" "auto" "" false [])
    ∷ ("NVIDIA L4", profile "bfloat16" "auto" "fp8" false [])
    ∷ ("NVIDIA L40S", profile "bfloat16" "auto" "fp8" false [])
    ∷ ("NVIDIA A100", profile "bfloat16" "auto" "" false [])
    ∷ ("NVIDIA H100", profile "bfloat16" "fp8" "fp8" false [])
    ∷ ("NVIDIA H200", profile "bfloat16" "fp8" "fp8" false [])
    ∷ ("NVIDIA GH200", profile "bfloat16" "fp8" "fp8" false [])
    ∷ []

abbrev pub sizing_table : Dict String Sizing
sizing_table =
    ("Tesla T4", sizing "0.92" 4096 16 4096)
    ∷ ("Tesla V100", sizing "0.9" 3072 12 3072)
    ∷ ("NVIDIA A10G", sizing "0.9" 8192 32 8192)
    ∷ ("NVIDIA L4", sizing "0.92" 12288 48 12288)
    ∷ ("NVIDIA L40S", sizing "0.9" 16384 64 16384)
    ∷ ("NVIDIA A100", sizing "0.92" 8192 32 8192)
    ∷ ("NVIDIA H100", sizing "0.95" 65536 512 16384)
    ∷ ("NVIDIA H200", sizing "0.93" 65536 512 16384)
    ∷ ("NVIDIA GH200", sizing "0.93" 65536 512 16384)
    ∷ ("NVIDIA A10G:4", sizing "0.9" 8192 64 16384)
    ∷ ("NVIDIA A10G:8", sizing "0.88" 16384 128 16384)
    ∷ ("NVIDIA L4:4", sizing "0.92" 12288 64 16384)
    ∷ ("NVIDIA A100:8", sizing "0.92" 16384 128 16384)
    ∷ ("NVIDIA H100:8", sizing "0.95" 65536 512 16384)
    ∷ ("NVIDIA H200:8", sizing "0.93" 65536 512 16384)
    ∷ []

abbrev pub sizing_by_vram : Dict String Sizing
sizing_by_vram =
    ("NVIDIA A100:8:40960", sizing "0.92" 16384 128 16384)
    ∷ ("NVIDIA A100:8:81920", sizing "0.92" 32768 256 16384)
    ∷ ("NVIDIA A100:1:40960", sizing "0.92" 16384 64 16384)
    ∷ ("NVIDIA A100:1:81920", sizing "0.92" 32768 128 16384)
    ∷ []

-- The keys of the profiles, longest first. Of two keys of one length neither is a prefix of a name
-- that the other is, so their order does not matter.
abbrev pub sorted_profile_keys : List String
sorted_profile_keys =
    "NVIDIA GH200" ∷ "NVIDIA A10G" ∷ "NVIDIA L40S" ∷ "NVIDIA A100" ∷ "NVIDIA H100" ∷ "NVIDIA H200"
    ∷ "Tesla V100" ∷ "NVIDIA L4" ∷ "Tesla T4" ∷ []

abbrev pub fallback : Sizing
fallback = sizing "0.9" 4096 32 8192
