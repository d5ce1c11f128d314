-- ===== src/Config/Omni.antt =====
-- internal/config/vllm/omni/gpudefaults.go: the defaults of vllm-omni for a GPU and a model family.
use inferia_worker.Common.{
  ℕ, String, List, [], ◌∷◌, Bool, true, false, ◌||◌, ◌*◌, ◌%◌, ◌^◌, insert, string_key, ltb,
  if◌then◌else◌, contains, to_lower,
}
use inferia_worker.Config.Values.{str, flag, int, float, ConfigMap, EnvMap, has_any_prefix}

pub data ModelFamily : Type 0 where
  unknown qwen_image qwen_image_edit wan ltx flux hunyuan z_image sdxl : ModelFamily

abbrev either : String → List String → Bool
either id [] = false
either id (t ∷ ts) = contains id t || either id ts

unfoldable pub family_of : String → ModelFamily
unfolding contains
family_of id =
    if either id ("qwen-image-edit" ∷ "qwen-image-layered" ∷ [])
    then qwen_image_edit
    else if contains id "qwen-image"
    then qwen_image
    else if either id ("wan-ai/wan" ∷ "wan2." ∷ [])
    then wan
    else if contains id "ltx"
    then ltx
    else if contains id "flux"
    then flux
    else if either id ("hunyuanimage" ∷ "hunyuan-image" ∷ "tencent/hunyuan" ∷ [])
    then hunyuan
    else if either id ("z-image" ∷ "tongyi-mai" ∷ [])
    then z_image
    else if either id ("stable-diffusion-xl" ∷ "sdxl" ∷ [])
    then sdxl
    else unknown

-- The model id is ASCII.
unfoldable pub detect_family : String → ModelFamily
unfolding family_of to_lower
detect_family model_id = family_of (to_lower model_id)

unfoldable pub is_ampere_or_newer : String → Bool
unfolding has_any_prefix
is_ampere_or_newer = has_any_prefix (
    "NVIDIA A10" ∷ "NVIDIA A30" ∷ "NVIDIA A40" ∷ "NVIDIA A100" ∷ "NVIDIA L4" ∷ "NVIDIA L40"
    ∷ "NVIDIA H100" ∷ "NVIDIA H200" ∷ "NVIDIA GH200" ∷ [])

unfoldable pub is_older_gpu : String → Bool
unfolding has_any_prefix
is_older_gpu = has_any_prefix ("Tesla T4" ∷ "Tesla V100" ∷ "NVIDIA V100" ∷ [])

unfoldable pub gpu_mem_util : String → String
unfolding has_any_prefix
gpu_mem_util name =
    if has_any_prefix ("NVIDIA H100" ∷ "NVIDIA H200" ∷ "NVIDIA GH200" ∷ []) name
    then "0.95"
    else if has_any_prefix ("NVIDIA A100" ∷ "NVIDIA L4" ∷ "NVIDIA L40S" ∷ []) name
    then "0.92"
    else "0.9"

abbrev quantize : Bool → ConfigMap → ConfigMap
quantize on m = if on then insert "quantization" (str "fp8") m else m

unfoldable pub apply_family_defaults : ModelFamily → Bool → ℕ → ConfigMap → ConfigMap
apply_family_defaults qwen_image ampere vram m =
    if ampere || ltb vram 49152
    then insert "ignored_layers" (str "img_mlp") (insert "quantization" (str "fp8") m)
    else m
apply_family_defaults qwen_image_edit ampere vram m = quantize ampere m
apply_family_defaults flux ampere vram m = quantize ampere m
apply_family_defaults hunyuan ampere vram m = quantize ampere m
apply_family_defaults z_image ampere vram m = quantize ampere m
apply_family_defaults wan ampere vram m = insert "enforce_eager" (flag true) m
apply_family_defaults ltx ampere vram m =
    insert "cache_backend" (str "cache_dit") (insert "enforce_eager" (flag true) m)
apply_family_defaults sdxl ampere vram m = m
apply_family_defaults unknown ampere vram m = m

-- The product of the memory is a uint64.
unfoldable pub defaults : String → ℕ → ℕ → String → ConfigMap × EnvMap
unfolding is_older_gpu gpu_mem_util detect_family is_ampere_or_newer apply_family_defaults
defaults gpu_name gpu_mem_mib num_gpus model_id =
    let dtype = if is_older_gpu gpu_name then "float16" else "bfloat16" in
    let m =
      insert "gpu_memory_utilization" (float (gpu_mem_util gpu_name))
        (insert "dtype" (str dtype) []) in
    let m1 = if ltb 1 num_gpus then insert "tensor_parallel_size" (int num_gpus) m else m in
    (
      apply_family_defaults (detect_family model_id) (is_ampere_or_newer gpu_name)
          (gpu_mem_mib * num_gpus % 2 ^ 64) m1,
      [],
    )
