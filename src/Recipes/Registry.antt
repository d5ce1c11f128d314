-- ===== src/Recipes/Registry.antt =====
-- The registries of internal/runtime/recipes/recipes.go: the recipes by their names.
pub mod Building
pub mod Accepted
use inferia_worker.Common.{
  ℕ, String, List, [], ◌∷◌, Option, none, some, Result, ok, err, Dict, lookup, string_key, ◌&◌,
  quote,
}
use inferia_worker.Config.Values.{Getenv}
use inferia_worker.Recipes.Plan.{Plan, DeploymentPlan, BuildInput}
use inferia_worker.Recipes.Inputs.{Input}
use inferia_worker.Recipes.Vllm.{Image, vllm_build_plan, omni_build_plan}
use inferia_worker.Recipes.Sglang.{sglang_build_plan}
use inferia_worker.Recipes.Others.{
  ollama_build_plan, infinity_build_plan, triton_build_plan, diffusion_build_plan,
}
use inferia_worker.Recipes.Disaggregated.{vllm_build_deployment_plan, sglang_build_deployment_plan}

abbrev pub image : String → ℕ → String → Image
image name port ready_path = record { image = name; port = port; ready_path = ready_path }

module _ (getenv : Getenv) where
  unfoldable pub registry : Dict String (Input → Result Plan)
  unfolding vllm_build_plan omni_build_plan sglang_build_plan ollama_build_plan infinity_build_plan
      triton_build_plan diffusion_build_plan
  registry =
      ("vllm", vllm_build_plan getenv (image "docker.io/vllm/vllm-openai:v0.22.1" 8000 "/health"))
      ∷ ("vllm-omni", omni_build_plan (image "docker.io/vllm/vllm-omni:latest" 8091 "/health"))
      ∷ (
        "sglang",
        sglang_build_plan getenv (image "lmsysorg/sglang:latest-runtime" 30000 "/health"),
      )
      ∷ ("ollama", ollama_build_plan (image "docker.io/ollama/ollama:latest" 11434 "/"))
      ∷ ("infinity", infinity_build_plan (image "michaelf34/infinity:latest" 7997 "/health"))
      ∷ (
        "triton",
        triton_build_plan (image "nvcr.io/nvidia/tritonserver:latest" 8000 "/v2/health/ready"),
      )
      ∷ (
        "inferia-diffusion",
        diffusion_build_plan (image "docker.io/inferiaai/inferiadiffusion:latest" 8000 "/health"),
      )
      ∷ []

  unfoldable pub get : String → Result (Input → Result Plan)
  unfolding registry
  get name = elim (lookup name registry) [
    | none ↦ err ("unknown recipe: " & quote name)
    | some r ↦ ok r
  ]

  unfoldable pub multi_registry : Dict String (Input → Result DeploymentPlan)
  unfolding vllm_build_deployment_plan sglang_build_deployment_plan
  multi_registry =
      (
        "vllm-prefill-decode",
        vllm_build_deployment_plan getenv
            (image "docker.io/vllm/vllm-openai:v0.22.1" 8000 "/health"),
      )
      ∷ (
        "sglang-prefill-decode",
        sglang_build_deployment_plan getenv
            (image "lmsysorg/sglang:latest-runtime" 30000 "/health"),
      )
      ∷ []

  unfoldable pub multi_get : String → Result (Input → Result DeploymentPlan)
  unfolding multi_registry
  multi_get name = elim (lookup name multi_registry) [
    | none ↦ err ("unknown multi-container recipe: " & quote name)
    | some r ↦ ok r
  ]
