-- ===== src/Recipes.antt =====
-- internal/runtime/recipes: the plans of containers, and the recipes that build them.
pub mod Plan
pub mod Inputs
pub mod Vllm
pub mod Sglang
pub mod Others
pub mod Disaggregated
pub mod Registry
