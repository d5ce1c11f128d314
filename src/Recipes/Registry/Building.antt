-- ===== src/Recipes/Registry/Building.antt =====
-- The plans that the registered recipes build: what they have in common.
use Prim.Native.String.{String}
use text.Mathlib.TextLemmas.{cons≢nil, append-eq-nil_iff}
use inferia_worker.Common.{
  insert, if◌then◌else◌, ◌≤◌, ◌≡◌, ◌≢◌, refl, sym, ap, ◌∙◌, subst, [], ◌∷◌, Option, none, some,
  Result, ok, lookup, string_key, arith, All, put_all, lookup-put_all, lookup-All,
}
use inferia_worker.Config.Values.{EnvMap, Getenv}
use inferia_worker.Config.Vllm.{mooncake_enabled, mooncake_env}
use inferia_worker.Config.Sglang as Sglang
use inferia_worker.Recipes.Plan.{Plan}
use inferia_worker.Recipes.Inputs.{Input, validate, container_name, strip_scheme}
use inferia_worker.Recipes.Vllm.{
  Image, gpu_checks, checked, checked-ok, merge_env, vllm_env, omni_defaults, vllm_build_plan,
  omni_build_plan,
}
use inferia_worker.Recipes.Sglang.{sglang_env, sglang_build_plan}
use inferia_worker.Recipes.Others.{
  ollama_build_plan, infinity_build_plan, triton_build_plan, diffusion_build_plan,
}
use inferia_worker.Recipes.Registry.{registry, get}

-- A plan for an input.
pub record For (i : Input) (p : Plan) : Type 0 where
  pub image : p.image ≢ ""
  pub named : p.container_name ≢ ""
  pub listens : p.container_port ≢ 0
  pub on_host : p.host_port ≡ i.host_port
  pub from_one : 1 ≤ i.host_port
  pub to_last : i.host_port ≤ 65535
  pub users : (k v : String) → lookup k i.env ≡ some v → lookup k p.env ≡ some v
  pub gpus : p.gpu_indices ≡ i.gpu_indices

gpu_checks-none : (i : Input) → gpu_checks i ≡ none → validate i ≡ none
unfolding gpu_checks
gpu_checks-none i e = ground (arith, e)

validate-port : (i : Input) → validate i ≡ none → (1 ≤ i.host_port) × (i.host_port ≤ 65535)
unfolding validate
validate-port i e = ground (arith, e)

container_name-nonempty : (prefix id : String) → container_name prefix id ≢ ""
unfolding container_name
container_name-nonempty prefix id e =
    let dash = (append-eq-nil_iff.0 e).1 in cons≢nil (append-eq-nil_iff.0 dash).0

merge_env-user :
    (user defaults : EnvMap) (k v : String)
    → lookup k user ≡ some v
    → lookup k (merge_env user defaults) ≡ some v
unfolding merge_env
merge_env-user user defaults k v h = lookup-put_all k v user (put_all defaults []) h

-- An image of the registry.
abbrev IsServed : Image → Type 0
IsServed r = (r.image ≢ "") × (r.port ≢ 0)

-- A recipe builds only such plans.
abbrev pub Builds : (Input → Result Plan) → Type 0
Builds build = (i : Input) (p : Plan) → build i ≡ ok p → For i p

module _ (r : Image) (h : IsServed r) (i : Input) where
  -- The fields that all the recipes fill in this way.
  abbrev Filled : String → EnvMap → Plan → Type 0
  Filled prefix defaults a =
      (a.image ≡ r.image)
      × (a.container_name ≡ container_name prefix i.deployment_id)
      × (a.container_port ≡ r.port)
      × (a.host_port ≡ i.host_port)
      × (a.env ≡ merge_env i.env defaults)
      × (a.gpu_indices ≡ i.gpu_indices)

  filled :
      (prefix : String) (defaults : EnvMap) (a : Plan)
      → Filled prefix defaults a
      → (1 ≤ i.host_port) × (i.host_port ≤ 65535)
      → For i a
  filled prefix defaults a (image, named, port, host_port, env, gpus) b = record {
    image = λ e. h.0 (sym image ∙ e);
    named = λ e. container_name-nonempty prefix i.deployment_id (sym named ∙ e);
    listens = λ e. h.1 (sym port ∙ e);
    on_host = host_port;
    from_one = b.0;
    to_last = b.1;
    users = λ k v e. ap (lookup k) env ∙ merge_env-user i.env defaults k v e;
    gpus = gpus;
  }

  built :
      (c : Option String) (prefix : String) (defaults : EnvMap) (a p : Plan)
      → (c ≡ none → validate i ≡ none)
      → Filled prefix defaults a
      → checked c a ≡ ok p
      → For i p
  built c prefix defaults a p v f e =
      let (n, same) = checked-ok c a p e in
      subst (For i) same (filled prefix defaults a f (validate-port i (v n)))

module _ (getenv : Getenv) (r : Image) (h : IsServed r) where
  vllm-Builds : Builds (vllm_build_plan getenv r)
  unfolding vllm_build_plan
  vllm-Builds i p =
      built r h i (gpu_checks i) "inferia-vllm"
        (if mooncake_enabled getenv then mooncake_env getenv (vllm_env i) else vllm_env i) _ p
        (gpu_checks-none i) (refl, refl, refl, refl, refl, refl)

  sglang-Builds : Builds (sglang_build_plan getenv r)
  unfolding sglang_build_plan
  sglang-Builds i p =
      built r h i (gpu_checks i) "inferia-sglang"
        (if Sglang.mooncake_enabled getenv
          then Sglang.prefill_env getenv (sglang_env i)
          else sglang_env i)
        _ p (gpu_checks-none i) (refl, refl, refl, refl, refl, refl)

module _ (r : Image) (h : IsServed r) where
  omni-Builds : Builds (omni_build_plan r)
  unfolding omni_build_plan
  omni-Builds i p =
      built r h i (gpu_checks i) "inferia-vllm-omni"
        (insert "CUDA_MODULE_LOADING" "LAZY" (omni_defaults i).1) _ p (gpu_checks-none i)
        (refl, refl, refl, refl, refl, refl)

  ollama-Builds : Builds (ollama_build_plan r)
  unfolding ollama_build_plan
  ollama-Builds i p =
      built r h i (validate i) "inferia-ollama"
        (("OLLAMA_HOST", "0.0.0.0:11434")
          ∷ ("INFERIA_OLLAMA_MODEL", strip_scheme i.artifact_uri)
          ∷ [])
        _ p (λ n. n) (refl, refl, refl, refl, refl, refl)

  infinity-Builds : Builds (infinity_build_plan r)
  unfolding infinity_build_plan
  infinity-Builds i p =
      built r h i (validate i) "inferia-infinity" ([]) _ p (λ n. n)
        (refl, refl, refl, refl, refl, refl)

  triton-Builds : Builds (triton_build_plan r)
  unfolding triton_build_plan
  triton-Builds i p =
      built r h i (gpu_checks i) "inferia-triton" ([]) _ p (gpu_checks-none i)
        (refl, refl, refl, refl, refl, refl)

  diffusion-Builds : Builds (diffusion_build_plan r)
  unfolding diffusion_build_plan
  diffusion-Builds i p =
      built r h i (gpu_checks i) "inferia-diff" ([]) _ p (gpu_checks-none i)
        (refl, refl, refl, refl, refl, refl)

registry-Builds : (getenv : Getenv) → All (λ e. Builds e.1) (registry getenv)
unfolding registry
registry-Builds getenv = (
  vllm-Builds getenv _ (cons≢nil, λ e. omega (arith, e)),
  (
    omni-Builds _ (cons≢nil, λ e. omega (arith, e)),
    (
      sglang-Builds getenv _ (cons≢nil, λ e. omega (arith, e)),
      (
        ollama-Builds _ (cons≢nil, λ e. omega (arith, e)),
        (
          infinity-Builds _ (cons≢nil, λ e. omega (arith, e)),
          (
            triton-Builds _ (cons≢nil, λ e. omega (arith, e)),
            (diffusion-Builds _ (cons≢nil, λ e. omega (arith, e)), tt),
          ),
        ),
      ),
    ),
  ),
)

found :
    (getenv : Getenv) (name : String) (build : Input → Result Plan)
    → get getenv name ≡ ok build
    → lookup name (registry getenv) ≡ some build
unfolding get
found getenv name build e = ground (arith, e)

pub get-Builds :
    (getenv : Getenv) (name : String) (build : Input → Result Plan)
    → get getenv name ≡ ok build
    → Builds build
get-Builds getenv name build e =
    lookup-All Builds name (registry getenv) build (registry-Builds getenv)
      (found getenv name build e)
