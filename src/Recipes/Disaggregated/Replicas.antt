-- ===== src/Recipes/Disaggregated/Replicas.antt =====
-- The replicas of a disaggregated plan.
use inferia_worker.Common.{
  ℕ, zero, suc, ◌+◌, String, List, some, [], ◌∷◌, Result, ok, ◌≡◌, ◌≢◌, refl, sym, ap, ◌∙◌, subst,
  arith, length, get_elem?, lookup, string_key, lookup-All, All,
}
use inferia_worker.Config.Values.{Getenv}
use inferia_worker.Config.Sglang.{prefill_env, decode_env}
use inferia_worker.Recipes.Plan.{KvRole, producer, consumer, ContainerPlan, DeploymentPlan}
use inferia_worker.Recipes.Inputs.{Input}
use inferia_worker.Recipes.Vllm.{Image, gpu_checks, checked, checked-ok}
use inferia_worker.Recipes.Disaggregated.{
  at_least_one, or_all, replicas, vllm_role, sglang_role, vllm_build_deployment_plan,
  sglang_build_deployment_plan,
}
use inferia_worker.Recipes.Registry.{multi_registry, multi_get}

length-replicas : (c : ContainerPlan) (k n : ℕ) → length (replicas c k n) ≡ n
unfolding replicas
length-replicas c k zero = refl
length-replicas c k (suc n) = ap suc (length-replicas c (suc k) n)

-- Each replica is the common plan with its own index.
replicas-at :
    (c : ContainerPlan) (k n j : ℕ) (d : ContainerPlan)
    → get_elem? (replicas c k n) j ≡ some d
    → d ≡ record c { replica_idx = k + j }
unfolding replicas
replicas-at c k zero j d e = cc e
replicas-at c k (suc n) zero d e =
    let same : record c { replica_idx = k } ≡ d = cc e in
    sym same ∙ ap (λ i. record c { replica_idx = i }) (omega arith)
replicas-at c k (suc n) (suc j) d e =
    replicas-at c (suc k) n j d e ∙ ap (λ i. record c { replica_idx = i }) (omega arith)

-- The replicas of a role: as many as asked for, or one; each with the role, its own index and the
-- GPUs `given` for the role, or `all` those of the input.
pub record Replicas (role : KvRole) (asked : ℕ) (given all : List ℕ) (cs : List ContainerPlan)
    : Type 0 where
  pub one : asked ≡ 0 → length cs ≡ 1
  pub count : asked ≢ 0 → length cs ≡ asked
  pub each :
      (j : ℕ) (c : ContainerPlan)
      → get_elem? cs j ≡ some c
      → (c.role ≡ role)
        × (c.replica_idx ≡ j)
        × (given ≢ [] → c.gpu_indices ≡ given)
        × (given ≡ [] → c.gpu_indices ≡ all)

at_least_one-same : (n : ℕ) → n ≢ 0 → at_least_one n ≡ n
unfolding at_least_one
at_least_one-same zero h = absurd (h refl)
at_least_one-same (suc n) h = refl

or_all-given : (given all : List ℕ) → given ≢ [] → or_all given all ≡ given
or_all-given [] all h = absurd (h refl)
or_all-given (g ∷ gs) all h = refl

replicas-Replicas :
    (c : ContainerPlan) (asked : ℕ) (given all : List ℕ)
    → c.gpu_indices ≡ or_all given all
    → Replicas c.role asked given all (replicas c 0 (at_least_one asked))
unfolding at_least_one
replicas-Replicas c asked given all g =
    let count = length-replicas c 0 (at_least_one asked) in
    record {
      one = λ z. count ∙ ap at_least_one z;
      count = λ n. count ∙ at_least_one-same asked n;
      each = λ j d e.
          let same = replicas-at c 0 (at_least_one asked) j d e in
          let gpus : d.gpu_indices ≡ or_all given all =
            ap (λ (x : ContainerPlan). x.gpu_indices) same ∙ g in
          (
            ap (λ (x : ContainerPlan). x.role) same,
            ap (λ (x : ContainerPlan). x.replica_idx) same ∙ omega arith,
            λ n. gpus ∙ or_all-given given all n,
            λ z. gpus ∙ ap (λ l. or_all l all) z,
          );
    }

-- A plan for an input has the replicas of both roles.
abbrev pub Both : Input → DeploymentPlan → Type 0
Both i d =
    Replicas producer i.prefill_replicas i.prefill_gpu_indices i.gpu_indices d.prefill
    × Replicas consumer i.decode_replicas i.decode_gpu_indices i.gpu_indices d.decode

abbrev BuildsBoth : (Input → Result DeploymentPlan) → Type 0
BuildsBoth build = (i : Input) (d : DeploymentPlan) → build i ≡ ok d → Both i d

checked-Both :
    (i : Input) (a d : DeploymentPlan) → Both i a → checked (gpu_checks i) a ≡ ok d → Both i d
checked-Both i a d b e = subst (Both i) (checked-ok (gpu_checks i) a d e).1 b

vllm-Both : (getenv : Getenv) (r : Image) → BuildsBoth (vllm_build_deployment_plan getenv r)
unfolding vllm_build_deployment_plan
vllm-Both getenv r i d = checked-Both i _ d (
  replicas-Replicas (vllm_role getenv r i producer "kv_producer" i.prefill_gpu_indices)
      i.prefill_replicas i.prefill_gpu_indices i.gpu_indices refl,
  replicas-Replicas (vllm_role getenv r i consumer "kv_consumer" i.decode_gpu_indices)
      i.decode_replicas i.decode_gpu_indices i.gpu_indices refl,
)

sglang-Both : (getenv : Getenv) (r : Image) → BuildsBoth (sglang_build_deployment_plan getenv r)
unfolding sglang_build_deployment_plan
sglang-Both getenv r i d = checked-Both i _ d (
  replicas-Replicas
      (sglang_role getenv r i producer "prefill" (prefill_env getenv) i.prefill_gpu_indices)
      i.prefill_replicas i.prefill_gpu_indices i.gpu_indices refl,
  replicas-Replicas
      (sglang_role getenv r i consumer "decode" (decode_env getenv) i.decode_gpu_indices)
      i.decode_replicas i.decode_gpu_indices i.gpu_indices refl,
)

multi_registry-Both : (getenv : Getenv) → All (λ e. BuildsBoth e.1) (multi_registry getenv)
unfolding multi_registry
multi_registry-Both getenv = (vllm-Both getenv _, (sglang-Both getenv _, tt))

found :
    (getenv : Getenv) (name : String) (build : Input → Result DeploymentPlan)
    → multi_get getenv name ≡ ok build
    → lookup name (multi_registry getenv) ≡ some build
unfolding multi_get
found getenv name build e = ground (arith, e)

-- A plan that a registered recipe for several containers builds has as many prefill and as many
-- decode replicas as the input asks for, and one of each where it asks for none; the replicas of a
-- role are numbered from 0 in order, have the role, and share the GPUs given for it, or all the GPUs
-- of the input when none are given.
pub multi_get-Both :
    (getenv : Getenv) (name : String) (build : Input → Result DeploymentPlan) (i : Input)
    (d : DeploymentPlan)
    → multi_get getenv name ≡ ok build
    → build i ≡ ok d
    → Both i d
multi_get-Both getenv name build i d g =
    lookup-All BuildsBoth name (multi_registry getenv) build (multi_registry-Both getenv)
      (found getenv name build g) i d
