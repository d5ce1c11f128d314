-- ===== src/Recipes/Vllm/Options.antt =====
-- What the user configures reaches the command line of vLLM.
use mathlib.Core.List.{append_assoc}
use inferia_worker.Common.{
  ℕ, String, List, [], ◌∷◌, ◌++◌, Bool, true, false, none, some, ok, ◌≡◌, ◌≢◌, refl, sym, ap, subst,
  ◌∙◌, string_dec, lookup, string_key, arith, length, lookup-fill, first_of, if◌then◌else◌,
}
use inferia_worker.Config.Values.{Value, ConfigMap, Getenv}
use inferia_worker.Config.Vllm.{gpu_optimal_config, mooncake_enabled, mooncake_cmd}
use inferia_worker.Recipes.Plan.{Plan}
use inferia_worker.Recipes.Inputs.{
  Input, is_allowed, mem, is_scalar, sanitise_config, options, strip_scheme, dashed, cli_arg,
}
use inferia_worker.Recipes.Vllm.{
  Image, gpu_checks, checked-ok, vllm_config, vllm_base, vllm_switches, vllm_keys, vllm_cmd,
  vllm_plan, vllm_build_plan,
}

pub lookup-sanitise_config :
    (k : String) (v : Value) (m : ConfigMap)
    → is_allowed k ≡ true
    → is_scalar v ≡ true
    → lookup k m ≡ some v
    → lookup k (sanitise_config m) ≡ some v
unfolding sanitise_config
lookup-sanitise_config k v [] a s h = cc h
lookup-sanitise_config k v ((j, w) ∷ m) a s h = elim (string_dec j k) [
  | yes e ↦ ground (arith, e, ap is_allowed e, a, s, h)
  | no n ↦ ground (arith, n, lookup-sanitise_config k v m a s (ground (arith, n, h)))
]

pub lookup-sanitise_config-none :
    (k : String) (m : ConfigMap) → is_allowed k ≡ false → lookup k (sanitise_config m) ≡ none
unfolding sanitise_config
lookup-sanitise_config-none k [] a = refl
lookup-sanitise_config-none k ((j, w) ∷ m) a = elim (string_dec j k) [
  | yes e ↦ ground (arith, e, ap is_allowed e, a, lookup-sanitise_config-none k m a)
  | no n ↦ ground (arith, n, lookup-sanitise_config-none k m a)
]

-- The option stands in the command, followed by its value.
abbrev pub Passes : List String → String → Value → Type 0
Passes cmd k v = (before after : List String) × (cmd ≡ before ++ (dashed k ∷ cli_arg v ∷ after))

Passes-after :
    (front cmd : List String) (k : String) (v : Value) → Passes cmd k v → Passes (front ++ cmd) k v
Passes-after front cmd k v (before, after, e) =
    (front ++ before, after, ap (λ c. front ++ c) e ∙ sym (append_assoc front before _))

Passes-before :
    (cmd back : List String) (k : String) (v : Value) → Passes cmd k v → Passes (cmd ++ back) k v
Passes-before cmd back k v (before, after, e) =
    (before, after ++ back, ap (λ c. c ++ back) e ∙ append_assoc before _ back)

option_at : String → ConfigMap → List String
option_at j cfg = elim (lookup j cfg) [ none ↦ [] | some v ↦ dashed j ∷ cli_arg v ∷ [] ]

options-cons :
    (j : String) (ks : List String) (cfg : ConfigMap)
    → options (j ∷ ks) cfg ≡ option_at j cfg ++ options ks cfg
unfolding options option_at
options-cons j ks cfg = ground arith

option_at-Passes :
    (j k : String) (v : Value) (cfg : ConfigMap)
    → j ≡ k
    → lookup k cfg ≡ some v
    → Passes (option_at j cfg) k v
unfolding option_at
option_at-Passes j k v cfg e h =
    subst (λ n. Passes (option_at n cfg) k v) (sym e) ([], [], rw (option_at, h) refl)

not_in_nil : (k : String) → mem k [] ≡ true → ⊥
unfolding mem
not_in_nil k e = cc e

in_rest : (j k : String) (ks : List String) → j ≢ k → mem k (j ∷ ks) ≡ true → mem k ks ≡ true
unfolding mem
in_rest j k ks n m = ground (arith, n, m)

options-Passes :
    (ks : List String) (k : String) (v : Value) (cfg : ConfigMap)
    → mem k ks ≡ true
    → lookup k cfg ≡ some v
    → Passes (options ks cfg) k v
options-Passes [] k v cfg m h = absurd (not_in_nil k m)
options-Passes (j ∷ ks) k v cfg m h = rw (options-cons j ks cfg) (elim (string_dec j k) [
  | yes e ↦ Passes-before (option_at j cfg) (options ks cfg) k v (option_at-Passes j k v cfg e h)
  | no n ↦
      Passes-after (option_at j cfg) (options ks cfg) k v
        (options-Passes ks k v cfg (in_rest j k ks n m) h)
])

configured :
    (i : Input) (k : String) (v : Value)
    → is_allowed k ≡ true
    → is_scalar v ≡ true
    → lookup k i.config ≡ some v
    → lookup k (vllm_config i) ≡ some v
unfolding vllm_config
configured i k v a s h =
    let gpu = (gpu_optimal_config i.gpu_name i.gpu_memory_mib (length i.gpu_indices)).0 in
    lookup-fill k gpu (sanitise_config i.config)
    ∙ ap (λ o. first_of o (lookup k gpu)) (lookup-sanitise_config k v i.config a s h)

vllm_cmd-Passes :
    (port : ℕ) (i : Input) (k : String) (v : Value)
    → mem k vllm_keys ≡ true
    → lookup k (vllm_config i) ≡ some v
    → Passes (vllm_cmd port i) k v
unfolding vllm_cmd
vllm_cmd-Passes port i k v m h =
    let cfg = vllm_config i in
    let base = vllm_base port (strip_scheme i.artifact_uri) in
    Passes-after base (options vllm_keys cfg ++ vllm_switches cfg) k v (
      Passes-before (options vllm_keys cfg) (vllm_switches cfg) k v
        (options-Passes vllm_keys k v cfg m h))

mooncake_cmd-Passes :
    (on : Bool) (role : String) (cmd : List String) (k : String) (v : Value)
    → Passes cmd k v
    → Passes (if on then mooncake_cmd role cmd else cmd) k v
unfolding mooncake_cmd
mooncake_cmd-Passes false role cmd k v h = h
mooncake_cmd-Passes true role cmd k v h = Passes-before cmd _ k v h

-- In a plan that the recipe of vLLM builds, a scalar that the user configures for an allowed key of
-- vLLM stands on the command line as the key's option followed by the user's value: no default of
-- the GPU's profile takes its place, with Mooncake or without.
pub vllm_build_plan-Passes :
    (getenv : Getenv) (r : Image) (i : Input) (p : Plan) (k : String) (v : Value)
    → vllm_build_plan getenv r i ≡ ok p
    → is_allowed k ≡ true
    → mem k vllm_keys ≡ true
    → is_scalar v ≡ true
    → lookup k i.config ≡ some v
    → Passes p.cmd k v
unfolding vllm_build_plan
vllm_build_plan-Passes getenv r i p k v e a m s h =
    let same = (checked-ok (gpu_checks i) (vllm_plan getenv r i) p e).1 in
    subst (λ (q : Plan). Passes q.cmd k v) same
      (mooncake_cmd-Passes (mooncake_enabled getenv) "kv_both" (vllm_cmd r.port i) k v
        (vllm_cmd-Passes r.port i k v m (configured i k v a s h)))
