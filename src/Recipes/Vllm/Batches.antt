-- ===== src/Recipes/Vllm/Batches.antt =====
-- The size of a batch of vLLM is that of the GPU's profile, and is capped.
use inferia_worker.Common.{
  ℕ, ◌≤◌, String, [], Bool, true, false, Option, none, some, ◌≡◌, ◌≢◌, refl, ap, ◌∙◌, ite,
  string_dec, Dict, lookup, insert, string_key, arith, All, lookup-All, lookup-fill, first_of,
  insert-other, insert-same, if◌then◌else◌, length, ltb, leb→le, leb, ◌&◌, itoa,
}
use inferia_worker.Config.Values.{Value, int, flag, ConfigMap, EnvMap, first_prefix}
use inferia_worker.Config.Vllm.{
  gpu_optimal_config, known_config, unknown_config, lookup_sizing, sizing_of, sizing_at, or_sizing,
  put_sizing, put_count, put_profile, lookup_profile,
}
use inferia_worker.Config.Vllm.Profiles.{
  Sizing, sizing_table, sizing_by_vram, fallback, sorted_profile_keys,
}
use inferia_worker.Recipes.Inputs.{Input, is_allowed, sanitise_config}
use inferia_worker.Recipes.Vllm.{vllm_config}
use inferia_worker.Recipes.Vllm.Options.{lookup-sanitise_config-none}

abbrev IsCapped : Sizing → Type 0
IsCapped s = leb s.mbt 16384 ≡ true

table-IsCapped : All (λ e. IsCapped e.1) sizing_table
table-IsCapped = (
  refl,
  (
    refl,
    (
      refl,
      (
        refl,
        (refl, (refl, (refl, (refl, (refl, (refl, (refl, (refl, (refl, (refl, (refl, tt))))))))))),
      ),
    ),
  ),
)

by_vram-IsCapped : All (λ e. IsCapped e.1) sizing_by_vram
by_vram-IsCapped = (refl, (refl, (refl, (refl, tt))))

or_sizing-IsCapped :
    (k : String) (table : Dict String Sizing) (d : Sizing)
    → All (λ e. IsCapped e.1) table
    → IsCapped d
    → IsCapped (or_sizing (lookup k table) d)
or_sizing-IsCapped k table d h hd = go (lookup k table) refl
  where
    go : (o : Option Sizing) → lookup k table ≡ o → IsCapped (or_sizing o d)
    go none e = hd
    go (some s) e = lookup-All IsCapped k table s h e

if-IsCapped : (b : Bool) (s t : Sizing) → IsCapped s → IsCapped t → IsCapped (if b then s else t)
if-IsCapped true s t hs ht = hs
if-IsCapped false s t hs ht = ht

sizing_of-IsCapped : (prefix : String) (vram n : ℕ) → IsCapped (sizing_of prefix vram n)
unfolding sizing_of
sizing_of-IsCapped prefix vram n =
    let base = or_sizing-IsCapped prefix sizing_table fallback table-IsCapped refl in
    let multi = or_sizing-IsCapped (prefix & ":" & itoa n) sizing_table _ table-IsCapped base in
    let rest = if-IsCapped (ltb 1 n) _ _ multi base in
    let exact =
      or_sizing-IsCapped (prefix & ":" & itoa n & ":" & itoa vram) sizing_by_vram _ by_vram-IsCapped
        rest in
    if-IsCapped (ltb 0 vram) _ _ exact rest

sizing_at-IsCapped : (o : Option String) (vram n : ℕ) → IsCapped (sizing_at o vram n)
unfolding sizing_at
sizing_at-IsCapped none vram n = refl
sizing_at-IsCapped (some prefix) vram n = sizing_of-IsCapped prefix vram n

lookup_sizing-IsCapped : (name : String) (vram n : ℕ) → IsCapped (lookup_sizing name vram n)
unfolding lookup_sizing
lookup_sizing-IsCapped name vram n =
    sizing_at-IsCapped (first_prefix sorted_profile_keys name) vram n

abbrev batch : String
batch = "max_num_batched_tokens"

lookup-put_sizing : (s : Sizing) (m : ConfigMap) → lookup batch (put_sizing s m) ≡ some (int s.mbt)
unfolding put_sizing
lookup-put_sizing s m = insert-same batch (int s.mbt) _

insert_if-other :
    (b : Bool) (k j : String) (v : Value) (m : ConfigMap)
    → k ≢ j
    → lookup j (if b then insert k v m else m) ≡ lookup j m
insert_if-other true k j v m n = insert-other k j v m n
insert_if-other false k j v m n = refl

not_count : ◌≢◌ {A = String} "tensor_parallel_size" batch
not_count e = cc e

put_count-batch : (n : ℕ) (m : ConfigMap) → lookup batch (put_count n m) ≡ lookup batch m
unfolding put_count
put_count-batch n m = insert_if-other (ltb 1 n) _ batch (int n) m not_count

caching-batch :
    (m : ConfigMap) → lookup batch (insert "enable_prefix_caching" (flag true) m) ≡ lookup batch m
caching-batch m = insert-other "enable_prefix_caching" batch (flag true) m (λ e. cc e)

Capped : Option Value → Type 0
Capped o = (n : ℕ) × (o ≡ some (int n)) × (n ≤ 16384)

batch_is_not_allowed : is_allowed batch ≡ false
unfolding is_allowed string_dec
batch_is_not_allowed = refl

known-Capped :
    (n : ℕ) (s : Sizing) (m : ConfigMap)
    → IsCapped s
    → Capped
        (lookup batch (put_count n (insert "enable_prefix_caching" (flag true) (put_sizing s m))))
unfolding Capped
known-Capped n s m h =
    (s.mbt, put_count-batch n _ ∙ caching-batch _ ∙ lookup-put_sizing s m, leb→le s.mbt 16384 h)

known_config-Capped :
    (name : String) (mib n : ℕ) → Capped (lookup batch (known_config name mib n).0)
unfolding known_config
known_config-Capped name mib n =
    known-Capped n (lookup_sizing name mib n) (put_profile (lookup_profile name) [])
      (lookup_sizing-IsCapped name mib n)

unknown_config-Capped : Capped (lookup batch unknown_config.0)
unfolding unknown_config Capped
unknown_config-Capped = (8192, caching-batch _ ∙ lookup-put_sizing fallback [], omega arith)

ite-Capped :
    {P : Type 0} (d : Dec P) (a b : ConfigMap × EnvMap)
    → Capped (lookup batch a.0)
    → Capped (lookup batch b.0)
    → Capped (lookup batch (ite d a b).0)
ite-Capped (yes e) a b ha hb = ha
ite-Capped (no n) a b ha hb = hb

gpu_optimal_config-Capped :
    (name : String) (mib n : ℕ) → Capped (lookup batch (gpu_optimal_config name mib n).0)
unfolding gpu_optimal_config
gpu_optimal_config-Capped name mib n =
    ite-Capped (string_dec name "") unknown_config (known_config name mib n) unknown_config-Capped
      (known_config-Capped name mib n)

-- Whatever the user configures and whatever the GPU is, vLLM is configured with a number of batched
-- tokens, and with at most 16384 of them.
pub vllm_config-Capped :
    (i : Input)
    → (n : ℕ) × (lookup "max_num_batched_tokens" (vllm_config i) ≡ some (int n)) × (n ≤ 16384)
unfolding vllm_config Capped
vllm_config-Capped i =
    let gpu = (gpu_optimal_config i.gpu_name i.gpu_memory_mib (length i.gpu_indices)).0 in
    let (n, e, b) = gpu_optimal_config-Capped i.gpu_name i.gpu_memory_mib (length i.gpu_indices) in
    (
      n,
      lookup-fill batch gpu (sanitise_config i.config)
          ∙ ap (λ o. first_of o (lookup batch gpu))
              (lookup-sanitise_config-none batch i.config batch_is_not_allowed)
          ∙ e,
      b,
    )
