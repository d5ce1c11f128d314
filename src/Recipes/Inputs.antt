-- ===== src/Recipes/Inputs.antt =====
-- internal/runtime/recipes/recipes.go: the checks of an input, and the parts that the recipes share.
use Prim.Native.String.{len, slice}
use Prim.Native.Char.{Char, code}
use text.Mathlib.Text.{find?}
use inferia_worker.Common.{
  ℕ, ◌+◌, String, List, [], ◌∷◌, Bool, true, false, not, ◌&&◌, ◌||◌, Option, none, some, ite,
  string_dec, lookup, string_key, keys, ltb, leb, ◌==◌, if◌then◌else◌, ◌&◌, itoa, quote, codes,
  to_lower, is_space, length,
}
use inferia_worker.Config.Values.{Value, str, flag, int, float, nested, ConfigMap}
use inferia_worker.Recipes.Plan.{BuildInput}

abbrev pub Input : Type 0
Input = BuildInput ConfigMap

abbrev pub max_config_keys : ℕ
max_config_keys = 64

abbrev pub max_config_key : ℕ
max_config_key = 128

abbrev pub allowed_config_keys : List String
allowed_config_keys =
    "tensor_parallel_size" ∷ "pipeline_parallel_size" ∷ "dtype" ∷ "max_model_len" ∷ "max_num_seqs"
    ∷ "gpu_memory_utilization" ∷ "quantization" ∷ "enforce_eager" ∷ "trust_remote_code"
    ∷ "max_batch_size" ∷ "max_input_length" ∷ "max_total_tokens" ∷ "attention_backend"
    ∷ "sampling_backend" ∷ "mem_fraction_static" ∷ "chunked_prefill_size" ∷ "max_running_requests"
    ∷ "model_type" ∷ "model_offload" ∷ "group_offload" ∷ "vae_use_slicing" ∷ "vae_use_tiling"
    ∷ "vae_patch_parallel_size" ∷ "usp" ∷ "ring" ∷ "use_hsdp" ∷ "hsdp_shard_size" ∷ "flow_shift"
    ∷ "boundary_ratio" ∷ "cache_backend" ∷ "ignored_layers" ∷ []

abbrev pub allowed_uri_schemes : List String
allowed_uri_schemes = "s3" ∷ "gs" ∷ "hf" ∷ "http" ∷ "https" ∷ "oci" ∷ []

unfoldable pub mem : String → List String → Bool
mem k [] = false
mem k (j ∷ js) = let rest = mem k js in ite (string_dec j k) true rest

-- The pattern of an artifact URI, character by character: a scheme, "://", and a rest that is not
-- empty, of characters that are no control characters and none of "`$;|&><()".
is_letter : ℕ → Bool
is_letter c = leb 97 c && leb c 122

is_scheme_char : ℕ → Bool
unfolding is_letter
is_scheme_char c = is_letter c || (leb 48 c && leb c 57) || c == 43 || c == 45 || c == 46

is_rest_char : ℕ → Bool
is_rest_char c =
    leb 32 c
    && not (
        c == 96
        || c == 36
        || c == 59
        || c == 124
        || c == 38
        || c == 62
        || c == 60
        || c == 40
        || c == 41)

all_rest : List ℕ → Bool
unfolding is_rest_char
all_rest [] = true
all_rest (c ∷ cs) = is_rest_char c && all_rest cs

matches_rest : List ℕ → Bool
unfolding all_rest
matches_rest (a ∷ b ∷ d ∷ c ∷ cs) = a == 58 && b == 47 && d == 47 && all_rest (c ∷ cs)
matches_rest cs = false

-- The characters of the scheme are none of "://", so the longest scheme is the only one.
matches_scheme : List ℕ → Bool
unfolding is_scheme_char matches_rest
matches_scheme [] = false
matches_scheme (c ∷ cs) =
    let more = matches_scheme cs in if is_scheme_char c then more else matches_rest (c ∷ cs)

unfoldable pub uri_pattern : List ℕ → Bool
unfolding is_letter matches_scheme
uri_pattern [] = false
uri_pattern (c ∷ cs) = is_letter c && matches_scheme cs

-- `strings.TrimSpace(s) == ""`.
unfoldable pub is_blank : List ℕ → Bool
unfolding is_space
is_blank [] = true
is_blank (c ∷ cs) = is_space c && is_blank cs

unfoldable pub scheme_of : String → String
scheme_of uri = elim (find? uri "://") [ none ↦ uri | some i ↦ slice uri 0 i ]

unfoldable pub validate_artifact_uri : String → Option String
unfolding uri_pattern is_blank scheme_of mem to_lower quote
validate_artifact_uri uri =
    if is_blank (codes uri)
    then some "artifact URI required"
    else if not (uri_pattern (codes uri))
    then some ("artifact URI contains invalid characters: " & quote uri)
    else if not (mem (to_lower (scheme_of uri)) allowed_uri_schemes)
    then some ("artifact URI scheme " & quote (scheme_of uri) & " not allowed")
    else none

unfoldable pub check_keys : List String → Option String
check_keys [] = none
check_keys (k ∷ ks) =
    let rest = check_keys ks in
    if ltb max_config_key (len k)
    then some ("config key length " & itoa (len k) & " exceeds max " & itoa max_config_key)
    else rest

unfoldable pub check_config : ConfigMap → Option String
unfolding check_keys
check_config config =
    if ltb max_config_keys (length config)
    then some ("config has " & itoa (length config) & " keys, max " & itoa max_config_keys)
    else check_keys (keys config)

-- The indices are not negative.
unfoldable pub validate : Input → Option String
unfolding validate_artifact_uri check_config
validate i =
    let uri = validate_artifact_uri i.artifact_uri in
    let rest =
      if i.host_port == 0 || ltb 65535 i.host_port
      then some ("HostPort " & itoa i.host_port & " out of range [1, 65535]")
      else check_config i.config in
    ite (string_dec i.deployment_id "") (some "DeploymentID is required")
      (elim uri [ some m ↦ some m | none ↦ rest ])

unfoldable pub require_gpu : Input → Option String
require_gpu i = elim i.gpu_indices [
  | [] ↦ some "at least one GPU index is required"
  | g ∷ gs ↦ none
]

unfoldable pub strip_scheme : String → String
strip_scheme uri = elim (find? uri "://") [ none ↦ uri | some i ↦ slice uri (i + 3) (len uri) ]

abbrev pub is_scalar : Value → Bool
is_scalar (nested t) = false
is_scalar v = true

unfoldable pub is_allowed : String → Bool
unfolding mem
is_allowed k = mem k allowed_config_keys

unfoldable pub sanitise_config : ConfigMap → ConfigMap
sanitise_config [] = []
sanitise_config ((k, v) ∷ m) =
    let rest = sanitise_config m in if is_allowed k && is_scalar v then (k, v) ∷ rest else rest

-- The replacer of container names: of "/", ":" and "..", tried at each position in this order.
safe_char : Char → String → String
safe_char c rest = if code c == 47 || code c == 58 then "-" & rest else String.◌∷◌ c rest

unfoldable pub safe : String → String
unfolding safe_char
safe String.[] = ""
safe (String.◌∷◌ c String.[]) = safe_char c ""
safe (String.◌∷◌ c (String.◌∷◌ d s)) =
    let after = safe s in
    let rest = safe (String.◌∷◌ d s) in
    if code c == 46 && code d == 46 then "-" & after else safe_char c rest

unfoldable pub container_name : String → String → String
unfolding safe
container_name prefix id = prefix & "-" & safe id

unfoldable pub cli_arg : Value → String
cli_arg (str s) = s
cli_arg (flag b) = if b then "true" else "false"
cli_arg (int n) = itoa n
cli_arg (float t) = t
cli_arg (nested t) = t

unfoldable pub dashes : String → String
dashes String.[] = ""
dashes (String.◌∷◌ c s) =
    let rest = dashes s in if code c == 95 then "-" & rest else String.◌∷◌ c rest

unfoldable pub dashed : String → String
unfolding dashes
dashed k = "--" & dashes k

-- The loop over the keys that have a value: each with its value.
unfoldable pub options : List String → ConfigMap → List String
unfolding dashed cli_arg
options [] cfg = []
options (k ∷ ks) cfg =
    let rest = options ks cfg in
    elim (lookup k cfg) [ none ↦ rest | some v ↦ dashed k ∷ cli_arg v ∷ rest ]

-- `if v, ok := cfg[k].(bool); ok && v`, with the option appended.
unfoldable pub switch : String → String → ConfigMap → List String
switch k option cfg = elim (lookup k cfg) [ some (flag true) ↦ option ∷ [] | _ ↦ [] ]
