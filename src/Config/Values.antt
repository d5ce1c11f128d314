-- ===== src/Config/Values.antt =====
-- The values of a `map[string]any`, and the environment of the process.
use text.Mathlib.Text.{starts_with}
use inferia_worker.Common.{
  ℕ, String, List, [], ◌∷◌, Bool, true, false, Option, none, some, Dict, ite, string_dec,
  if◌then◌else◌, insert, string_key,
}

-- An int is not negative here: JSON decodes a number as a float64, and the ints are those of the
-- GPU profiles. A float64 is given by the text that FormatFloat(v, 'f', -1, 64) writes, a value that
-- is no scalar by the one that `%v` writes.
pub data Value : Type 0 where
  str : String → Value
  flag : Bool → Value
  int : ℕ → Value
  float : String → Value
  nested : String → Value

abbrev pub ConfigMap : Type 0
ConfigMap = Dict String Value

abbrev pub EnvMap : Type 0
EnvMap = Dict String String

-- os.Getenv: "" for a variable that is not set.
abbrev pub Getenv : Type 0
Getenv = String → String

-- `if v != "" { m[k] = v }`.
unfoldable pub set_text : String → String → ConfigMap → ConfigMap
set_text k v m = ite (string_dec v "") m (insert k (str v) m)

unfoldable pub env_or : Getenv → String → String → String
env_or getenv k d = ite (string_dec (getenv k) "") d (getenv k)

-- The first key that is a prefix of the name.
unfoldable pub first_prefix : List String → String → Option String
first_prefix [] name = none
first_prefix (p ∷ ps) name =
    let rest = first_prefix ps name in if starts_with name p then some p else rest

unfoldable pub has_any_prefix : List String → String → Bool
unfolding first_prefix
has_any_prefix ps name = elim (first_prefix ps name) [ none ↦ false | some p ↦ true ]
