-- ===== src/Auth/Bearer.antt =====
-- internal/auth/middleware.go. Paths, headers and tokens are byte strings.
pub mod Admission
use inferia_worker.Common.{
  ℕ, ◌+◌, List, [], ◌∷◌, map, Bool, true, false, ◌&&◌, ◌||◌, Option, none, some, String, codes,
  length, leb, ◌==◌, if◌then◌else◌,
}

abbrev pub Bytes : Type 0
Bytes = List ℕ

abbrev pub space : ℕ
space = 32

abbrev pub tab : ℕ
tab = 9

unfoldable pub equal : Bytes → Bytes → Bool
equal [] [] = true
equal (a ∷ xs) (b ∷ ys) = let rest = equal xs ys in (a == b) && rest
equal [] (b ∷ ys) = false
equal (a ∷ xs) [] = false

unfoldable pub has_prefix : Bytes → Bytes → Bool
has_prefix s [] = true
has_prefix [] (p ∷ ps) = false
has_prefix (c ∷ s) (p ∷ ps) = let rest = has_prefix s ps in (c == p) && rest

abbrev pub lower : ℕ → ℕ
lower c = if leb 65 c && leb c 90 then c + 32 else c

abbrev pub bearer : Bytes
bearer = codes "bearer"

-- `strings.EqualFold(s, "Bearer")`: no letter outside ASCII folds to one of these.
unfoldable pub equal_fold_bearer : Bytes → Bool
unfolding equal
equal_fold_bearer s = equal (map lower s) bearer

-- What is before and behind the first space.
unfoldable pub cut_space : Bytes → Option (Bytes × Bytes)
cut_space [] = none
cut_space (c ∷ cs) =
    let rest = cut_space cs in
    if c == space then some ([], cs) else elim rest [ none ↦ none | some p ↦ some (c ∷ p.0, p.1) ]

-- `strings.ContainsAny(rest, " \t")`, which covers the test of the first byte.
unfoldable pub contains_blank : Bytes → Bool
contains_blank [] = false
contains_blank (c ∷ cs) = let rest = contains_blank cs in c == space || c == tab || rest

unfoldable pub token_of : Bytes → Bytes → Bytes
unfolding equal_fold_bearer contains_blank
token_of scheme rest =
    if equal_fold_bearer scheme then (if contains_blank rest then [] else rest) else []

unfoldable pub extract_bearer : Bytes → Bytes
unfolding cut_space token_of
extract_bearer h = elim (cut_space h) [
  | none ↦ []
  | some p ↦ elim p.0 [ [] ↦ [] | c ∷ cs ↦ token_of (c ∷ cs) p.1 ]
]

unfoldable pub constant_time_equal : Bytes → Bytes → Bool
unfolding equal
constant_time_equal a b = if length a == length b then equal a b else false

-- The next handler, or 401 with a text.
pub data Answer : Type 0 where
  next : Answer
  unauthorized : String → Answer

unfoldable pub check_token : Bytes → Bytes → Answer
unfolding constant_time_equal
check_token expected [] = unauthorized "missing or malformed Authorization header"
check_token expected (c ∷ cs) =
    if constant_time_equal (c ∷ cs) expected then next else unauthorized "invalid inference token"

unfoldable pub inference_token_middleware : Bytes → Bytes → Bytes → Answer
unfolding has_prefix extract_bearer check_token
inference_token_middleware expected path header =
    if has_prefix path (codes "/v1/") then check_token expected (extract_bearer header) else next
