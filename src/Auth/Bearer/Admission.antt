-- ===== src/Auth/Bearer/Admission.antt =====
-- Which requests the middleware lets through.
use inferia_worker.Common.{
  ℕ, [], ◌∷◌, ◌++◌, map, Bool, true, false, Option, none, some, codes, if◌then◌else◌, ◌≡◌, ◌≢◌, ◌↔◌,
  ◌⊎◌, inl, inr, ⊎_map, refl, sym, ap, subst, ◌∙◌, arith, All, Option-cases,
}
use inferia_worker.Auth.Bearer.{
  Bytes, space, equal, has_prefix, lower, bearer, equal_fold_bearer, cut_space, contains_blank,
  token_of, extract_bearer, constant_time_equal, Answer, next, check_token,
  inference_token_middleware,
}

-- The header of a token: "Bearer" in any case, one space, and the token, which is not empty and has
-- neither space nor tab.
pub record Carries (header token : Bytes) : Type 0 where
  pub scheme : Bytes
  pub spelled : header ≡ scheme ++ (space ∷ token)
  pub is_bearer : equal_fold_bearer scheme ≡ true
  pub nonempty : token ≢ []
  pub unbroken : contains_blank token ≡ false

abbrev NoSpace : Bytes → Type 0
NoSpace s = All (λ c. c ≢ space) s

equal-path : (a b : Bytes) → equal a b ≡ true → a ≡ b
unfolding equal
equal-path [] [] e = refl
equal-path (a ∷ xs) (b ∷ ys) e = ground (arith, e, equal-path xs ys)
equal-path [] (b ∷ ys) e = cc e
equal-path (a ∷ xs) [] e = cc e

equal_refl : (a : Bytes) → equal a a ≡ true
unfolding equal
equal_refl [] = refl
equal_refl (a ∷ xs) = ground (arith, equal_refl xs)

lower-space : (c : ℕ) → lower c ≢ space → c ≢ space
lower-space c n = ground (arith, n)

map-lower-NoSpace : (s : Bytes) → NoSpace (map lower s) → NoSpace s
map-lower-NoSpace [] h = tt
map-lower-NoSpace (c ∷ s) h = (lower-space c h.0, map-lower-NoSpace s h.1)

bearer-NoSpace : (s : Bytes) → equal_fold_bearer s ≡ true → NoSpace s
unfolding equal_fold_bearer
bearer-NoSpace s e =
    map-lower-NoSpace s (subst NoSpace (sym (equal-path (map lower s) bearer e)) ground arith)

cut_space-append : (s r : Bytes) → NoSpace s → cut_space (s ++ (space ∷ r)) ≡ some (s, r)
unfolding cut_space
cut_space-append [] r h = refl
cut_space-append (c ∷ s) r h = ground (arith, h.0, cut_space-append s r h.1)

cut_space-some : (h s r : Bytes) → cut_space h ≡ some (s, r) → h ≡ s ++ (space ∷ r)
unfolding cut_space
cut_space-some [] s r e = cc e
cut_space-some (c ∷ cs) s r e = elim (Option-cases (cut_space cs)) [
  | inl n ↦ ground (arith, e, n)
  | inr (p, f) ↦ ground (arith, e, f, cut_space-some cs p.0 p.1 f)
]

constant_time_equal-path : (a b : Bytes) → constant_time_equal a b ≡ true → a ≡ b
unfolding constant_time_equal
constant_time_equal-path a b e = equal-path a b (ground (arith, e))

constant_time_equal_refl : (a : Bytes) → constant_time_equal a a ≡ true
unfolding constant_time_equal
constant_time_equal_refl a = ground (arith, equal_refl a)

token_of-some :
    (s r t : Bytes)
    → t ≢ []
    → token_of s r ≡ t
    → (r ≡ t) × (equal_fold_bearer s ≡ true) × (contains_blank r ≡ false)
unfolding token_of
token_of-some s r t n e = ground (arith, n, e)

token_of-Carries :
    (s r : Bytes) → equal_fold_bearer s ≡ true → contains_blank r ≡ false → token_of s r ≡ r
unfolding token_of
token_of-Carries s r b u = ground (arith, b, u)

not_bearer : equal_fold_bearer [] ≡ false
unfolding equal_fold_bearer equal
not_bearer = refl

-- The cut and the test of the scheme, and then the token.
abbrev from_cut : Option (Bytes × Bytes) → Bytes
from_cut none = []
from_cut (some ([], r)) = []
from_cut (some (c ∷ cs, r)) = token_of (c ∷ cs) r

extract_bearer-from_cut : (h : Bytes) → extract_bearer h ≡ from_cut (cut_space h)
unfolding extract_bearer
extract_bearer-from_cut h = go (cut_space h)
  where
    go :
        (o : Option (Bytes × Bytes))
        → elim o [ none ↦ [] | some p ↦ elim p.0 [ [] ↦ [] | c ∷ cs ↦ token_of (c ∷ cs) p.1 ] ]
          ≡ from_cut o
    go none = refl
    go (some ([], r)) = refl
    go (some (c ∷ cs, r)) = refl

from_cut-Carries :
    (h t : Bytes) (o : Option (Bytes × Bytes))
    → t ≢ []
    → cut_space h ≡ o
    → from_cut o ≡ t
    → Carries h t
from_cut-Carries h t none n c e = absurd (n (sym e))
from_cut-Carries h t (some ([], r)) n c e = absurd (n (sym e))
from_cut-Carries h t (some (x ∷ xs, r)) n c e =
    let (same, b, u) = token_of-some (x ∷ xs) r t n e in
    record {
      scheme = x ∷ xs;
      spelled = cut_space-some h (x ∷ xs) r c ∙ ap (λ z. (x ∷ xs) ++ (space ∷ z)) same;
      is_bearer = b;
      nonempty = n;
      unbroken = subst (λ z. contains_blank z ≡ false) same u;
    }

from_scheme :
    (s t : Bytes)
    → equal_fold_bearer s ≡ true
    → contains_blank t ≡ false
    → from_cut (some (s, t)) ≡ t
from_scheme [] t b u = cc (b, not_bearer)
from_scheme (c ∷ cs) t b u = token_of-Carries (c ∷ cs) t b u

-- The token of a header that carries one.
extract_bearer-Carries : (h t : Bytes) → Carries h t → extract_bearer h ≡ t
extract_bearer-Carries h t c =
    extract_bearer-from_cut h
    ∙ ap from_cut
        (ap cut_space c.spelled ∙ cut_space-append c.scheme t (bearer-NoSpace c.scheme c.is_bearer))
    ∙ from_scheme c.scheme t c.is_bearer c.unbroken

check_token-next :
    (expected got : Bytes) → check_token expected got ≡ next → (got ≢ []) × (got ≡ expected)
unfolding check_token
check_token-next expected [] e = cc e
check_token-next expected (c ∷ cs) e =
    (λ z. cc z, constant_time_equal-path (c ∷ cs) expected (ground (arith, e)))

check_token_same : (t : Bytes) → t ≢ [] → check_token t t ≡ next
unfolding check_token
check_token_same [] n = absurd (n refl)
check_token_same (c ∷ cs) n = ground (arith, constant_time_equal_refl (c ∷ cs))

checked_header :
    (expected header : Bytes)
    → check_token expected (extract_bearer header) ≡ next
    → Carries header expected
checked_header expected header e =
    let (n, same) = check_token-next expected (extract_bearer header) e in
    from_cut-Carries header expected (cut_space header) (subst (λ t. t ≢ []) same n) refl
      (sym (extract_bearer-from_cut header) ∙ same)

header_checked :
    (expected header : Bytes)
    → Carries header expected
    → check_token expected (extract_bearer header) ≡ next
header_checked expected header c =
    ap (check_token expected) (extract_bearer-Carries header expected c)
    ∙ check_token_same expected c.nonempty

abbrev guarded : Bool → Answer → Answer
guarded b a = if b then a else next

guarded-next : (b : Bool) (a : Answer) → guarded b a ≡ next → (b ≡ false) ⊎ (a ≡ next)
guarded-next true a e = inr e
guarded-next false a e = inl refl

next-guarded : (b : Bool) (a : Answer) → (b ≡ false) ⊎ (a ≡ next) → guarded b a ≡ next
next-guarded true a (inl e) = cc e
next-guarded true a (inr e) = e
next-guarded false a e = refl

-- A request reaches the next handler exactly when its path is not under /v1/ or its header carries
-- the expected token: "Bearer" in any case, one space, and that token, which is then neither empty
-- nor broken by a space or a tab.
pub inference_token_middleware_iff :
    (expected path header : Bytes)
    → (inference_token_middleware expected path header ≡ next)
      ↔ ((has_prefix path (codes "/v1/") ≡ false) ⊎ Carries header expected)
unfolding inference_token_middleware
inference_token_middleware_iff expected path header =
    let b = has_prefix path (codes "/v1/") in
    let a = check_token expected (extract_bearer header) in
    (
      λ e. ⊎_map (λ f. f) (checked_header expected header) (guarded-next b a e),
      λ e. next-guarded b a (⊎_map (λ f. f) (header_checked expected header) e),
    )
