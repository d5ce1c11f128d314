-- ===== src/Config/Load/Bounds.antt =====
-- What each check of the configuration stands for.
use Prim.Native.String.{len}
use inferia_worker.Common.{
  ℕ, ◌≤◌, String, List, [], ◌∷◌, ◌++◌, Bool, true, false, not, ◌&&◌, Option, none, some, Result, ok,
  err, ite, string_dec, contains, codes, to_lower, ◌≡◌, refl, ◌⊎◌, arith, leb→le,
}
use inferia_worker.Config.Values.{Getenv}
use inferia_worker.Config.Load.Formats.{
  is_empty, uuid_pattern, node_name_pattern, ℤ, pos, negsuc, atoi,
}
use inferia_worker.Config.Load.{
  Config, Url, is_one_of, bounded, parsed, parse_positive_int, value_of, error_of, unless, given,
  check_url, validate_http_url, check_name, check_inference_token,
}

pub append-nil_left : (xs ys : List String) → xs ++ ys ≡ [] → (xs ≡ []) × (ys ≡ [])
append-nil_left [] ys e = (refl, e)
append-nil_left (x ∷ xs) ys e = cc e

pub unless-nil : (b : Bool) (m : String) → unless b m ≡ [] → b ≡ true
unless-nil true m e = refl
unless-nil false m e = cc e

pub given-nil : (s : String) (l : List String) → is_empty s ≡ false → given s l ≡ [] → l ≡ []
given-nil s l n e = ground (arith, n, e)

pub not-true : (b : Bool) → not b ≡ true → b ≡ false
not-true true e = cc e
not-true false e = refl

-- A number of seconds: between one and a day.
abbrev pub IsTimeout : ℕ → Type 0
IsTimeout n = (1 ≤ n) × (n ≤ 86400)

bounded-IsTimeout :
    (key : String) (n : ℤ) → error_of (bounded key n) ≡ [] → IsTimeout (value_of (bounded key n))
unfolding bounded error_of value_of
bounded-IsTimeout key (negsuc n) e = cc e
bounded-IsTimeout key (pos n) e = ground (arith, e)

parsed-IsTimeout :
    (key raw : String) (o : Option ℤ)
    → error_of (parsed key raw o) ≡ []
    → IsTimeout (value_of (parsed key raw o))
unfolding parsed error_of value_of
parsed-IsTimeout key raw none e = cc e
parsed-IsTimeout key raw (some n) e = bounded-IsTimeout key n e

pub parse_positive_int-IsTimeout :
    (getenv : Getenv) (key : String) (d : ℕ)
    → IsTimeout d
    → error_of (parse_positive_int getenv key d) ≡ []
    → IsTimeout (value_of (parse_positive_int getenv key d))
unfolding parse_positive_int value_of
parse_positive_int-IsTimeout getenv key d h = go (string_dec (getenv key) "")
  where
    p : Result ℕ
    p = parsed key (getenv key) (atoi (codes (getenv key)))

    go :
        (q : Dec (getenv key ≡ ""))
        → error_of (ite q (ok d) p) ≡ []
        → IsTimeout (value_of (ite q (ok d) p))
    go (yes z) e = h
    go (no n) e = parsed-IsTimeout key (getenv key) (atoi (codes (getenv key))) e

module _ (parse_url : String → Result Url) where
  -- An absolute URL of http or https.
  pub record IsHttp (raw : String) : Type 0 where
    pub url : Url
    pub parses : parse_url raw ≡ ok url
    pub has_scheme : is_empty url.scheme ≡ false
    pub has_host : is_empty url.host ≡ false
    pub is_http : is_one_of (to_lower url.scheme) ("http" ∷ "https" ∷ []) ≡ true

  check_url-IsHttp :
      (name raw : String) (r : Result Url)
      → parse_url raw ≡ r
      → check_url parse_url name raw r ≡ []
      → IsHttp raw
  unfolding check_url
  check_url-IsHttp name raw (err m) p e = cc e
  check_url-IsHttp name raw (ok u) p e = record {
    url = u;
    parses = p;
    has_scheme = ground (arith, e);
    has_host = ground (arith, e);
    is_http = ground (arith, e);
  }

  pub given_url-IsHttp :
      (name raw : String)
      → is_empty raw ≡ false
      → given raw (validate_http_url parse_url name raw) ≡ []
      → IsHttp raw
  unfolding validate_http_url
  given_url-IsHttp name raw n e =
      check_url-IsHttp name raw (parse_url raw) refl (given-nil raw _ n e)

  -- What a configuration promises to the rest of the worker.
  pub record IsValid (getenv : Getenv) (c : Config) : Type 0 where
    pub control_plane : IsHttp c.control_plane_url
    pub advertised : IsHttp c.worker_advertise_url
    pub name_length : len c.node_name ≤ 255
    pub name_characters : node_name_pattern c.node_name ≡ true
    pub name_without_dots : contains c.node_name ".." ≡ false
    pub pool : uuid_pattern c.pool_id ≡ true
    pub token_from : 16 ≤ len c.inference_token
    pub token_to : len c.inference_token ≤ 4096
    pub bootstrap :
        (is_empty c.bootstrap_token ≡ false) ⊎ (to_lower (getenv "TOKEN_FILE_PRESENT") ≡ "true")
    pub level : is_one_of c.log_level ("debug" ∷ "info" ∷ "warn" ∷ "error" ∷ []) ≡ true
    pub pull : IsTimeout c.pull_timeout_seconds
    pub readiness : IsTimeout c.readiness_timeout_seconds
    pub heartbeat : IsTimeout c.heartbeat_interval_seconds

and_not : (a b : Bool) → (a && not b) ≡ true → (a ≡ true) × (b ≡ false)
and_not true true e = cc e
and_not true false e = (refl, refl)
and_not false b e = cc e

pub check_name-nil :
    (s : String)
    → check_name s ≡ []
    → (len s ≤ 255) × (node_name_pattern s ≡ true) × (contains s ".." ≡ false)
unfolding check_name
check_name-nil s e =
    let (a, b) = append-nil_left _ _ e in
    let (m, n) = and_not _ _ (unless-nil _ _ b) in (leb→le (len s) 255 (unless-nil _ _ a), m, n)

pub check_inference_token-nil :
    (s : String) → check_inference_token s ≡ [] → (16 ≤ len s) × (len s ≤ 4096)
unfolding check_inference_token
check_inference_token-nil s e =
    let (a, b) = append-nil_left _ _ e in
    (leb→le 16 (len s) (unless-nil _ _ a), leb→le (len s) 4096 (unless-nil _ _ b))
