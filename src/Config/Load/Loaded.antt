-- ===== src/Config/Load/Loaded.antt =====
-- A configuration that loads is valid.
use inferia_worker.Common.{
  String, [], Bool, true, false, not, ◌||◌, Result, ok, ite, string_dec, to_lower, ◌≡◌, refl, subst,
  ◌⊎◌, inl, inr, arith, List-cases,
}
use inferia_worker.Config.Values.{Getenv}
use inferia_worker.Config.Load.Formats.{is_empty}
use inferia_worker.Config.Load.{
  Config, Url, required, well_formed, pull_timeout, readiness_timeout, heartbeat_interval, read,
  errors, load_from,
}
use inferia_worker.Config.Load.Bounds.{
  append-nil_left, unless-nil, given-nil, not-true, IsTimeout, parse_positive_int-IsTimeout,
  IsValid, given_url-IsHttp, check_name-nil, check_inference_token-nil,
}

module _ (parse_url : String → Result Url) (getenv : Getenv) where
  load_from-ok :
      (c : Config)
      → load_from parse_url getenv ≡ ok c
      → (errors parse_url getenv ≡ []) × (read getenv ≡ c)
  unfolding load_from
  load_from-ok c e = elim (List-cases (errors parse_url getenv)) [
    | inl n ↦ (n, ground (arith, n, e))
    | inr (m, ms, f) ↦ ground (arith, f, e)
  ]

  -- What no required value being missing means.
  record IsGiven (c : Config) : Type 0 where
    control_plane : is_empty c.control_plane_url ≡ false
    name : is_empty c.node_name ≡ false
    pool : is_empty c.pool_id ≡ false
    advertised : is_empty c.worker_advertise_url ≡ false
    token : is_empty c.inference_token ≡ false
    bootstrap :
        (is_empty c.bootstrap_token ≡ false) ⊎ (to_lower (getenv "TOKEN_FILE_PRESENT") ≡ "true")

  required-IsGiven : (c : Config) → required c getenv ≡ [] → IsGiven c
  unfolding required
  required-IsGiven c e =
      let (a, e1) = append-nil_left _ _ e in
      let (b, e2) = append-nil_left _ _ e1 in
      let (p, e3) = append-nil_left _ _ e2 in
      let (d, e4) = append-nil_left _ _ e3 in
      let (f, e5) = append-nil_left _ _ e4 in
      record {
        control_plane = not-true _ (unless-nil _ _ a);
        name = not-true _ (unless-nil _ _ b);
        pool = not-true _ (unless-nil _ _ p);
        advertised = not-true _ (unless-nil _ _ d);
        token = not-true _ (unless-nil _ _ f);
        bootstrap = present (is_empty c.bootstrap_token) (string_dec _ "true") (unless-nil _ _ e5);
      }
    where
      present :
          (b : Bool) (d : Dec (to_lower (getenv "TOKEN_FILE_PRESENT") ≡ "true"))
          → (not b || ite d true false) ≡ true
          → (b ≡ false) ⊎ (to_lower (getenv "TOKEN_FILE_PRESENT") ≡ "true")
      present false d h = inl refl
      present true (yes y) h = inr y
      present true (no n) h = cc h

  valid :
      (c : Config)
      → IsGiven c
      → well_formed parse_url c ≡ []
      → IsTimeout c.pull_timeout_seconds
      → IsTimeout c.readiness_timeout_seconds
      → IsTimeout c.heartbeat_interval_seconds
      → IsValid parse_url getenv c
  unfolding well_formed
  valid c g e pull ready beat =
      let (a, e1) = append-nil_left _ _ e in
      let (b, e2) = append-nil_left _ _ e1 in
      let (n, e3) = append-nil_left _ _ e2 in
      let (p, e4) = append-nil_left _ _ e3 in
      let (t, e5) = append-nil_left _ _ e4 in
      let (i, l) = append-nil_left _ _ e5 in
      let (length_ok, characters, dots) =
        check_name-nil c.node_name (given-nil c.node_name _ g.name n) in
      let (from, to) =
        check_inference_token-nil c.inference_token (given-nil c.inference_token _ g.token i) in
      record {
        control_plane = given_url-IsHttp parse_url _ c.control_plane_url g.control_plane a;
        advertised = given_url-IsHttp parse_url _ c.worker_advertise_url g.advertised b;
        name_length = length_ok;
        name_characters = characters;
        name_without_dots = dots;
        pool = unless-nil _ _ (given-nil c.pool_id _ g.pool p);
        token_from = from;
        token_to = to;
        bootstrap = g.bootstrap;
        level = unless-nil _ _ l;
        pull = pull;
        readiness = ready;
        heartbeat = beat;
      }

  read-IsValid : errors parse_url getenv ≡ [] → IsValid parse_url getenv (read getenv)
  unfolding errors read pull_timeout readiness_timeout heartbeat_interval
  read-IsValid e =
      let (r, e1) = append-nil_left _ _ e in
      let (w, e2) = append-nil_left _ _ e1 in
      let (p, e3) = append-nil_left _ _ e2 in
      let (q, b) = append-nil_left _ _ e3 in
      valid (read getenv) (required-IsGiven (read getenv) r) w
        (parse_positive_int-IsTimeout getenv _ 1800 (omega arith, omega arith) p)
        (parse_positive_int-IsTimeout getenv _ 180 (omega arith, omega arith) q)
        (parse_positive_int-IsTimeout getenv _ 5 (omega arith, omega arith) b)

-- A configuration that loads is valid: both URLs are absolute and of http or https, the node's name
-- has 1 to 255 bytes of the allowed characters and no two dots in a row, the pool is a UUID, the
-- inference token has 16 to 4096 bytes, a bootstrap token is given or a token file is present, the
-- log level is one of the four, and each of the three timeouts is between a second and a day.
pub load_from-IsValid :
    (parse_url : String → Result Url) (getenv : Getenv) (c : Config)
    → load_from parse_url getenv ≡ ok c
    → IsValid parse_url getenv c
load_from-IsValid parse_url getenv c e =
    let (n, same) = load_from-ok parse_url getenv c e in
    subst (IsValid parse_url getenv) same (read-IsValid parse_url getenv n)
