-- ===== src/Config/Load.antt =====
-- internal/config/config.go: the worker's configuration from its environment. `url.Parse` of the
-- library net/url is a parameter.
pub mod Formats
pub mod Bounds
pub mod Loaded
use Prim.Native.String.{len}
use inferia_worker.Common.{
  ℕ, zero, suc, ◌+◌, ◌-◌, ◌*◌, ◌^◌, ◌≤◌, String, List, [], ◌∷◌, ◌++◌, Bool, true, false, not, ◌&&◌,
  ◌||◌, Option, none, some, Result, ok, err, ite, string_dec, ltb, leb, ◌==◌, if◌then◌else◌, ◌&◌,
  itoa, codes, contains, to_lower, quote,
}
use inferia_worker.Config.Load.Formats.{
  is_empty, uuid_pattern, node_name_pattern, ℤ, pos, negsuc, atoi,
}
use inferia_worker.Config.Values.{Getenv}

pub record Config : Type 0 where
  pub control_plane_url : String
  pub bootstrap_token : String
  pub node_name : String
  pub pool_id : String
  pub worker_advertise_url : String
  pub worker_listen_addr : String
  pub inference_token : String
  pub token_file : String
  pub docker_host : String
  pub models_network : String
  pub log_level : String
  pub pull_timeout_seconds : ℕ
  pub readiness_timeout_seconds : ℕ
  pub heartbeat_interval_seconds : ℕ

abbrev pub max_node_name_len : ℕ
max_node_name_len = 255

abbrev pub max_token_len : ℕ
max_token_len = 4096

abbrev pub min_inference_token : ℕ
min_inference_token = 16

abbrev pub max_timeout_seconds : ℕ
max_timeout_seconds = 86400

unfoldable pub first_non_empty : String → String → String
first_non_empty a b = ite (string_dec a "") b a

unfoldable pub is_one_of : String → List String → Bool
is_one_of s [] = false
is_one_of s (t ∷ ts) = let rest = is_one_of s ts in ite (string_dec s t) true rest

unfoldable pub bounded : String → ℤ → Result ℕ
bounded key (negsuc n) = err (key & " must be > 0 (got -" & itoa (suc n) & ")")
bounded key (pos n) =
    if n == 0
    then err (key & " must be > 0 (got 0)")
    else if ltb max_timeout_seconds n
    then err (key & " exceeds " & itoa max_timeout_seconds & " (got " & itoa n & ")")
    else ok n

unfoldable pub parsed : String → String → Option ℤ → Result ℕ
unfolding bounded
parsed key raw none = err (key & " is not an integer: " & quote raw)
parsed key raw (some n) = bounded key n

unfoldable pub parse_positive_int : Getenv → String → ℕ → Result ℕ
unfolding parsed atoi
parse_positive_int getenv key dflt =
    ite (string_dec (getenv key) "") (ok dflt) (parsed key (getenv key) (atoi (codes (getenv key))))

-- The value with the error, as Go returns both.
unfoldable pub value_of : Result ℕ → ℕ
value_of (ok n) = n
value_of (err m) = 0

unfoldable pub error_of : Result ℕ → List String
error_of (ok n) = []
error_of (err m) = m ∷ []

-- The message, unless the test holds.
abbrev pub unless : Bool → String → List String
unless b m = if b then [] else m ∷ []

-- What is checked of a value only when it is given.
abbrev pub given : String → List String → List String
given s checks = if is_empty s then [] else checks

unfoldable pub join : List String → String
join [] = ""
join (m ∷ []) = m
join (m ∷ n ∷ ms) = let rest = join (n ∷ ms) in m & "; " & rest

-- The checks in order, each with its message.
unfoldable pub required : Config → Getenv → List String
unfolding to_lower
required c getenv =
    unless (not (is_empty c.control_plane_url)) "CONTROL_PLANE_URL is required"
    ++ (unless (not (is_empty c.node_name)) "NODE_NAME is required"
        ++ (unless (not (is_empty c.pool_id)) "POOL_ID is required"
            ++ (unless (not (is_empty c.worker_advertise_url)) "WORKER_ADVERTISE_URL is required"
                ++ (unless (not (is_empty c.inference_token)) "INFERENCE_TOKEN is required"
                    ++ unless
                        (not (is_empty c.bootstrap_token)
                          || ite (string_dec (to_lower (getenv "TOKEN_FILE_PRESENT")) "true") true
                              false)
                        "BOOTSTRAP_TOKEN is required (no persisted token found)"))))

unfoldable pub check_name : String → List String
unfolding node_name_pattern contains quote
check_name name =
    unless (leb (len name) max_node_name_len)
      ("NODE_NAME exceeds " & itoa max_node_name_len & " chars (got " & itoa (len name) & ")")
    ++ unless (node_name_pattern name && not (contains name ".."))
        ("NODE_NAME contains forbidden characters: " & quote name)

unfoldable pub check_inference_token : String → List String
check_inference_token token =
    unless (leb min_inference_token (len token))
      ("INFERENCE_TOKEN must be at least " & itoa min_inference_token & " bytes")
    ++ unless (leb (len token) max_token_len)
        ("INFERENCE_TOKEN exceeds " & itoa max_token_len & " bytes (got " & itoa (len token) & ")")

unfoldable pub check_bootstrap_token : String → List String
check_bootstrap_token token =
    unless (leb (len token) max_token_len)
      ("BOOTSTRAP_TOKEN exceeds " & itoa max_token_len & " bytes (got " & itoa (len token) & ")")

module _ (getenv : Getenv) where
  unfoldable pub pull_timeout : Result ℕ
  unfolding parse_positive_int
  pull_timeout = parse_positive_int getenv "PULL_TIMEOUT_SECONDS" 1800

  unfoldable pub readiness_timeout : Result ℕ
  unfolding parse_positive_int
  readiness_timeout = parse_positive_int getenv "READINESS_TIMEOUT_SECONDS" 180

  unfoldable pub heartbeat_interval : Result ℕ
  unfolding parse_positive_int
  heartbeat_interval = parse_positive_int getenv "HEARTBEAT_INTERVAL_SECONDS" 5

  unfoldable pub read : Config
  unfolding first_non_empty pull_timeout readiness_timeout heartbeat_interval value_of
  read = record {
    control_plane_url = getenv "CONTROL_PLANE_URL";
    bootstrap_token = getenv "BOOTSTRAP_TOKEN";
    node_name = getenv "NODE_NAME";
    pool_id = getenv "POOL_ID";
    worker_advertise_url = getenv "WORKER_ADVERTISE_URL";
    worker_listen_addr = first_non_empty (getenv "WORKER_LISTEN_ADDR") "0.0.0.0:8080";
    inference_token = getenv "INFERENCE_TOKEN";
    token_file = first_non_empty (getenv "TOKEN_FILE") "/var/lib/inferia-worker/token";
    docker_host = first_non_empty (getenv "DOCKER_HOST") "unix:///var/run/docker.sock";
    models_network = first_non_empty (getenv "MODELS_NETWORK") "inferia-models";
    log_level = first_non_empty (getenv "LOG_LEVEL") "info";
    pull_timeout_seconds = value_of pull_timeout;
    readiness_timeout_seconds = value_of readiness_timeout;
    heartbeat_interval_seconds = value_of heartbeat_interval;
  }

pub record Url : Type 0 where
  pub scheme : String
  pub host : String

module _ (parse_url : String → Result Url) where
  unfoldable pub check_url : String → String → Result Url → List String
  unfolding is_one_of to_lower quote
  check_url name raw (err m) = (name & " is not a valid URL: " & m) ∷ []
  check_url name raw (ok u) =
      if is_empty u.scheme || is_empty u.host
      then (name & " must be an absolute URL with scheme and host: " & quote raw) ∷ []
      else unless (is_one_of (to_lower u.scheme) ("http" ∷ "https" ∷ []))
          (name & " scheme " & quote u.scheme & " not in {http,https}")

  unfoldable pub validate_http_url : String → String → List String
  unfolding check_url
  validate_http_url name raw = check_url name raw (parse_url raw)

  unfoldable pub well_formed : Config → List String
  unfolding validate_http_url check_name uuid_pattern check_bootstrap_token check_inference_token
      is_one_of quote
  well_formed c =
      given c.control_plane_url (validate_http_url "CONTROL_PLANE_URL" c.control_plane_url)
      ++ (given c.worker_advertise_url
            (validate_http_url "WORKER_ADVERTISE_URL" c.worker_advertise_url)
          ++ (given c.node_name (check_name c.node_name)
              ++ (given c.pool_id
                    (unless (uuid_pattern c.pool_id) ("POOL_ID is not a UUID: " & quote c.pool_id))
                  ++ (given c.bootstrap_token (check_bootstrap_token c.bootstrap_token)
                      ++ (given c.inference_token (check_inference_token c.inference_token)
                          ++ unless
                              (is_one_of c.log_level ("debug" ∷ "info" ∷ "warn" ∷ "error" ∷ []))
                              ("LOG_LEVEL "
                                & quote c.log_level
                                & " not in {debug,info,warn,error}"))))))

  module _ (getenv : Getenv) where
    unfoldable pub errors : List String
    unfolding required well_formed read pull_timeout readiness_timeout heartbeat_interval error_of
    errors =
        required (read getenv) getenv
        ++ (well_formed (read getenv)
            ++ (error_of (pull_timeout getenv)
                ++ (error_of (readiness_timeout getenv) ++ error_of (heartbeat_interval getenv))))

    unfoldable pub load_from : Result Config
    unfolding errors read join
    load_from = elim errors [ [] ↦ ok (read getenv) | m ∷ ms ↦ err (join (m ∷ ms)) ]
