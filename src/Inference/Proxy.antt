-- ===== src/Inference/Proxy.antt =====
-- internal/inference/proxy.go: a request to a disaggregated deployment goes to a prefill
-- instance, and with the transfer parameters of its answer to a decode instance. The
-- check of http.NewRequest and the answers of the instances are parameters; a body that cannot be
-- read to its end counts as what was read.
pub mod Outcomes
pub mod Phases
use inferia_worker.Common.{
  ℕ, String, List, [], ◌∷◌, ◌++◌, Bool, true, false, ◌==◌, if◌then◌else◌, Option, none, some,
  Result, ok, err, Dict, lookup, string_key, string_dec, to_lower, ite, ◌&◌, ◌>>=◌,
}
use inferia_worker.Runtime.State.{DeploymentGroup}
use inferia_worker.Runtime.Group.{next_prefill, next_decode}
use inferia_worker.Metrics.Collector.{Collector, inc_active, dec_active, record_request}
use inferia_worker.Inference.Bodies.{
  Value, Decoded, Json, transfer, build_prefill_body, build_decode_body,
}

abbrev pub Headers : Type 0
Headers = List (String × String)

pub record Request : Type 0 where
  pub method : String
  pub path : String
  pub query : String
  pub headers : Headers
  pub body : String

pub record UpstreamRequest : Type 0 where
  pub method : String
  pub url : String
  pub headers : Headers
  pub body : String

pub record Response : Type 0 where
  pub status : ℕ
  pub headers : Headers
  pub body : String

-- The answer to the client: status 502 with a text, or what the decode instance says.
pub data Answer : Type 0 where
  bad_gateway : String → Answer
  streamed : Response → Answer

pub record Exchange : Type 0 where
  pub group : DeploymentGroup
  pub sent : List UpstreamRequest
  pub answer : Answer

unfoldable pub is_hop_by_hop : String → Bool
is_hop_by_hop h = elim (lookup (to_lower h) hop_by_hop) [ none ↦ false | some u ↦ true ]
  where
    hop_by_hop : Dict String Bool
    hop_by_hop =
        ("connection", true)
        ∷ ("keep-alive", true)
        ∷ ("proxy-authenticate", true)
        ∷ ("proxy-authorization", true)
        ∷ ("te", true)
        ∷ ("trailers", true)
        ∷ ("transfer-encoding", true)
        ∷ ("upgrade", true)
        ∷ []

unfoldable pub forwarded : Headers → Headers
unfolding is_hop_by_hop
forwarded [] = []
forwarded ((k, v) ∷ l) = let rest = forwarded l in if is_hop_by_hop k then rest else (k, v) ∷ rest

-- `Header.Set`: the values of the key go, in whatever case it came.
unfoldable pub without : String → Headers → Headers
without key [] = []
without key ((k, v) ∷ l) =
    let rest = without key l in ite (string_dec (to_lower k) (to_lower key)) rest ((k, v) ∷ rest)

unfoldable pub set_header : String → String → Headers → Headers
unfolding without
set_header key v l = without key l ++ (key, v) ∷ []

abbrev pub with_query : String → String → String
with_query url query = ite (string_dec query "") url (url & "?" & query)

unfoldable pub upstream : Request → String → String → String → UpstreamRequest
unfolding forwarded set_header
upstream req id base body = record {
  method = req.method;
  url = with_query (base & req.path) req.query;
  headers = set_header "X-Request-Id" id (forwarded req.headers);
  body = body;
}

unfoldable pub to_client : Response → Response
unfolding forwarded
to_client r = record r { headers = forwarded r.headers }

abbrev pub fails : DeploymentGroup → List UpstreamRequest → String → Option Exchange
fails g sent m = some (record { group = g; sent = sent; answer = bad_gateway m })

abbrev pub upstream_error : String → String
upstream_error body =
    ite (string_dec body "") "prefill: upstream error" ("prefill: upstream error: " & body)

unfoldable pub decode_answered :
    DeploymentGroup → List UpstreamRequest → Result Response → Option Exchange
unfolding to_client
decode_answered g sent (err m) = fails g sent ("decode: " & m)
decode_answered g sent (ok r) =
    some (record { group = g; sent = sent; answer = streamed (to_client r) })

-- The counters of a request; `info` is the recipe and the model, when the runtime knows the
-- deployment, and the latency is in milliseconds.
unfoldable pub recorded :
    Option (String × String) → ℕ → String → Answer → Collector → Option Collector
unfolding record_request
recorded none ms gid a c = some c
recorded (some (recipe, model)) ms gid (bad_gateway m) c = some c
recorded (some (recipe, model)) ms gid (streamed r) c = record_request c gid recipe model ms

-- `prefill` and `decode` are the answers of the instances, `check` the error of http.NewRequest.
module _ (decode : UpstreamRequest → Result Response) where
  unfoldable pub decode_checked :
      DeploymentGroup → UpstreamRequest → UpstreamRequest → Option String → Option Exchange
  unfolding decode_answered
  decode_checked g p d (some m) = fails g (p ∷ []) ("decode req: " & m)
  decode_checked g p d none = decode_answered g (p ∷ d ∷ []) (decode d)

  module _ (check : UpstreamRequest → Option String) (req : Request) (id : String) where
    unfoldable pub decode_built :
        DeploymentGroup → UpstreamRequest → Result String → Option Exchange
    unfolding decode_checked next_decode upstream
    decode_built g p (err m) = fails g (p ∷ []) ("decode build: " & m)
    decode_built g p (ok b) =
        let d = upstream req id (next_decode g).1 b in
        decode_checked (next_decode g).0 p d (check d)

    module _ (json : Json) where
      unfoldable pub transferred :
          DeploymentGroup → UpstreamRequest → Result Value → Option Exchange
      unfolding decode_built build_decode_body
      transferred g p (err m) = fails g (p ∷ []) m
      transferred g p (ok kv) = build_decode_body json req.body kv id >>= decode_built g p

      unfoldable pub prefill_decoded :
          DeploymentGroup → UpstreamRequest → Result Decoded → Option Exchange
      unfolding transferred transfer
      prefill_decoded g p (err m) = fails g (p ∷ []) ("prefill decode: " & m)
      prefill_decoded g p (ok v) = transferred g p (transfer v)

      unfoldable pub prefill_answered :
          DeploymentGroup → UpstreamRequest → Result Response → Option Exchange
      unfolding prefill_decoded
      prefill_answered g p (err m) = fails g (p ∷ []) ("prefill: " & m)
      prefill_answered g p (ok r) =
          let rest = prefill_decoded g p (json.decode r.body) in
          if r.status == 200 then rest else fails g (p ∷ []) (upstream_error r.body)

      module _ (prefill : UpstreamRequest → Result Response) where
        unfoldable pub prefill_checked :
            DeploymentGroup → UpstreamRequest → Option String → Option Exchange
        unfolding prefill_answered
        prefill_checked g p (some m) = fails g [] ("prefill req: " & m)
        prefill_checked g p none = prefill_answered g p (prefill p)

        unfoldable pub prefill_built : DeploymentGroup → Result String → Option Exchange
        unfolding prefill_checked next_prefill upstream
        prefill_built g (err m) = fails g [] ("prefill build: " & m)
        prefill_built g (ok b) =
            let p = upstream req id (next_prefill g).1 b in
            prefill_checked (next_prefill g).0 p (check p)

        -- `none` is a panic.
        unfoldable pub handle_disagg : DeploymentGroup → Option Exchange
        unfolding prefill_built build_prefill_body
        handle_disagg g = build_prefill_body json req.body id >>= prefill_built g

        unfoldable pub measured :
            Option (String × String)
            → ℕ
            → DeploymentGroup
            → Collector
            → Option (Exchange × Collector)
        unfolding handle_disagg recorded inc_active dec_active
        measured info ms g c = handle_disagg g >>= λ x.
            recorded info ms g.id x.answer (inc_active c g.id) >>= λ c'.
            some (x, dec_active c' g.id)
