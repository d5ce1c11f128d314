-- ===== src/Inference/Proxy/Outcomes.antt =====
-- How a request to a disaggregated deployment can end.
use inferia_worker.Common.{String, [], ◌∷◌, ◌++◌, Option, some, Result, ok, err, ◌&◌, ◌≡◌, ◌≢◌}
use inferia_worker.Runtime.State.{DeploymentGroup}
use inferia_worker.Runtime.Group.{next_prefill, next_decode}
use inferia_worker.Inference.Bodies.{Value, Decoded, Json, build_prefill_body, build_decode_body}
use inferia_worker.Inference.Bodies.Carried.{Carries, Transfers, Lacks}
use inferia_worker.Inference.Proxy.{
  Headers, Request, UpstreamRequest, Response, Answer, bad_gateway, streamed, Exchange, with_query,
}

-- The client gets the status and the body that the decode instance answers, or that it did not.
pub data Answers : Result Response → Answer → Type 0 where
  lost : (m : String) → Answers (err m) (bad_gateway ("decode: " & m))
  came : (r s : Response) → s.status ≡ r.status → s.body ≡ r.body → Answers (ok r) (streamed s)

module _ (req : Request) (id : String) where
  -- A request to an instance: the client's with another body, and the request id in a header.
  pub record Sends (base body : String) (p : UpstreamRequest) : Type 0 where
    pub same_method : p.method ≡ req.method
    pub at_base : p.url ≡ with_query (base & req.path) req.query
    pub has_body : p.body ≡ body
    pub others : Headers
    pub has_id : p.headers ≡ others ++ ("X-Request-Id", id) ∷ []

module _ (json : Json) (prefill : UpstreamRequest → Result Response) where
  -- The answer to a prefill request has the transfer parameters `kv`.
  pub record Prefilled (p : UpstreamRequest) (kv : Value) : Type 0 where
    pub response : Response
    pub decoded : Decoded
    pub answered : prefill p ≡ ok response
    pub is_ok : response.status ≡ 200
    pub reads : json.decode response.body ≡ ok decoded
    pub transfers : Transfers decoded kv

module _ (req : Request) (id : String) (json : Json) (g : DeploymentGroup) where
  -- The prefill request.
  pub record Asked (p : UpstreamRequest) : Type 0 where
    pub body : String
    pub built : build_prefill_body json req.body id ≡ some (ok body)
    pub sends : Sends req id (next_prefill g).1 body p

module _ (check : UpstreamRequest → Option String) (req : Request) (id : String) (json : Json)
    (prefill : UpstreamRequest → Result Response) (g : DeploymentGroup) where
  -- Why no decode request is sent.
  pub data Stops (p : UpstreamRequest) : Type 0 where
    unanswered : (m : String) → prefill p ≡ err m → Stops p
    bad_status : (r : Response) → prefill p ≡ ok r → r.status ≢ 200 → Stops p
    unread : (r : Response) (m : String) → prefill p ≡ ok r → json.decode r.body ≡ err m → Stops p
    lacking :
        (r : Response) (v : Decoded)
        → prefill p ≡ ok r
        → json.decode r.body ≡ ok v
        → Lacks v
        → Stops p
    unbuilt :
        (kv : Value) (m : String)
        → Prefilled json prefill p kv
        → build_decode_body json req.body kv id ≡ some (err m)
        → Stops p
    unmade :
        (kv : Value) (c m : String) (d : UpstreamRequest)
        → Prefilled json prefill p kv
        → Carries json id req.body kv c
        → Sends req id (next_decode (next_prefill g).0).1 c d
        → check d ≡ some m
        → Stops p

module _ (decode : UpstreamRequest → Result Response) (check : UpstreamRequest → Option String)
    (req : Request) (id : String) (json : Json) (prefill : UpstreamRequest → Result Response)
    (g : DeploymentGroup) where
  -- An exchange that ends before a request, after the prefill request, or after both.
  pub data Phases : Exchange → Type 0 where
    no_body :
        (m : String)
        → build_prefill_body json req.body id ≡ some (err m)
        → Phases (record { group = g; sent = []; answer = bad_gateway ("prefill build: " & m) })
    no_request :
        (p : UpstreamRequest) (m : String)
        → Asked req id json g p
        → check p ≡ some m
        → Phases (record {
          group = (next_prefill g).0;
          sent = [];
          answer = bad_gateway ("prefill req: " & m);
        })
    prefill_only :
        (h : DeploymentGroup) (p : UpstreamRequest) (m : String)
        → Asked req id json g p
        → Stops check req id json prefill g p
        → Phases (record { group = h; sent = p ∷ []; answer = bad_gateway m })
    both :
        (p d : UpstreamRequest) (kv : Value) (c : String) (a : Answer)
        → Asked req id json g p
        → Prefilled json prefill p kv
        → Carries json id req.body kv c
        → Sends req id (next_decode (next_prefill g).0).1 c d
        → Answers (decode d) a
        → Phases
            (record { group = (next_decode (next_prefill g).0).0; sent = p ∷ d ∷ []; answer = a })
