-- ===== src/Inference/Proxy/Phases.antt =====
-- The phases of a request to a disaggregated deployment.
use inferia_worker.Common.{
  String, [], ◌∷◌, Bool, true, false, ◌==◌, if◌then◌else◌, Option, none, some, Result, ok, err,
  Dict, ◌&◌, ◌≡◌, ◌≢◌, refl, ◌⊎◌, inl, inr, arith,
}
use inferia_worker.Runtime.State.{DeploymentGroup}
use inferia_worker.Runtime.Group.{next_prefill, next_decode}
use inferia_worker.Inference.Bodies.{
  Value, Decoded, nil_map, Json, prefill_fields, decode_fields, transfer, build_body,
  build_prefill_body, build_decode_body,
}
use inferia_worker.Inference.Bodies.Editing.{Edits, panics, edits, build_body-Edits}
use inferia_worker.Inference.Bodies.Carried.{
  Carries, build_decode_body-Carries, transfer-Transfers, transfer-Lacks,
}
use inferia_worker.Inference.Proxy.Outcomes.{
  Answers, lost, came, Sends, Asked, Prefilled, Stops, unanswered, bad_status, unread, lacking,
  unbuilt, unmade, Phases, no_body, no_request, prefill_only, both,
}
use inferia_worker.Inference.Proxy.{
  without, forwarded, set_header, Request, UpstreamRequest, Response, Answer, bad_gateway, streamed,
  Exchange, upstream, to_client, upstream_error, decode_answered, decode_checked, decode_built,
  transferred, prefill_decoded, prefill_answered, prefill_checked, prefill_built, handle_disagg,
  fails,
}

upstream-Sends : (req : Request) (id base b : String) → Sends req id base b (upstream req id base b)
unfolding upstream set_header
upstream-Sends req id base b = record {
  same_method = refl;
  at_base = refl;
  has_body = refl;
  others = without "X-Request-Id" (forwarded req.headers);
  has_id = refl;
}

module _ (decode : UpstreamRequest → Result Response) (check : UpstreamRequest → Option String)
    (req : Request) (id : String) (json : Json) (prefill : UpstreamRequest → Result Response)
    (g : DeploymentGroup) where
  abbrev Follows : Exchange → Type 0
  Follows = Phases decode check req id json prefill g

  abbrev IsPrefilled : UpstreamRequest → Value → Type 0
  IsPrefilled = Prefilled json prefill

  abbrev h : DeploymentGroup
  h = (next_prefill g).0

  -- It ends with an exchange in these phases.
  abbrev Ends : Option Exchange → Type 0
  Ends o = (x : Exchange) × (o ≡ some x) × Follows x

  module _ (b : String) (eb : build_prefill_body json req.body id ≡ some (ok b)) where
    abbrev p : UpstreamRequest
    p = upstream req id (next_prefill g).1 b

    p-Asked : Asked req id json g p
    p-Asked = record { body = b; built = eb; sends = upstream-Sends req id (next_prefill g).1 b }

    stopped :
        (k : DeploymentGroup) (m : String)
        → Stops check req id json prefill g p
        → Ends (fails k (p ∷ []) m)
    stopped k m w = (_, refl, prefill_only k p m p-Asked w)

    module _ (kv : Value) (f : IsPrefilled p kv) (c : String)
        (ec : build_decode_body json req.body kv id ≡ some (ok c)) where
      abbrev q : UpstreamRequest
      q = upstream req id (next_decode h).1 c

      carries : Carries json id req.body kv c
      carries = build_decode_body-Carries json id req.body kv c ec

      q-Sends : Sends req id (next_decode h).1 c q
      q-Sends = upstream-Sends req id (next_decode h).1 c

      ends_both :
          (a : Answer)
          → Answers (decode q) a
          → Follows (record { group = (next_decode h).0; sent = p ∷ q ∷ []; answer = a })
      ends_both a w = both p q kv c a p-Asked f carries q-Sends w

      decode_answered-Ends :
          (r : Result Response)
          → decode q ≡ r
          → Ends (decode_answered (next_decode h).0 (p ∷ q ∷ []) r)
      unfolding decode_answered to_client
      decode_answered-Ends (err m) e =
          (_, refl, ends_both (bad_gateway ("decode: " & m)) (rw e (lost m)))
      decode_answered-Ends (ok r) e =
          (_, refl, ends_both (streamed (to_client r)) (rw e (came r (to_client r) refl refl)))

      decode_checked-Ends :
          (o : Option String) → check q ≡ o → Ends (decode_checked decode (next_decode h).0 p q o)
      unfolding decode_checked
      decode_checked-Ends (some m) e =
          stopped (next_decode h).0 ("decode req: " & m) (unmade kv c m q f carries q-Sends e)
      decode_checked-Ends none e = decode_answered-Ends (decode q) refl

    decode_built-Ends :
        (kv : Value) (r : Result String)
        → IsPrefilled p kv
        → build_decode_body json req.body kv id ≡ some r
        → Ends (decode_built decode check req id h p r)
    unfolding decode_built
    decode_built-Ends kv (err m) f e = stopped h ("decode build: " & m) (unbuilt kv m f e)
    decode_built-Ends kv (ok c) f e =
        decode_checked-Ends kv f c e (check (upstream req id (next_decode h).1 c)) refl

    module _
        (edit : (f : Dict String Value → Dict String Value)
          → (r : Result String) × (build_body json f req.body ≡ some r)) where
      transferred-Ends :
          (r : Result Value)
          → ((m : String) → r ≡ err m → Stops check req id json prefill g p)
          → ((kv : Value) → r ≡ ok kv → IsPrefilled p kv)
          → Ends (transferred decode check req id json h p r)
      unfolding transferred build_decode_body
      transferred-Ends (err m) w f = stopped h m (w m refl)
      transferred-Ends (ok kv) w f =
          let (r, e) = edit (decode_fields kv id) in rw e (decode_built-Ends kv r (f kv refl) e)

      prefill_decoded-Ends :
          (r : Response) (v : Result Decoded)
          → prefill p ≡ ok r
          → r.status ≡ 200
          → json.decode r.body ≡ v
          → Ends (prefill_decoded decode check req id json h p v)
      unfolding prefill_decoded
      prefill_decoded-Ends r (err m) e s d = stopped h ("prefill decode: " & m) (unread r m e d)
      prefill_decoded-Ends r (ok v) e s d =
          transferred-Ends (transfer v) (λ m t. lacking r v e d (transfer-Lacks v m t))
            (λ kv t. record {
              response = r;
              decoded = v;
              answered = e;
              is_ok = s;
              reads = d;
              transfers = transfer-Transfers v kv t;
            })

      prefill_answered-Ends :
          (r : Result Response)
          → prefill p ≡ r
          → Ends (prefill_answered decode check req id json h p r)
      unfolding prefill_answered
      prefill_answered-Ends (err m) e = stopped h ("prefill: " & m) (unanswered m e)
      prefill_answered-Ends (ok r) e = go (r.status == 200) refl
        where
          go :
              (t : Bool)
              → (r.status == 200) ≡ t
              → Ends (
                  if t
                  then prefill_decoded decode check req id json h p (json.decode r.body)
                  else fails h (p ∷ []) (upstream_error r.body))
          go true s = prefill_decoded-Ends r (json.decode r.body) e (ground (arith, s)) refl
          go false s =
              stopped h (upstream_error r.body) (bad_status r e (λ z. ground (arith, s, z)))

      prefill_checked-Ends :
          (o : Option String)
          → check p ≡ o
          → Ends (prefill_checked decode check req id json prefill h p o)
      unfolding prefill_checked
      prefill_checked-Ends (some m) e = (_, refl, no_request p m p-Asked e)
      prefill_checked-Ends none e = prefill_answered-Ends (prefill p) refl

  prefill_built-Ends :
      ((f : Dict String Value → Dict String Value)
        → (r : Result String) × (build_body json f req.body ≡ some r))
      → (r : Result String) → build_prefill_body json req.body id ≡ some r
      → Ends (prefill_built decode check req id json prefill g r)
  unfolding prefill_built
  prefill_built-Ends edit (err m) e = (_, refl, no_body m e)
  prefill_built-Ends edit (ok b) e =
      prefill_checked-Ends b e edit (check (upstream req id (next_prefill g).1 b)) refl

  -- A request panics exactly when its body is not empty and decodes into the nil map. Otherwise it
  -- ends, in one of four ways. The prefill body or request cannot be made: status 502. The prefill
  -- request is sent alone, and it fails, is not answered with status 200 and transfer parameters
  -- that are neither missing nor null nor an empty object, or the decode body or request cannot be
  -- made: status 502. Or the decode request is sent too: its body has those transfer parameters and
  -- the request id, and is the client's otherwise, or is empty as the client's, and the client gets
  -- the status and the body that the decode instance answers, or status 502 if it does not. Both
  -- requests have the request id in a header.
  pub handle_disagg-Phases :
      ((req.body ≢ "")
        × (json.unmarshal req.body ≡ ok nil_map)
        × (handle_disagg decode check req id json prefill g ≡ none))
      ⊎ (¬ ((req.body ≢ "") × (json.unmarshal req.body ≡ ok nil_map))
          × ((x : Exchange) × (handle_disagg decode check req id json prefill g ≡ some x)
              × Follows x))
  unfolding handle_disagg build_prefill_body
  handle_disagg-Phases = go (build_body-Edits json req.body)
    where
      go :
          Edits json req.body
          → ((req.body ≢ "")
              × (json.unmarshal req.body ≡ ok nil_map)
              × (handle_disagg decode check req id json prefill g ≡ none))
            ⊎ (¬ ((req.body ≢ "") × (json.unmarshal req.body ≡ ok nil_map))
                × ((x : Exchange) × (handle_disagg decode check req id json prefill g ≡ some x)
                    × Follows x))
      go (panics n s f) = inl (n, s, rw (f (prefill_fields id)) refl)
      go (edits n f) =
          let (r, e) = f (prefill_fields id) in inr (n, rw e (prefill_built-Ends f r e))
