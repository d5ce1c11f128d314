-- ===== src/Examples/Proxying.antt =====
-- Runs of the proxy of internal/inference.
use inferia_worker.Common.{
  String, [], ◌∷◌, true, Option, none, some, Result, ok, Dict, lookup, string_key, ◌≡◌, ◌≢◌, ◌⊎◌,
}
use inferia_worker.Recipes.Plan.{producer, consumer}
use inferia_worker.Runtime.State.{DeploymentGroup}
use inferia_worker.Inference.Bodies.{
  Value, boolean, number, string, nil_map, fields, Json, prefill_fields, decode_fields,
}
use inferia_worker.Inference.Bodies.Keeping.{AsksOne, prefill_fields-decode_fields}
use inferia_worker.Inference.Proxy.{Request, UpstreamRequest, Response, Exchange, handle_disagg}
use inferia_worker.Inference.Proxy.Outcomes.{Phases}
use inferia_worker.Inference.Proxy.Phases.{handle_disagg-Phases}

abbrev prompt : Dict String Value
prompt =
    ("prompt", string "hi")
    ∷ ("max_tokens", number "50")
    ∷ ("max_completion_tokens", number "9")
    ∷ []

prefill_fields-decode_fields_example :
    AsksOne "r1" prompt (prefill_fields "r1" prompt)
    × (lookup "request_id" (decode_fields (boolean true) "r1" prompt) ≡ some (string "r1"))
    × (lookup "kv_transfer_params" (decode_fields (boolean true) "r1" prompt) ≡ some (boolean true))
    × ((k : String)
        → "kv_transfer_params" ≢ k
        → "request_id" ≢ k
        → lookup k (decode_fields (boolean true) "r1" prompt) ≡ lookup k prompt)
prefill_fields-decode_fields_example = prefill_fields-decode_fields "r1" (boolean true) prompt

-- A decoder that knows one answer, and takes any other body for the prompt.
abbrev json : Json
json = record {
  unmarshal = λ s. ok (fields prompt);
  decode = λ s. ok (fields (("kv_transfer_params", boolean true) ∷ []));
  marshal = λ m. ok "{}";
}

abbrev ask : Request
ask = record {
  method = "POST";
  path = "/v1/completions";
  query = "";
  headers = ("Connection", "close") ∷ ("Accept", "*/*") ∷ [];
  body = "{}";
}

abbrev says : String → UpstreamRequest → Result Response
says text r = ok (record { status = 200; headers = []; body = text })

abbrev no_error : UpstreamRequest → Option String
no_error r = none

abbrev pair : DeploymentGroup
pair = record {
  id = "d1";
  model = "m";
  prefill = record { container_id = "c1"; host_port = 4000; role = producer; replica_idx = 0 } ∷ [];
  decode = record { container_id = "c2"; host_port = 4001; role = consumer; replica_idx = 0 } ∷ [];
  prefill_next = 0;
  decode_next = 0;
}

handle_disagg-Phases_example :
    ((◌≢◌ {A = String} "{}" "")
      × (json.unmarshal "{}" ≡ ok nil_map)
      × (handle_disagg (says "token") no_error ask "r1" json (says "kv") pair ≡ none))
    ⊎ (¬ ((◌≢◌ {A = String} "{}" "") × (json.unmarshal "{}" ≡ ok nil_map))
        × ((x : Exchange) × (handle_disagg (says "token") no_error ask "r1" json (says "kv") pair
              ≡ some x)
            × Phases (says "token") no_error ask "r1" json (says "kv") pair x))
handle_disagg-Phases_example =
    handle_disagg-Phases (says "token") no_error ask "r1" json (says "kv") pair
