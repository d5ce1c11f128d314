-- ===== src/Inference/Bodies.antt =====
-- internal/inference/proxy.go: the bodies of the requests to the prefill and decode instances.
-- encoding/json is a parameter; a body is its text.
pub mod Carried
pub mod Editing
pub mod Keeping
use inferia_worker.Common.{
  String, Bool, true, false, Option, none, some, Result, ok, err, Dict, lookup, insert, delete,
  string_key, string_dec, ite,
}

-- A value that encoding/json decodes. A number is its text.
mutual
  -- The members of a JSON object.
  pub data Members : Type 0 where
    no_members : Members
    member : (key : String) (value : Value) (more : Members) → Members

  -- The elements of a JSON array.
  pub data Elements : Type 0 where
    no_elements : Elements
    element : (value : Value) (more : Elements) → Elements

  pub data Value : Type 0 where
    object : Members → Value
    array : Elements → Value
    string number : String → Value
    boolean : Bool → Value
    null : Value

-- What decoding into a map[string]any gives: the nil map for `null`, else a map.
pub data Decoded : Type 0 where
  nil_map : Decoded
  fields : Dict String Value → Decoded

pub record Json : Type 0 where
  pub unmarshal : String → Result Decoded
  -- the first value of a stream, `Decoder.Decode`
  pub decode : String → Result Decoded
  pub marshal : Dict String Value → Result String

unfoldable pub prefill_transfer : Value
prefill_transfer = object (
    member "do_remote_decode" (boolean true) (
      member "do_remote_prefill" (boolean false) (
        member "remote_engine_id" null (
          member "remote_block_ids" null
            (member "remote_host" null (member "remote_port" null no_members))))))

abbrev pub capped : Option Value → Dict String Value → Dict String Value
capped none m = m
capped (some v) m = insert "max_completion_tokens" (number "1") m

-- The fields that the prefill body sets.
abbrev pub short_fields : String → Dict String Value → Dict String Value
short_fields id m =
    let named : Dict String Value = insert "request_id" (string id) m in
    let asked : Dict String Value = insert "kv_transfer_params" prefill_transfer named in
    insert "max_tokens" (number "1") (insert "stream" (boolean false) asked)

abbrev pub trimmed : Dict String Value → Dict String Value
trimmed m = delete "min_completion_tokens" (delete "min_tokens" (delete "stream_options" m))

unfoldable pub prefill_fields : String → Dict String Value → Dict String Value
prefill_fields id m =
    let short = short_fields id m in trimmed (capped (lookup "max_completion_tokens" short) short)

unfoldable pub decode_fields : Value → String → Dict String Value → Dict String Value
decode_fields kv id m = insert "kv_transfer_params" kv (insert "request_id" (string id) m)

-- The transfer parameters of the prefill instance's answer.
unfoldable pub transfer_of : Option Value → Result Value
transfer_of none = err "prefill: missing kv_transfer_params"
transfer_of (some null) = err "prefill: missing kv_transfer_params"
transfer_of (some (object no_members)) = err "prefill: empty kv_transfer_params"
transfer_of (some v) = ok v

unfoldable pub transfer : Decoded → Result Value
unfolding transfer_of
transfer nil_map = transfer_of none
transfer (fields m) = transfer_of (lookup "kv_transfer_params" m)

module _ (json : Json) where
  -- An assignment to the nil map panics.
  unfoldable pub edited :
      (Dict String Value → Dict String Value) → Result Decoded → Option (Result String)
  edited f (err m) = some (err m)
  edited f (ok nil_map) = none
  edited f (ok (fields m)) = some (json.marshal (f m))

  unfoldable pub build_body :
      (Dict String Value → Dict String Value) → String → Option (Result String)
  unfolding edited
  build_body f original =
      ite (string_dec original "") (some (ok original)) (edited f (json.unmarshal original))

  unfoldable pub build_prefill_body : String → String → Option (Result String)
  unfolding build_body prefill_fields
  build_prefill_body original id = build_body (prefill_fields id) original

  unfoldable pub build_decode_body : String → Value → String → Option (Result String)
  unfolding build_body decode_fields
  build_decode_body original kv id = build_body (decode_fields kv id) original
