-- ===== src/Inference/Bodies/Keeping.antt =====
-- What the bodies of the two phases keep of the client's.
use text.Mathlib.Text.{◌==◌}
use text.Mathlib.TextEquality.{eq_iff}
use inferia_worker.Common.{
  String, false, Option, none, some, Dict, lookup, insert, delete, string_key, lookup-delete,
  delete-none, delete-stays_none, insert-other, insert-same, ◌≡◌, ◌≢◌, refl, ◌∙◌, arith, ap,
}
use inferia_worker.Inference.Bodies.{
  Value, boolean, number, string, prefill_transfer, capped, short_fields, trimmed, prefill_fields,
  decode_fields,
}

apart : (s t : String) → (s == t) ≡ false → s ≢ t
apart s t p e = cc (p, (eq_iff s t).1 e)

delete-other : (k j : String) (m : Dict String Value) → k ≢ j → lookup j (delete k m) ≡ lookup j m
delete-other k j m n = ground (arith, n, lookup-delete k j m)

trimmed-other :
    (k : String) (m : Dict String Value)
    → "min_completion_tokens" ≢ k
    → "min_tokens" ≢ k
    → "stream_options" ≢ k
    → lookup k (trimmed m) ≡ lookup k m
trimmed-other k m a b c =
    delete-other "min_completion_tokens" k (delete "min_tokens" (delete "stream_options" m)) a
    ∙ delete-other "min_tokens" k (delete "stream_options" m) b
    ∙ delete-other "stream_options" k m c

capped-other :
    (o : Option Value) (k : String) (m : Dict String Value)
    → "max_completion_tokens" ≢ k
    → lookup k (capped o m) ≡ lookup k m
capped-other none k m n = refl
capped-other (some v) k m n = insert-other "max_completion_tokens" k (number "1") m n

prefill_fields-other :
    (k id : String) (m : Dict String Value)
    → "min_completion_tokens" ≢ k
    → "min_tokens" ≢ k
    → "stream_options" ≢ k
    → "max_completion_tokens" ≢ k
    → lookup k (prefill_fields id m) ≡ lookup k (short_fields id m)
unfolding prefill_fields
prefill_fields-other k id m a b c d =
    let short : Dict String Value = short_fields id m in
    let o : Option Value = lookup "max_completion_tokens" short in
    trimmed-other k (capped o short) a b c ∙ capped-other o k short d

short_fields-other :
    (k id : String) (m : Dict String Value)
    → "max_tokens" ≢ k
    → "stream" ≢ k
    → "kv_transfer_params" ≢ k
    → "request_id" ≢ k
    → lookup k (short_fields id m) ≡ lookup k m
short_fields-other k id m a b c d =
    let named : Dict String Value = insert "request_id" (string id) m in
    let asked : Dict String Value = insert "kv_transfer_params" prefill_transfer named in
    insert-other "max_tokens" k (number "1") (insert "stream" (boolean false) asked) a
    ∙ insert-other "stream" k (boolean false) asked b
    ∙ insert-other "kv_transfer_params" k prefill_transfer named c
    ∙ insert-other "request_id" k (string id) m d

trimmed-none :
    (m : Dict String Value)
    → (lookup "stream_options" (trimmed m) ≡ none)
      × (lookup "min_tokens" (trimmed m) ≡ none)
      × (lookup "min_completion_tokens" (trimmed m) ≡ none)
trimmed-none m =
    let l : Dict String Value = delete "stream_options" m in
    let n : Dict String Value = delete "min_tokens" l in
    (
      delete-stays_none "min_completion_tokens" "stream_options" n
          (delete-stays_none "min_tokens" "stream_options" l (delete-none "stream_options" m)),
      delete-stays_none "min_completion_tokens" "min_tokens" n (delete-none "min_tokens" l),
      delete-none "min_completion_tokens" n,
    )

-- The cap is set where the client set one.
cap_of : Option Value → Option Value
cap_of none = none
cap_of (some v) = some (number "1")

capped-cap_of :
    (o : Option Value) (m : Dict String Value)
    → lookup "max_completion_tokens" m ≡ o
    → lookup "max_completion_tokens" (capped o m) ≡ cap_of o
unfolding cap_of
capped-cap_of none m e = e
capped-cap_of (some v) m e = insert-same "max_completion_tokens" (number "1") m

prefill_fields-cap_of :
    (id : String) (m : Dict String Value)
    → lookup "max_completion_tokens" (prefill_fields id m)
      ≡ cap_of (lookup "max_completion_tokens" m)
unfolding prefill_fields
prefill_fields-cap_of id m =
    let short : Dict String Value = short_fields id m in
    let o : Option Value = lookup "max_completion_tokens" short in
    trimmed-other "max_completion_tokens" (capped o short)
      (apart "min_completion_tokens" "max_completion_tokens" refl)
      (apart "min_tokens" "max_completion_tokens" refl)
      (apart "stream_options" "max_completion_tokens" refl)
    ∙ capped-cap_of o short refl
    ∙ ap cap_of (
        short_fields-other "max_completion_tokens" id m
          (apart "max_tokens" "max_completion_tokens" refl)
          (apart "stream" "max_completion_tokens" refl)
          (apart "kv_transfer_params" "max_completion_tokens" refl)
          (apart "request_id" "max_completion_tokens" refl))

-- The fields `f` of a prefill body for the client's fields `m`.
pub record AsksOne (id : String) (m f : Dict String Value) : Type 0 where
  pub named : lookup "request_id" f ≡ some (string id)
  pub not_streamed : lookup "stream" f ≡ some (boolean false)
  pub one_token : lookup "max_tokens" f ≡ some (number "1")
  pub no_cap : lookup "max_completion_tokens" m ≡ none → lookup "max_completion_tokens" f ≡ none
  pub one_completion :
      (v : Value)
      → lookup "max_completion_tokens" m ≡ some v
      → lookup "max_completion_tokens" f ≡ some (number "1")
  pub no_minimum : lookup "min_tokens" f ≡ none
  pub no_completion_minimum : lookup "min_completion_tokens" f ≡ none
  pub no_options : lookup "stream_options" f ≡ none
  pub asks : lookup "kv_transfer_params" f ≡ some prefill_transfer

prefill_fields-AsksOne : (id : String) (m : Dict String Value) → AsksOne id m (prefill_fields id m)
unfolding prefill_fields cap_of
prefill_fields-AsksOne id m =
    let named : Dict String Value = insert "request_id" (string id) m in
    let asked : Dict String Value = insert "kv_transfer_params" prefill_transfer named in
    let quiet : Dict String Value = insert "stream" (boolean false) asked in
    let short : Dict String Value = short_fields id m in
    let (a, b, c) = trimmed-none (capped (lookup "max_completion_tokens" short) short) in
    record {
      named =
          prefill_fields-other "request_id" id m (apart "min_completion_tokens" "request_id" refl)
            (apart "min_tokens" "request_id" refl) (apart "stream_options" "request_id" refl)
            (apart "max_completion_tokens" "request_id" refl)
          ∙ insert-other "max_tokens" "request_id" (number "1") quiet
              (apart "max_tokens" "request_id" refl)
          ∙ insert-other "stream" "request_id" (boolean false) asked
              (apart "stream" "request_id" refl)
          ∙ insert-other "kv_transfer_params" "request_id" prefill_transfer named
              (apart "kv_transfer_params" "request_id" refl)
          ∙ insert-same "request_id" (string id) m;
      not_streamed =
          prefill_fields-other "stream" id m (apart "min_completion_tokens" "stream" refl)
            (apart "min_tokens" "stream" refl) (apart "stream_options" "stream" refl)
            (apart "max_completion_tokens" "stream" refl)
          ∙ insert-other "max_tokens" "stream" (number "1") quiet (apart "max_tokens" "stream" refl)
          ∙ insert-same "stream" (boolean false) asked;
      one_token =
          prefill_fields-other "max_tokens" id m (apart "min_completion_tokens" "max_tokens" refl)
            (apart "min_tokens" "max_tokens" refl) (apart "stream_options" "max_tokens" refl)
            (apart "max_completion_tokens" "max_tokens" refl)
          ∙ insert-same "max_tokens" (number "1") quiet;
      no_cap = λ e. prefill_fields-cap_of id m ∙ ap cap_of e;
      one_completion = λ v e. prefill_fields-cap_of id m ∙ ap cap_of e;
      no_minimum = b;
      no_completion_minimum = c;
      no_options = a;
      asks =
          prefill_fields-other "kv_transfer_params" id m
            (apart "min_completion_tokens" "kv_transfer_params" refl)
            (apart "min_tokens" "kv_transfer_params" refl)
            (apart "stream_options" "kv_transfer_params" refl)
            (apart "max_completion_tokens" "kv_transfer_params" refl)
          ∙ insert-other "max_tokens" "kv_transfer_params" (number "1") quiet
              (apart "max_tokens" "kv_transfer_params" refl)
          ∙ insert-other "stream" "kv_transfer_params" (boolean false) asked
              (apart "stream" "kv_transfer_params" refl)
          ∙ insert-same "kv_transfer_params" prefill_transfer named;
    }

-- The two phases have the same request id. The prefill body asks for one token, by max_tokens and, if
-- the client set it, by max_completion_tokens, with no minimum of either, not streamed, and for
-- key-value blocks that another instance fetches. The decode body has the transfer parameters, and of
-- every other key what the client sent.
pub prefill_fields-decode_fields :
    (id : String) (kv : Value) (m : Dict String Value)
    → AsksOne id m (prefill_fields id m)
      × (lookup "request_id" (decode_fields kv id m) ≡ some (string id))
      × (lookup "kv_transfer_params" (decode_fields kv id m) ≡ some kv)
      × ((k : String)
          → "kv_transfer_params" ≢ k
          → "request_id" ≢ k
          → lookup k (decode_fields kv id m) ≡ lookup k m)
unfolding decode_fields
prefill_fields-decode_fields id kv m =
    let named : Dict String Value = insert "request_id" (string id) m in
    (
      prefill_fields-AsksOne id m,
      insert-other "kv_transfer_params" "request_id" kv named
            (apart "kv_transfer_params" "request_id" refl)
          ∙ insert-same "request_id" (string id) m,
      insert-same "kv_transfer_params" kv named,
      λ k a b.
          insert-other "kv_transfer_params" k kv named a
          ∙ insert-other "request_id" k (string id) m b,
    )
