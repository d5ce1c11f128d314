-- ===== src/Inference/Bodies/Carried.antt =====
-- What a decode body carries, and which answers of a prefill instance have transfer parameters.
use inferia_worker.Common.{
  String, Option, none, some, Result, ok, err, Dict, lookup, insert, string_key, string_dec,
  insert-other, insert-same, ite, ◌≡◌, ◌≢◌, refl, ◌∙◌,
}
use inferia_worker.Inference.Bodies.{
  Value, null, boolean, number, string, object, array, no_members, member, Decoded, nil_map, fields,
  Json, decode_fields, transfer_of, transfer, edited, build_body, build_decode_body,
}

-- The body `c` for a decode instance: that of the client with the transfer parameters and the
-- request id, and every other key as the client sent it; or empty, as the client's.
pub data Carries (json : Json) (id original : String) (kv : Value) (c : String) : Type 0 where
  empty : original ≡ "" → c ≡ "" → Carries json id original kv c
  made :
      (m f : Dict String Value)
      → original ≢ ""
      → json.unmarshal original ≡ ok (fields m)
      → json.marshal f ≡ ok c
      → lookup "kv_transfer_params" f ≡ some kv
      → lookup "request_id" f ≡ some (string id)
      → ((k : String) → "kv_transfer_params" ≢ k → "request_id" ≢ k → lookup k f ≡ lookup k m)
      → Carries json id original kv c

build_decode_body-made :
    (json : Json) (id original : String) (kv : Value) (c : String) (m : Dict String Value)
    → original ≢ ""
    → json.unmarshal original ≡ ok (fields m)
    → json.marshal (decode_fields kv id m) ≡ ok c
    → Carries json id original kv c
unfolding decode_fields
build_decode_body-made json id original kv c m n u e =
    let named : Dict String Value = insert "request_id" (string id) m in
    made m (decode_fields kv id m) n u e (insert-same "kv_transfer_params" kv named)
      (insert-other "kv_transfer_params" "request_id" kv named (λ z. cc z)
        ∙ insert-same "request_id" (string id) m)
      (λ k a b.
        insert-other "kv_transfer_params" k kv named a
        ∙ insert-other "request_id" k (string id) m b)

pub build_decode_body-Carries :
    (json : Json) (id original : String) (kv : Value) (c : String)
    → build_decode_body json original kv id ≡ some (ok c)
    → Carries json id original kv c
unfolding build_decode_body build_body edited
build_decode_body-Carries json id original kv c =
    go (string_dec original "") (json.unmarshal original) refl
  where
    go :
        (d : Dec (original ≡ "")) (r : Result Decoded)
        → json.unmarshal original ≡ r
        → ite d (some (ok original)) (edited json (decode_fields kv id) r) ≡ some (ok c)
        → Carries json id original kv c
    go (yes z) r u e = empty z (cc (e, z))
    go (no n) (err m) u e = cc e
    go (no n) (ok nil_map) u e = cc e
    go (no n) (ok (fields m)) u e = build_decode_body-made json id original kv c m n u (cc e)

-- An answer with transfer parameters: not null, and not an empty object.
pub record Transfers (v : Decoded) (kv : Value) : Type 0 where
  pub answer : Dict String Value
  pub reads : v ≡ fields answer
  pub has : lookup "kv_transfer_params" answer ≡ some kv
  pub not_null : kv ≢ null
  pub not_empty : kv ≢ object no_members

-- An answer without them.
pub data Lacks : Decoded → Type 0 where
  nothing : Lacks nil_map
  missing : (m : Dict String Value) → lookup "kv_transfer_params" m ≡ none → Lacks (fields m)
  is_null : (m : Dict String Value) → lookup "kv_transfer_params" m ≡ some null → Lacks (fields m)
  is_empty :
      (m : Dict String Value)
      → lookup "kv_transfer_params" m ≡ some (object no_members)
      → Lacks (fields m)

transfer_of-ok :
    (o : Option Value) (kv : Value)
    → transfer_of o ≡ ok kv
    → (o ≡ some kv) × (kv ≢ null) × (kv ≢ object no_members)
unfolding transfer_of
transfer_of-ok none kv e = cc e
transfer_of-ok (some null) kv e = cc e
transfer_of-ok (some (object no_members)) kv e = cc e
transfer_of-ok (some (object (member k v l))) kv e = (cc e, λ z. cc (e, z), λ z. cc (e, z))
transfer_of-ok (some (array l)) kv e = (cc e, λ z. cc (e, z), λ z. cc (e, z))
transfer_of-ok (some (string s)) kv e = (cc e, λ z. cc (e, z), λ z. cc (e, z))
transfer_of-ok (some (number s)) kv e = (cc e, λ z. cc (e, z), λ z. cc (e, z))
transfer_of-ok (some (boolean b)) kv e = (cc e, λ z. cc (e, z), λ z. cc (e, z))

pub transfer-Transfers : (v : Decoded) (kv : Value) → transfer v ≡ ok kv → Transfers v kv
unfolding transfer transfer_of
transfer-Transfers nil_map kv e = cc e
transfer-Transfers (fields m) kv e =
    let (h, n, k) = transfer_of-ok (lookup "kv_transfer_params" m) kv e in
    record { answer = m; reads = refl; has = h; not_null = n; not_empty = k }

pub transfer-Lacks : (v : Decoded) (m : String) → transfer v ≡ err m → Lacks v
unfolding transfer transfer_of
transfer-Lacks nil_map m e = nothing
transfer-Lacks (fields f) m e = go (lookup "kv_transfer_params" f) refl e
  where
    go :
        (o : Option Value)
        → lookup "kv_transfer_params" f ≡ o
        → transfer_of o ≡ err m
        → Lacks (fields f)
    go none h e = missing f h
    go (some null) h e = is_null f h
    go (some (object no_members)) h e = is_empty f h
    go (some (object (member k v l))) h e = cc e
    go (some (array l)) h e = cc e
    go (some (string s)) h e = cc e
    go (some (number s)) h e = cc e
    go (some (boolean b)) h e = cc e
