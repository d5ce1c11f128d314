-- ===== src/Inference/Bodies/Editing.antt =====
-- When a body is edited.
use inferia_worker.Common.{String, none, some, Result, ok, err, Dict, string_dec, ◌≡◌, ◌≢◌, refl}
use inferia_worker.Inference.Bodies.{Value, Decoded, nil_map, fields, Json, edited, build_body}

-- A body that is edited, unless it decodes into the nil map.
pub data Edits (json : Json) (original : String) : Type 0 where
  panics :
      original ≢ ""
      → json.unmarshal original ≡ ok nil_map
      → ((f : Dict String Value → Dict String Value) → build_body json f original ≡ none)
      → Edits json original
  edits :
      ¬ ((original ≢ "") × (json.unmarshal original ≡ ok nil_map))
      → ((f : Dict String Value → Dict String Value)
          → (r : Result String) × (build_body json f original ≡ some r))
      → Edits json original

pub build_body-Edits : (json : Json) (original : String) → Edits json original
unfolding build_body edited
build_body-Edits json original = go (string_dec original "") (json.unmarshal original) refl refl
  where
    go :
        (d : Dec (original ≡ "")) (r : Result Decoded)
        → string_dec original "" ≡ d
        → json.unmarshal original ≡ r
        → Edits json original
    go (yes e) r q s = edits (λ (n, m). n e) (λ f. (ok original, rw q refl))
    go (no n) (err m) q s = edits (λ (k, z). cc (s, z)) (λ f. (err m, rw (q, s) refl))
    go (no n) (ok nil_map) q s = panics n s (λ f. rw (q, s) refl)
    go (no n) (ok (fields m)) q s =
        edits (λ (k, z). cc (s, z)) (λ f. (json.marshal (f m), rw (q, s) refl))
