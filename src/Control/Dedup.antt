-- ===== src/Control/Dedup.antt =====
-- internal/control/dedup.go: the results of commands, remembered for a time. Times and `ttl` are
-- numbers of nanoseconds; the clock is an argument of each call, and a command is a function on
-- the state of the rest of the worker. Calls follow one another.
pub mod Window
use inferia_worker.Common.{
  ℕ, ◌+◌, Bool, true, false, String, [], ◌∷◌, Option, none, some, ite, string_dec, Dict, lookup,
  insert, string_key, ltb, if◌then◌else◌,
}

pub record Entry (R : Type 0) : Type 0 where
  pub result : R
  pub expires_at : ℕ

pub record Dedup (R : Type 0) : Type 0 where
  pub ttl : ℕ
  pub entries : Dict String (Entry R)

-- What a call leaves behind and returns.
pub record Outcome (R S : Type 0) : Type 0 where
  pub dedup : Dedup R
  pub state : S
  pub result : R
  pub hit : Bool

module _ {R : Type 0} where
  unfoldable pub new_dedup : ℕ → Dedup R
  new_dedup ttl = record { ttl = ttl; entries = [] }

  -- The entry of an id, while `now` is before its end.
  unfoldable pub cached : Dedup R → ℕ → String → Option R
  cached d now id = elim (lookup id d.entries) [
    | none ↦ none
    | some e ↦ if ltb now e.expires_at then some e.result else none
  ]

  -- The loop that deletes the entries whose end is more than `ttl` ago.
  unfoldable pub collect : ℕ → ℕ → Dict String (Entry R) → Dict String (Entry R)
  collect now ttl [] = []
  collect now ttl ((k, e) ∷ m) =
      let rest = collect now ttl m in if ltb (e.expires_at + ttl) now then rest else (k, e) ∷ rest

  unfoldable pub store : Dedup R → ℕ → String → R → Dedup R
  unfolding collect
  store d now id result = record d {
    entries =
        collect now d.ttl
          (insert id (record { result = result; expires_at = now + d.ttl }) d.entries);
  }

  unfoldable pub run : {S : Type 0} → Dedup R → ℕ → String → (S → R × S) → S → Outcome R S
  unfolding cached store
  run d now id fn s =
      ite (string_dec id "")
        (record { dedup = d; state = (fn s).1; result = (fn s).0; hit = false })
        (elim (cached d now id) [
          | some result ↦ record { dedup = d; state = s; result = result; hit = true }
          | none ↦ record {
            dedup = store d now id (fn s).0;
            state = (fn s).1;
            result = (fn s).0;
            hit = false;
          }
        ])
