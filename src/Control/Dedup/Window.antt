-- ===== src/Control/Dedup/Window.antt =====
-- How long a result is replayed.
use inferia_worker.Common.{
  ℕ, ◌+◌, ◌≤◌, ◌<◌, ◌≡◌, refl, ◌≢◌, true, false, String, List, [], ◌∷◌, none, some, string_dec,
  Dict, lookup, string_key, arith, All, lookup-insert,
}
use inferia_worker.Control.Dedup.{Entry, Dedup, cached, collect, store, run}

pub record Call (R S : Type 0) : Type 0 where
  pub now : ℕ
  pub id : String
  pub fn : S → R × S

module _ {R : Type 0} where
  -- An entry that has not been over for `ttl` survives the collection.
  lookup-collect :
      (now ttl : ℕ) (id : String) (m : Dict String (Entry R)) (e : Entry R)
      → lookup id m ≡ some e
      → now ≤ e.expires_at + ttl
      → lookup id (collect now ttl m) ≡ some e
  unfolding collect
  lookup-collect now ttl id [] e h l = cc
  lookup-collect now ttl id ((k, x) ∷ m) e h l = ground (arith, lookup-collect now ttl id m e)

  lookup-store :
      (d : Dedup R) (now : ℕ) (id : String) (r : R)
      → lookup id (store d now id r).entries
        ≡ some (record { result = r; expires_at = now + d.ttl })
  unfolding store
  lookup-store d now id r =
      lookup-collect now d.ttl id _ _ (rw (lookup-insert id id _ d.entries) (ground arith))
        (omega arith)

  cached_over :
      (d : Dedup R) (t : ℕ) (id : String) (e : Entry R)
      → lookup id d.entries ≡ some e
      → e.expires_at ≤ t
      → cached d t id ≡ none
  unfolding cached
  cached_over d t id e h l = ground arith

  lookup-store_ne :
      (d : Dedup R) (now : ℕ) (id j : String) (r : R) (e : Entry R)
      → j ≢ id
      → lookup id d.entries ≡ some e
      → now ≤ e.expires_at
      → lookup id (store d now j r).entries ≡ some e
  unfolding store
  lookup-store_ne d now id j r e other h l =
      lookup-collect now d.ttl id _ _ (rw (lookup-insert j id _ d.entries) (ground arith))
        (omega arith)

module _ {R S : Type 0} where
  unfoldable pub run_all : Dedup R → S → List (Call R S) → Dedup R × S
  run_all d s [] = (d, s)
  run_all d s (c ∷ cs) = let o = run d c.now c.id c.fn s in run_all o.dedup o.state cs

  -- The calls are made before the time `t`.
  abbrev pub Before : ℕ → List (Call R S) → Type 0
  Before t = All (λ c. c.now < t)

  hit-run :
      (d : Dedup R) (t : ℕ) (id : String) (fn : S → R × S) (s : S) (e : Entry R)
      → id ≢ ""
      → lookup id d.entries ≡ some e
      → t < e.expires_at
      → run d t id fn s ≡ record { dedup = d; state = s; result = e.result; hit = true }
  unfolding run cached
  hit-run d t id fn s e named h l = ground arith

  pub miss-run :
      (d : Dedup R) (t : ℕ) (id : String) (fn : S → R × S) (s : S)
      → id ≢ ""
      → cached d t id ≡ none
      → run d t id fn s
        ≡ record { dedup = store d t id (fn s).0; state = (fn s).1; result = (fn s).0; hit = false }
  unfolding run
  miss-run d t id fn s named h = ground arith

  keep_other :
      (d : Dedup R) (c : Call R S) (s : S) (id : String) (e : Entry R)
      → c.id ≢ ""
      → c.id ≢ id
      → lookup id d.entries ≡ some e
      → c.now < e.expires_at
      → lookup id (run d c.now c.id c.fn s).dedup.entries ≡ some e
  unfolding run
  keep_other d c s id e named other h l =
      ground (arith, lookup-store_ne d c.now id c.id (c.fn s).0 e other h)

  -- A call before the end of an entry leaves the entry as it is.
  keep-run :
      (d : Dedup R) (c : Call R S) (s : S) (id : String) (e : Entry R)
      → id ≢ ""
      → lookup id d.entries ≡ some e
      → c.now < e.expires_at
      → lookup id (run d c.now c.id c.fn s).dedup.entries ≡ some e
  unfolding run
  keep-run d c s id e named h l = elim (string_dec c.id "") [
    | yes p ↦ ground arith
    | no p ↦ elim (string_dec c.id id) [
      | yes same ↦ ground arith
      | no other ↦ keep_other d c s id e p other h l
    ]
  ]

  keep-run_all :
      (d : Dedup R) (cs : List (Call R S)) (s : S) (id : String) (e : Entry R)
      → id ≢ ""
      → lookup id d.entries ≡ some e
      → Before e.expires_at cs
      → lookup id (run_all d s cs).0.entries ≡ some e
  unfolding run_all
  keep-run_all d [] s id e named h b = h
  keep-run_all d (c ∷ cs) s id e named h b =
      keep-run_all (run d c.now c.id c.fn s).dedup cs (run d c.now c.id c.fn s).state id e named
        (keep-run d c s id e named h b.0) b.1

  -- Within `ttl` of the start of a command that was executed, and whatever commands come in
  -- between, a retry of its id is not executed: it is a hit, it returns the first result, and it
  -- changes nothing.
  pub run_replays :
      (d : Dedup R) (s : S) (t0 t : ℕ) (id : String) (fn retry : S → R × S)
      (between : List (Call R S))
      → id ≢ ""
      → cached d t0 id ≡ none
      → Before (t0 + d.ttl) between
      → t < t0 + d.ttl
      → let first = run d t0 id fn s in
        let later = run_all first.dedup first.state between in
        run later.0 t id retry later.1
        ≡ record { dedup = later.0; state = later.1; result = (fn s).0; hit = true }
  run_replays d s t0 t id fn retry between named miss b l = rw (miss-run d t0 id fn s named miss) (
      hit-run _ t id retry _ _ named
        (keep-run_all _ between _ id _ named (lookup-store d t0 id (fn s).0) b) l)

  -- The window counts from the start of the command: a retry at `t0 + ttl` or later, so also the
  -- first retry after a command that ran for `ttl` or longer, executes the command again.
  pub run_expired :
      (d : Dedup R) (s s' : S) (t0 t : ℕ) (id : String) (fn : S → R × S)
      → id ≢ ""
      → cached d t0 id ≡ none
      → t0 + d.ttl ≤ t
      → let o = run (run d t0 id fn s).dedup t id fn s' in
        (o.state ≡ (fn s').1) × (o.result ≡ (fn s').0) × (o.hit ≡ false)
  run_expired d s s' t0 t id fn named miss l = rw (miss-run d t0 id fn s named miss) (
      rw
        (miss-run (store d t0 id (fn s).0) t id fn s' named
          (cached_over (store d t0 id (fn s).0) t id _ (lookup-store d t0 id (fn s).0) l))
        (refl, refl, refl))
