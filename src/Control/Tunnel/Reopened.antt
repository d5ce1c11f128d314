-- ===== src/Control/Tunnel/Reopened.antt =====
-- A stream that is opened again while its open is in flight.
use inferia_worker.Common.{
  ℕ, ◌+◌, ◌≡◌, ◌≢◌, refl, ap, ◌∙◌, String, [], ◌∷◌, true, false, none, some, ite, Dict, lookup,
  insert, string_key, insert-same, ℕ_discrete, arith,
}
use inferia_worker.Control.Tunnel.{
  Kind, Kind-discrete, shell, logs, OpenBody, Tunnel, handle_open, start_session, finish_open,
  close_all, holds, with_table,
}

-- Both opens of a stream pass the check, and then both are registered.
unfoldable pub opened_twice : Tunnel → Kind → OpenBody → Tunnel
unfolding handle_open finish_open
opened_twice t k body =
    let n = t.next_session in
    let t1 = handle_open t k body none in
    let t2 = handle_open t1 k body none in
    let t3 = finish_open t2 (record { kind = k; stream = body.stream_id; session = n }) in
    finish_open t3 (record { kind = k; stream = body.stream_id; session = n + 1 })

insert-insert :
    (s : String) (h g : ℕ) (m : Dict String ℕ) → insert s g (insert s h m) ≡ insert s g m
insert-insert s h g [] = ground arith
insert-insert s h g ((j, w) ∷ m) = ground (arith, insert-insert s h g m)

holds-insert_ne :
    (s : String) (h g : ℕ) (m : Dict String ℕ)
    → g ≢ h
    → holds h m ≡ false
    → holds h (insert s g m) ≡ false
unfolding holds
holds-insert_ne s h g [] n e = ground (arith, n)
holds-insert_ne s h g ((j, w) ∷ m) n e = elim (ℕ_discrete w h) [
  | yes q ↦ ground (arith, e, q)
  | no q ↦
      let rest : holds h m ≡ false = ground (arith, e, q) in
      ground (arith, n, q, rest, holds-insert_ne s h g m n rest)
]

holds-insert : (s : String) (h : ℕ) (m : Dict String ℕ) → holds h (insert s h m) ≡ true
unfolding holds
holds-insert s h [] = ground arith
holds-insert s h ((j, w) ∷ m) = ground (arith, holds-insert s h m)

with_table-same :
    (ts : Kind → Dict String ℕ) (k : Kind) (m : Dict String ℕ) → with_table ts k m k ≡ m
with_table-same ts k m = elim (Kind-discrete k k) as (λ q. ite q m (ts k) ≡ m) [
  | yes q ↦ refl
  | no n ↦ absurd (n refl)
]

-- The two registrations of a stream in a table.
with_table_twice :
    (ts : Kind → Dict String ℕ) (k j : Kind) (s : String) (h g : ℕ)
    → (let once = with_table ts k (insert s h (ts k)) in with_table once k (insert s g (once k)) j)
      ≡ with_table ts k (insert s g (ts k)) j
with_table_twice ts k j s h g =
    let same : with_table ts k (insert s h (ts k)) k ≡ insert s h (ts k) =
      with_table-same ts k (insert s h (ts k)) in
    ground (arith, same, insert-insert s h g (ts k))

module _ (t : Tunnel) (k : Kind) (body : OpenBody) (named : body.stream_id ≢ "")
    (going : t.disposed ≡ false) (free : lookup body.stream_id (t.tables k) ≡ none) where
  abbrev n : ℕ
  n = t.next_session

  abbrev t2 : Tunnel
  t2 = start_session (start_session t k body none) k body none

  starts_twice : handle_open (handle_open t k body none) k body none ≡ t2
  unfolding handle_open start_session
  starts_twice =
      let one : handle_open t k body none ≡ start_session t k body none =
        ground (arith, named, going, free) in
      rw one (ground (arith, named, going, free))

  abbrev table : Dict String ℕ
  table = insert body.stream_id (n + 1) (t.tables k)

  twice-tables : (j : Kind) → (opened_twice t k body).tables j ≡ with_table t.tables k table j
  unfolding opened_twice finish_open start_session
  twice-tables j =
      rw starts_twice (rw going (with_table_twice t.tables k j body.stream_id n (n + 1)))

  twice-live :
      ((opened_twice t k body).disposed ≡ false)
      × ((opened_twice t k body).live n ≡ true)
      × ((opened_twice t k body).live (n + 1) ≡ true)
  unfolding opened_twice finish_open start_session
  twice-live = rw starts_twice (rw going (refl, ground arith, ground arith))

  registered_last : lookup body.stream_id ((opened_twice t k body).tables k) ≡ some (n + 1)
  registered_last =
      ap (λ m. lookup body.stream_id m) (twice-tables k ∙ with_table-same t.tables k table)
      ∙ insert-same body.stream_id (n + 1) (t.tables k)

  holds_last : holds (n + 1) ((opened_twice t k body).tables k) ≡ true
  holds_last =
      ap (λ m. holds (n + 1) m) (twice-tables k ∙ with_table-same t.tables k table)
      ∙ holds-insert body.stream_id (n + 1) (t.tables k)

  module _ (unused : (j : Kind) → holds n (t.tables j) ≡ false) where
    holds_first : (j : Kind) → holds n ((opened_twice t k body).tables j) ≡ false
    holds_first j =
        ap (λ m. holds n m) (twice-tables j)
        ∙ (elim (Kind-discrete k j) as (λ q. holds n (ite q table (t.tables j)) ≡ false) [
          | yes q ↦
              holds-insert_ne body.stream_id n (n + 1) (t.tables k) (λ e. omega (arith, e))
                (unused k)
          | no m ↦ unused j
        ])

    -- In a tunnel that is not disposed two opens of a free stream overlap, so that both pass the check
    -- before either is registered; the number of the first session is in no table. Then the second
    -- session takes the place of the first in the table of the stream, and CloseAll, which closes the
    -- second, leaves the first live.
    pub opened_twice_leaks :
        (lookup body.stream_id ((opened_twice t k body).tables k) ≡ some (n + 1))
        × ((close_all (opened_twice t k body)).live (n + 1) ≡ false)
        × ((close_all (opened_twice t k body)).live n ≡ true)
    unfolding close_all
    opened_twice_leaks =
        let (going_on, live, _) = twice-live in
        (
          registered_last,
          closes k holds_last going_on,
          ground (arith, going_on, live, holds_first shell, holds_first logs),
        )
      where
        closes :
            (j : Kind)
            → holds (n + 1) ((opened_twice t k body).tables j) ≡ true
            → (opened_twice t k body).disposed ≡ false
            → (close_all (opened_twice t k body)).live (n + 1) ≡ false
        closes shell e d = ground (arith, e, d)
        closes logs e d = ground (arith, e, d)
