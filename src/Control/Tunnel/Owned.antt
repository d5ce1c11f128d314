-- ===== src/Control/Tunnel/Owned.antt =====
-- Every live session of a tunnel is known to it, as long as no stream is opened while another open of
-- it is in flight.
use inferia_worker.Common.{
  ℕ, ◌≡◌, ◌≢◌, sym, ap, ◌∙◌, subst, String, List, [], ◌∷◌, Bool, true, none, some, ite, string_dec,
  Dict, lookup, delete, string_key, lookup-delete, arith, ℕ_discrete, ◌⊎◌, inl, inr,
}
use inferia_worker.Control.Tunnel.{Kind, Kind-discrete, Opening, Tunnel, with_table, without}

unfoldable pub In : Opening → List Opening → Type 0
In o [] = ⊥
In o (p ∷ os) = (o ≡ p) ⊎ In o os

abbrev pub Tables : Type 0
Tables = Kind → Dict String ℕ

-- Who answers for a session: the table entry of a stream, or an open in flight.
pub data Owner (ts : Tables) (os : List Opening) (h : ℕ) : Type 0 where
  registered : (k : Kind) (s : String) → lookup s (ts k) ≡ some h → Owner ts os h
  opening : (o : Opening) → In o os → o.session ≡ h → Owner ts os h

pub record Inv (ts : Tables) (disposed : Bool) (os : List Opening) (live : ℕ → Bool) : Type 0 where
  pub owned : (h : ℕ) → live h ≡ true → Owner ts os h
  pub fresh : (o : Opening) → In o os → lookup o.stream (ts o.kind) ≡ none
  pub alone :
      (o p : Opening)
      → In o os
      → In p os
      → o.kind ≡ p.kind
      → o.stream ≡ p.stream
      → o.session ≡ p.session
  pub emptied : disposed ≡ true → (k : Kind) → ts k ≡ []

abbrev pub Held : Tunnel → Type 0
Held t = Inv t.tables t.disposed t.openings t.live

pub lookup-with_table :
    (ts : Tables) (k j : Kind) (m : Dict String ℕ) (s : String)
    → lookup s (with_table ts k m j) ≡ ite (Kind-discrete k j) (lookup s m) (lookup s (ts j))
lookup-with_table ts k j m s = ground arith

-- A deletion leaves no entry that was not there.
lookup-deleted :
    (ts : Tables) (k j : Kind) (s r : String)
    → lookup r (ts j) ≡ none
    → lookup r (with_table ts k (delete s (ts k)) j) ≡ none
lookup-deleted ts k j s r e = elim (Kind-discrete k j) [
  | yes q ↦
      ground (arith, e, q, lookup-with_table ts k j (delete s (ts k)) r, lookup-delete s r (ts k))
  | no n ↦ ground (arith, e, n, lookup-with_table ts k j (delete s (ts k)) r)
]

-- What it keeps: the entries of other sessions.
lookup-kept :
    (ts : Tables) (k j : Kind) (s r : String) (h : ℕ)
    → lookup r (ts j) ≡ some h
    → lookup s (ts k) ≢ some h
    → lookup r (with_table ts k (delete s (ts k)) j) ≡ some h
lookup-kept ts k j s r h e other = elim (Kind-discrete k j) [
  | no n ↦ ground (arith, e, n, lookup-with_table ts k j (delete s (ts k)) r)
  | yes q ↦ elim (string_dec s r) [
    | yes i ↦ absurd (
        other (
          subst (λ x. lookup s (ts x) ≡ some h) (sym q)
            (subst (λ x. lookup x (ts j) ≡ some h) (sym i) e)))
    | no i ↦
        ground
          (arith, e, q, i, lookup-with_table ts k j (delete s (ts k)) r, lookup-delete s r (ts k))
  ]
]

pub drop_stream-Inv :
    {ts : Tables} {disposed : Bool} {os : List Opening} {live : ℕ → Bool} (k : Kind) (s : String)
    (live' : ℕ → Bool)
    → Inv ts disposed os live
    → ((h : ℕ) → live' h ≡ true → (live h ≡ true) × (lookup s (ts k) ≢ some h))
    → Inv (with_table ts k (delete s (ts k))) disposed os live'
drop_stream-Inv {ts} {os} k s live' v f = record {
  owned = λ h l. elim (v.owned h (f h l).0) [
    | registered j r e ↦ registered j r (lookup-kept ts k j s r h e (f h l).1)
    | opening o i e ↦ opening o i e
  ];
  fresh = λ o i. lookup-deleted ts k o.kind s o.stream (v.fresh o i);
  alone = v.alone;
  emptied = λ d j. elim (Kind-discrete k j) as (λ q. ite q (delete s (ts k)) (ts j) ≡ []) [
    | yes _ ↦ ap (λ m. delete s m) (v.emptied d k)
    | no _ ↦ v.emptied d j
  ];
}

pub In-without :
    (h : ℕ) (os : List Opening) (o : Opening) → In o os → o.session ≢ h → In o (without h os)
unfolding In without
In-without h [] o i n = elim i [ ]
In-without h (p ∷ os) o i n =
    elim (ℕ_discrete p.session h) as (λ q. In o (ite q (without h os) (p ∷ without h os))) [
      | yes e ↦ elim i [
        | inl q ↦ absurd (n (ap (λ x. x.session) q ∙ e))
        | inr i' ↦ In-without h os o i' n
      ]
      | no m ↦ elim i [ inl q ↦ inl q | inr i' ↦ inr (In-without h os o i' n) ]
    ]

pub without-In :
    (h : ℕ) (os : List Opening) (o : Opening) → In o (without h os) → In o os × (o.session ≢ h)
unfolding In without
without-In h [] o = λ i. elim i [ ]
without-In h (p ∷ os) o =
    elim (ℕ_discrete p.session h)
      as (λ q. In o (ite q (without h os) (p ∷ without h os)) → In o (p ∷ os) × (o.session ≢ h)) [
        | yes e ↦ λ i. (inr (without-In h os o i).0, (without-In h os o i).1)
        | no m ↦ λ i. elim i [
          | inl q ↦ (inl q, λ e. m (ap (λ x. x.session) (sym q) ∙ e))
          | inr i' ↦ (inr (without-In h os o i').0, (without-In h os o i').1)
        ]
      ]
