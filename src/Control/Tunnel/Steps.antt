-- ===== src/Control/Tunnel/Steps.antt =====
-- The steps of a tunnel keep what Owned states.
use inferia_worker.Common.{
  ℕ, ◌≡◌, ◌≢◌, refl, sym, ap, ◌∙◌, subst, String, List, [], ◌∷◌, Bool, true, false, Option, none,
  some, ite, string_dec, Dict, lookup, insert, delete, string_key, lookup-insert, arith, ℕ_discrete,
  ◌⊎◌, inl, inr, if◌then◌else◌, ◌||◌,
}
use inferia_worker.Control.Tunnel.{
  Kind, Kind-discrete, shell, logs, OpenBody, Frame, Opening, Tunnel, with_table, close_session,
  start_session, handle_open, finish_open, without, handle_close, session_ends, holds, close_all,
}
use inferia_worker.Control.Tunnel.Owned.{
  In, Tables, Owner, registered, opening, Inv, Held, drop_stream-Inv, In-without, without-In,
  lookup-with_table,
}

live_other : (h g : ℕ) (live : ℕ → Bool) → close_session h live g ≡ true → (live g ≡ true) × (h ≢ g)
live_other h g live e =
    elim (ℕ_discrete h g) as (λ q. ite q false (live g) ≡ true → (live g ≡ true) × (h ≢ g)) [
      | yes q ↦ λ p. cc p
      | no n ↦ λ p. (p, n)
    ]
      e

finish_disposed-Inv :
    {ts : Tables} {os : List Opening} {live : ℕ → Bool} (h : ℕ)
    → Inv ts true os live
    → Inv ts true (without h os) (close_session h live)
finish_disposed-Inv {os} {live} h v = record {
  owned = λ g l. elim (v.owned g (live_other h g live l).0) [
    | registered j r e ↦ registered j r e
    | opening o i e ↦ opening o (In-without h os o i (λ q. (live_other h g live l).1 (sym q ∙ e))) e
  ];
  fresh = λ o i. v.fresh o (without-In h os o i).0;
  alone = λ o p i j. v.alone o p (without-In h os o i).0 (without-In h os p j).0;
  emptied = v.emptied;
}

-- The table with one stream more.
with_stream : Tables → Opening → Tables
with_stream ts o = with_table ts o.kind (insert o.stream o.session (ts o.kind))

lookup-with_stream :
    (ts : Tables) (o : Opening) (j : Kind) (r : String)
    → ((o.kind ≡ j) × (o.stream ≡ r) × (lookup r (with_stream ts o j) ≡ some o.session))
      ⊎ (((o.kind ≡ j) → (o.stream ≡ r) → ⊥) × (lookup r (with_stream ts o j) ≡ lookup r (ts j)))
unfolding with_stream
lookup-with_stream ts o j r = elim (Kind-discrete o.kind j) [
  | no n ↦ inr ((λ q _. n q), lookup-with_table ts o.kind j _ r ∙ ground (arith, n))
  | yes q ↦ elim (string_dec o.stream r) [
    | yes i ↦ inl (
      q,
      i,
      lookup-with_table ts o.kind j _ r
          ∙ ground (arith, q, i, lookup-insert o.stream r o.session (ts o.kind)),
    )
    | no n ↦ inr (
      (λ _ i. n i),
      lookup-with_table ts o.kind j _ r
          ∙ ground (arith, q, n, lookup-insert o.stream r o.session (ts o.kind)),
    )
  ]
]

finish_registered-Inv :
    {ts : Tables} {os : List Opening} {live : ℕ → Bool} (o : Opening)
    → Inv ts false os live
    → In o os
    → Inv (with_stream ts o) false (without o.session os) live
finish_registered-Inv {ts} {os} o v i = record {
  owned = λ h l. elim (ℕ_discrete o.session h) [
    | yes q ↦ elim (lookup-with_stream ts o o.kind o.stream) [
      | inl (_, _, e) ↦ registered o.kind o.stream (e ∙ ap some q)
      | inr (n, _) ↦ absurd (n refl refl)
    ]
    | no n ↦ elim (v.owned h l) [
      | registered j r e ↦ elim (lookup-with_stream ts o j r) [
        | inl (a, b, _) ↦ cc (
          e,
          subst (λ x. lookup x (ts j) ≡ none) b
              (subst (λ x. lookup o.stream (ts x) ≡ none) a (v.fresh o i)),
        )
        | inr (_, k) ↦ registered j r (k ∙ e)
      ]
      | opening p j e ↦ opening p (In-without o.session os p j (λ q. n (sym q ∙ e))) e
    ]
  ];
  fresh = λ p j.
      let (j', n) = without-In o.session os p j in
      elim (lookup-with_stream ts o p.kind p.stream) [
        | inl (a, b, _) ↦ absurd (n (sym (v.alone o p i j' a b)))
        | inr (_, k) ↦ k ∙ v.fresh p j'
      ];
  alone = λ p q j k. v.alone p q (without-In o.session os p j).0 (without-In o.session os q k).0;
  emptied = λ d. cc d;
}

finish_either :
    (t : Tunnel) (o : Opening) (d : Bool)
    → Inv t.tables d t.openings t.live
    → In o t.openings
    → Held (finish_open (record t { disposed = d }) o)
unfolding finish_open with_stream
finish_either t o true v i = finish_disposed-Inv o.session v
finish_either t o false v i = finish_registered-Inv o v i

pub finish_open-Held :
    (t : Tunnel) (o : Opening) → Held t → In o t.openings → Held (finish_open t o)
finish_open-Held t o v i = finish_either t o t.disposed v i

-- No open of the stream is in flight.
abbrev pub Quiet : Tunnel → Kind → String → Type 0
Quiet t k s = (o : Opening) → In o t.openings → k ≡ o.kind → s ≢ o.stream

start-Inv :
    {ts : Tables} {d : Bool} {os : List Opening} {live : ℕ → Bool} (o : Opening)
    → Inv ts d os live
    → lookup o.stream (ts o.kind) ≡ none
    → ((p : Opening) → In p os → o.kind ≡ p.kind → o.stream ≢ p.stream)
    → Inv ts d (o ∷ os) (λ n. ite (ℕ_discrete o.session n) true (live n))
unfolding In
start-Inv {ts} {os} {live} o v e quiet = record {
  owned = λ h.
      elim (ℕ_discrete o.session h) as (λ q. ite q true (live h) ≡ true → Owner ts (o ∷ os) h) [
        | yes q ↦ λ _. opening o (inl refl) q
        | no n ↦ λ l. elim (v.owned h l) [
          | registered j r f ↦ registered j r f
          | opening p i f ↦ opening p (inr i) f
        ]
      ];
  fresh = λ p i. elim i [
    | inl q ↦ subst (λ x. lookup x.stream (ts x.kind) ≡ none) (sym q) e
    | inr j ↦ v.fresh p j
  ];
  alone = λ p q i j a b. elim i [
    | inl x ↦ elim j [
      | inl y ↦ ap (λ z. z.session) (x ∙ sym y)
      | inr j' ↦ absurd (quiet q j' (ap (λ z. z.kind) (sym x) ∙ a) (ap (λ z. z.stream) (sym x) ∙ b))
    ]
    | inr i' ↦ elim j [
      | inl y ↦
          absurd
            (quiet p i' (ap (λ z. z.kind) (sym y) ∙ sym a) (ap (λ z. z.stream) (sym y) ∙ sym b))
      | inr j' ↦ v.alone p q i' j' a b
    ]
  ];
  emptied = v.emptied;
}

start_session-Held :
    (t : Tunnel) (k : Kind) (body : OpenBody) (answer : Option String)
    → Held t
    → lookup body.stream_id (t.tables k) ≡ none
    → Quiet t k body.stream_id
    → Held (start_session t k body answer)
unfolding start_session
start_session-Held t k body (some e) v l q = v
start_session-Held t k body none v l q = start-Inv _ v l q

open_checked-Held :
    (t : Tunnel) (k : Kind) (body : OpenBody) (answer : Option String) (x : Option ℕ)
    → lookup body.stream_id (t.tables k) ≡ x
    → Held t
    → Quiet t k body.stream_id
    → Held (elim x [ some h ↦ t | none ↦ start_session t k body answer ])
open_checked-Held t k body answer (some h) e v q = v
open_checked-Held t k body answer none e v q = start_session-Held t k body answer v e q

Held-ite : {P : Type 0} (q : Dec P) (t u : Tunnel) → Held t → Held u → Held (ite q t u)
Held-ite (yes _) t u v w = v
Held-ite (no _) t u v w = w

Held-if : (b : Bool) (t u : Tunnel) → Held t → Held u → Held (if b then t else u)
Held-if true t u v w = v
Held-if false t u v w = w

pub handle_open-Held :
    (t : Tunnel) (k : Kind) (body : OpenBody) (answer : Option String)
    → Held t
    → Quiet t k body.stream_id
    → Held (handle_open t k body answer)
unfolding handle_open
handle_open-Held t k body answer v q =
    Held-ite (string_dec body.stream_id "") _ _ v
      (Held-if t.disposed _ _ v (open_checked-Held t k body answer _ refl v q))

close_found-Held :
    (t : Tunnel) (k : Kind) (s : String) (x : Option ℕ)
    → lookup s (t.tables k) ≡ x
    → Held t
    → Inv
        (with_table t.tables k (delete s (t.tables k)))
        t.disposed
        t.openings
        (elim x [ none ↦ t.live | some h ↦ close_session h t.live ])
close_found-Held t k s none e v = drop_stream-Inv k s t.live v (λ h l. (l, λ f. cc (e, f)))
close_found-Held t k s (some g) e v =
    drop_stream-Inv k s (close_session g t.live) v
      (λ h l. ((live_other g h t.live l).0, λ f. (live_other g h t.live l).1 (cc (e, f))))

pub handle_close-Held : (t : Tunnel) (k : Kind) (s : String) → Held t → Held (handle_close t k s)
unfolding handle_close
handle_close-Held t k s v = close_found-Held t k s _ refl v

-- A session of the stream: the one in the table, or one whose open is in flight.
abbrev pub Of : Tunnel → Kind → String → ℕ → Type 0
Of t k s h =
    (lookup s (t.tables k) ≡ some h) ⊎ In (record { kind = k; stream = s; session = h }) t.openings

pub session_ends-Held :
    (t : Tunnel) (k : Kind) (s : String) (h : ℕ) (f : Frame)
    → Held t
    → Of t k s h
    → Held (session_ends t k s h f)
unfolding session_ends
session_ends-Held t k s h f v o = drop_stream-Inv k s (close_session h t.live) v (λ g l. (
  (live_other h g t.live l).0,
  λ e. elim o [ inl e' ↦ (live_other h g t.live l).1 (cc (e, e')) | inr i ↦ cc (e, v.fresh _ i) ],
))

holds-lookup : (h : ℕ) (s : String) (m : Dict String ℕ) → lookup s m ≡ some h → holds h m ≡ true
unfolding holds
holds-lookup h s [] e = cc e
holds-lookup h s ((r, g) ∷ m) e = elim (ℕ_discrete g h) [
  | yes q ↦ ground (arith, q)
  | no n ↦ ground (arith, n, e, holds-lookup h s m)
]

-- The sessions that `close_all` leaves are in no table.
not_held :
    (t : Tunnel) (k : Kind) (s : String) (h : ℕ)
    → lookup s (t.tables k) ≡ some h
    → (if holds h (t.tables shell) || holds h (t.tables logs) then false else t.live h) ≡ false
not_held t shell s h e = ground (arith, holds-lookup h s (t.tables shell) e)
not_held t logs s h e = ground (arith, holds-lookup h s (t.tables logs) e)

still_live : (b c : Bool) → (if b then false else c) ≡ true → c ≡ true
still_live true c e = cc e
still_live false c e = e

pub close_all-Held : (t : Tunnel) → Held t → Held (close_all t)
unfolding close_all
close_all-Held t v = Held-if t.disposed t _ v (record {
  owned = λ h l. elim (v.owned h (still_live _ (t.live h) l)) [
    | registered k s e ↦ cc (l, not_held t k s h e)
    | opening o i e ↦ opening o i e
  ];
  fresh = λ o i. refl;
  alone = v.alone;
  emptied = λ d k. refl;
})
