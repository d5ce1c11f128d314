-- ===== src/Control/Tunnel/Leak.antt =====
-- No session outlives its tunnel.
use inferia_worker.Common.{
  ℕ, ◌≡◌, refl, ap, subst, String, [], true, false, Option, inl, inr, lookup, string_key,
  Bool-cases,
}
use inferia_worker.Control.Tunnel.{
  Kind, OpenBody, Frame, Opening, Tunnel, new_tunnel, handle_open, finish_open, handle_close,
  handle_shell_input, handle_shell_resize, session_ends, close_all,
}
use inferia_worker.Control.Tunnel.Owned.{In, Owner, registered, opening, Held}
use inferia_worker.Control.Tunnel.Steps.{
  Quiet, Of, handle_open-Held, finish_open-Held, handle_close-Held, session_ends-Held,
  close_all-Held,
}

-- The steps of a tunnel, in any order, as long as no stream is opened while an open of it is in
-- flight. A session ends by itself only while its stream's entry is its own or its open is in flight:
-- a session that the tunnel has closed reports nothing.
pub data Reaches (t : Tunnel) : Tunnel → Type 0 where
  here : Reaches t t
  opens :
      (u : Tunnel) (k : Kind) (body : OpenBody) (answer : Option String)
      → Reaches t u
      → Quiet u k body.stream_id
      → Reaches t (handle_open u k body answer)
  finishes :
      (u : Tunnel) (o : Opening) → Reaches t u → In o u.openings → Reaches t (finish_open u o)
  closes : (u : Tunnel) (k : Kind) (s : String) → Reaches t u → Reaches t (handle_close u k s)
  types : (u : Tunnel) (s text : String) → Reaches t u → Reaches t (handle_shell_input u s text)
  resizes :
      (u : Tunnel) (s : String) (cols rows : ℕ)
      → Reaches t u
      → Reaches t (handle_shell_resize u s cols rows)
  ends :
      (u : Tunnel) (k : Kind) (s : String) (h : ℕ) (f : Frame)
      → Reaches t u
      → Of u k s h
      → Reaches t (session_ends u k s h f)
  disposes : (u : Tunnel) → Reaches t u → Reaches t (close_all u)

told_input-Held : (t : Tunnel) (s text : String) → Held t → Held (handle_shell_input t s text)
unfolding handle_shell_input
told_input-Held t s text v = v

told_resize-Held : (t : Tunnel) (s : String) (c r : ℕ) → Held t → Held (handle_shell_resize t s c r)
unfolding handle_shell_resize
told_resize-Held t s c r v = v

Reaches-Held : {t u : Tunnel} → Held t → Reaches t u → Held u
Reaches-Held v here = v
Reaches-Held v (opens u k body answer r q) = handle_open-Held u k body answer (Reaches-Held v r) q
Reaches-Held v (finishes u o r i) = finish_open-Held u o (Reaches-Held v r) i
Reaches-Held v (closes u k s r) = handle_close-Held u k s (Reaches-Held v r)
Reaches-Held v (types u s text r) = told_input-Held u s text (Reaches-Held v r)
Reaches-Held v (resizes u s c w r) = told_resize-Held u s c w (Reaches-Held v r)
Reaches-Held v (ends u k s h f r o) = session_ends-Held u k s h f (Reaches-Held v r) o
Reaches-Held v (disposes u r) = close_all-Held u (Reaches-Held v r)

pub new_tunnel-Held : Held new_tunnel
unfolding new_tunnel In
new_tunnel-Held = record {
  owned = λ h l. cc l;
  fresh = λ o i. elim i [ ];
  alone = λ o p i. elim i [ ];
  emptied = λ d k. refl;
}

-- The handlers of a connection may interleave in any way, provided that no stream is opened while an
-- open of it is in flight, and that a closed session does not report its end. Then a live session is
-- in the table of its stream, or its open is in flight; and once the tunnel is disposed and no open is
-- in flight, no session is live: `CloseAll` closes those in the tables, and an open that a disposal
-- overtakes closes its own.
pub Reaches-closed :
    (t : Tunnel)
    → Reaches new_tunnel t
    → ((h : ℕ) → t.live h ≡ true → Owner t.tables t.openings h)
      × (t.disposed ≡ true → t.openings ≡ [] → (h : ℕ) → t.live h ≡ false)
unfolding In
Reaches-closed t r =
    let v = Reaches-Held new_tunnel-Held r in
    (
      v.owned,
      λ d n h. elim (Bool-cases (t.live h)) [
        | inr e ↦ e
        | inl e ↦ elim (v.owned h e) [
          | registered k s f ↦ cc (f, ap (λ m. lookup s m) (v.emptied d k))
          | opening o i f ↦ absurd (subst (λ l. In o l) n i)
        ]
      ],
    )
