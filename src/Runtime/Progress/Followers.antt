-- ===== src/Runtime/Progress/Followers.antt =====
-- What a follower reads, and what the log keeps.
use inferia_worker.Common.{
  ◌>>=◌, ℕ, suc, ◌+◌, ◌-◌, ◌≤◌, ◌<◌, ◌≡◌, refl, ap, subst, sym, ◌∙◌, true, false, List, [], ◌∷◌,
  ◌++◌, Option, some, inl, inr, String, arith, length, drop, length-append, length-drop,
  drop-append_le, drop-drop, Dict, lookup, nat_key, Bool-cases, leb,
}
use mathlib.Core.List.{append_assoc, append-nil}
use inferia_worker.Runtime.Progress.{
  Chan, ProgressLog, progress_log_cap, chan_cap, new_progress_log, deliver, trim, append, subscribe,
}
use inferia_worker.Runtime.Progress.Invariant.{
  Inv, deliver_all, fan_out_open, Safe, append-Safe, new_progress_log-Inv, subscribe-Inv,
}

-- The loader appends a run of lines.
unfoldable pub append_all : ProgressLog → List String → Option ProgressLog
append_all p [] = some p
append_all p (line ∷ lines) = append p line >>= λ q. append_all q lines

-- The last `n` elements.
abbrev pub last {ℓ} : {A : Type ℓ} → ℕ → List A → List A
last n xs = drop (length xs - n) xs

trim-last : (l : List String) → trim l ≡ last progress_log_cap l
unfolding trim
trim-last l = elim (Bool-cases (leb (length l) 1000)) [
  | inl e ↦ ground (arith, ap (λ n. drop n l) (short e))
  | inr e ↦ ground arith
]
  where
    short : leb (length l) 1000 ≡ true → length l - 1000 ≡ 0
    short e = ground arith

-- To trim as one goes is to trim at the end.
last-last-append : (n : ℕ) (xs ys : List String) → last n (last n xs ++ ys) ≡ last n (xs ++ ys)
last-last-append n xs ys =
    let k : ℕ = length xs - n in
    let e : drop k xs ++ ys ≡ drop k (xs ++ ys) = sym (drop-append_le k xs ys (omega arith)) in
    rw e (
      drop-drop _ k (xs ++ ys)
      ∙ ap (λ j. drop j (xs ++ ys))
          (omega (arith, length-drop {0} k (xs ++ ys), length-append {0} xs ys)))

module _ (p : ProgressLog) (v : Inv p) (live : p.done ≡ false) where
  abbrev appended : String → ProgressLog
  appended line = record p {
    lines = last progress_log_cap (p.lines ++ line ∷ []);
    subs = deliver_all line p.subs;
  }

  append_live : (line : String) → append p line ≡ some (appended line)
  unfolding append
  append_live line =
      rw (live, fan_out_open line p.subs v.followed, trim-last (p.lines ++ line ∷ []))

  appended-Inv : (line : String) → Inv (appended line)
  appended-Inv line = subst Safe (append_live line) (append-Safe p line v)

lookup-deliver_all :
    (line : String) (k : ℕ) (m : Dict ℕ Chan) (c : Chan)
    → lookup k m ≡ some c
    → lookup k (deliver_all line m) ≡ some (deliver line c)
lookup-deliver_all line k [] c h = cc
lookup-deliver_all line k ((j, d) ∷ m) c h = ground (arith, lookup-deliver_all line k m c)

delivered :
    (line : String) (c : Chan)
    → length c.buffer < chan_cap
    → deliver line c ≡ record c { buffer = c.buffer ++ line ∷ [] }
unfolding deliver
delivered line c h = ground arith

-- What a live log looks like after a run of lines.
pub record Appended (p : ProgressLog) (lines : List String) (q : ProgressLog) : Type 0 where
  pub inv : Inv q
  pub live : q.done ≡ false
  pub kept : q.lines ≡ last progress_log_cap (p.lines ++ lines)
  pub heard :
      (k : ℕ) (c : Chan)
      → lookup k p.subs ≡ some c
      → length c.buffer + length lines ≤ chan_cap
      → lookup k q.subs ≡ some (record c { buffer = c.buffer ++ lines })

last_short : (n : ℕ) (xs : List String) → length xs ≤ n → last n xs ≡ xs
last_short n xs h = let e : length xs - n ≡ 0 = omega arith in rw e

pub append_all_live :
    (lines : List String) (p : ProgressLog)
    → Inv p
    → p.done ≡ false
    → (q : ProgressLog) × (append_all p lines ≡ some q) × Appended p lines q
unfolding append_all
append_all_live [] p v l = (
  p,
  refl,
  record {
    inv = v;
    live = l;
    kept = rw (append-nil p.lines) (sym (last_short _ p.lines v.bounded));
    heard = λ k c h room. rw (append-nil c.buffer) h;
  },
)
append_all_live (line ∷ lines) p v l =
    let p' = appended p v l line in
    let (q, e, a) = append_all_live lines p' (appended-Inv p v l line) l in
    (
      q,
      rw (append_live p v l line) e,
      record {
        inv = a.inv;
        live = a.live;
        kept =
            a.kept
            ∙ last-last-append _ (p.lines ++ line ∷ []) lines
            ∙ ap (last progress_log_cap) (append_assoc p.lines (line ∷ []) lines);
        heard = λ k c h room.
            a.heard k (record c { buffer = c.buffer ++ line ∷ [] })
              (lookup-deliver_all line k p.subs c h ∙ ap some (delivered line c (omega arith)))
              (omega (arith, length-append {0} c.buffer (line ∷ [])))
            ∙ ap (λ b. some (record c { buffer = b })) (append_assoc c.buffer (line ∷ []) lines);
      },
    )

-- A fresh log keeps exactly the last 1000 of the lines that were appended to it, in order, and no
-- append fails.
pub append_all-new :
    (lines : List String)
    → (q : ProgressLog) × (append_all new_progress_log lines ≡ some q)
      × (q.lines ≡ last progress_log_cap lines)
unfolding new_progress_log
append_all-new lines =
    let (q, e, a) = append_all_live lines new_progress_log new_progress_log-Inv refl in
    (q, e, a.kept)

abbrev pub fresh : Chan
fresh = record { buffer = []; closed = false }

abbrev pub joined : ProgressLog → ProgressLog
joined p = record p { subs = (p.next_chan, fresh) ∷ p.subs; next_chan = suc p.next_chan }

pub subscribe_live :
    (p : ProgressLog) → p.done ≡ false → subscribe p ≡ (joined p, p.lines, p.next_chan)
unfolding subscribe
subscribe_live p l = ground arith

pub lookup-joined : (p : ProgressLog) → lookup p.next_chan (joined p).subs ≡ some fresh
lookup-joined p = ground arith

pub joined-Inv : (p : ProgressLog) → Inv p → p.done ≡ false → Inv (joined p)
joined-Inv p v l = subst (λ r. Inv r.0) (subscribe_live p l) (subscribe-Inv p v)

-- A follower that joins a live load misses and repeats nothing: it is handed the lines kept so far,
-- and up to 64 further lines wait in its channel, in order, even if it reads none of them.
pub append_all-subscribe :
    (p : ProgressLog) (lines : List String)
    → Inv p
    → p.done ≡ false
    → length lines ≤ chan_cap
    → (q : ProgressLog) × (append_all (subscribe p).0 lines ≡ some q)
      × ((subscribe p).1 ≡ p.lines)
      × (lookup (subscribe p).2 q.subs ≡ some (record { buffer = lines; closed = false }))
append_all-subscribe p lines v l room =
    let (q, e, a) = append_all_live lines (joined p) (joined-Inv p v l) l in
    rw (subscribe_live p l) (q, e, refl, a.heard _ fresh (lookup-joined p) (omega arith))
