-- ===== src/Runtime/Progress/Invariant.antt =====
-- What holds of a progress log between two calls, and that no call panics.
use inferia_worker.Common.{
  ◌>>=◌, ℕ, ◌-◌, ◌≤◌, ◌≡◌, refl, Bool, true, false, List, [], ◌∷◌, ◌++◌, Option, none, some, inl,
  inr, String, arith, map, length, length-drop, All, All-append, ap, ◌∙◌, Dict, Bool-cases,
}
use inferia_worker.Runtime.Progress.{
  Chan, ProgressLog, progress_log_cap, new_progress_log, deliver, send, fan_out, trim, append,
  close, close_all, mark_container_started, mark_failed, subscribe, Call, appends, starts, fails,
  subscribes, step, run,
}

abbrev pub IsOpen : ℕ × Chan → Type 0
IsOpen e = e.1.closed ≡ false

abbrev pub IsClosed : ℕ × Chan → Type 0
IsClosed e = e.1.closed ≡ true

pub record Inv (p : ProgressLog) : Type 0 where
  pub bounded : length p.lines ≤ progress_log_cap
  pub followed : All IsOpen p.subs
  pub detached : All IsClosed p.ended
  pub quiet : p.done ≡ true → p.subs ≡ []
  pub pending : p.done ≡ false → (p.failed ≡ false) × (p.cid ≡ "")
  pub exclusive : p.failed ≡ true → p.cid ≡ ""

abbrev pub deliver_all : String → Dict ℕ Chan → Dict ℕ Chan
deliver_all line = map (λ e. (e.0, deliver line e.1))

abbrev pub shut_all : Dict ℕ Chan → Dict ℕ Chan
shut_all = map (λ e. (e.0, record e.1 { closed = true }))

-- While the channels are open the fan-out is a delivery to each.
pub fan_out_open :
    (line : String) (m : Dict ℕ Chan) → All IsOpen m → fan_out line m ≡ some (deliver_all line m)
unfolding fan_out send
fan_out_open line [] h = refl
fan_out_open line ((k, c) ∷ m) h = ground (arith, fan_out_open line m h.1)

pub close_all_open : (m : Dict ℕ Chan) → All IsOpen m → close_all m ≡ some (shut_all m)
unfolding close_all close
close_all_open [] h = refl
close_all_open ((k, c) ∷ m) h = ground (arith, close_all_open m h.1)

pub deliver_all-IsOpen :
    (line : String) (m : Dict ℕ Chan) → All IsOpen m → All IsOpen (deliver_all line m)
unfolding deliver
deliver_all-IsOpen line [] h = tt
deliver_all-IsOpen line ((k, c) ∷ m) h = (ground arith, deliver_all-IsOpen line m h.1)

shut_all-IsClosed : (m : Dict ℕ Chan) → All IsClosed (shut_all m)
shut_all-IsClosed [] = tt
shut_all-IsClosed ((k, c) ∷ m) = (refl, shut_all-IsClosed m)

length-trim : (l : List String) → length (trim l) ≤ progress_log_cap
unfolding trim
length-trim l = ground (arith, length-drop {0} (length l - 1000) l)

-- The call returned, with the invariant.
abbrev pub Safe : Option ProgressLog → Type 0
Safe none = ⊥
Safe (some q) = Inv q

pub new_progress_log-Inv : Inv new_progress_log
unfolding new_progress_log
new_progress_log-Inv = ground arith

pub append-Safe : (p : ProgressLog) (line : String) → Inv p → Safe (append p line)
unfolding append
append-Safe p line v = elim (Bool-cases p.done) [
  | inl e ↦ simp e v
  | inr e ↦
      rw (e, fan_out_open line p.subs v.followed)
        (record {
          bounded = length-trim (p.lines ++ line ∷ []);
          followed = deliver_all-IsOpen line p.subs v.followed;
          detached = v.detached;
          quiet = λ d. cc;
          pending = λ d. v.pending e;
          exclusive = v.exclusive;
        })
]

start-Safe : (p : ProgressLog) (cid : String) → Inv p → Safe (mark_container_started p cid)
unfolding mark_container_started
start-Safe p cid v = elim (Bool-cases p.done) [
  | inl e ↦ simp e v
  | inr e ↦
      rw (e, close_all_open p.subs v.followed)
        (record {
          bounded = v.bounded;
          followed = tt;
          detached =
              All-append IsClosed (shut_all p.subs) p.ended (shut_all-IsClosed p.subs) v.detached;
          quiet = λ d. refl;
          pending = λ d. cc;
          exclusive = λ f. ground (arith, v.pending e);
        })
]

fail-Safe : (p : ProgressLog) → Inv p → Safe (mark_failed p)
unfolding mark_failed
fail-Safe p v = elim (Bool-cases p.done) [
  | inl e ↦ simp e v
  | inr e ↦
      rw (e, close_all_open p.subs v.followed)
        (record {
          bounded = v.bounded;
          followed = tt;
          detached =
              All-append IsClosed (shut_all p.subs) p.ended (shut_all-IsClosed p.subs) v.detached;
          quiet = λ d. refl;
          pending = λ d. cc;
          exclusive = λ f. (v.pending e).1;
        })
]

pub subscribe-Inv : (p : ProgressLog) → Inv p → Inv (subscribe p).0
unfolding subscribe
subscribe-Inv p v = ground arith

step-Safe : (p : ProgressLog) (c : Call) → Inv p → Safe (step p c)
unfolding step
step-Safe p (appends line) v = append-Safe p line v
step-Safe p (starts cid) v = start-Safe p cid v
step-Safe p fails v = fail-Safe p v
step-Safe p subscribes v = subscribe-Inv p v

bind-Safe :
    (o : Option ProgressLog) (f : ProgressLog → Option ProgressLog)
    → Safe o
    → ((q : ProgressLog) → Inv q → Safe (f q))
    → Safe (o >>= f)
bind-Safe none f h k = absurd h
bind-Safe (some q) f h k = k q h

run-Safe : (p : ProgressLog) (cs : List Call) → Inv p → Safe (run p cs)
unfolding run
run-Safe p [] v = v
run-Safe p (c ∷ cs) v =
    bind-Safe (step p c) (λ q. run q cs) (step-Safe p c v) (λ q h. run-Safe q cs h)

-- From a new log any calls, in any order and number, return without a panic (no send on a closed
-- channel, no second close), and the log they leave holds at most 1000 lines, has no follower once
-- it is done, and never reports both a failure and a container.
pub run-new : (cs : List Call) → Safe (run new_progress_log cs)
run-new cs = run-Safe new_progress_log cs new_progress_log-Inv

-- The part of a log that its readers see.
abbrev pub view : ProgressLog → List String × String × Bool × Bool × Dict ℕ Chan
view p = (p.lines, p.cid, p.failed, p.done, p.subs)

step_done :
    (p : ProgressLog) (c : Call)
    → p.done ≡ true
    → (q : ProgressLog) × (step p c ≡ some q) × (view q ≡ view p)
unfolding step append mark_container_started mark_failed subscribe
step_done p (appends line) d = (p, ground arith, refl)
step_done p (starts cid) d = (p, ground arith, refl)
step_done p fails d = (p, ground arith, refl)
step_done p subscribes d = ((subscribe p).0, refl, ground arith)

-- A finished log is final: whatever is called afterwards returns, and its lines, its outcome and
-- its empty set of followers stay as they are.
run_done :
    (p : ProgressLog) (cs : List Call)
    → p.done ≡ true
    → (q : ProgressLog) × (run p cs ≡ some q) × (view q ≡ view p)
unfolding run
run_done p [] d = (p, refl, refl)
run_done p (c ∷ cs) d =
    let (q, e, s) = step_done p c d in
    let (r, f, t) = run_done q cs (ap (λ v. v.3) s ∙ d) in (r, rw e f, t ∙ s)
