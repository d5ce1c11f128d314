-- ===== src/Shellbridge/Session/Callbacks.antt =====
-- The callbacks of a session, whatever the order of the steps.
use inferia_worker.Common.{
  ◌&◌, String, List, [], ◌∷◌, ◌++◌, map, Bool, true, false, ◌&&◌, Option, none, some, if◌then◌else◌,
  ite, string_dec, ◌≡◌, ◌≢◌, refl, sym, ap, subst, ◌∙◌,
}
use inferia_worker.Shellbridge.Session.{
  Fault, ExitCode, Callback, output, exit, error, Handlers, Pump, reading, done, failed, reaping,
  Closer, idle, waiting, returned, timed_out, ShellSession, started, read, ending, read_step,
  look_step, reap_step, close_step, seen_step, waited_step, is_hard, is_done, fault_text, reason,
  after_read,
}

-- All the callbacks are set, as the tunnel sets them.
abbrev pub all_set : Handlers
all_set = record { on_output = true; on_exit = true; on_error = true }

pub data IsEnd : Callback → Type 0 where
  exits : (code : ExitCode) (reason : String) → IsEnd (exit code reason)
  fails : (message : String) → IsEnd (error message)

-- The callbacks so far: each chunk once and in order; and behind them, only when the pump has
-- returned, one end of the session, or none if the session was closed.
pub data Called : Pump → Bool → List String → List Callback → Type 0 where
  going :
      (p : Pump) (closed : Bool) (chunks : List String)
      → p ≢ done
      → Called p closed chunks (map output chunks)
  ended :
      (closed : Bool) (chunks : List String) (e : Callback)
      → IsEnd e
      → Called done closed chunks (map output chunks ++ e ∷ [])
  dropped : (chunks : List String) → Called done true chunks (map output chunks)

-- When Close has returned because the pump is done, it is.
pub record Inv (s : ShellSession) : Type 0 where
  pub called : Called s.pump s.closed s.received s.calls
  pub seen : s.closer ≡ returned → s.pump ≡ done

pub started-Inv : Inv started
started-Inv = record { called = going reading false [] (λ e. cc e); seen = λ e. cc e }

shut :
    (p : Pump) (b : Bool) (r : List String) (c : List Callback) → Called p b r c → Called p true r c
shut p b r c (going _ _ _ n) = going p true r n
shut p b r c (ended _ _ e h) = ended true r e h
shut p b r c (dropped _) = dropped r

pub map-append : (xs ys : List String) → map output (xs ++ ys) ≡ map output xs ++ map output ys
map-append [] ys = refl
map-append (x ∷ xs) ys = ap (λ l. output x ∷ l) (map-append xs ys)

-- Before its end, a session has called back with the chunks and no more.
going_calls :
    (p : Pump) (b : Bool) (r : List String) (c : List Callback)
    → p ≢ done
    → Called p b r c
    → c ≡ map output r
going_calls p b r c n (going _ _ _ _) = refl
going_calls p b r c n (ended _ _ _ _) = absurd (n refl)
going_calls p b r c n (dropped _) = absurd (n refl)

ending-IsEnd :
    (f : Fault) (code : ExitCode) (werr : Option Fault)
    → (e : Callback) × (ending all_set f code werr ≡ e ∷ []) × IsEnd e
unfolding ending
ending-IsEnd f code werr = go (is_hard f werr && true)
  where
    go :
        (b : Bool)
        → (e : Callback) × ((if b
              then error ("shell read: " & fault_text f) ∷ []
              else exit code (reason f) ∷ [])
            ≡ e ∷ [])
          × IsEnd e
    go true = (error ("shell read: " & fault_text f), refl, fails ("shell read: " & fault_text f))
    go false = (exit code (reason f), refl, exits code (reason f))

pub close_step-Inv : (s : ShellSession) → Inv s → Inv (close_step s)
unfolding close_step
close_step-Inv s v = go s.closed
  where
    go : (b : Bool) → Inv (if b then s else record s { closed = true; closer = waiting })
    go true = v
    go false = record {
      called = shut s.pump s.closed s.received s.calls v.called;
      seen = λ e. cc e;
    }

pub seen_step-Inv : (c : Closer) (s : ShellSession) → Inv s → Inv (seen_step c s)
unfolding seen_step
seen_step-Inv idle s v = v
seen_step-Inv returned s v = v
seen_step-Inv timed_out s v = v
seen_step-Inv waiting s v = go s.pump refl
  where
    go : (p : Pump) → s.pump ≡ p → Inv (if is_done p then record s { closer = returned } else s)
    go done e = record { called = v.called; seen = λ z. e }
    go reading e = v
    go (failed f) e = v
    go (reaping f) e = v

pub waited_step-Inv : (c : Closer) (s : ShellSession) → Inv s → Inv (waited_step c s)
unfolding waited_step
waited_step-Inv idle s v = v
waited_step-Inv returned s v = v
waited_step-Inv timed_out s v = v
waited_step-Inv waiting s v = record { called = v.called; seen = λ e. cc e }

after_read-going : (o : Option Fault) → after_read o ≢ done
after_read-going none e = cc e
after_read-going (some f) e = cc e

-- While the pump is going, Close has not seen it done.
not_seen : (s : ShellSession) (p : Pump) → Inv s → s.pump ≡ p → p ≢ done → s.closer ≢ returned
not_seen s p v e n c = n (sym e ∙ v.seen c)

calls_so_far :
    (s : ShellSession) (p : Pump) → Inv s → s.pump ≡ p → p ≢ done → s.calls ≡ map output s.received
calls_so_far s p v e n =
    going_calls s.pump s.closed s.received s.calls (λ d. n (sym e ∙ d)) v.called

read-Inv :
    (chunk : String) (fault : Option Fault) (s : ShellSession)
    → Inv s
    → s.pump ≡ reading
    → Inv (read all_set chunk fault s)
unfolding read
read-Inv chunk fault s v e = go (string_dec chunk "")
  where
    n : reading ≢ done
    n z = cc z

    calls_are : s.calls ≡ map output s.received
    calls_are = calls_so_far s reading v e n

    more : s.calls ++ output chunk ∷ [] ≡ map output (s.received ++ chunk ∷ [])
    more = ap (λ c. c ++ output chunk ∷ []) calls_are ∙ sym (map-append s.received (chunk ∷ []))

    go :
        (d : Dec (chunk ≡ ""))
        → Inv (
            ite d
              (record s { pump = after_read fault })
              (record s {
                pump = after_read fault;
                received = s.received ++ chunk ∷ [];
                calls = s.calls ++ output chunk ∷ [];
              }))
    go (yes z) = record {
      called =
          subst (Called (after_read fault) s.closed s.received) (sym calls_are)
            (going (after_read fault) s.closed s.received (after_read-going fault));
      seen = λ c. absurd (not_seen s reading v e n c);
    }
    go (no z) = record {
      called =
          subst (Called (after_read fault) s.closed (s.received ++ chunk ∷ [])) (sym more)
            (going (after_read fault) s.closed (s.received ++ chunk ∷ []) (after_read-going fault));
      seen = λ c. absurd (not_seen s reading v e n c);
    }

pub read_step-Inv :
    (chunk : String) (fault : Option Fault) (p : Pump) (s : ShellSession)
    → s.pump ≡ p
    → Inv s
    → Inv (read_step all_set chunk fault p s)
unfolding read_step
read_step-Inv chunk fault reading s e v = read-Inv chunk fault s v e
read_step-Inv chunk fault done s e v = v
read_step-Inv chunk fault (failed f) s e v = v
read_step-Inv chunk fault (reaping f) s e v = v

pub look_step-Inv : (p : Pump) (s : ShellSession) → s.pump ≡ p → Inv s → Inv (look_step p s)
unfolding look_step
look_step-Inv reading s e v = v
look_step-Inv done s e v = v
look_step-Inv (reaping f) s e v = v
look_step-Inv (failed f) s e v = go s.closed refl
  where
    n : failed f ≢ done
    n z = cc z

    m : reaping f ≢ done
    m z = cc z

    calls_are : s.calls ≡ map output s.received
    calls_are = calls_so_far s (failed f) v e n

    go : (b : Bool) → s.closed ≡ b → Inv (record s { pump = if b then done else reaping f })
    go true c = record {
      called =
          subst (λ b. Called done b s.received s.calls) (sym c)
            (subst (Called done true s.received) (sym calls_are) (dropped s.received));
      seen = λ z. refl;
    }
    go false c = record {
      called =
          subst (Called (reaping f) s.closed s.received) (sym calls_are)
            (going (reaping f) s.closed s.received m);
      seen = λ z. absurd (not_seen s (failed f) v e n z);
    }

pub reap_step-Inv :
    (code : ExitCode) (werr : Option Fault) (p : Pump) (s : ShellSession)
    → s.pump ≡ p
    → Inv s
    → Inv (reap_step all_set code werr p s)
unfolding reap_step
reap_step-Inv code werr reading s e v = v
reap_step-Inv code werr done s e v = v
reap_step-Inv code werr (failed f) s e v = v
reap_step-Inv code werr (reaping f) s e v =
    let (end, same, is_end) = ending-IsEnd f code werr in
    let calls_are = calls_so_far s (reaping f) v e (λ z. cc z) in
    let all : s.calls ++ ending all_set f code werr ≡ map output s.received ++ end ∷ [] =
      cc (same, calls_are) in
    record {
      called =
          subst (Called done s.closed s.received) (sym all) (ended s.closed s.received end is_end);
      seen = λ z. refl;
    }
