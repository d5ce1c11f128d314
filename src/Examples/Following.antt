-- ===== src/Examples/Following.antt =====
-- Runs of internal/shellbridge.
use inferia_worker.Common.{
  String, List, [], ◌∷◌, ◌++◌, map, Bool, true, false, none, some, ok, Result, inl, inr, ◌∙◌, ite,
  ◌≡◌, ◌≢◌, ◌⊎◌, refl, lookup, nat_key, codes, arith, ◌>>=◌, string_dec, contains,
}
use inferia_worker.Runtime.Progress.{
  ProgressLog, new_progress_log, subscribe, mark_container_started, outcome,
}
use inferia_worker.Runtime.Progress.Invariant.{new_progress_log-Inv}
use inferia_worker.Runtime.Progress.Followers.{append_all}
use inferia_worker.Shellbridge.Lines.{Bytes, newline, Reader, failing, reads, forward_lines}
use inferia_worker.Shellbridge.Lines.Splitting.{forward_lines-unlines}
use inferia_worker.Shellbridge.Resolve.{Cli, resolve_container}
use inferia_worker.Shellbridge.Resolve.Chosen.{
  Knows, KnowsNone, ListedFor, resolve_container-Chosen,
}
use inferia_worker.Shellbridge.Session.{
  eof, exited, output, Action, reads, looks, reaps, closes, returned, started, run,
}
use inferia_worker.Shellbridge.Session.Callbacks.{all_set, Called}
use inferia_worker.Shellbridge.Session.Muted.{IsMuted}
use inferia_worker.Shellbridge.Session.Runs.{run-started}
use inferia_worker.Shellbridge.Host.{ShellConfig, Daemon, DaemonLaws, spawn}
use inferia_worker.Shellbridge.Host.Leak.{Leaves, spawn-Leaves}
use inferia_worker.Shellbridge.ProgressLogs.{Streamed, Subscription, stream}
use inferia_worker.Shellbridge.ProgressLogs.Handoff.{
  read_all, before, stream-mark_container_started,
}

-- Two lines and a rest, in three answers that are cut elsewhere.
abbrev two_lines : List Bytes
two_lines = codes "ab" ∷ codes "c" ∷ []

abbrev answers : Reader
answers =
    reads (codes "a") (reads (codes "b" ++ newline ∷ codes "c") (failing (newline ∷ codes "d")))

forward_lines-unlines_example :
    (codes "d" ≢ [] → forward_lines [] answers ≡ two_lines ++ codes "d" ∷ [])
    × (codes "d" ≡ [] → forward_lines [] answers ≡ two_lines)
forward_lines-unlines_example =
    forward_lines-unlines two_lines (codes "d") answers
      ((λ e. omega (arith, e), (λ e. omega (arith, e), tt)), ((λ e. omega (arith, e), tt), tt))
      (λ e. omega (arith, e), tt) refl

-- A worker that restarted: only Docker knows the container.
abbrev listing : Cli
listing name = some (record { id = "c9"; names = "/inferia-vllm-d1" ∷ [] } ∷ [])

resolves : resolve_container (some listing) none "" "d1" ≡ ok "c9"
unfolding resolve_container contains string_dec
resolves = refl

resolve_container-Chosen_example :
    (◌≢◌ {A = String} "c9" "")
    × (Knows none "d1" "c9" ⊎ (KnowsNone none "d1" × ListedFor (some listing) "d1" "c9"))
resolve_container-Chosen_example =
    resolve_container-Chosen (some listing) none "d1" "c9" (λ e. cc e) resolves

abbrev logs_of : String → Streamed
logs_of cid = record {
  emitted = ("stdout", "serving") ∷ [];
  reason = "container exited";
  error = none;
}

stream-mark_container_started_example :
    (q : ProgressLog) × ((append_all (subscribe new_progress_log).0 ("pulled" ∷ []) >>= λ r.
    mark_container_started r "c1")
      ≡ some q)
    × (lookup (subscribe new_progress_log).2 q.ended
        ≡ some (record { buffer = "pulled" ∷ []; closed = true }))
    × (let s : Subscription = record {
      replay = (subscribe new_progress_log).1;
      lines = read_all ("pulled" ∷ []);
      outcome = outcome q;
    } in
        stream "context canceled" logs_of (some s) none
        ≡ before (new_progress_log.lines ++ "pulled" ∷ []) (logs_of "c1"))
unfolding new_progress_log
stream-mark_container_started_example =
    stream-mark_container_started "context canceled" logs_of new_progress_log ("pulled" ∷ []) "c1"
      new_progress_log-Inv refl (omega arith) (λ e. cc e)

-- A shell that says something and exits, and is then closed.
abbrev says_and_exits : List Action
says_and_exits = reads "hi" none ∷ reads "" (some eof) ∷ looks ∷ reaps (exited 0) none ∷ []

run-started_example :
    let s = run all_set says_and_exits started in
    Called s.pump s.closed s.received s.calls
    × (s.closer ≡ returned → (run all_set (closes ∷ []) s).calls ≡ s.calls)
    × (IsMuted s
        → (chunks : List String) × ((run all_set (closes ∷ []) s).calls
            ≡ s.calls ++ map output chunks))
run-started_example = run-started says_and_exits (closes ∷ [])

-- A daemon that makes the container c1 and cannot start it.
abbrev no_start : Daemon
no_start = record {
  W = String → Bool;
  present = λ w c. w c;
  image_list = λ w. (w, ok (("ubuntu:22.04" ∷ []) ∷ []));
  image_pull = λ i w. (w, none);
  drain = λ w. (w, none);
  create = λ s w. ((λ b. ite (string_dec b "c1") true (w b)), ok "c1");
  attach = λ c w. (w, none);
  start = λ c w. (w, some "no nsenter");
  detach = λ w. w;
  remove = λ c w. ((λ b. ite (string_dec b c) false (w b)), none);
}

no_start-create :
    (w : String → Bool) (b : String) (d : Dec (b ≡ "c1"))
    → ite d true (w b) ≡ true
    → (b ≡ "c1") ⊎ (w b ≡ true)
no_start-create w b (yes e) p = inl e
no_start-create w b (no n) p = inr p

no_start-remove :
    (w : String → Bool) (b c : String) (d : Dec (b ≡ c)) → ite d false (w b) ≡ true → w b ≡ true
no_start-remove w b c (yes e) p = cc p
no_start-remove w b c (no n) p = p

no_start-removed : (w : String → Bool) (c : String) (d : Dec (c ≡ c)) → ite d false (w c) ≡ false
no_start-removed w c (yes e) = refl
no_start-removed w c (no n) = absurd (n refl)

no_start_laws : DaemonLaws no_start
no_start_laws = record {
  image_list_makes = λ w b p. p;
  image_pull_makes = λ i w b p. p;
  drain_makes = λ w b p. p;
  attach_makes = λ c w b p. p;
  start_makes = λ c w b p. p;
  detach_makes = λ w b p. p;
  remove_makes = λ c w b p. no_start-remove w b c (string_dec b c) p;
  create_failed = λ s w e h. cc h;
  create_made = λ s w c h b p. elim (no_start-create w b (string_dec b "c1") p) [
    | inl e ↦ inl (e ∙ c_is c h)
    | inr q ↦ inr q
  ];
  removed = λ c w e. no_start-removed w c (string_dec c c);
}
  where
    c_is : (c : String) → ◌≡◌ {A = Result String} (ok "c1") (ok c) → "c1" ≡ c
    c_is c h = cc h

abbrev as_ubuntu : ShellConfig
as_ubuntu = record {
  shell = "";
  user = "ubuntu";
  deployment = "";
  container = "";
  initial_cols = 80;
  initial_rows = 24;
}

spawn-Leaves_example :
    Leaves no_start no_start_laws
      (λ b. false)
      (spawn no_start "ubuntu:22.04" as_ubuntu (λ b. false))
spawn-Leaves_example = spawn-Leaves no_start no_start_laws "ubuntu:22.04" as_ubuntu (λ b. false)
