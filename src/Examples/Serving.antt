-- ===== src/Examples/Serving.antt =====
-- Runs of internal/control, internal/metrics and internal/dispatcher.
use inferia_worker.Common.{
  ok, ℕ, ◌+◌, ◌-◌, ◌*◌, ◌/◌, ◌≤◌, ◌<◌, ◌≡◌, refl, String, List, [], ◌∷◌, true, false, none, some,
  arith, length, lookup, string_key, ltb, if◌then◌else◌,
}
use mathlib.Core.List.Perm
use inferia_worker.Control.Dedup.{Dedup, new_dedup, cached, run}
use inferia_worker.Control.Dedup.Window.{run_all, run_replays, run_expired}
use inferia_worker.Control.Commands as Commands
use inferia_worker.Control.Commands.Replies as Replies
use inferia_worker.Control.Backoff.{second, base_delay, backoff_for, backoff_for_bounds}
use inferia_worker.Metrics.Histogram.{PeakHistogram, new_peak_histogram, snapshot}
use inferia_worker.Metrics.Histogram.Invariant.{Inv}
use inferia_worker.Metrics.Histogram.Full.{observe_all, observe_all-new}
use inferia_worker.Metrics.Histogram.Quantile.{IsPercentile, snapshot_lem}
use inferia_worker.Metrics.Collector.{new_collector}
use inferia_worker.Metrics.Collector.Gauge as Gauge
use inferia_worker.Dispatcher.Gpu.{
  Amounts, Agent, StaticDeploymentPlan, new_gpu_allocator, allocate_static, share_of, assign,
}
use inferia_worker.Dispatcher.Gpu.Floors.{AmountsLaws, allocate_static-floor}
use inferia_worker.Dispatcher.Gpu.Assigned.{Assigned}
use inferia_worker.Dispatcher.Models.{Dispatcher, runtime_unloads, unload}
use inferia_worker.Dispatcher.Models.Unloading.{LetGo, Ending, unload-LetGo}
use inferia_worker.Docker.Fake.AsHost.{FakeHost}
use inferia_worker.Inference.Registry.{new_deployment_registry}
use inferia_worker.Examples.Steady.{steady_host, worker}

-- Commands on a counter.
abbrev loads : ℕ → String × ℕ
loads s = ("loaded", s + 1)

abbrev fresh : Dedup String
fresh = new_dedup 10

run_replays_example :
    let first = run fresh 100 "m1" loads 0 in
    let later = run_all first.dedup first.state [] in
    run later.0 109 "m1" loads later.1
    ≡ record { dedup = later.0; state = later.1; result = "loaded"; hit = true }
unfolding new_dedup cached
run_replays_example =
    run_replays fresh 0 100 109 "m1" loads loads [] (λ e. cc e) refl tt (omega arith)

run_expired_example :
    let o = run (run fresh 100 "m1" loads 0).dedup 110 "m1" loads 5 in
    (o.state ≡ 6) × (o.result ≡ "loaded") × (o.hit ≡ false)
unfolding new_dedup cached
run_expired_example = run_expired fresh 0 5 100 110 "m1" loads (λ e. cc e) refl (omega arith)

backoff_for_bounds_example :
    (8 * base_delay 3 < 10 * (backoff_for 3 1 4 + 1))
    × (10 * backoff_for 3 1 4 ≤ 12 * base_delay 3)
    × (second ≤ base_delay 3)
    × (base_delay 3 ≤ 30 * second)
backoff_for_bounds_example = backoff_for_bounds 3 1 4 (omega arith)

abbrev limits : List ℕ
limits = 10 ∷ 20 ∷ []

abbrev samples : List ℕ
samples = 5 ∷ 15 ∷ []

observe_all-new_example :
    ((length samples ≤ 2)
      → (q : PeakHistogram) × (observe_all (new_peak_histogram 2 limits) samples ≡ some q)
        × Inv q
        × (q.cur ≡ length samples))
    × (2 < length samples → observe_all (new_peak_histogram 2 limits) samples ≡ none)
observe_all-new_example = observe_all-new 2 limits samples (omega arith) (omega arith)

abbrev measured :
    (q : PeakHistogram) × (observe_all (new_peak_histogram 2 limits) samples ≡ some q)
    × Inv q
    × (q.cur ≡ length samples)
measured = (observe_all-new 2 limits samples (omega arith) (omega arith)).0 (omega arith)

snapshot_lem_example :
    (a b : ℕ) × (snapshot measured.0 ≡ some (a, b))
    × IsPercentile measured.0 95 a
    × IsPercentile measured.0 98 b
snapshot_lem_example = snapshot_lem measured.0 measured.2 (omega (arith, measured.3))

active-run_example :
    Gauge.active
      (Gauge.run new_collector (Gauge.begins "d1" ∷ Gauge.begins "d2" ∷ Gauge.ends "d1" ∷ []))
      "d2"
    ≡ Gauge.counter "d2"
        (Gauge.active new_collector "d2")
        (Gauge.begins "d1" ∷ Gauge.begins "d2" ∷ Gauge.ends "d1" ∷ [])
active-run_example =
    Gauge.active-run new_collector (Gauge.begins "d1" ∷ Gauge.begins "d2" ∷ Gauge.ends "d1" ∷ [])
      "d2"

-- Whole amounts.
abbrev whole : Amounts
whole = record {
  Amount = ℕ;
  of_nat = λ n. n;
  add = λ a b. a + b;
  sub = λ a b. a - b;
  div = λ a b. a / b;
  max = λ a b. if ltb a b then b else a;
  lt = ltb;
}

whole_laws : AmountsLaws whole
whole_laws = record {
  not_lt_self = λ x. ground arith;
  max_floor = λ x m. ground arith;
  add_floor = λ m s e. ground arith;
  sub_floor = λ c m e. ground arith;
  div_floor = λ x n p e. ground arith;
}

abbrev agent : String → ℕ → Agent whole
agent name m = record { name = name; min_resource = m }

abbrev shares : StaticDeploymentPlan whole
shares =
    assign whole (share_of whole (agent "d1" 1 ∷ agent "d2" 3 ∷ []) 4) [] 0
      (agent "d1" 1 ∷ agent "d2" 3 ∷ [])

allocate_static-floor_example :
    (x : ℕ) × (lookup "d2" shares.allocations ≡ some x) × (ltb x 3 ≡ false)
unfolding allocate_static
allocate_static-floor_example =
    allocate_static-floor whole whole_laws (agent "d1" 1 ∷ []) (agent "d2" 3) [] 4 shares refl tt

abbrev dispatcher : Dispatcher FakeHost
dispatcher = record {
  rt = worker;
  metrics = some new_collector;
  gpu_name = "A100";
  gpu_mem_mib = 81920;
  total_gpus = 4;
  registry = some new_deployment_registry;
  allocator = some (new_gpu_allocator 4);
}

unload-LetGo_example :
    let u = runtime_unloads steady_host in
    let group = u.unload_deployment_group "d1" dispatcher.rt in
    let single = u.unload_model "d1" group.0 in
    LetGo (unload u dispatcher "d1").0 "d1"
    × ((unload u dispatcher "d1").0.rt ≡ single.0)
    × Ending dispatcher "d1" group.1 single.1 (unload u dispatcher "d1")
unload-LetGo_example = unload-LetGo (runtime_unloads steady_host) dispatcher "d1"

-- A dispatcher that counts its loads.
abbrev counting : Commands.Dispatcher ℕ String
counting = record {
  load_model = λ body s. (ok "http://127.0.0.1:19000", s + 1);
  unload_model = λ id s. (none, s);
}

abbrev load_command : Commands.Command String
load_command = Commands.load (some "llama")

abbrev remembered : Dedup Commands.CommandResultBody
remembered = new_dedup 10

handle_command-retry_example :
    let first = Commands.handle_command counting remembered 0 100 "m1" load_command in
    let later = run_all first.dedup first.state [] in
    Replies.Executed counting "m1" 0 (Replies.loads "llama") first
    × (Commands.handle_command counting later.0 later.1 105 "m1" load_command
        ≡ record { dedup = later.0; state = later.1; reply = first.reply })
unfolding new_dedup cached
handle_command-retry_example =
    Replies.handle_command-retry counting remembered 0 100 105 "m1" load_command load_command []
      (Replies.loads "llama") (Replies.loads "llama") (λ e. cc e) refl tt (omega arith)
