-- ===== src/Metrics/Collector.antt =====
-- internal/metrics/collector.go, but for the scrape of vLLM's own metrics over HTTP. A counter is
-- the bit pattern of an int64. `none` is a panic of the histogram.
pub mod Gauge
use inferia_worker.Common.{
  ℕ, ◌+◌, ◌-◌, ◌/◌, ◌%◌, String, List, [], ◌∷◌, Option, none, some, ite, string_dec, Dict, lookup,
  insert, delete, string_key, ◌>>=◌,
}
use inferia_worker.Metrics.Histogram.{PeakHistogram, int64_mod, new_peak_histogram, observe}
use inferia_worker.Metrics.Histogram

pub record DeploymentBucket : Type 0 where
  pub requests_total : ℕ
  pub active_requests : ℕ
  pub latency_histogram : PeakHistogram
  pub recipe : String
  pub model : String

pub record Collector : Type 0 where
  pub deployments : Dict String DeploymentBucket

unfoldable pub new_collector : Collector
new_collector = record { deployments = [] }

abbrev pub latency_limits : List ℕ
latency_limits = 10 ∷ 25 ∷ 50 ∷ 100 ∷ 250 ∷ 500 ∷ 1000 ∷ 2500 ∷ 5000 ∷ 10000 ∷ 30000 ∷ 60000 ∷ []

abbrev pub max_samples : ℕ
max_samples = 1000

-- `if s != "" { field = s }`.
abbrev pub override : String → String → String
override s old = ite (string_dec s "") old s

unfoldable pub new_bucket : String → String → DeploymentBucket
new_bucket recipe model = record {
  requests_total = 0;
  active_requests = 0;
  latency_histogram = new_peak_histogram max_samples latency_limits;
  recipe = recipe;
  model = model;
}

-- The bucket of an id: the one there, relabelled, or a new one.
unfoldable pub get_bucket : Collector → String → String → String → DeploymentBucket
unfolding new_bucket
get_bucket c id recipe model = elim (lookup id c.deployments) [
  | some b ↦ record b { recipe = override recipe b.recipe; model = override model b.model }
  | none ↦ new_bucket recipe model
]

abbrev pub put_bucket : Collector → String → DeploymentBucket → Collector
put_bucket c id b = record c { deployments = insert id b c.deployments }

-- `atomic.Int64.Add`.
abbrev pub add64 : ℕ → ℕ → ℕ
add64 n d = (n + d) % int64_mod

unfoldable pub record_request : Collector → String → String → String → ℕ → Option Collector
unfolding get_bucket
record_request c id recipe model latency_ms = do
  let b = get_bucket c id recipe model
  h ← observe b.latency_histogram latency_ms
  some (
      put_bucket c id
        (record b { requests_total = add64 b.requests_total 1; latency_histogram = h }))

unfoldable pub inc_active : Collector → String → Collector
unfolding get_bucket
inc_active c id =
    let b = get_bucket c id "" "" in
    put_bucket c id (record b { active_requests = add64 b.active_requests 1 })

unfoldable pub dec_active : Collector → String → Collector
unfolding get_bucket
dec_active c id =
    let b = get_bucket c id "" "" in
    put_bucket c id (record b { active_requests = add64 b.active_requests (int64_mod - 1) })

unfoldable pub remove_deployment : Collector → String → Collector
remove_deployment c id = record c { deployments = delete id c.deployments }

pub record RuntimeInfo : Type 0 where
  pub recipe : String
  pub model : String
  pub phase : String
  pub pull_dur : ℕ  -- nanoseconds
  pub start_dur : ℕ

-- The metrics that a heartbeat carries for one deployment, without the scraped ones.
pub record DeploymentMetric : Type 0 where
  pub deployment_id : String
  pub recipe : String
  pub model : String
  pub requests_total : ℕ
  pub active_requests : ℕ
  pub latency_p50_ms : ℕ
  pub latency_p95_ms : ℕ
  pub pull_duration_ms : ℕ
  pub start_duration_ms : ℕ
  pub phase : String

unfoldable pub info_or_unknown : Option RuntimeInfo → DeploymentBucket → RuntimeInfo
info_or_unknown (some info) b = info
info_or_unknown none b = record {
  recipe = b.recipe;
  model = b.model;
  phase = "unknown";
  pull_dur = 0;
  start_dur = 0;
}

unfoldable pub metric : String → DeploymentBucket → RuntimeInfo → ℕ × ℕ → DeploymentMetric
metric id b info (p50, p95) = record {
  deployment_id = id;
  recipe = info.recipe;
  model = info.model;
  requests_total = b.requests_total;
  active_requests = b.active_requests;
  latency_p50_ms = p50;
  latency_p95_ms = p95;
  pull_duration_ms = info.pull_dur / 1000000;
  start_duration_ms = info.start_dur / 1000000;
  phase = info.phase;
}

-- The loop of `Snapshot` over the buckets.
unfoldable pub snapshot_buckets :
    Dict String RuntimeInfo → Dict String DeploymentBucket → Option (List DeploymentMetric)
unfolding info_or_unknown metric
snapshot_buckets infos [] = some []
snapshot_buckets infos ((id, b) ∷ m) = do
  quantiles ← Histogram.snapshot b.latency_histogram
  rest ← snapshot_buckets infos m
  some (metric id b (info_or_unknown (lookup id infos) b) quantiles ∷ rest)

unfoldable pub snapshot : Collector → Dict String RuntimeInfo → Option (List DeploymentMetric)
unfolding snapshot_buckets
snapshot c infos = snapshot_buckets infos c.deployments
