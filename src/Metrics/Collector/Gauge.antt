-- ===== src/Metrics/Collector/Gauge.antt =====
-- The gauge of active requests, per deployment.
use inferia_worker.Common.{
  ℕ, ◌-◌, ◌≡◌, refl, String, List, [], ◌∷◌, none, some, ite, string_dec, lookup, ◌∙◌, string_key,
  lookup-insert, lookup-delete, arith,
}
use inferia_worker.Metrics.Histogram.{int64_mod}
use inferia_worker.Metrics.Collector.{
  Collector, DeploymentBucket, add64, new_bucket, get_bucket, put_bucket, inc_active, dec_active,
  remove_deployment,
}

-- The calls that move the gauge: a request begins, a request ends, the deployment is unloaded.
pub data Event : Type 0 where
  begins ends removed : String → Event

unfoldable pub step : Collector → Event → Collector
unfolding inc_active dec_active remove_deployment
step c (begins id) = inc_active c id
step c (ends id) = dec_active c id
step c (removed id) = remove_deployment c id

unfoldable pub run : Collector → List Event → Collector
run c [] = c
run c (e ∷ es) = run (step c e) es

-- The gauge of an id; an id that is not known reads as 0.
unfoldable pub active : Collector → String → ℕ
active c id = elim (lookup id c.deployments) [ none ↦ 0 | some b ↦ b.active_requests ]

-- What one event does to the counter of `id` alone.
unfoldable pub tick : String → ℕ → Event → ℕ
tick id n (begins j) = ite (string_dec j id) (add64 n 1) n
tick id n (ends j) = ite (string_dec j id) (add64 n (int64_mod - 1)) n
tick id n (removed j) = ite (string_dec j id) 0 n

unfoldable pub counter : String → ℕ → List Event → ℕ
counter id n [] = n
counter id n (e ∷ es) = counter id (tick id n e) es

active-put_bucket :
    (c : Collector) (j id : String) (b : DeploymentBucket)
    → active (put_bucket c j b) id ≡ ite (string_dec j id) b.active_requests (active c id)
unfolding active
active-put_bucket c j id b = rw (active, lookup-insert j id b c.deployments) (ground arith)

active-get_bucket :
    (c : Collector) (j : String) → (get_bucket c j "" "").active_requests ≡ active c j
unfolding active get_bucket new_bucket
active-get_bucket c j = ground arith

active-remove :
    (c : Collector) (j id : String)
    → active (remove_deployment c j) id ≡ ite (string_dec j id) 0 (active c id)
unfolding active remove_deployment
active-remove c j id = rw (active, lookup-delete j id c.deployments) (ground arith)

-- Only the gauge of the id is moved.
add_at :
    (c : Collector) (j id : String) (d : ℕ)
    → ite (string_dec j id) (add64 (get_bucket c j "" "").active_requests d) (active c id)
      ≡ ite (string_dec j id) (add64 (active c id) d) (active c id)
add_at c j id d = ground (arith, active-get_bucket c j)

active-step :
    (c : Collector) (e : Event) (id : String) → active (step c e) id ≡ tick id (active c id) e
unfolding step tick inc_active dec_active
active-step c (begins j) id = active-put_bucket c j id _ ∙ add_at c j id 1
active-step c (ends j) id = active-put_bucket c j id _ ∙ add_at c j id (int64_mod - 1)
active-step c (removed j) id = active-remove c j id

-- Each deployment has a counter of its own: up by one when a request begins, down by one (modulo
-- 2 ^ 64) when one ends, back to 0 when it is removed, and untouched by the events of other ids.
pub active-run :
    (c : Collector) (es : List Event) (id : String)
    → active (run c es) id ≡ counter id (active c id) es
unfolding run counter
active-run c [] id = refl
active-run c (e ∷ es) id = rw (active-run (step c e) es id, active-step c e id)
