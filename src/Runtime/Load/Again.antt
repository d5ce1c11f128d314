-- ===== src/Runtime/Load/Again.antt =====
-- A second LoadModel of a deployment that is up, internal/runtime/runtime.go.
use inferia_worker.Common.{
  ◌≡◌, ◌≢◌, refl, ap, String, true, Result, ok, lookup, string_key, arith, Option-cases, inl, inr,
}
use inferia_worker.Recipes.Plan.{Plan}
use inferia_worker.Runtime.Host.{Host, HostLaws}
use inferia_worker.Runtime.State.{Runtime, running, status_of, endpoint_url, get_or_create}
use inferia_worker.Runtime.Load.{load_model, is_loaded}
use inferia_worker.Runtime.Load.Cleanup.{Works, Ended, failed_clean, serving}
use inferia_worker.Runtime.Load.Ending.{load_model-Ended}

module _ (h : Host) where
  kept_running : (r : Runtime h.W) (id : String) → status_of r id ≡ running → get_or_create r id ≡ r
  unfolding get_or_create status_of
  kept_running r id e = elim (Option-cases (lookup id r.deployments)) [
    | inl n ↦ ground (arith, e, n)
    | inr (d, n) ↦ rw (get_or_create, n) refl
  ]

  up-is_loaded :
      (r : Runtime h.W) (id u : String)
      → status_of r id ≡ running
      → endpoint_url r id ≡ u
      → u ≢ ""
      → is_loaded h r id ≡ true
  unfolding is_loaded
  up-is_loaded r id u s e n = ground (arith, s, e, n)

  load_up :
      (r : Runtime h.W) (id u : String) (plan : Plan)
      → status_of r id ≡ running
      → endpoint_url r id ≡ u
      → u ≢ ""
      → load_model h r id plan ≡ (r, ok u)
  unfolding load_model
  load_up r id u plan s e n =
      rw (load_model, kept_running r id s, up-is_loaded r id u s e n) (ap (λ x. (r, ok x)) e)

  up_after :
      (laws : HostLaws h) (w : h.W) (id u : String) (x : Runtime h.W × Result String)
      → Ended h laws w id x
      → x.1 ≡ ok u
      → (status_of x.0 id ≡ running) × (endpoint_url x.0 id ≡ u)
  up_after laws w id u x (failed_clean r m f) e = cc e
  up_after laws w id u x (serving r cid url s c p b) e = (s, cc (p, e))

-- Loading is idempotent: once a load has succeeded, another load of the deployment, with any plan,
-- returns the same endpoint and changes nothing, on the host or in the runtime. The endpoint is not
-- empty, the host obeys HostLaws, and the removals of the cleanup work.
pub load_model-again :
    (h : Host) (laws : HostLaws h) (works : Works h laws) (r : Runtime h.W) (id u : String)
    (plan plan' : Plan)
    → (load_model h r id plan).1 ≡ ok u
    → u ≢ ""
    → load_model h (load_model h r id plan).0 id plan' ≡ ((load_model h r id plan).0, ok u)
load_model-again h laws works r id u plan plan' e n =
    let (s, p) = up_after h laws r.world id u _ (load_model-Ended h laws works r id plan) e in
    load_up h (load_model h r id plan).0 id u plan' s p n
