-- ===== src/Dispatcher/Models/Unloading.antt =====
-- What UnloadModel of internal/dispatcher/dispatcher.go lets go of.
use inferia_worker.Common.{
  List, ℕ, delete-none, delete-stays_none, ◌≡◌, refl, String, Option, none, some, lookup,
  string_key, ◌&◌, ◌⊎◌, inl, inr,
}
use inferia_worker.Runtime.Host.{Host}
use inferia_worker.Metrics.Collector.{Collector, DeploymentBucket, remove_deployment}
use inferia_worker.Inference.Registry.{
  DeploymentRegistry, DeploymentEntry, deregister, lookup_by_id,
}
use inferia_worker.Dispatcher.Gpu.{GpuAllocator, release}
use inferia_worker.Runtime.State.{Runtime}
use inferia_worker.Dispatcher.Models.{
  release_all, Dispatcher, Unloads, runtime_unloads, let_go, settled, unload,
}

-- The parts of the dispatcher that hold something for a deployment, where it has them.
module _ {W : Type 0} (d : Dispatcher W) where
  unfoldable pub held_gpus : String → Option (List ℕ)
  held_gpus id = elim d.allocator [ none ↦ none | some a ↦ lookup id a.allocated ]

  unfoldable pub registered : String → Option DeploymentEntry
  unfolding lookup_by_id
  registered id = elim d.registry [ none ↦ none | some r ↦ lookup_by_id r id ]

  unfoldable pub measured : String → Option DeploymentBucket
  measured id = elim d.metrics [ none ↦ none | some c ↦ lookup id c.deployments ]

  -- No entry and no GPUs are held for the deployment.
  pub record LetGo (id : String) : Type 0 where
    pub no_entry : registered id ≡ none
    pub no_gpus : held_gpus id ≡ none
    pub no_prefill_gpus : held_gpus (id & "/prefill") ≡ none
    pub no_decode_gpus : held_gpus (id & "/decode") ≡ none

module _ {W : Type 0} (d : Dispatcher W) (id : String) where
  -- What `let_go` leaves of each part.
  unregistered :
      (o : Option DeploymentRegistry)
      → registered
          (record d { registry = elim o [ none ↦ none | some r ↦ some (deregister r id) ] })
          id
        ≡ none
  unfolding registered lookup_by_id deregister
  unregistered none = refl
  unregistered (some r) = delete-none id r.by_id

  unmeasured :
      (o : Option Collector)
      → measured
          (record d { metrics = elim o [ none ↦ none | some c ↦ some (remove_deployment c id) ] })
          id
        ≡ none
  unfolding measured remove_deployment
  unmeasured none = refl
  unmeasured (some c) = delete-none id c.deployments

  unheld :
      (j : String)
      → ((a : GpuAllocator) → lookup j (release_all a id).allocated ≡ none)
      → (o : Option GpuAllocator)
      → held_gpus
          (record d { allocator = elim o [ none ↦ none | some a ↦ some (release_all a id) ] })
          j
        ≡ none
  unfolding held_gpus
  unheld j f none = refl
  unheld j f (some a) = f a

  released : (a : GpuAllocator) → lookup id (release_all a id).allocated ≡ none
  unfolding release
  released a =
      delete-stays_none (id & "/decode") id _
        (delete-stays_none (id & "/prefill") id _ (delete-none id a.allocated))

  released_prefill :
      (a : GpuAllocator) → lookup (id & "/prefill") (release_all a id).allocated ≡ none
  unfolding release
  released_prefill a =
      delete-stays_none (id & "/decode") (id & "/prefill") _ (delete-none (id & "/prefill") _)

  released_decode : (a : GpuAllocator) → lookup (id & "/decode") (release_all a id).allocated ≡ none
  unfolding release
  released_decode a = delete-none (id & "/decode") _

module _ {W : Type 0} (d : Dispatcher W) (id : String) where
  -- How an unload ends, by the errors of the group and of the single container.
  pub data Ending (group_error single_error : Option String)
      : Dispatcher W × Option String → Type 0 where
    failed :
        (d' : Dispatcher W) (m n : String)
        → group_error ≡ some m
        → single_error ≡ some n
        → d'.metrics ≡ d.metrics
        → Ending group_error single_error (d', some n)
    gone :
        (d' : Dispatcher W)
        → (group_error ≡ none) ⊎ (single_error ≡ none)
        → measured d' id ≡ none
        → Ending group_error single_error (d', none)

  settled-Ending :
      (e : Dispatcher W) (g s : Option String)
      → e.metrics ≡ d.metrics
      → Ending g s (settled e id g s)
  unfolding settled remove_deployment
  settled-Ending e (some m) (some n) same = failed e m n refl refl same
  settled-Ending e (some m) none same = gone _ (inr refl) (unmeasured e id e.metrics)
  settled-Ending e none (some n) same = gone _ (inl refl) (unmeasured e id e.metrics)
  settled-Ending e none none same = gone _ (inl refl) (unmeasured e id e.metrics)

  let_go-LetGo :
      (rt : Runtime W) (ms : Option Collector)
      → LetGo (record (let_go d id) { rt = rt; metrics = ms }) id
  unfolding let_go deregister release held_gpus registered lookup_by_id
  let_go-LetGo rt ms = record {
    no_entry = unregistered d id d.registry;
    no_gpus = unheld d id id (released d id) d.allocator;
    no_prefill_gpus = unheld d id (id & "/prefill") (released_prefill d id) d.allocator;
    no_decode_gpus = unheld d id (id & "/decode") (released_decode d id) d.allocator;
  }

  settled-LetGo :
      (rt : Runtime W) (g s : Option String)
      → let e = settled (record (let_go d id) { rt = rt }) id g s in LetGo e.0 id × (e.0.rt ≡ rt)
  unfolding settled let_go
  settled-LetGo rt (some m) (some n) = (let_go-LetGo rt _, refl)
  settled-LetGo rt (some m) none = (let_go-LetGo rt _, refl)
  settled-LetGo rt none (some n) = (let_go-LetGo rt _, refl)
  settled-LetGo rt none none = (let_go-LetGo rt _, refl)

-- Whatever the runtime's two unloads do, both are called, the group's first, and the deployment's
-- entry and its GPUs, those of its two roles included, are let go of. If both report an error, that
-- of the single container is reported and the metrics stay; otherwise no error is reported, and the
-- deployment has no metrics.
pub unload-LetGo :
    {W : Type 0} (u : Unloads (Runtime W)) (d : Dispatcher W) (id : String)
    → let group = u.unload_deployment_group id d.rt in
      let single = u.unload_model id group.0 in
      LetGo (unload u d id).0 id
      × ((unload u d id).0.rt ≡ single.0)
      × Ending d id group.1 single.1 (unload u d id)
unfolding unload let_go
unload-LetGo u d id =
    let group = u.unload_deployment_group id d.rt in
    let single = u.unload_model id group.0 in
    let (gone_all, same) = settled-LetGo d id single.0 group.1 single.1 in
    (
      gone_all,
      same,
      settled-Ending d id (record (let_go d id) { rt = single.0 }) group.1 single.1 refl,
    )

-- With internal/runtime an error of the single container is not reported: a container that could not
-- be stopped or removed is let go of as well.
pub unload-runtime :
    (h : Host) (d : Dispatcher h.W) (id : String) → (unload (runtime_unloads h) d id).1 ≡ none
unfolding unload runtime_unloads settled
unload-runtime h d id = refl
