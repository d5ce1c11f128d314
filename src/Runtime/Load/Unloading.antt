-- ===== src/Runtime/Load/Unloading.antt =====
-- How UnloadModel of internal/runtime/runtime.go ends.
use inferia_worker.Common.{
  ◌≡◌, ◌≢◌, refl, String, false, Option, none, some, ite, string_dec, lookup, string_key,
  Option-cases, inl, inr,
}
use inferia_worker.Runtime.Host.{Host, HostLaws, request}
use inferia_worker.Runtime.State.{
  Runtime, Deployment, absent, stopping, status_of, container_for_deployment, set_state, state_key,
  drop_deployment, at_world,
}
use inferia_worker.Runtime.State.Updates.{lookup-set_state, status_of-drop}
use inferia_worker.Runtime.Load.{unload_model, unload_container}

module _ (h : Host) where
  open h use {W}

  pub data Unloaded (r : Runtime W) (id : String) : Runtime W × Option String → Type 0 where
    unknown : lookup id r.deployments ≡ none → Unloaded r id (r, none)
    gone :
        (d : Deployment) (r' : Runtime W)
        → lookup id r.deployments ≡ some d
        → status_of r' id ≡ absent
        → (d.container_id ≢ "" → h.present r'.world d.container_id ≡ false)
        → Unloaded r id (r', none)
    kept :
        (d : Deployment) (r' : Runtime W) (m : String)
        → lookup id r.deployments ≡ some d
        → status_of r' id ≡ stopping
        → container_for_deployment r' id ≡ d.container_id
        → Unloaded r id (r', some m)

module _ (h : Host) (laws : HostLaws h) where
  open h use {W}
  open laws use {removed}

  unload_container-Unloaded :
      (r : Runtime W) (id : String) (d : Deployment)
      → lookup id r.deployments ≡ some d
      → (r1 : Runtime W) → status_of r1 id ≡ stopping
      → container_for_deployment r1 id ≡ d.container_id
      → Unloaded h r id (unload_container h r1 id d.container_id)
  unfolding unload_container status_of container_for_deployment drop_deployment
  unload_container-Unloaded r id d k r1 s c =
      let w = (h.stop request d.container_id r1.world).0 in
      let w' = (h.remove request d.container_id w).0 in
      elim (Option-cases (h.stop request d.container_id r1.world).1) [
        | inr (m, e) ↦ rw (unload_container, e) (kept d (at_world r1 w) _ k s c)
        | inl e ↦ elim (Option-cases (h.remove request d.container_id w).1) [
          | inr (m, e') ↦ rw (unload_container, e, e') (kept d (at_world r1 w') _ k s c)
          | inl e' ↦
              rw (unload_container, e, e')
                (gone d _ k (status_of-drop (at_world r1 w') id)
                  (λ _. removed request d.container_id w e'))
        ]
      ]

  unload_known-Unloaded :
      (r : Runtime W) (id : String) (d : Deployment)
      → lookup id r.deployments ≡ some d
      → (r1 : Runtime W) → status_of r1 id ≡ stopping
      → container_for_deployment r1 id ≡ d.container_id
      → (q : Dec (d.container_id ≡ ""))
      → Unloaded h r id
          (ite q (drop_deployment r1 id, none) (unload_container h r1 id d.container_id))
  unload_known-Unloaded r id d k r1 s c (yes e) =
      gone d _ k (status_of-drop r1 id) (λ n. absurd (n e))
  unload_known-Unloaded r id d k r1 s c (no n) = unload_container-Unloaded r id d k r1 s c

  -- UnloadModel of an unknown deployment changes nothing. Otherwise it either reports no error, the
  -- deployment is absent, and its container, if it had one, is not on the host; or it reports an
  -- error, the deployment is stopping and keeps its container's id, so that it can be tried again. The host obeys
  -- HostLaws (a removal without an error removes).
  pub unload_model-Unloaded : (r : Runtime W) (id : String) → Unloaded h r id (unload_model h r id)
  unfolding unload_model status_of container_for_deployment
  unload_model-Unloaded r id = elim (Option-cases (lookup id r.deployments)) [
    | inl e ↦ rw (unload_model, e) (unknown e)
    | inr (d, e) ↦
        let r1 = set_state r (h.now r.world) id stopping in
        let e1 = lookup-set_state r (h.now r.world) id stopping d e in
        rw (unload_model, e)
          (unload_known-Unloaded r id d e r1 (rw (status_of, e1) refl)
            (rw (container_for_deployment, e1) refl) (string_dec d.container_id ""))
  ]
