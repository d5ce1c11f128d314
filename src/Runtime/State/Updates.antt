-- ===== src/Runtime/State/Updates.antt =====
-- What the accessors of runtime.go see after its mutators.
use inferia_worker.Common.{
  ℕ, ◌≡◌, refl, String, List, [], ◌∷◌, some, lookup, insert, string_key, lookup-insert,
  lookup-delete, arith, Option-cases, inl, inr, ◌∙◌,
}
use inferia_worker.Runtime.State.{
  state_key, Runtime, Deployment, new_deployment, State, absent, status_of, get_or_create,
  set_state, set_container_id, drop_deployment, append_progress, append_lines, progress_started,
  progress_failed, update,
}

module _ {W : Type 0} where
  -- The deployment is in the map.
  abbrev pub Known : Runtime W → String → Type 0
  Known r id = (d : Deployment) × (lookup id r.deployments ≡ some d)

  pub lookup-update :
      (r : Runtime W) (id : String) (f : Deployment → Deployment) (d : Deployment)
      → lookup id r.deployments ≡ some d
      → lookup id (update r id f).deployments ≡ some (f d)
  lookup-update r id f d e = rw (update, e, lookup-insert id id (f d) r.deployments) (ground arith)

  pub lookup-set_state :
      (r : Runtime W) (t : ℕ) (id : String) (s : State) (d : Deployment)
      → lookup id r.deployments ≡ some d
      → lookup id (set_state r t id s).deployments
        ≡ some (record d { state = s; entered_at = insert s t d.entered_at })
  unfolding set_state
  lookup-set_state r t id s d e = lookup-update r id _ d e

  pub update-world :
      (r : Runtime W) (id : String) (f : Deployment → Deployment) → (update r id f).world ≡ r.world
  update-world r id f = ground arith

  pub get_or_create-Known : (r : Runtime W) (id : String) → Known (get_or_create r id) id
  unfolding get_or_create
  get_or_create-Known r id = elim (Option-cases (lookup id r.deployments)) [
    | inl e ↦ (
      new_deployment,
      rw (get_or_create, e, lookup-insert id id new_deployment r.deployments) (ground arith),
    )
    | inr (d, e) ↦ (d, rw (get_or_create, e) e)
  ]

  pub get_or_create-world : (r : Runtime W) (id : String) → (get_or_create r id).world ≡ r.world
  unfolding get_or_create
  get_or_create-world r id = ground arith

  pub status_of-drop : (r : Runtime W) (id : String) → status_of (drop_deployment r id) id ≡ absent
  unfolding status_of drop_deployment
  status_of-drop r id = rw (status_of, lookup-delete id id r.deployments) (ground arith)

  -- An update keeps the deployment known and the world as it is.
  pub record Keeps (r r' : Runtime W) (id : String) : Type 0 where
    pub known : Known r id → Known r' id
    pub same_world : r'.world ≡ r.world

  pub update-Keeps :
      (r : Runtime W) (id : String) (f : Deployment → Deployment) → Keeps r (update r id f) id
  update-Keeps r id f = record {
    known = λ (d, e). (f d, lookup-update r id f d e);
    same_world = update-world r id f;
  }

  pub set_state-Keeps :
      (r : Runtime W) (t : ℕ) (id : String) (s : State) → Keeps r (set_state r t id s) id
  unfolding set_state
  set_state-Keeps r t id s = update-Keeps r id _

  pub set_container_id-Keeps :
      (r : Runtime W) (id cid : String) → Keeps r (set_container_id r id cid) id
  unfolding set_container_id
  set_container_id-Keeps r id cid = update-Keeps r id _

  pub append_progress-Keeps :
      (r : Runtime W) (id line : String) → Keeps r (append_progress r id line) id
  unfolding append_progress
  append_progress-Keeps r id line = update-Keeps r id _

  pub progress_started-Keeps :
      (r : Runtime W) (id cid : String) → Keeps r (progress_started r id cid) id
  unfolding progress_started
  progress_started-Keeps r id cid = update-Keeps r id _

  pub progress_failed-Keeps : (r : Runtime W) (id : String) → Keeps r (progress_failed r id) id
  unfolding progress_failed
  progress_failed-Keeps r id = update-Keeps r id _

  pub trans-Keeps :
      {r r' r'' : Runtime W} {id : String} → Keeps r r' id → Keeps r' r'' id → Keeps r r'' id
  trans-Keeps k1 k2 = record {
    known = λ k. k2.known (k1.known k);
    same_world = k2.same_world ∙ k1.same_world;
  }

  pub append_lines-Keeps :
      (r : Runtime W) (id : String) (lines : List String) → Keeps r (append_lines r id lines) id
  unfolding append_lines
  append_lines-Keeps r id [] = record { known = λ k. k; same_world = refl }
  append_lines-Keeps r id (line ∷ lines) =
      trans-Keeps (append_progress-Keeps r id line)
        (append_lines-Keeps (append_progress r id line) id lines)
