-- ===== src/Runtime/Load/Cleanup.antt =====
-- What LoadModel of internal/runtime/runtime.go leaves on the host: after a failure no container that
-- was not there, after a success the container of the deployment and no other.
use inferia_worker.Common.{
  ℕ, ◌≡◌, String, true, none, Result, ok, err, string_key, ◌⊎◌, inl, inr, subst, arith, zero, suc,
}
use inferia_worker.Runtime.Host.{Host, HostLaws, cleanup, Within}
use inferia_worker.Runtime.State.{
  Runtime, running, status_of, endpoint_url, state_key, container_for_deployment, failed,
  drop_deployment,
}
use inferia_worker.Runtime.State.Updates.{
  Keeps, set_state-Keeps, append_progress-Keeps, progress_failed-Keeps, trans-Keeps,
}
use inferia_worker.Runtime.Load.{fail, fail_logged, stop_and_remove, wait_loop}

module _ (h : Host) (laws : HostLaws h) where
  open h use {W}
  open laws use {
    pull_makes, remove_by_name_makes, start_makes, stop_makes, remove_makes, remove_image_makes,
    ollama_makes, probe_makes, pause_makes, create_failed, create_made, removed,
  }

  -- The removals of the cleanup work.
  abbrev pub Works : Type 0
  Works = (c : String) (w : W) → (h.remove cleanup c w).1 ≡ none

  -- Every container of `w'` but `cid` was in `w`.
  abbrev pub Beside : W → String → W → Type 0
  Beside w cid w' = (c : String) → h.present w' c ≡ true → (c ≡ cid) ⊎ (h.present w c ≡ true)

  -- How a load may end, from the host's state `w`.
  pub data Ended (w : W) (id : String) : Runtime W × Result String → Type 0 where
    failed_clean : (r : Runtime W) (m : String) → Within h w r.world → Ended w id (r, err m)
    serving :
        (r : Runtime W) (cid url : String)
        → status_of r id ≡ running
        → container_for_deployment r id ≡ cid
        → endpoint_url r id ≡ url
        → Beside w cid r.world
        → Ended w id (r, ok url)

  pub wait_loop-Within :
      (fuel : ℕ) (url : String) (deadline poll : ℕ) (w : W)
      → Within h w (wait_loop h fuel url deadline poll w).0
  unfolding wait_loop
  wait_loop-Within zero url deadline poll w c p = p
  wait_loop-Within (suc fuel) url deadline poll w c p =
      let w' = (h.probe url w).0 in
      let w'' = (h.pause poll w').0 in
      ground (
        arith,
        probe_makes url w c,
        pause_makes poll w' c,
        wait_loop-Within fuel url deadline poll w'' c,
      )

  pub Within-Beside :
      {w : W} {cid : String} {v v' : W} → Within h v v' → Beside w cid v → Beside w cid v'
  Within-Beside k b c p = b c (k c p)

  -- What the runtime does to its own state shows nothing new on the host.
  pub Keeps-Within :
      {w : W} {id : String} {r r' : Runtime W}
      → Keeps r r' id
      → Within h w r.world
      → Within h w r'.world
  Keeps-Within k b c p = b c (subst (λ x. h.present x c ≡ true) k.same_world p)

  pub Keeps-Beside :
      {w : W} {id cid : String} {r r' : Runtime W}
      → Keeps r r' id
      → Beside w cid r.world
      → Beside w cid r'.world
  Keeps-Beside k b c p = b c (subst (λ x. h.present x c ≡ true) k.same_world p)

  pub fail-Ended :
      {w : W} (r : Runtime W) (id message : String)
      → Within h w r.world
      → Ended w id (fail h r id message)
  unfolding fail drop_deployment
  fail-Ended r id m k = failed_clean _ m (Keeps-Within (set_state-Keeps r _ id failed) k)

  pub fail_logged-Ended :
      {w : W} (r : Runtime W) (id stage e : String)
      → Within h w r.world
      → Ended w id (fail_logged h r id stage e)
  unfolding fail_logged
  fail_logged-Ended r id stage e k =
      fail-Ended _ id _
        (Keeps-Within (trans-Keeps (append_progress-Keeps r id _) (progress_failed-Keeps _ id)) k)

  module _ (works : Works) where
    pub remove-Within :
        {w : W} {cid : String} (v : W) → Beside w cid v → Within h w (h.remove cleanup cid v).0
    remove-Within {cid} v b c p = elim (b c (remove_makes cleanup cid v c p)) [
      | inl e ↦ absurd (cc (e, removed cleanup cid v (works cid v), p))
      | inr q ↦ q
    ]

    pub stop_and_remove-Within :
        {w : W} {cid : String} (v : W) → Beside w cid v → Within h w (stop_and_remove h cid v)
    unfolding stop_and_remove
    stop_and_remove-Within {cid} v b =
        remove-Within (h.stop cleanup cid v).0 (Within-Beside (stop_makes cleanup cid v) b)
