-- ===== src/Runtime/Load/Waiting.antt =====
-- The wait for readiness, waitReady of internal/runtime/runtime.go, ends: the fuel is enough.
use inferia_worker.Common.{
  ℕ, zero, suc, ◌+◌, ◌≤◌, ◌<◌, ◌≡◌, String, Bool, true, false, Option, some, arith, refl, ltb-cases,
  Bool-cases, inl, inr,
}
use inferia_worker.Runtime.Host.{Host, HostLaws}
use inferia_worker.Runtime.State.{Runtime}
use inferia_worker.Runtime.Load.{wait_loop, wait_ready}

module _ (h : Host) (laws : HostLaws h) (url : String) (deadline poll : ℕ) where
  open h use {W}
  open laws use {probe_time, pause_time}

  -- The rounds of the loop, with no fuel: from a state of the host to the one at the end, with the
  -- answer.
  pub data Waits : W → W × Bool → Type 0 where
    timed_out : (w : W) → deadline ≤ h.now w → Waits w (w, false)
    came_up :
        (w : W) → h.now w < deadline → (h.probe url w).1 ≡ true → Waits w ((h.probe url w).0, true)
    cancelled :
        (w : W)
        → h.now w < deadline
        → (h.probe url w).1 ≡ false
        → (h.pause poll (h.probe url w).0).1 ≡ false
        → Waits w ((h.pause poll (h.probe url w).0).0, false)
    polled :
        (w : W) (end : W × Bool)
        → h.now w < deadline
        → (h.probe url w).1 ≡ false
        → (h.pause poll (h.probe url w).0).1 ≡ true
        → Waits (h.pause poll (h.probe url w).0).0 end
        → Waits w end

  -- The loop answers, as the rounds do.
  abbrev Answers : W → W × Option Bool → Type 0
  Answers w x = (b : Bool) × (x.1 ≡ some b) × Waits w (x.0, b)

  wait_loop-Answers :
      (fuel : ℕ) (w : W)
      → 1 ≤ poll
      → deadline < h.now w + suc fuel
      → Answers w (wait_loop h (suc fuel) url deadline poll w)
  unfolding wait_loop
  wait_loop-Answers zero w p e = elim (ltb-cases (h.now w) deadline) [
    | inr (t, le) ↦ (false, rw (wait_loop, t) refl, rw (wait_loop, t) (timed_out w le))
    | inl (t, lt) ↦ absurd (omega arith)
  ]
  wait_loop-Answers (suc fuel) w p e = elim (ltb-cases (h.now w) deadline) [
    | inr (t, le) ↦ (false, rw (wait_loop, t) refl, rw (wait_loop, t) (timed_out w le))
    | inl (t, lt) ↦ elim (Bool-cases (h.probe url w).1) [
      | inl u ↦ (true, rw (wait_loop, t, u) refl, rw (wait_loop, t, u) (came_up w lt u))
      | inr u ↦ elim (Bool-cases (h.pause poll (h.probe url w).0).1) [
        | inr v ↦
            (false, rw (wait_loop, t, u, v) refl, rw (wait_loop, t, u, v) (cancelled w lt u v))
        | inl v ↦
            let w'' = (h.pause poll (h.probe url w).0).0 in
            let (b, r, x) =
              wait_loop-Answers fuel w'' p
                (omega (arith, probe_time url w, pause_time poll (h.probe url w).0 v)) in
            (b, rw (wait_loop, t, u, v) r, rw (wait_loop, t, u, v) (polled w _ lt u v x))
      ]
    ]
  ]

module _ (h : Host) (laws : HostLaws h) where
  -- The wait for readiness ends, and its answer is that of the unbounded loop: true as soon as a
  -- probe succeeds before the deadline, false at the deadline or when the request is cancelled. The
  -- interval between the probes is not zero, and the host obeys HostLaws (time does not go back).
  pub wait_ready-Waits :
      (r : Runtime h.W) (url : String) (timeout : ℕ)
      → 1 ≤ r.cfg.readiness_poll_interval
      → Waits h laws url
          (h.now r.world + timeout)
          r.cfg.readiness_poll_interval
          r.world
          (wait_ready h r url timeout)
  unfolding wait_ready
  wait_ready-Waits r url timeout p =
      let (b, e, x) =
        wait_loop-Answers h laws url (h.now r.world + timeout) r.cfg.readiness_poll_interval timeout
          r.world p (omega arith) in
      rw (wait_ready, e) x
