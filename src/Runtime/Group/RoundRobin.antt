-- ===== src/Runtime/Group/RoundRobin.antt =====
-- The round robin of internal/runtime/deployment.go.
use inferia_worker.Common.{
  ℕ, zero, suc, ◌+◌, ◌%◌, ◌^◌, ◌<◌, ◌≡◌, ◌≢◌, refl, ap, subst, ◌&◌, itoa, get_elem?, some, String,
  List, [], ◌∷◌, length, arith, List-cases, inl, inr,
}
use inferia_worker.Runtime.State.{ContainerInfo, DeploymentGroup}
use inferia_worker.Runtime.Group.{turn, url_at, next_prefill}

-- The endpoints of so many calls in a row, and the group after them.
unfoldable pub prefill_run : ℕ → DeploymentGroup → DeploymentGroup × List String
unfolding next_prefill
prefill_run zero g = (g, [])
prefill_run (suc n) g =
    let (g1, u) = next_prefill g in let (g2, us) = prefill_run n g1 in (g2, u ∷ us)

-- Endpoints of the replicas from the `i`th on, round the list.
pub data Rotation (l : List ContainerInfo) : ℕ → List String → Type 0 where
  stops : (i : ℕ) → Rotation l i []
  serves :
      (i : ℕ) (c : ContainerInfo) (us : List String)
      → get_elem? l (i % length l) ≡ some c
      → Rotation l (i + 1) us
      → Rotation l i (("http://127.0.0.1:" & itoa c.host_port) ∷ us)

get_elem?-some :
    (l : List ContainerInfo) (i : ℕ) → i < length l → (c : ContainerInfo) × (get_elem? l i ≡ some c)
get_elem?-some [] i h = absurd (omega (arith, h))
get_elem?-some (c ∷ l) zero h = (c, refl)
get_elem?-some (c ∷ l) (suc i) h = get_elem?-some l i (omega (arith, h))

rem-below : (l : List ContainerInfo) (i : ℕ) → l ≢ [] → i % length l < length l
rem-below [] i n = absurd (n refl)
rem-below (c ∷ l) i n = omega arith

next_prefill-cons :
    (g : DeploymentGroup)
    → g.prefill ≢ []
    → next_prefill g ≡ (
      record g { prefill_next = turn g.prefill_next },
      url_at g.prefill (g.prefill_next % length g.prefill),
    )
unfolding next_prefill
next_prefill-cons g n = elim (List-cases g.prefill) [
  | inl e ↦ absurd (n e)
  | inr (x, xs, e) ↦ simp (next_prefill, e)
]

-- So many calls in a row give that many endpoints: those of the prefill replicas in order, from the
-- one whose turn it is on and round the list, as long as the uint32 counter does not wrap. The group
-- has a prefill replica.
pub prefill_run-Rotation :
    (n : ℕ) (g : DeploymentGroup)
    → g.prefill ≢ []
    → g.prefill_next + n < 2 ^ 32
    → Rotation g.prefill g.prefill_next (prefill_run n g).1 × (length (prefill_run n g).1 ≡ n)
unfolding prefill_run url_at turn
prefill_run-Rotation zero g e b = (stops g.prefill_next, refl)
prefill_run-Rotation (suc n) g e b =
    let g1 : DeploymentGroup = record g { prefill_next = turn g.prefill_next } in
    let t : turn g.prefill_next ≡ g.prefill_next + 1 = omega arith in
    let (rest, count) = prefill_run-Rotation n g1 e (omega (arith, t)) in
    let i = g.prefill_next % length g.prefill in
    let (c, found) = get_elem?-some g.prefill i (rem-below g.prefill g.prefill_next e) in
    let later = subst (λ k. Rotation g.prefill k (prefill_run n g1).1) t rest in
    rw (next_prefill-cons g e)
      (rw (found, url_at) (serves g.prefill_next c (prefill_run n g1).1 found later, ap suc count))
