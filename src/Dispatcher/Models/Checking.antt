-- ===== src/Dispatcher/Models/Checking.antt =====
-- The check of the GPU indices in internal/dispatcher/dispatcher.go.
use inferia_worker.Common.{
  ℕ, ◌<◌, ◌≡◌, refl, List, [], ◌∷◌, none, ◌==◌, arith, All, inl, inr, ◌⊎◌, Bool-cases, leb-cases,
  ◌↔◌,
}
use inferia_worker.Dispatcher.Models.{out_of_range, validate_gpu_indices}

out_of_range-All :
    (total : ℕ) (gs : List ℕ) → out_of_range total gs ≡ none → All (λ g. g < total) gs
unfolding out_of_range
out_of_range-All total [] e = tt
out_of_range-All total (g ∷ gs) e = elim (leb-cases total g) [
  | inl (t, _) ↦ ground (arith, e, t)
  | inr (t, lt) ↦ (lt, out_of_range-All total gs (ground (arith, e, t)))
]

All-out_of_range :
    (total : ℕ) (gs : List ℕ) → All (λ g. g < total) gs → out_of_range total gs ≡ none
unfolding out_of_range
All-out_of_range total [] a = refl
All-out_of_range total (g ∷ gs) (lt, a) = elim (leb-cases total g) [
  | inl (_, le) ↦ absurd (omega arith)
  | inr (t, _) ↦ rw (out_of_range, t) (All-out_of_range total gs a)
]

-- The indices pass the check just if the host reports no GPU, or each index names one of its GPUs.
validate_gpu_indices_iff :
    (gs : List ℕ) (total : ℕ)
    → (validate_gpu_indices gs total ≡ none) ↔ ((total ≡ 0) ⊎ All (λ g. g < total) gs)
unfolding validate_gpu_indices
validate_gpu_indices_iff gs total = elim (Bool-cases (total == 0)) [
  | inl t ↦ (λ _. inl (ground (arith, t)), λ _. rw (validate_gpu_indices, t) refl)
  | inr t ↦ (
    λ e. inr (out_of_range-All total gs (ground (arith, e, t))),
    λ s. elim s [
      | inl z ↦ ground (arith, z, t)
      | inr a ↦ rw (validate_gpu_indices, t) (All-out_of_range total gs a)
    ],
  )
]
