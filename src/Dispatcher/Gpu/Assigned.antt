-- ===== src/Dispatcher/Gpu/Assigned.antt =====
-- What Allocate of internal/dispatcher/gpuallocator.go hands out.
use inferia_worker.Common.{
  ℕ, zero, suc, ◌++◌, ◌≡◌, ◌≢◌, refl, String, List, [], ◌∷◌, some, lookup, insert, string_key,
  lookup-insert, arith,
}
use mathlib.Core.List.{Perm}
use mathlib.Core.List.Perm
use inferia_worker.Dispatcher.Gpu.{GpuAllocator}

-- The first `n` indices, in order.
unfoldable pub first_indices : ℕ → List ℕ
first_indices zero = []
first_indices (suc n) = first_indices n ++ n ∷ []

-- The GPUs that a load asks for: an empty list stands for all those of the host.
unfoldable pub wanted : GpuAllocator → List ℕ → List ℕ
unfolding first_indices
wanted a [] = first_indices a.total_gpus
wanted a (g ∷ gs) = g ∷ gs

module _ (id : String) where
  -- Only the entry of `id` is new, and it holds the GPUs handed out.
  pub record Recorded (a a' : GpuAllocator) (gpus : List ℕ) : Type 0 where
    pub holds : lookup id a'.allocated ≡ some gpus
    pub others : (j : String) → id ≢ j → lookup j a'.allocated ≡ lookup j a.allocated
    pub same_host : a'.total_gpus ≡ a.total_gpus

  pub data Assigned (a : GpuAllocator) (desirable : List ℕ) : GpuAllocator × List ℕ → Type 0 where
    no_gpus : wanted a desirable ≡ [] → Assigned a desirable (a, [])
    assigned :
        (a' : GpuAllocator) (gpus : List ℕ)
        → Perm gpus (wanted a desirable)
        → Recorded a a' gpus
        → Assigned a desirable (a', gpus)

  recorded :
      (a : GpuAllocator) (gpus : List ℕ)
      → Recorded a (record a { allocated = insert id gpus a.allocated }) gpus
  recorded a gpus = record {
    holds = rw (lookup-insert id id gpus a.allocated) (ground arith);
    others = λ j n. rw (lookup-insert id j gpus a.allocated) (ground (arith, n));
    same_host = refl;
  }
