-- ===== src/Dispatcher/Gpu.antt =====
-- The GPU allocator of internal/dispatcher/gpuallocator.go. Its amounts are floating-point numbers,
-- which are a parameter here: `Amounts` names the operations that the code uses, and `sort.Slice`
-- is the parameter `sort`. A GPU index is a natural number: the indices of a load have been
-- validated when they reach the allocator.
pub mod Floors
pub mod Assigned
use inferia_worker.Common.{
  ℕ, zero, suc, ◌+◌, ◌-◌, String, List, [], ◌∷◌, ◌++◌, map, Bool, true, false, Option, none, some,
  Result, ok, err, ite, string_dec, ltb, if◌then◌else◌, ◌==◌, Dict, lookup, insert, delete,
  string_key, nat_key, length,
}

-- The float64 operations of the allocator.
pub record Amounts : Type 1 where
  pub Amount : Type 0
  pub of_nat : ℕ → Amount
  pub add : Amount → Amount → Amount
  pub sub : Amount → Amount → Amount
  pub div : Amount → Amount → Amount
  pub max : Amount → Amount → Amount
  pub lt : Amount → Amount → Bool

unfoldable pub range_from : ℕ → ℕ → List ℕ
range_from start zero = []
range_from start (suc n) = start ∷ range_from (start + 1) n

unfoldable pub make_range : ℕ → ℕ → List ℕ
unfolding range_from
make_range start end = range_from start (end + 1 - start)

abbrev max_of : ℕ → ℕ → ℕ
max_of m g = if ltb m g then g else m

-- The largest index.
unfoldable pub max_index : ℕ → List ℕ → ℕ
max_index m [] = m
max_index m (g ∷ gs) = max_index (max_of m g) gs

unfoldable pub max_allocated : ℕ → Dict String (List ℕ) → ℕ
unfolding max_index
max_allocated m [] = m
max_allocated m ((_, gs) ∷ d) = max_allocated (max_index m gs) d

pub record GpuAllocator : Type 0 where
  pub allocated : Dict String (List ℕ)
  pub total_gpus : ℕ

unfoldable pub new_gpu_allocator : ℕ → GpuAllocator
new_gpu_allocator total = record { allocated = []; total_gpus = total }

unfoldable pub release : GpuAllocator → String → GpuAllocator
release a id = record a { allocated = delete id a.allocated }

module _ (f : Amounts) where
  open f use {Amount, of_nat, add, sub, div, max, lt}

  pub record Agent : Type 0 where
    pub name : String
    pub min_resource : Amount

  pub record StaticDeploymentPlan : Type 0 where
    pub allocations : Dict String Amount
    pub total_used : Amount

  unfoldable pub sum_min : Amount → List Agent → Amount
  sum_min s [] = s
  sum_min s (a ∷ agents) = sum_min (add s a.min_resource) agents

  -- The shares of the equal split, and their sum.
  unfoldable pub sum_max : Amount → Amount → List Agent → Amount
  sum_max share s [] = s
  sum_max share s (a ∷ agents) = sum_max share (add s (max share a.min_resource)) agents

  -- How many agents have a minimum below the equal share.
  unfoldable pub slack_receivers : Amount → List Agent → ℕ
  slack_receivers share [] = 0
  slack_receivers share (a ∷ agents) =
      let n = slack_receivers share agents in if lt a.min_resource share then n + 1 else n

  -- What an agent gets when the equal split does not fit.
  unfoldable pub locked_share : Amount → Amount → Agent → Amount
  locked_share share slack a =
      if lt a.min_resource share then add a.min_resource slack else a.min_resource

  -- The assignments of a loop over the agents, each with its share, and the sum of the shares.
  unfoldable pub assign :
      (Agent → Amount) → Dict String Amount → Amount → List Agent → StaticDeploymentPlan
  assign share m s [] = record { allocations = m; total_used = s }
  assign share m s (a ∷ agents) = assign share (insert a.name (share a) m) (add s (share a)) agents

  unfoldable pub slack_share : Amount → Amount → List Agent → Amount
  unfolding slack_receivers
  slack_share remaining share agents =
      let n = slack_receivers share agents in if ltb 0 n then div remaining (of_nat n) else of_nat 0

  -- The share of each agent, once admitted.
  unfoldable pub share_of : List Agent → Amount → Agent → Amount
  unfolding sum_min sum_max locked_share slack_share
  share_of agents capacity a =
      let minimum = sum_min (of_nat 0) agents in
      let share = div capacity (of_nat (length agents)) in
      if lt capacity (sum_max share (of_nat 0) agents)
      then locked_share share (slack_share (sub capacity minimum) share agents) a
      else max share a.min_resource

  unfoldable pub allocate_static : List Agent → Amount → Result StaticDeploymentPlan
  unfolding assign share_of sum_min
  allocate_static agents capacity =
      if length agents == 0
      then ok (record { allocations = []; total_used = of_nat 0 })
      else if lt capacity (sum_min (of_nat 0) agents)
      then err "Admission failed: absolute minimum VRAM required exceeds pool capacity"
      else ok (assign (share_of agents capacity) [] (of_nat 0) agents)

  -- The agents of the deployments that hold GPUs, but for `id`, which is asking.
  unfoldable pub other_agents : String → Dict String (List ℕ) → List Agent
  other_agents id [] = []
  other_agents id ((dep, gpus) ∷ d) =
      let rest = other_agents id d in
      ite (string_dec dep id) rest
        (record { name = dep; min_resource = of_nat (length gpus) } ∷ rest)

  abbrev load_of : Dict ℕ Amount → ℕ → Amount
  load_of loads g = elim (lookup g loads) [ none ↦ of_nat 0 | some x ↦ x ]

  unfoldable pub add_share : Amount → List ℕ → Dict ℕ Amount → Dict ℕ Amount
  add_share share [] loads = loads
  add_share share (g ∷ gpus) loads =
      add_share share gpus (insert g (add (load_of loads g) share) loads)

  unfoldable pub loads_of :
      String → Dict String Amount → Dict String (List ℕ) → Dict ℕ Amount → Dict ℕ Amount
  unfolding add_share
  loads_of id shares [] loads = loads
  loads_of id shares ((dep, gpus) ∷ d) loads =
      let share : Amount = elim (lookup dep shares) [ none ↦ of_nat 0 | some x ↦ x ] in
      loads_of id shares d
        (ite (string_dec dep id) loads (add_share (div share (of_nat (length gpus))) gpus loads))

  -- A sort by the test "less", as `sort.Slice`.
  module _ (sort : (ℕ → ℕ → Bool) → List ℕ → List ℕ) where
    -- The least loaded first; a load that is not admitted shares what it asks for.
    unfoldable pub hand_out :
        GpuAllocator → String → List ℕ → Result StaticDeploymentPlan → GpuAllocator × List ℕ
    unfolding loads_of
    hand_out a id desirable (err m) =
        (record a { allocated = insert id desirable a.allocated }, desirable)
    hand_out a id desirable (ok plan) =
        let loads = loads_of id plan.allocations a.allocated [] in
        let selected = sort (λ i j. lt (load_of loads i) (load_of loads j)) desirable in
        (record a { allocated = insert id selected a.allocated }, selected)

    unfoldable pub allocate_desirable : GpuAllocator → String → List ℕ → GpuAllocator × List ℕ
    unfolding allocate_static other_agents max_allocated max_index hand_out
    allocate_desirable a id desirable =
        let agents =
          other_agents id a.allocated
          ++ record { name = id; min_resource = of_nat (length desirable) } ∷ [] in
        let capacity = of_nat (max_allocated (max_index 0 desirable) a.allocated + 1) in
        hand_out a id desirable (allocate_static agents capacity)

    unfoldable pub allocate : GpuAllocator → String → List ℕ → GpuAllocator × List ℕ
    unfolding allocate_desirable make_range
    allocate a id [] =
        if ltb 0 a.total_gpus
        then allocate_desirable a id (make_range 0 (a.total_gpus - 1))
        else (a, [])
    allocate a id (g ∷ gs) = allocate_desirable a id (g ∷ gs)
