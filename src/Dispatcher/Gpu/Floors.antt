-- ===== src/Dispatcher/Gpu/Floors.antt =====
-- The floors of AllocateStatic of internal/dispatcher/gpuallocator.go: no agent gets less than its
-- minimum.
use inferia_worker.Common.{
  ℕ, ◌<◌, ◌≡◌, ◌≢◌, refl, ap, String, List, [], ◌∷◌, ◌++◌, false, some, ok, Dict, lookup,
  string_key, lookup-insert, arith, length, All, Bool-cases, ltb-cases, inl, inr, ◌∙◌,
}
use inferia_worker.Dispatcher.Gpu.{
  Amounts, Agent, StaticDeploymentPlan, sum_min, sum_max, slack_receivers, locked_share, assign,
  slack_share, share_of, allocate_static,
}

-- What the floors rely on of float64: comparisons that hold after rounding.
pub record AmountsLaws (f : Amounts) : Type 0 where
  pub not_lt_self : (x : f.Amount) → f.lt x x ≡ false
  pub max_floor : (x m : f.Amount) → f.lt (f.max x m) m ≡ false
  pub add_floor : (m s : f.Amount) → f.lt s (f.of_nat 0) ≡ false → f.lt (f.add m s) m ≡ false
  pub sub_floor : (c m : f.Amount) → f.lt c m ≡ false → f.lt (f.sub c m) (f.of_nat 0) ≡ false
  pub div_floor :
      (x : f.Amount) (n : ℕ)
      → 0 < n
      → f.lt x (f.of_nat 0) ≡ false
      → f.lt (f.div x (f.of_nat n)) (f.of_nat 0) ≡ false

module _ (f : Amounts) (laws : AmountsLaws f) where
  open f use {Amount, of_nat, add, sub, div, max, lt}
  open laws use {not_lt_self, max_floor, add_floor, sub_floor, div_floor}

  slack_share-floor :
      (remaining share : Amount) (agents : List (Agent f))
      → lt remaining (of_nat 0) ≡ false
      → lt (slack_share f remaining share agents) (of_nat 0) ≡ false
  unfolding slack_share
  slack_share-floor remaining share agents p = elim (ltb-cases 0 (slack_receivers f share agents)) [
    | inl (t, b) ↦ rw (slack_share, t) (div_floor remaining _ b p)
    | inr (t, _) ↦ rw (slack_share, t) (not_lt_self (of_nat 0))
  ]

  locked_share-floor :
      (share slack : Amount) (a : Agent f)
      → lt slack (of_nat 0) ≡ false
      → lt (locked_share f share slack a) a.min_resource ≡ false
  unfolding locked_share
  locked_share-floor share slack a p = elim (Bool-cases (lt a.min_resource share)) [
    | inl t ↦ rw (locked_share, t) (add_floor a.min_resource slack p)
    | inr t ↦ rw (locked_share, t) (not_lt_self a.min_resource)
  ]

  share_of-floor :
      (agents : List (Agent f)) (capacity : Amount) (a : Agent f)
      → lt capacity (sum_min f (of_nat 0) agents) ≡ false
      → lt (share_of f agents capacity a) a.min_resource ≡ false
  unfolding share_of
  share_of-floor agents capacity a p =
      let share = div capacity (of_nat (length agents)) in
      elim (Bool-cases (lt capacity (sum_max f share (of_nat 0) agents))) [
        | inr t ↦ rw (share_of, t) (max_floor share a.min_resource)
        | inl t ↦
            rw (share_of, t)
              (locked_share-floor share _ a
                (slack_share-floor _ share agents (sub_floor capacity _ p)))
      ]

  -- No agent of the list has this name.
  abbrev Unnamed : String → List (Agent f) → Type 0
  Unnamed n = All (λ b. b.name ≢ n)

  assign-Unnamed :
      (share : Agent f → Amount) (n : String) (agents : List (Agent f)) (m : Dict String Amount)
      (s : Amount)
      → Unnamed n agents
      → lookup n (assign f share m s agents).allocations ≡ lookup n m
  unfolding assign
  assign-Unnamed share n [] m s u = refl
  assign-Unnamed share n (b ∷ agents) m s (k, u) =
      assign-Unnamed share n agents _ _ u ∙ lookup-insert b.name n (share b) m ∙ ground (arith, k)

  assign-last :
      (share : Agent f → Amount) (pre : List (Agent f)) (a : Agent f) (post : List (Agent f))
      (m : Dict String Amount) (s : Amount)
      → Unnamed a.name post
      → lookup a.name (assign f share m s (pre ++ a ∷ post)).allocations ≡ some (share a)
  unfolding assign
  assign-last share [] a post m s u =
      assign-Unnamed share a.name post _ _ u
      ∙ lookup-insert a.name a.name (share a) m
      ∙ ground arith
  assign-last share (b ∷ pre) a post m s u = assign-last share pre a post _ _ u

  -- What admission means for the plan.
  allocate_static-ok :
      (agents : List (Agent f)) (capacity : Amount) (plan : StaticDeploymentPlan f)
      → 0 < length agents
      → allocate_static f agents capacity ≡ ok plan
      → (lt capacity (sum_min f (of_nat 0) agents) ≡ false)
        × (plan ≡ assign f (share_of f agents capacity) [] (of_nat 0) agents)
  unfolding allocate_static
  allocate_static-ok agents capacity plan n e =
      elim (Bool-cases (lt capacity (sum_min f (of_nat 0) agents))) [
        | inl t ↦ ground (arith, e, t, n)
        | inr t ↦ (t, ground (arith, e, t, n))
      ]

  length-middle :
      (pre : List (Agent f)) (a : Agent f) (post : List (Agent f)) → 0 < length (pre ++ a ∷ post)
  length-middle [] a post = omega arith
  length-middle (b ∷ pre) a post = omega arith

  -- If AllocateStatic admits the agents, each agent whose name no later agent has is given at least
  -- its minimum. The comparisons are those of the amounts, of which AmountsLaws lists what is used.
  pub allocate_static-floor :
      (pre : List (Agent f)) (a : Agent f) (post : List (Agent f)) (capacity : Amount)
      (plan : StaticDeploymentPlan f)
      → allocate_static f (pre ++ a ∷ post) capacity ≡ ok plan
      → Unnamed a.name post
      → (x : Amount) × (lookup a.name plan.allocations ≡ some x) × (lt x a.min_resource ≡ false)
  allocate_static-floor pre a post capacity plan e u =
      let agents = pre ++ a ∷ post in
      let (t, p) = allocate_static-ok agents capacity plan (length-middle pre a post) e in
      (
        share_of f agents capacity a,
        ap (λ q. lookup a.name q.allocations) p
            ∙ assign-last (share_of f agents capacity) pre a post [] (of_nat 0) u,
        share_of-floor agents capacity a t,
      )
