-- ===== src/Runtime/Ports.antt =====
-- internal/runtime/portalloc.go: host ports from an inclusive range. A method that changes the
-- allocator returns the new one; an error is `none`.
use inferia_worker.Common.{
  ℕ, zero, suc, ◌+◌, ◌-◌, ◌≤◌, ◌<◌, ◌≡◌, refl, inl, inr, Bool, true, false, Option, none, some,
  arith, if◌then◌else◌, Dict, lookup, insert, delete, lookup-insert, lookup-delete, ite, ℕ_discrete,
  Option-cases, [], nat_key,
}

pub record PortAllocator : Type 0 where
  pub lo : ℕ
  pub hi : ℕ
  pub used : Dict ℕ Bool

unfoldable pub new_port_allocator : ℕ → ℕ → PortAllocator
new_port_allocator lo hi = record { lo = lo; hi = hi; used = [] }

-- `a.used[p]`: a key that is missing reads as false.
unfoldable pub is_used : Dict ℕ Bool → ℕ → Bool
is_used used p = elim (lookup p used) [ none ↦ false | some b ↦ b ]

-- The loop of `Next` from `p` on, with the number of rounds left.
scan : ℕ → ℕ → Dict ℕ Bool → Option ℕ
scan zero p used = none
scan (suc n) p used = let rest = scan n (p + 1) used in if is_used used p then rest else some p

unfoldable pub next : PortAllocator → PortAllocator × Option ℕ
unfolding scan
next a = elim (scan (a.hi + 1 - a.lo) a.lo a.used) [
  | none ↦ (a, none)
  | some p ↦ (record a { used = insert p true a.used }, some p)
]

unfoldable pub release : PortAllocator → ℕ → PortAllocator
release a p = record a { used = delete p a.used }

abbrev pub InRange : PortAllocator → ℕ → Type 0
InRange a p = (a.lo ≤ p) × (p ≤ a.hi)

scan-none :
    (n p q : ℕ) (used : Dict ℕ Bool)
    → scan n p used ≡ none
    → p ≤ q
    → q < p + n
    → is_used used q ≡ true
unfolding scan
scan-none zero p q used e l h = absurd (omega arith)
scan-none (suc n) p q used e l h = elim (ℕ_discrete p q) [
  | yes same ↦ ground arith
  | no other ↦ ground (arith, scan-none n (p + 1) q used)
]

scan-some :
    (n p r : ℕ) (used : Dict ℕ Bool)
    → scan n p used ≡ some r
    → (p ≤ r) × (r < p + n) × (is_used used r ≡ false)
unfolding scan
scan-some zero p r used e = cc
scan-some (suc n) p r used e = ground (arith, scan-some n (p + 1) r used)

scan_below :
    (n p q r : ℕ) (used : Dict ℕ Bool)
    → scan n p used ≡ some r
    → p ≤ q
    → q < r
    → is_used used q ≡ true
unfolding scan
scan_below zero p q r used e l h = cc
scan_below (suc n) p q r used e l h = elim (ℕ_discrete p q) [
  | yes same ↦ ground arith
  | no other ↦ ground (arith, scan_below n (p + 1) q r used)
]

is_used-insert :
    (p q : ℕ) (used : Dict ℕ Bool)
    → is_used (insert p true used) q ≡ ite (ℕ_discrete p q) true (is_used used q)
unfolding is_used
is_used-insert p q used = ground (arith, lookup-insert p q true used)

is_used-delete :
    (p q : ℕ) (used : Dict ℕ Bool)
    → is_used (delete p used) q ≡ ite (ℕ_discrete p q) false (is_used used q)
unfolding is_used
is_used-delete p q used = ground (arith, lookup-delete p q used)

-- What a call of `next` may have returned and done.
pub data Next (a : PortAllocator) : PortAllocator × Option ℕ → Type 0 where
  exhausted : ((q : ℕ) → InRange a q → is_used a.used q ≡ true) → Next a (a, none)
  given :
      (p : ℕ) (b : PortAllocator)
      → InRange a p
      → is_used a.used p ≡ false
      → ((q : ℕ) → a.lo ≤ q → q < p → is_used a.used q ≡ true)
      → (b.lo ≡ a.lo) × (b.hi ≡ a.hi)
      → ((q : ℕ) → is_used b.used q ≡ ite (ℕ_discrete p q) true (is_used a.used q))
      → Next a (b, some p)

-- `Next` either hands out the smallest free port of the range, marks it and changes nothing else, or
-- reports that the range is exhausted, and then every port of the range is in use.
pub next-Next : (a : PortAllocator) → Next a (next a)
unfolding next
next-Next a = elim (Option-cases (scan (a.hi + 1 - a.lo) a.lo a.used)) [
  | inl e ↦ rw (e, next) (exhausted (λ q r. scan-none _ _ q a.used e r.0 (omega arith)))
  | inr (p, e) ↦
      rw (e, next)
        (given p _ (omega (arith, scan-some _ _ p a.used e)) (scan-some _ _ p a.used e).2
          (λ q l h. scan_below _ _ q p a.used e l h) (refl, refl) (λ q. is_used-insert p q a.used))
]
