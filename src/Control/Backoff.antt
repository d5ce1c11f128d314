-- ===== src/Control/Backoff.antt =====
-- The reconnect delay of internal/control/channel.go.
use inferia_worker.Common.{
  ℕ, zero, suc, ◌+◌, ◌-◌, ◌*◌, ◌/◌, ◌^◌, ◌≤◌, ◌<◌, ◌≡◌, refl, ltb, if◌then◌else◌, arith, ap, sym,
  ◌∙◌, min, false,
}
use native.Mathlib.Nat.{le_of_mul-le-mul_right, lt_of_mul-lt-mul_right, mul-div-le, lt-mul-div-succ}

abbrev pub second : ℕ
second = 1000000000

unfoldable pub min_int : ℕ → ℕ → ℕ
min_int a b = if ltb a b then a else b

-- The delay before jitter, in nanoseconds.
unfoldable pub base_delay : ℕ → ℕ
unfolding min_int
base_delay attempt =
    let n = if ltb attempt 1 then 1 else attempt in
    let base = second * 2 ^ min_int (n - 1) 5 in
    if ltb (30 * second) base then 30 * second else base

-- `rand.Float64()` is the fraction `num / den`, below 1. The product of the floats is taken to be
-- exact, and the conversion to a duration drops the fraction.
unfoldable pub backoff_for : ℕ → ℕ → ℕ → ℕ
unfolding base_delay
backoff_for attempt num den = base_delay attempt * (8 * den + 4 * num) / (10 * den)

-- From the sixth attempt on the delay is capped.
base_delay_capped : (n : ℕ) → 6 ≤ n → base_delay n ≡ 30 * second
unfolding base_delay min_int
base_delay_capped n h =
    let late : ltb n 1 ≡ false = ground arith in
    let capped : ltb (n - 1) 5 ≡ false = ground arith in
    rw (late, base_delay) (rw (capped, min_int))

-- The delay before jitter is one second at the first attempt, and doubles from each attempt to the
-- next until it stays at 30 seconds.
base_delay_doubles :
    (n : ℕ)
    → (base_delay 1 ≡ second)
      × (base_delay (suc (suc n)) ≡ min (2 * base_delay (suc n)) (30 * second))
unfolding base_delay
base_delay_doubles zero = (refl, refl)
base_delay_doubles (suc zero) = (refl, refl)
base_delay_doubles (suc (suc zero)) = (refl, refl)
base_delay_doubles (suc (suc (suc zero))) = (refl, refl)
base_delay_doubles (suc (suc (suc (suc zero)))) = (refl, refl)
base_delay_doubles (suc (suc (suc (suc (suc n))))) = (
  refl,
  base_delay_capped (suc (suc (suc (suc (suc (suc (suc n))))))) (omega arith)
      ∙ ap (λ b. min (2 * b) (30 * second))
          (sym (base_delay_capped (suc (suc (suc (suc (suc (suc n)))))) (omega arith))),
)

base_delay_bounds : (n : ℕ) → (second ≤ base_delay n) × (base_delay n ≤ 30 * second)
unfolding base_delay
base_delay_bounds zero = omega arith
base_delay_bounds (suc zero) = omega arith
base_delay_bounds (suc (suc n)) =
    let (_, e) = base_delay_doubles n in
    let (l, h) = base_delay_bounds (suc n) in omega (arith, e, l, h)

scaled :
    (b num den : ℕ)
    → num < den
    → let wait = b * (8 * den + 4 * num) / (10 * den) in
      (8 * b < 10 * (wait + 1)) × (10 * wait ≤ 12 * b)
scaled b num den h =
    let wait = b * (8 * den + 4 * num) / (10 * den) in
    let floor : 10 * den * wait ≤ b * (8 * den + 4 * num) = mul-div-le _ _ in
    let ceiling : b * (8 * den + 4 * num) < 10 * den * (wait + 1) =
      lt-mul-div-succ _ {b = 10 * den} (omega arith) in
    let most : b * num ≤ b * den = grind arith in
    (
      lt_of_mul-lt-mul_right den (omega arith),
      le_of_mul-le-mul_right {k = den} (omega arith) (omega arith),
    )

-- The delay is that before jitter, less or more at most 20 percent (to the nanosecond), for every
-- random fraction below 1; and the one before jitter is between 1 and 30 seconds.
pub backoff_for_bounds :
    (attempt num den : ℕ)
    → num < den
    → (8 * base_delay attempt < 10 * (backoff_for attempt num den + 1))
      × (10 * backoff_for attempt num den ≤ 12 * base_delay attempt)
      × (second ≤ base_delay attempt)
      × (base_delay attempt ≤ 30 * second)
unfolding backoff_for
backoff_for_bounds attempt num den h =
    let (l, u) = base_delay_bounds attempt in
    let (below, above) = scaled (base_delay attempt) num den h in (below, above, l, u)
