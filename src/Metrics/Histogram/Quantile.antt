-- ===== src/Metrics/Histogram/Quantile.antt =====
-- What `Snapshot` returns.
use inferia_worker.Common.{
  ◌==◌, false, ap, ℕ, zero, suc, ◌+◌, ◌*◌, ◌/◌, ◌≤◌, ◌<◌, ◌≡◌, refl, List, [], ◌∷◌, Option, none,
  some, length, get_elem?, arith, dec_le, take, ◌∙◌,
}
use inferia_worker.Metrics.Histogram.{PeakHistogram, settle, walk, limit_at, snapshot}
use inferia_worker.Metrics.Histogram.Invariant.{
  Inv, prefix_sum, count_below, bucket_index_bound, falls_below_at,
}

-- The first index at which the running sum reaches the target.
abbrev quantile : List ℕ → ℕ → ℕ → ℕ → Option ℕ → Option ℕ
quantile [] sum i target idx = idx
quantile (b ∷ bs) sum i target idx =
    quantile bs (sum + b) (i + 1) target (settle idx (sum + b) target i)

-- The one loop finds both.
walk-quantile :
    (bs : List ℕ) (sum i s t : ℕ) (a b : Option ℕ)
    → walk bs sum i s t a b ≡ (quantile bs sum i s a, quantile bs sum i t b)
unfolding walk
walk-quantile [] sum i s t a b = refl
walk-quantile (x ∷ bs) sum i s t a b = walk-quantile bs (sum + x) (i + 1) s t _ _

quantile_settled : (bs : List ℕ) (sum i t j : ℕ) → quantile bs sum i t (some j) ≡ some j
unfolding settle
quantile_settled [] sum i t j = refl
quantile_settled (x ∷ bs) sum i t j = quantile_settled bs (sum + x) (i + 1) t j

settle_hit : (s t i : ℕ) → t ≤ s → settle none s t i ≡ some i
unfolding settle
settle_hit s t i h = ground arith

settle_miss : (s t i : ℕ) → ¬ (t ≤ s) → settle none s t i ≡ none
unfolding settle
settle_miss s t i h = ground arith

-- An index is found once the sum of all buckets reaches the target, and it is the least.
quantile_found :
    (bs : List ℕ) (sum i t : ℕ)
    → sum < t
    → t ≤ sum + prefix_sum (length bs) bs
    → (j : ℕ) × (quantile bs sum i t none ≡ some (i + j))
      × (j < length bs)
      × (t ≤ sum + prefix_sum (suc j) bs)
      × (sum + prefix_sum j bs < t)
quantile_found [] sum i t l h = absurd (omega arith)
quantile_found (x ∷ bs) sum i t l h = elim (dec_le t (sum + x)) [
  | yes hit ↦ (
    0,
    rw (settle_hit (sum + x) t i hit)
        (quantile_settled bs (sum + x) (i + 1) t i ∙ ap some (omega arith)),
    omega arith,
    omega arith,
    omega arith,
  )
  | no on ↦
      let (j, e, b, u, d) = quantile_found bs (sum + x) (i + 1) t (omega arith) (omega arith) in
      (
        suc j,
        rw (settle_miss (sum + x) t i on) (e ∙ ap some (omega arith)),
        omega arith,
        omega arith,
        omega arith,
      )
]

-- Every sample has a bucket, so all the samples are counted.
count_below_all :
    (limits vs : List ℕ) → 0 < length limits → count_below limits (length limits) vs ≡ length vs
count_below_all limits [] h = refl
count_below_all limits (v ∷ vs) h =
    let (i, e, l) = bucket_index_bound limits v h in
    ground (arith, falls_below_at limits (length limits) v i e, count_below_all limits vs h)

length-take_le : (n : ℕ) (xs : List ℕ) → n ≤ length xs → length (take n xs) ≡ n
length-take_le zero xs h = refl
length-take_le (suc n) [] h = absurd (omega arith)
length-take_le (suc n) (x ∷ xs) h = ap suc (length-take_le n xs (omega arith))

get_elem?_in : (xs : List ℕ) (i : ℕ) → i < length xs → (a : ℕ) × (get_elem? xs i ≡ some a)
get_elem?_in [] i h = absurd (omega arith)
get_elem?_in (x ∷ xs) zero h = (x, refl)
get_elem?_in (x ∷ xs) (suc i) h = get_elem?_in xs i (omega arith)

-- `a` is the limit of the first bucket at which `percent` of the samples are counted.
pub record IsPercentile (h : PeakHistogram) (percent a : ℕ) : Type 0 where
  pub index : ℕ
  pub limit : get_elem? h.limits index ≡ some a
  pub reached : percent * h.cur ≤ 100 * count_below h.limits (suc index) (take h.cur h.buffer)
  pub least : 100 * count_below h.limits index (take h.cur h.buffer) < percent * h.cur

percentile :
    (h : PeakHistogram) (percent : ℕ)
    → Inv h
    → 0 < h.cur
    → 0 < percent
    → percent ≤ 100
    → (a : ℕ) × (limit_at h.limits (quantile h.buckets 0 0 ((h.cur * percent + 99) / 100) none)
        ≡ some a)
      × IsPercentile h percent a
unfolding limit_at
percentile h percent v pos some_percent most =
    let t = (h.cur * percent + 99) / 100 in
    let samples = take h.cur h.buffer in
    let most' : h.cur * percent ≤ h.cur * 100 = grind arith in
    let least' : 0 < h.cur * percent = grind arith in
    let all : prefix_sum (length h.buckets) h.buckets ≡ h.cur =
      ap (λ n. prefix_sum n h.buckets) v.aligned
      ∙ v.counted (length h.limits)
      ∙ count_below_all h.limits samples v.limited
      ∙ length-take_le h.cur h.buffer v.room in
    let (j, e, b, u, d) = quantile_found h.buckets 0 0 t (omega arith) (omega arith) in
    let (a, f) = get_elem?_in h.limits j (omega (arith, v.aligned)) in
    let at : 0 + j ≡ j = omega arith in
    (
      a,
      rw e (rw at f),
      record {
        index = j;
        limit = f;
        reached = omega (arith, v.counted (suc j));
        least = omega (arith, v.counted j);
      },
    )

-- Of a histogram with samples the first result is the 95th percentile and the second the 98th: the
-- limits of the least buckets up to which at least 95 and 98 of 100 samples are counted.
pub snapshot_lem :
    (h : PeakHistogram)
    → Inv h
    → 0 < h.cur
    → (a b : ℕ) × (snapshot h ≡ some (a, b)) × IsPercentile h 95 a × IsPercentile h 98 b
unfolding snapshot
snapshot_lem h v pos =
    let (a, e, p) = percentile h 95 v pos (omega arith) (omega arith) in
    let (b, f, q) = percentile h 98 v pos (omega arith) (omega arith) in
    let busy : (h.cur == 0) ≡ false = ground arith in
    let both =
      walk-quantile h.buckets 0 0 ((h.cur * 95 + 99) / 100) ((h.cur * 98 + 99) / 100) none none in
    (a, b, rw (busy, both, e, f), p, q)
