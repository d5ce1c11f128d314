-- ===== src/Metrics/Histogram/Invariant.antt =====
-- The buckets count the samples of the buffer: for each bound, the buckets below it hold as many as
-- there are samples whose bucket lies below it.
use inferia_worker.Common.{
  ℕ, zero, suc, ◌+◌, ◌-◌, ◌%◌, ◌^◌, ◌≤◌, ◌<◌, ◌≡◌, refl, ap, ◌∙◌, List, [], ◌∷◌, none, some, inl,
  inr, if◌then◌else◌, ltb, length, get_elem?, set, replicate, take, arith, length-set,
  length-replicate, Option-cases,
}
use inferia_worker.Metrics.Histogram.{
  PeakHistogram, int64_mod, new_peak_histogram, first_limit, bucket_index, store, bump,
  observe_appending, observe,
}

-- The sum of the first `k` buckets.
abbrev pub prefix_sum : ℕ → List ℕ → ℕ
prefix_sum zero bs = 0
prefix_sum (suc k) [] = 0
prefix_sum (suc k) (b ∷ bs) = b + prefix_sum k bs

-- 1 if a sample's bucket is one of the first `k`, and 0 if not.
unfoldable pub falls_below : List ℕ → ℕ → ℕ → ℕ
falls_below limits k val = elim (bucket_index limits val) [
  | none ↦ 0
  | some i ↦ if ltb i k then 1 else 0
]

-- How many samples have their bucket among the first `k`.
abbrev pub count_below : List ℕ → ℕ → List ℕ → ℕ
count_below limits k [] = 0
count_below limits k (v ∷ vs) = falls_below limits k v + count_below limits k vs

pub record Inv (h : PeakHistogram) : Type 0 where
  pub limited : 0 < length h.limits
  pub aligned : length h.buckets ≡ length h.limits
  pub room : h.cur ≤ length h.buffer
  pub small : length h.buffer < 2 ^ 63
  pub at_end : h.head ≡ h.cur
  pub counted : (k : ℕ) → prefix_sum k h.buckets ≡ count_below h.limits k (take h.cur h.buffer)

first_limit_bound :
    (limits : List ℕ) (val i j : ℕ) → first_limit limits val i ≡ some j → j < i + length limits
unfolding first_limit
first_limit_bound [] val i j e = cc
first_limit_bound (l ∷ ls) val i j e = ground (arith, first_limit_bound ls val (i + 1) j)

-- With limits every value has a bucket.
pub bucket_index_bound :
    (limits : List ℕ) (val : ℕ)
    → 0 < length limits
    → (i : ℕ) × (bucket_index limits val ≡ some i) × (i < length limits)
unfolding bucket_index
bucket_index_bound limits val h = elim (Option-cases (first_limit limits val 0)) [
  | inl e ↦ (length limits - 1, ground arith, omega arith)
  | inr (i, e) ↦ (i, ground arith, omega (arith, first_limit_bound limits val 0 i e))
]

prefix_sum-replicate : (k n : ℕ) → prefix_sum k (replicate n 0) ≡ 0
prefix_sum-replicate zero n = refl
prefix_sum-replicate (suc k) zero = refl
prefix_sum-replicate (suc k) (suc n) = omega (arith, prefix_sum-replicate k n)

-- A bucket is no more than the sum up to it.
bucket-le : (bs : List ℕ) (i b : ℕ) → get_elem? bs i ≡ some b → b ≤ prefix_sum (suc i) bs
bucket-le [] i b e = cc
bucket-le (x ∷ bs) zero b e = ground arith
bucket-le (x ∷ bs) (suc i) b e = ground (arith, bucket-le bs i b e)

get_elem?-lt : (bs : List ℕ) (i : ℕ) → i < length bs → (b : ℕ) × (get_elem? bs i ≡ some b)
get_elem?-lt [] i h = absurd (omega arith)
get_elem?-lt (x ∷ bs) zero h = (x, refl)
get_elem?-lt (x ∷ bs) (suc i) h = get_elem?-lt bs i (omega arith)

prefix_sum-set :
    (bs : List ℕ) (i b k : ℕ)
    → get_elem? bs i ≡ some b
    → prefix_sum k (set bs i (b + 1)) ≡ prefix_sum k bs + (if ltb i k then 1 else 0)
prefix_sum-set [] i b k e = cc
prefix_sum-set (x ∷ bs) zero b zero e = ground arith
prefix_sum-set (x ∷ bs) zero b (suc k) e = ground arith
prefix_sum-set (x ∷ bs) (suc i) b zero e = ground arith
prefix_sum-set (x ∷ bs) (suc i) b (suc k) e = ground (arith, prefix_sum-set bs i b k e)

count_below-take :
    (limits : List ℕ) (k n v : ℕ) (xs : List ℕ)
    → n < length xs
    → count_below limits k (take (suc n) (set xs n v))
      ≡ count_below limits k (take n xs) + falls_below limits k v
count_below-take limits k n v [] h = absurd (omega arith)
count_below-take limits k zero v (x ∷ xs) h = omega arith
count_below-take limits k (suc n) v (x ∷ xs) h =
    omega (arith, count_below-take limits k n v xs (omega arith))

pub count_below-le : (limits : List ℕ) (k : ℕ) (vs : List ℕ) → count_below limits k vs ≤ length vs
unfolding falls_below
count_below-le limits k [] = omega arith
count_below-le limits k (v ∷ vs) = ground (arith, count_below-le limits k vs)

length-take-le : (n : ℕ) (xs : List ℕ) → length (take n xs) ≤ n
length-take-le zero xs = omega arith
length-take-le (suc n) [] = omega arith
length-take-le (suc n) (x ∷ xs) = omega (arith, length-take-le n xs)

pub new_peak_histogram-Inv :
    (n : ℕ) (limits : List ℕ) → 0 < length limits → n < 2 ^ 63 → Inv (new_peak_histogram n limits)
unfolding new_peak_histogram
new_peak_histogram-Inv n limits h small = record {
  limited = h;
  aligned = length-replicate (length limits) 0;
  room = omega arith;
  small = omega (arith, length-replicate {A = ℕ} n 0);
  at_end = refl;
  counted = λ k. prefix_sum-replicate k (length limits);
}

-- The bucket that counts one more sample, and the sum with it.
bump_one :
    (h : PeakHistogram) (i : ℕ)
    → Inv h
    → i < length h.limits
    → (bs : List ℕ) × (bump h.buckets i 1 ≡ some bs)
      × (length bs ≡ length h.buckets)
      × ((k : ℕ) → prefix_sum k bs ≡ prefix_sum k h.buckets + (if ltb i k then 1 else 0))
unfolding bump store
bump_one h i v l =
    let (b, e) = get_elem?-lt h.buckets i (omega (arith, v.aligned)) in
    let small : b < 2 ^ 63 = omega (
      arith,
      bucket-le h.buckets i b e,
      v.counted (suc i),
      count_below-le h.limits (suc i) (take h.cur h.buffer),
      length-take-le h.cur h.buffer,
      v.room,
      v.small,
    ) in
    let exact : (b + 1) % int64_mod ≡ b + 1 = omega arith in
    (
      set h.buckets i (b + 1),
      ground (arith, exact),
      length-set h.buckets i (b + 1),
      λ k. prefix_sum-set h.buckets i b k e,
    )

pub falls_below_at :
    (limits : List ℕ) (k val i : ℕ)
    → bucket_index limits val ≡ some i
    → falls_below limits k val ≡ (if ltb i k then 1 else 0)
unfolding falls_below
falls_below_at limits k val i e = rw (e, falls_below)

-- While the buffer has room `Observe` records the sample and keeps the invariant.
pub observe_room :
    (h : PeakHistogram) (val : ℕ)
    → Inv h
    → h.cur < length h.buffer
    → (q : PeakHistogram) × (observe h val ≡ some q)
      × Inv q
      × (q.cur ≡ suc h.cur)
      × (length q.buffer ≡ length h.buffer)
unfolding observe observe_appending store
observe_room h val v l =
    let (i, e, il) = bucket_index_bound h.limits val v.limited in
    let (bs, f, bl, sums) = bump_one h i v il in
    let at : h.head < length h.buffer = omega (arith, v.at_end) in
    let one_more : h.cur + 1 ≡ suc h.cur = omega arith in
    (
      record h {
        buffer = set h.buffer h.head val;
        buckets = bs;
        head = h.head + 1;
        cur = h.cur + 1;
      },
      ground arith,
      record {
        limited = v.limited;
        aligned = bl ∙ v.aligned;
        room = omega (arith, length-set {0} h.buffer h.head val);
        small = omega (arith, length-set {0} h.buffer h.head val, v.small);
        at_end = omega (arith, v.at_end);
        counted = λ k. rw one_more (
            omega (
              arith,
              sums k,
              v.counted k,
              falls_below_at h.limits k val i e,
              ap (λ n. count_below h.limits k (take (suc h.cur) (set h.buffer n val))) v.at_end,
              count_below-take h.limits k h.cur val h.buffer l,
            ));
      },
      omega arith,
      length-set h.buffer h.head val,
    )
