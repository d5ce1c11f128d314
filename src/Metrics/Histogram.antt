-- ===== src/Metrics/Histogram.antt =====
-- internal/metrics/histogram.go. `none` is a panic: an index that is out of range. Latencies are
-- not negative; a bucket is an int64, whose bit pattern wraps at 2 ^ 64.
pub mod Invariant
pub mod Full
pub mod Quantile
use inferia_worker.Common.{
  ℕ, zero, suc, ◌+◌, ◌-◌, ◌*◌, ◌/◌, ◌%◌, ◌^◌, Bool, List, [], ◌∷◌, Option, none, some,
  if◌then◌else◌, ltb, leb, ◌==◌, length, get_elem?, set, replicate, ◌>>=◌,
}

abbrev pub int64_mod : ℕ
int64_mod = 2 ^ 64

pub record PeakHistogram : Type 0 where
  pub buckets : List ℕ
  pub limits : List ℕ
  pub buffer : List ℕ
  pub head : ℕ
  pub cur : ℕ

unfoldable pub new_peak_histogram : ℕ → List ℕ → PeakHistogram
new_peak_histogram max_samples limits = record {
  buckets = replicate (length limits) 0;
  limits = limits;
  buffer = replicate max_samples 0;
  head = 0;
  cur = 0;
}

-- The loop of `bucketIndex`; `i` counts the limits passed.
unfoldable pub first_limit : List ℕ → ℕ → ℕ → Option ℕ
first_limit [] val i = none
first_limit (limit ∷ limits) val i =
    if leb val limit then some i else first_limit limits val (i + 1)

-- `none` is the index -1, which the callers can only panic on.
unfoldable pub bucket_index : List ℕ → ℕ → Option ℕ
unfolding first_limit
bucket_index limits val = elim (first_limit limits val 0) [
  | some i ↦ some i
  | none ↦ if length limits == 0 then none else some (length limits - 1)
]

-- `xs[i] = v`.
unfoldable pub store : List ℕ → ℕ → ℕ → Option (List ℕ)
store xs i v = if ltb i (length xs) then some (set xs i v) else none

-- `xs[i] += d`, with the wrap-around of an int64; `d` is 1, or 2 ^ 64 - 1 for `--`.
unfoldable pub bump : List ℕ → ℕ → ℕ → Option (List ℕ)
unfolding store
bump xs i d = do n ← get_elem? xs i; store xs i ((n + d) % int64_mod)

-- The branch of `Observe` while the buffer has room.
unfoldable pub observe_appending : PeakHistogram → ℕ → Option PeakHistogram
unfolding bucket_index store bump
observe_appending h val = do
  buffer ← store h.buffer h.head val
  idx ← bucket_index h.limits val
  buckets ← bump h.buckets idx 1
  some (record h { buffer = buffer; buckets = buckets; head = h.head + 1; cur = h.cur + 1 })

-- The branch of `Observe` that overwrites the oldest sample.
unfoldable pub observe_overwriting : PeakHistogram → ℕ → Option PeakHistogram
unfolding bucket_index store bump
observe_overwriting h val = do
  old ← get_elem? h.buffer h.head
  old_idx ← bucket_index h.limits old
  without_old ← bump h.buckets old_idx (int64_mod - 1)
  buffer ← store h.buffer h.head val
  idx ← bucket_index h.limits val
  buckets ← bump without_old idx 1
  some (record h { buffer = buffer; buckets = buckets; head = (h.head + 1) % length h.buffer })

unfoldable pub observe : PeakHistogram → ℕ → Option PeakHistogram
unfolding observe_appending observe_overwriting
observe h val =
    if ltb h.cur (length h.buffer) then observe_appending h val else observe_overwriting h val

-- `if idx == -1 && sum >= target { idx = i }`.
unfoldable pub settle : Option ℕ → ℕ → ℕ → ℕ → Option ℕ
settle (some j) sum target i = some j
settle none sum target i = if leb target sum then some i else none

-- The loop of `Snapshot` over the buckets that are left.
unfoldable pub walk : List ℕ → ℕ → ℕ → ℕ → ℕ → Option ℕ → Option ℕ → Option ℕ × Option ℕ
unfolding settle
walk [] sum i target95 target98 idx95 idx98 = (idx95, idx98)
walk (count ∷ buckets) sum i target95 target98 idx95 idx98 =
    walk buckets (sum + count) (i + 1) target95 target98 (settle idx95 (sum + count) target95 i)
      (settle idx98 (sum + count) target98 i)

-- The limit at an index, 0 where there is no index.
unfoldable pub limit_at : List ℕ → Option ℕ → Option ℕ
limit_at limits none = some 0
limit_at limits (some i) = get_elem? limits i

-- The results that the code names p50 and p95.
unfoldable pub snapshot : PeakHistogram → Option (ℕ × ℕ)
unfolding walk limit_at
snapshot h = if h.cur == 0 then some (0, 0) else do
  let (idx95, idx98) =
      walk h.buckets 0 0 ((h.cur * 95 + 99) / 100) ((h.cur * 98 + 99) / 100) none none
  p50 ← limit_at h.limits idx95
  p95 ← limit_at h.limits idx98
  some (p50, p95)

unfoldable pub reset : PeakHistogram → PeakHistogram
reset h = record h { buckets = replicate (length h.buckets) 0; head = 0; cur = 0 }
