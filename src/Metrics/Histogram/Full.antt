-- ===== src/Metrics/Histogram/Full.antt =====
-- How many samples a histogram takes.
use inferia_worker.Common.{
  ℕ, zero, suc, ◌+◌, ◌^◌, ◌≤◌, ◌<◌, ◌≡◌, refl, List, [], ◌∷◌, Option, none, some, length, get_elem?,
  ◌>>=◌, arith, dec_lt, length-replicate,
}
use inferia_worker.Metrics.Histogram.{
  PeakHistogram, new_peak_histogram, observe, observe_overwriting,
}
use inferia_worker.Metrics.Histogram.Invariant.{Inv, new_peak_histogram-Inv, observe_room}

unfoldable pub observe_all : PeakHistogram → List ℕ → Option PeakHistogram
observe_all h [] = some h
observe_all h (v ∷ vs) = observe h v >>= λ q. observe_all q vs

get_elem?_past : (xs : List ℕ) (i : ℕ) → length xs ≤ i → get_elem? xs i ≡ none
get_elem?_past [] i h = refl
get_elem?_past (x ∷ xs) zero h = absurd (omega arith)
get_elem?_past (x ∷ xs) (suc i) h = get_elem?_past xs i (omega arith)

-- A full buffer: the write position has run past the end, and the read of the oldest sample panics.
observe_full :
    (h : PeakHistogram) (val : ℕ) → Inv h → h.cur ≡ length h.buffer → observe h val ≡ none
unfolding observe observe_overwriting
observe_full h val v full = ground (arith, get_elem?_past h.buffer h.head (omega (arith, v.at_end)))

observe_all_room :
    (h : PeakHistogram) (vs : List ℕ)
    → Inv h
    → h.cur + length vs ≤ length h.buffer
    → (q : PeakHistogram) × (observe_all h vs ≡ some q) × Inv q × (q.cur ≡ h.cur + length vs)
unfolding observe_all
observe_all_room h [] v l = (h, refl, v, omega arith)
observe_all_room h (x ∷ vs) v l =
    let (q, e, w, c, b) = observe_room h x v (omega arith) in
    let (r, f, u, d) = observe_all_room q vs w (omega arith) in (r, rw e f, u, omega arith)

observe_all_overflow :
    (h : PeakHistogram) (vs : List ℕ)
    → Inv h
    → length h.buffer < h.cur + length vs
    → observe_all h vs ≡ none
unfolding observe_all
observe_all_overflow h [] v l = absurd (omega (arith, v.room))
observe_all_overflow h (x ∷ vs) v l = elim (dec_lt h.cur (length h.buffer)) [
  | yes room ↦
      let (q, e, w, c, b) = observe_room h x v room in
      rw e (observe_all_overflow q vs w (omega arith))
  | no full ↦ rw (observe_full h x v (omega (arith, v.room)))
]

-- A histogram with a buffer of `n` takes exactly `n` samples. Up to `n` of them are recorded, and the
-- buckets then agree with the samples (Inv). Any longer run of samples makes `Observe` panic, since
-- the write position is never moved back. There is at least one limit.
pub observe_all-new :
    (n : ℕ) (limits vals : List ℕ)
    → 0 < length limits
    → n < 2 ^ 63
    → ((length vals ≤ n)
        → (q : PeakHistogram) × (observe_all (new_peak_histogram n limits) vals ≡ some q)
          × Inv q
          × (q.cur ≡ length vals))
      × (n < length vals → observe_all (new_peak_histogram n limits) vals ≡ none)
unfolding new_peak_histogram
observe_all-new n limits vals h small =
    let v = new_peak_histogram-Inv n limits h small in
    let e : length (new_peak_histogram n limits).buffer ≡ n = length-replicate n 0 in
    (
      λ fits.
          let (q, f, w, c) = observe_all_room (new_peak_histogram n limits) vals v (omega arith) in
          (q, f, w, omega arith),
      λ over. observe_all_overflow _ vals v (omega arith),
    )
