-- ===== src/Window/Eviction.antt =====
-- What `advance` leaves: the loop over keys is a cut of the buckets, and on ascending keys it keeps
-- exactly the buckets inside the window.
use bsc_builder_proxyd.Base.{
  ℕ, ◌+◌, ◌≤◌, ◌<◌, ◌≡◌, refl, ◌∙◌, ap, true, false, List, [], ◌∷◌, map, arith, filter, lookup_head,
  remove_head, Bool-cases, inl, inr, lookup, remove, nat_eq,
}
use bsc_builder_proxyd.Window.{
  Bucket, AvgSlidingWindow, after_start, evict, advance_from, advance, round,
}

-- Buckets from the first one inside the window on.
unfoldable pub cut : ℕ → ℕ → List (ℕ × Bucket) → List (ℕ × Bucket)
cut window_length now [] = []
cut window_length now ((k, b) ∷ bs) = elim (after_start window_length now k) [
  | true ↦ (k, b) ∷ bs
  | false ↦ cut window_length now bs
]

pub evict-buckets :
    (sw : AvgSlidingWindow) (k : ℕ) (b : Bucket) (bs : List (ℕ × Bucket))
    → sw.buckets ≡ (k, b) ∷ bs
    → (evict k sw).buckets ≡ bs
unfolding evict
evict-buckets sw k b bs e =
    ground (arith, ap (lookup k) e, ap (remove k) e, lookup_head k b bs, remove_head k b bs)

evict-window_length :
    (sw : AvgSlidingWindow) (k : ℕ) → (evict k sw).window_length ≡ sw.window_length
unfolding evict
evict-window_length sw k = ground arith

pub advance_from-buckets :
    (now : ℕ) (bs : List (ℕ × Bucket)) (sw : AvgSlidingWindow)
    → sw.buckets ≡ bs
    → (advance_from now (map (λ e. e.0) bs) sw).buckets ≡ cut sw.window_length now bs
unfolding advance_from cut
advance_from-buckets now [] sw e = e
advance_from-buckets now ((k, b) ∷ bs) sw e =
    elim (Bool-cases (after_start sw.window_length now k)) [
      | inl keep ↦ rw (keep, advance_from, cut) e
      | inr old ↦
          rw (old, advance_from, cut)
            (advance_from-buckets now bs (evict k sw) (evict-buckets sw k b bs e)
              ∙ ap (λ l. cut l now bs) (evict-window_length sw k))
    ]

-- The loop of `advance` removes the leading buckets that have left the window and no other.
pub advance-buckets :
    (sw : AvgSlidingWindow) (clock : ℕ)
    → (advance sw clock).buckets ≡ cut sw.window_length (round clock sw.bucket_size) sw.buckets
unfolding advance
advance-buckets sw clock = advance_from-buckets _ sw.buckets sw refl

-- Keys ascend strictly from a bound.
abbrev pub Ascends : ℕ → List (ℕ × Bucket) → Type 0
Ascends n [] = Unit {0}
Ascends n ((k, b) ∷ bs) = (n ≤ k) × Ascends (k + 1) bs

abbrev pub alive : ℕ → ℕ → List (ℕ × Bucket) → List (ℕ × Bucket)
alive window_length now = filter λ e. after_start window_length now e.0

alive_all :
    (len now n : ℕ) (bs : List (ℕ × Bucket)) → now < n + len → Ascends n bs → alive len now bs ≡ bs
unfolding after_start
alive_all len now n [] h a = refl
alive_all len now n ((k, b) ∷ bs) h a = ground (arith, alive_all len now (k + 1) bs)

-- On ascending keys the cut is the filter: what stays is exactly what is inside the window.
pub cut-alive :
    (len now n : ℕ) (bs : List (ℕ × Bucket)) → Ascends n bs → cut len now bs ≡ alive len now bs
unfolding cut after_start
cut-alive len now n [] a = refl
cut-alive len now n ((k, b) ∷ bs) a =
    ground (arith, cut-alive len now (k + 1) bs a.1, alive_all len now (k + 1) bs)
