-- ===== src/Window/Sums.antt =====
-- The totals of a window are the totals of its buckets, through every operation but `clear`.
use bsc_builder_proxyd.Base.{
  ℕ, ◌+◌, ◌-◌, ◌<◌, ◌≡◌, refl, ◌∙◌, ap, List, [], ◌∷◌, map, arith, lookup_head, remove_head,
  Bool-cases, inl, inr, All, lookup, insert, remove, nat_eq, ℤ, pos, ◌+ℤ◌, ◌-ℤ◌, int_laws, subst,
  ◌==◌, parts_of,
}
use bsc_builder_proxyd.Window.{
  Bucket, AvgSlidingWindow, after_start, evict, advance_from, advance, round, put_point, uint,
  bucket_at, add_with_time,
}
use bsc_builder_proxyd.Window.Eviction.{evict-buckets}

abbrev pub total_qty : List (ℕ × Bucket) → ℕ
total_qty [] = 0
total_qty ((k, b) ∷ bs) = b.qty + total_qty bs

unfoldable pub total_sum : List (ℕ × Bucket) → ℤ
total_sum [] = pos 0
total_sum ((k, b) ∷ bs) = b.sum +ℤ total_sum bs

abbrev pub InRange : ℕ × Bucket → Type 0
InRange e = e.1.qty < 18446744073709551616

pub record Consistent (sw : AvgSlidingWindow) : Type 0 where
  pub range : All InRange sw.buckets
  pub counted : sw.qty ≡ uint (total_qty sw.buckets)
  pub summed : sw.sum ≡ total_sum sw.buckets

pub evict-cons :
    (sw : AvgSlidingWindow) (k : ℕ) (b : Bucket) (x : ℕ × Bucket) (bs : List (ℕ × Bucket))
    → sw.buckets ≡ (k, b) ∷ x ∷ bs
    → evict k sw ≡ record sw {
      buckets = x ∷ bs;
      qty = uint (sw.qty + 18446744073709551616 - b.qty);
      sum = sw.sum -ℤ b.sum;
    }
unfolding evict
evict-cons sw k b x bs e =
    rw (
      ap (lookup k) e ∙ lookup_head k b (x ∷ bs),
      ap (remove k) e ∙ remove_head k b (x ∷ bs),
      evict,
    )

evict-last :
    (sw : AvgSlidingWindow) (k : ℕ) (b : Bucket)
    → sw.buckets ≡ (k, b) ∷ []
    → evict k sw ≡ record sw { buckets = []; qty = 0; sum = pos 0 }
unfolding evict
evict-last sw k b e =
    rw (ap (lookup k) e ∙ lookup_head k b [], ap (remove k) e ∙ remove_head k b [], evict)

evict-Consistent :
    (sw : AvgSlidingWindow) (k : ℕ) (b : Bucket) (bs : List (ℕ × Bucket))
    → sw.buckets ≡ (k, b) ∷ bs
    → Consistent sw
    → Consistent (evict k sw)
unfolding total_sum
evict-Consistent sw k b [] e c =
    rw (evict-last sw k b e) (record { range = tt; counted = refl; summed = refl })
evict-Consistent sw k b (x ∷ bs) e c =
    let r = subst (All InRange) e c.range in
    let q = c.counted ∙ ap (λ l. uint (total_qty l)) e in
    let s = c.summed ∙ ap total_sum e in
    rw (evict-cons sw k b x bs e)
      (record { range = r.1; counted = omega arith; summed = omega (int_laws, parts_of s) })

advance_from-Consistent :
    (now : ℕ) (bs : List (ℕ × Bucket)) (sw : AvgSlidingWindow)
    → sw.buckets ≡ bs
    → Consistent sw
    → Consistent (advance_from now (map (λ e. e.0) bs) sw)
unfolding advance_from
advance_from-Consistent now [] sw e c = c
advance_from-Consistent now ((k, b) ∷ bs) sw e c =
    elim (Bool-cases (after_start sw.window_length now k)) [
      | inl keep ↦ rw (keep, advance_from) c
      | inr old ↦
          rw (old, advance_from)
            (advance_from-Consistent now bs (evict k sw) (evict-buckets sw k b bs e)
              (evict-Consistent sw k b bs e c))
    ]

pub advance-Consistent :
    (sw : AvgSlidingWindow) (clock : ℕ) → Consistent sw → Consistent (advance sw clock)
unfolding advance
advance-Consistent sw clock c = advance_from-Consistent _ sw.buckets sw refl c

-- What a write of one bucket does to the totals.
qty_at : ℕ → List (ℕ × Bucket) → ℕ
unfolding bucket_at
qty_at k bs = (bucket_at (lookup k bs)).qty

total_qty-insert :
    (k : ℕ) (b : Bucket) (bs : List (ℕ × Bucket))
    → total_qty (insert k b bs) + (bucket_at (lookup k bs)).qty ≡ total_qty bs + b.qty
unfolding insert lookup bucket_at
total_qty-insert k b [] = omega arith
total_qty-insert k b ((j, w) ∷ bs) = ground (arith, total_qty-insert k b bs)

total_sum-insert :
    (k : ℕ) (b : Bucket) (bs : List (ℕ × Bucket))
    → total_sum (insert k b bs) +ℤ (bucket_at (lookup k bs)).sum ≡ total_sum bs +ℤ b.sum
unfolding insert lookup bucket_at total_sum
total_sum-insert k b [] = omega int_laws
total_sum-insert k b ((j, w) ∷ bs) = elim (Bool-cases (j == k)) [
  | inl hit ↦ rw (hit, total_sum, insert, lookup, bucket_at) (omega int_laws)
  | inr miss ↦
      rw (miss, total_sum, insert, lookup, bucket_at)
        (omega (int_laws, parts_of (total_sum-insert k b bs)))
]

InRange-insert :
    (k : ℕ) (b : Bucket) (bs : List (ℕ × Bucket))
    → b.qty < 18446744073709551616
    → All InRange bs
    → All InRange (insert k b bs)
unfolding insert
InRange-insert k b [] h r = (h, tt)
InRange-insert k b ((j, w) ∷ bs) h r = ground (arith, InRange-insert k b bs)

bucket_at-InRange :
    (k : ℕ) (bs : List (ℕ × Bucket))
    → All InRange bs
    → (bucket_at (lookup k bs)).qty < 18446744073709551616
unfolding lookup bucket_at
bucket_at-InRange k [] r = omega arith
bucket_at-InRange k ((j, w) ∷ bs) r = ground (arith, bucket_at-InRange k bs)

pub put_point-Consistent :
    (sw : AvgSlidingWindow) (key : ℕ) (val : ℤ) → Consistent sw → Consistent (put_point sw key val)
unfolding put_point
put_point-Consistent sw key val c = record {
  range = InRange-insert key _ sw.buckets (omega arith) c.range;
  counted = omega (
    arith,
    c.counted,
    bucket_at-InRange key sw.buckets c.range,
    total_qty-insert key
        (record {
          sum = (bucket_at (lookup key sw.buckets)).sum +ℤ val;
          qty = uint ((bucket_at (lookup key sw.buckets)).qty + 1);
        })
        sw.buckets,
  );
  summed = omega (
    int_laws,
    parts_of c.summed,
    parts_of (
        total_sum-insert key
          (record {
            sum = (bucket_at (lookup key sw.buckets)).sum +ℤ val;
            qty = uint ((bucket_at (lookup key sw.buckets)).qty + 1);
          })
          sw.buckets),
  );
}

-- `AddWithTime`, at any time and for any value, keeps the totals those of the buckets.
add_with_time-Consistent :
    (sw : AvgSlidingWindow) (clock t : ℕ) (val : ℤ)
    → Consistent sw
    → Consistent (add_with_time sw clock t val)
unfolding add_with_time
add_with_time-Consistent sw clock t val c = ground (
  arith,
  advance-Consistent sw clock c,
  put_point-Consistent (advance sw clock) (round t (advance sw clock).bucket_size) val,
)

advance_from-sizes :
    (now : ℕ) (ks : List ℕ) (sw : AvgSlidingWindow)
    → ((advance_from now ks sw).bucket_size ≡ sw.bucket_size)
      × ((advance_from now ks sw).window_length ≡ sw.window_length)
unfolding advance_from evict
advance_from-sizes now [] sw = (refl, refl)
advance_from-sizes now (k ∷ ks) sw = ground (arith, advance_from-sizes now ks (evict k sw))

pub advance-sizes :
    (sw : AvgSlidingWindow) (clock : ℕ)
    → ((advance sw clock).bucket_size ≡ sw.bucket_size)
      × ((advance sw clock).window_length ≡ sw.window_length)
unfolding advance
advance-sizes sw clock = advance_from-sizes _ _ sw
