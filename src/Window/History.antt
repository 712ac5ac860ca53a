-- ===== src/Window/History.antt =====
-- The window against its specification: after any history of `Add` under a clock that never goes
-- back, the reading is the sum of the data points whose rounded time is inside the window.
use bsc_builder_proxyd.Base.{
  ℕ, ◌+◌, ◌*◌, ◌/◌, ◌%◌, ◌≤◌, ◌<◌, ◌≡◌, refl, sym, ◌∙◌, ap, Bool, true, false, ◌&&◌, List, [], ◌∷◌,
  arith, if◌then◌else◌, Bool-cases, inl, inr, ◌==◌, ltb, leb, lookup, insert, ==_iff, nat_eq, ℤ,
  pos, ◌+ℤ◌, int_laws, parts_of, zero-+ℤ, +ℤ-zero, dec_lt, ◌⊎◌, zero, suc,
}
use native.Mathlib.Nat.{div-add-mod, mod-lt, mul-le-mul_left}
use bsc_builder_proxyd.Window.{
  Bucket, AvgSlidingWindow, after_start, advance, round, put_point, bucket_at, add_with_time, add,
  sum_of, in_window, new_sliding_window,
}
use bsc_builder_proxyd.Window.Eviction.{Ascends, alive, cut-alive, advance-buckets}
use bsc_builder_proxyd.Window.Sums.{
  Consistent, total_sum, advance-Consistent, put_point-Consistent, advance-sizes,
}

-- Two numbers in order are in one block of `d`, or a whole block apart.
blocks :
    (p q r s d : ℕ)
    → r < d
    → s < d
    → d * p + r ≤ d * q + s
    → ((d * p ≡ d * q) × (r ≤ s)) ⊎ (d * p + d ≤ d * q)
blocks p q r s d hr hs h = elim (dec_lt p q) [
  | yes lt ↦ inr (omega (arith, mul-le-mul_left d lt))
  | no ge ↦ elim (dec_lt q p) [
    | yes gt ↦ absurd (omega (arith, mul-le-mul_left d gt))
    | no le ↦
        let e : p ≡ q = omega arith in inl (ap (λ x. d * x) e, omega (arith, ap (λ x. d * x) e))
  ]
]

pub round_mono : (a b d : ℕ) → a ≤ b → round a d ≤ round b d
unfolding round
round_mono a b zero h = h
round_mono a b (suc k) h =
    let d = suc k in
    ground (
      arith,
      div-add-mod a d,
      div-add-mod b d,
      blocks (a / d) (b / d) (a % d) (b % d) d (mod-lt a (omega arith)) (mod-lt b (omega arith))
          (omega (arith, div-add-mod a d, div-add-mod b d)),
    )

-- Data points that are inside the window at a rounded time.
unfoldable pub points_sum : ℕ → ℕ → ℕ → List (ℕ × ℤ) → ℤ
points_sum size len now [] = pos 0
points_sum size len now ((t, v) ∷ ps) =
    (if after_start len now (round t size) then v else pos 0) +ℤ points_sum size len now ps

-- Oldest first.
unfoldable pub add_all : AvgSlidingWindow → List (ℕ × ℤ) → AvgSlidingWindow
add_all sw [] = sw
add_all sw ((t, v) ∷ ps) = add_all (add sw t v) ps

-- The clock does not go back, from a first reading to a last.
abbrev pub Chronological : ℕ → List (ℕ × ℤ) → ℕ → Type 0
Chronological t [] last = t ≤ last
Chronological t ((u, v) ∷ ps) last = (t ≤ u) × Chronological u ps last

alive_sum : ℕ → ℕ → List (ℕ × Bucket) → ℤ
alive_sum len now bs = total_sum (alive len now bs)

abbrev Below : ℕ → List (ℕ × Bucket) → Type 0
Below n [] = Unit {0}
Below n ((k, b) ∷ bs) = (k ≤ n) × Below n bs

Below-mono : (m n : ℕ) (bs : List (ℕ × Bucket)) → m ≤ n → Below m bs → Below n bs
Below-mono m n [] h b = tt
Below-mono m n ((k, x) ∷ bs) h b = (omega arith, Below-mono m n bs h b.1)

alive-Below : (len now n : ℕ) (bs : List (ℕ × Bucket)) → Below n bs → Below n (alive len now bs)
alive-Below len now n [] b = tt
alive-Below len now n ((k, x) ∷ bs) b = ground (arith, alive-Below len now n bs b.1)

Ascends-mono : (m n : ℕ) (bs : List (ℕ × Bucket)) → m ≤ n → Ascends n bs → Ascends m bs
Ascends-mono m n [] h b = tt
Ascends-mono m n ((k, x) ∷ bs) h b = (omega arith, b.1)

alive-Ascends :
    (len now n : ℕ) (bs : List (ℕ × Bucket)) → Ascends n bs → Ascends n (alive len now bs)
alive-Ascends len now n [] b = tt
alive-Ascends len now n ((k, x) ∷ bs) b =
    ground (arith, alive-Ascends len now (k + 1) bs b.1, Ascends-mono n (k + 1) (alive len now bs))

insert-Below : (n : ℕ) (b : Bucket) (bs : List (ℕ × Bucket)) → Below n bs → Below n (insert n b bs)
unfolding insert
insert-Below n b [] h = (omega arith, tt)
insert-Below n b ((k, x) ∷ bs) h = ground (arith, insert-Below n b bs)

insert-Ascends :
    (m n : ℕ) (b : Bucket) (bs : List (ℕ × Bucket))
    → m ≤ n
    → Below n bs
    → Ascends m bs
    → Ascends m (insert n b bs)
unfolding insert
insert-Ascends m n b [] h l a = (h, tt)
insert-Ascends m n b ((k, x) ∷ bs) h l a = ground (arith, insert-Ascends (k + 1) n b bs)

-- A later window keeps no bucket that an earlier one dropped.
alive_sum-alive :
    (len m n : ℕ) (bs : List (ℕ × Bucket))
    → m ≤ n
    → alive_sum len n (alive len m bs) ≡ alive_sum len n bs
unfolding alive_sum total_sum after_start
alive_sum-alive len m n [] h = refl
alive_sum-alive len m n ((k, b) ∷ bs) h = ground (arith, alive_sum-alive len m n bs)

alive_sum-cons :
    (len now j : ℕ) (b : Bucket) (bs : List (ℕ × Bucket))
    → alive_sum len now ((j, b) ∷ bs)
      ≡ (if after_start len now j then b.sum else pos 0) +ℤ alive_sum len now bs
unfolding alive_sum total_sum
alive_sum-cons len now j b bs = elim (Bool-cases (after_start len now j)) [
  | inl e ↦ rw e
  | inr e ↦ rw e (sym (zero-+ℤ _))
]

pick : Bool → ℤ → ℤ
pick c x = if c then x else pos 0

-- Writing a bucket replaces what it held, if it is inside the window.
alive_sum-insert :
    (len now k : ℕ) (b : Bucket) (bs : List (ℕ × Bucket))
    → alive_sum len now (insert k b bs)
        +ℤ pick (after_start len now k) (bucket_at (lookup k bs)).sum
      ≡ pick (after_start len now k) b.sum +ℤ alive_sum len now bs
unfolding insert lookup bucket_at pick
alive_sum-insert len now k b [] = rw (alive_sum-cons len now k b []) (
    ground (
      arith,
      zero-+ℤ (pos 0),
      +ℤ-zero (b.sum +ℤ alive_sum len now []),
      +ℤ-zero (pos 0 +ℤ alive_sum len now []),
    ))
alive_sum-insert len now k b ((j, w) ∷ bs) = elim (Bool-cases (j == k)) [
  | inl hit ↦
      rw (hit, insert, lookup, bucket_at)
        (rw (alive_sum-cons len now k b bs, alive_sum-cons len now j w bs, (==_iff j k).0 hit)
          (omega int_laws))
  | inr miss ↦
      rw (miss, insert, lookup, bucket_at)
        (rw (alive_sum-cons len now j w (insert k b bs), alive_sum-cons len now j w bs)
          (omega (int_laws, parts_of (alive_sum-insert len now k b bs))))
]

pick_add : (c : Bool) (x v s r : ℤ) → r +ℤ pick c x ≡ pick c (x +ℤ v) +ℤ s → r ≡ pick c v +ℤ s
unfolding pick
pick_add true x v s r e = omega (int_laws, parts_of e)
pick_add false x v s r e = omega (int_laws, parts_of e)

-- What holds of a window after a history that ends at `t`.
record Holds (size len t : ℕ) (ps : List (ℕ × ℤ)) (sw : AvgSlidingWindow) : Type 0 where
  sized : sw.bucket_size ≡ size
  long : sw.window_length ≡ len
  ascends : Ascends 0 sw.buckets
  below : Below (round t size) sw.buckets
  consistent : Consistent sw
  sums :
      (now : ℕ)
      → t ≤ now
      → alive_sum len (round now size) sw.buckets ≡ points_sum size len (round now size) ps

-- The part of a history that one `advance` at a later time leaves.
advance-Holds :
    (size len t u : ℕ) (ps : List (ℕ × ℤ)) (sw : AvgSlidingWindow)
    → t ≤ u
    → Holds size len t ps sw
    → Holds size len u ps (advance sw u)
      × ((advance sw u).buckets ≡ alive len (round u size) sw.buckets)
advance-Holds size len t u ps sw order h = (
  record {
    sized = s.0 ∙ h.sized;
    long = s.1 ∙ h.long;
    ascends = rw kept (alive-Ascends len _ 0 sw.buckets h.ascends);
    below = rw kept (
        alive-Below len _ _ sw.buckets
          (Below-mono _ _ sw.buckets (round_mono t u size order) h.below));
    consistent = advance-Consistent sw u h.consistent;
    sums = λ now later. rw kept (
        alive_sum-alive len _ _ sw.buckets (round_mono u now size later)
        ∙ h.sums now (omega arith));
  },
  kept,
)
  where
    s :
        ((advance sw u).bucket_size ≡ sw.bucket_size)
        × ((advance sw u).window_length ≡ sw.window_length)
    s = advance-sizes sw u

    kept : (advance sw u).buckets ≡ alive len (round u size) sw.buckets
    kept =
        advance-buckets sw u
        ∙ rw (h.sized, h.long) (cut-alive len (round u size) 0 sw.buckets h.ascends)

put_point-Holds :
    (size len u : ℕ) (v : ℤ) (ps : List (ℕ × ℤ)) (sw : AvgSlidingWindow)
    → Holds size len u ps sw
    → Consistent (put_point sw (round u size) v)
    → Holds size len u ((u, v) ∷ ps) (put_point sw (round u size) v)
unfolding put_point points_sum pick
put_point-Holds size len u v ps sw h c = record {
  sized = h.sized;
  long = h.long;
  ascends = insert-Ascends 0 (round u size) _ sw.buckets (omega arith) h.below h.ascends;
  below = insert-Below (round u size) _ sw.buckets h.below;
  consistent = c;
  sums = λ now later.
      rw (← h.sums now later)
        (pick_add _ _ v _ _ (alive_sum-insert len (round now size) (round u size) _ sw.buckets));
}

add-Holds :
    (size len t u : ℕ) (v : ℤ) (ps : List (ℕ × ℤ)) (sw : AvgSlidingWindow)
    → 0 < len
    → t ≤ u
    → Holds size len t ps sw
    → Holds size len u ((u, v) ∷ ps) (add sw u v)
unfolding add add_with_time in_window after_start
add-Holds size len t u v ps sw pos_len order h =
    let (g, kept) = advance-Holds size len t u ps sw order h in
    let inside : (ltb (round u (advance sw u).bucket_size)
            (round u (advance sw u).bucket_size + (advance sw u).window_length)
          && leb (round u (advance sw u).bucket_size) (round u (advance sw u).bucket_size))
        ≡ true =
      ground (arith, g.long) in
    let c = put_point-Consistent (advance sw u) (round u size) v g.consistent in
    rw inside (simp g.sized (put_point-Holds size len u v ps (advance sw u) g c))

-- With an empty history after `qs`, the reading is the specified sum.
sum_of-Holds :
    (size len t now : ℕ) (qs : List (ℕ × ℤ)) (sw : AvgSlidingWindow)
    → t ≤ now
    → Holds size len t qs sw
    → (sum_of sw now).1 ≡ points_sum size len (round now size) qs
unfolding sum_of alive_sum
sum_of-Holds size len t now qs sw order h =
    let (g, kept) = advance-Holds size len t now qs sw order h in
    g.consistent.summed ∙ ap total_sum kept ∙ h.sums now order

points_sum-move :
    (size len now u : ℕ) (v : ℤ) (ps qs : List (ℕ × ℤ))
    → points_sum size len now ps +ℤ points_sum size len now ((u, v) ∷ qs)
      ≡ points_sum size len now ((u, v) ∷ ps) +ℤ points_sum size len now qs
unfolding points_sum
points_sum-move size len now u v ps qs = omega int_laws

add_all-sum_of :
    (size len t now : ℕ) (ps qs : List (ℕ × ℤ)) (sw : AvgSlidingWindow)
    → 0 < len
    → Chronological t ps now
    → Holds size len t qs sw
    → (sum_of (add_all sw ps) now).1
      ≡ points_sum size len (round now size) ps +ℤ points_sum size len (round now size) qs
unfolding add_all
add_all-sum_of size len t now [] qs sw l c h =
    sum_of-Holds size len t now qs sw c h ∙ unfold points_sum in sym (zero-+ℤ _)
add_all-sum_of size len t now ((u, v) ∷ ps) qs sw l c h =
    add_all-sum_of size len u now ps ((u, v) ∷ qs) (add sw u v) l c.1
      (add-Holds size len t u v qs sw l c.0 h)
    ∙ points_sum-move size len (round now size) u v ps qs

-- From a new window with any option values, after adding data points at times that do not go back
-- and reading at or after the last of them, `Sum` is the sum of the values of exactly those data
-- points whose time, rounded to the bucket size, lies after the start of the window.
pub sum_of-history :
    (bucket_size window_length now : ℕ) (points : List (ℕ × ℤ))
    → Chronological 0 points now
    → let sw = new_sliding_window bucket_size window_length in
      (sum_of (add_all sw points) now).1
      ≡ points_sum sw.bucket_size sw.window_length (round now sw.bucket_size) points
unfolding new_sliding_window
sum_of-history bucket_size window_length now points c =
    let sw = new_sliding_window bucket_size window_length in
    let start : Holds sw.bucket_size sw.window_length 0 [] sw = record {
      sized = refl;
      long = refl;
      ascends = tt;
      below = tt;
      consistent = record { range = tt; counted = refl; summed = unfold total_sum in refl };
      sums = λ n l. unfold alive_sum total_sum points_sum in refl;
    } in
    add_all-sum_of sw.bucket_size sw.window_length 0 now points [] sw (ground arith) c start
    ∙ unfold points_sum in +ℤ-zero _
