-- ===== src/Window.antt =====
-- pkg/avg-sliding-window/sliding.go. Times are nanoseconds counted from Go's zero time, durations
-- nanoseconds, and the clock's answer is an argument of each operation. The proxy feeds its windows
-- with `1` and with whole nanoseconds, so data points are integers; a float64 adds integers exactly
-- below 2^53 in magnitude. `uint` has 64 bits.
pub mod Eviction
pub mod Sums
pub mod History
pub mod Clear
use bsc_builder_proxyd.Base.{
  ℕ, ◌+◌, ◌-◌, ◌%◌, ◌*◌, Bool, true, false, ◌&&◌, not, List, [], ◌∷◌, map, Option, none, some, ℤ,
  pos, ◌+ℤ◌, ◌-ℤ◌, ltb, leb, ◌==◌, if◌then◌else◌, lookup, insert, remove, is_empty, nat_eq,
}

abbrev pub uint : ℕ → ℕ
uint n = n % 18446744073709551616

abbrev pub second : ℕ
second = 1000000000

pub record Bucket : Type 0 where
  pub sum : ℤ
  pub qty : ℕ

pub record AvgSlidingWindow : Type 0 where
  pub bucket_size : ℕ
  pub window_length : ℕ
  pub buckets : List (ℕ × Bucket)
  pub qty : ℕ
  pub sum : ℤ

-- `NewSlidingWindow` with the sizes that its options set, 0 where none does.
unfoldable pub new_sliding_window : ℕ → ℕ → AvgSlidingWindow
new_sliding_window bucket_size window_length = record {
  bucket_size = if bucket_size == 0 then second else bucket_size;
  window_length = if window_length == 0 then 300 * second else window_length;
  buckets = [];
  qty = 0;
  sum = pos 0;
}

-- `time.Time.Round`: to the nearest multiple, halves up.
unfoldable pub round : ℕ → ℕ → ℕ
round t d = let r = t % d in if d == 0 then t else if ltb (r + r) d then t - r else t + (d - r)

-- `windowStart.Before(t)`, where `windowStart` is `now` less the window's length.
unfoldable pub after_start : ℕ → ℕ → ℕ → Bool
after_start window_length now t = ltb now (t + window_length)

unfoldable pub in_window : AvgSlidingWindow → ℕ → ℕ → Bool
in_window sw clock t =
    let now = round clock sw.bucket_size in after_start sw.window_length now t && leb t now

-- The body of the loop in `advance`: the bucket leaves the map, then the totals change.
unfoldable pub evict : ℕ → AvgSlidingWindow → AvgSlidingWindow
evict k sw = elim (lookup k sw.buckets) [
  | none ↦ sw
  | some b ↦
      let rest = remove k sw.buckets in
      if not (is_empty rest)
      then record sw {
        buckets = rest;
        qty = uint (sw.qty + 18446744073709551616 - b.qty);
        sum = sw.sum -ℤ b.sum;
      }
      else record sw { buckets = rest; qty = 0; sum = pos 0 }
]

-- The loop of `advance` over the keys in insertion order; `break` ends it.
unfoldable pub advance_from : ℕ → List ℕ → AvgSlidingWindow → AvgSlidingWindow
advance_from now [] sw = sw
advance_from now (k ∷ ks) sw = elim (after_start sw.window_length now k) [
  | true ↦ sw
  | false ↦ advance_from now ks (evict k sw)
]

unfoldable pub advance : AvgSlidingWindow → ℕ → AvgSlidingWindow
advance sw clock = advance_from (round clock sw.bucket_size) (map (λ e. e.0) sw.buckets) sw

-- The bucket of a key, or a fresh one.
unfoldable pub bucket_at : Option Bucket → Bucket
bucket_at none = record { sum = pos 0; qty = 0 }
bucket_at (some b) = b

-- `AddWithTime` behind its guard.
unfoldable pub put_point : AvgSlidingWindow → ℕ → ℤ → AvgSlidingWindow
unfolding bucket_at
put_point sw key val =
    let b = bucket_at (lookup key sw.buckets) in
    let b' : Bucket = record { sum = b.sum +ℤ val; qty = uint (b.qty + 1) } in
    record sw {
      qty = uint (sw.qty + 1);
      sum = sw.sum -ℤ b.sum +ℤ (b.sum +ℤ val);
      buckets = insert key b' sw.buckets;
    }

unfoldable pub add_with_time : AvgSlidingWindow → ℕ → ℕ → ℤ → AvgSlidingWindow
add_with_time sw clock t val =
    let sw' = advance sw clock in
    let key = round t sw'.bucket_size in
    if in_window sw' clock key then put_point sw' key val else sw'

unfoldable pub add : AvgSlidingWindow → ℕ → ℤ → AvgSlidingWindow
add sw clock val = add_with_time sw clock clock val

unfoldable pub incr : AvgSlidingWindow → ℕ → AvgSlidingWindow
incr sw clock = add sw clock (pos 1)

-- Each reading returns the window that `advance` left behind.
unfoldable pub sum_of : AvgSlidingWindow → ℕ → AvgSlidingWindow × ℤ
sum_of sw clock = let sw' = advance sw clock in (sw', sw'.sum)

unfoldable pub count : AvgSlidingWindow → ℕ → AvgSlidingWindow × ℕ
count sw clock = let sw' = advance sw clock in (sw', sw'.qty)

-- `Avg` as the fraction that the source divides out: a sum over a count, 0 over 1 if it is empty.
unfoldable pub avg : AvgSlidingWindow → ℕ → AvgSlidingWindow × (ℤ × ℕ)
avg sw clock =
    let sw' = advance sw clock in (sw', if sw'.qty == 0 then (pos 0, 1) else (sw'.sum, sw'.qty))

-- `Clear` leaves the buckets.
unfoldable pub clear : AvgSlidingWindow → AvgSlidingWindow
clear sw = record sw { qty = 0; sum = pos 0 }
