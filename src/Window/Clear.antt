-- ===== src/Window/Clear.antt =====
-- What `Clear` leaves behind: the buckets stay, and the totals go wrong when the first one expires.
use bsc_builder_proxyd.Base.{ℕ, ◌+◌, ◌-◌, ◌≤◌, ◌<◌, ◌≡◌, List, ◌∷◌, arith}
use bsc_builder_proxyd.Window.{
  Bucket, AvgSlidingWindow, after_start, advance_from, advance, round, count, clear,
}
use bsc_builder_proxyd.Window.Sums.{evict-cons}

-- After `Clear`, the first eviction that leaves another bucket in the window makes `Count` wrap
-- below zero: it reads 2^64 less the evicted bucket's count. The window is any whose first bucket
-- has expired at `clock`, with a second one still inside.
pub count-clear :
    (sw : AvgSlidingWindow) (j k clock : ℕ) (b c : Bucket) (bs : List (ℕ × Bucket))
    → sw.buckets ≡ (j, b) ∷ (k, c) ∷ bs
    → 0 < b.qty
    → b.qty < 18446744073709551616
    → j + sw.window_length ≤ round clock sw.bucket_size
    → round clock sw.bucket_size < k + sw.window_length
    → (count (clear sw) clock).1 ≡ 18446744073709551616 - b.qty
unfolding count clear advance after_start advance_from
count-clear sw j k clock b c bs e some fits old fresh =
    ground (arith, evict-cons (clear sw) j b (k, c) bs e)
