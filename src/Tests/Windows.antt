-- ===== src/Tests/Windows.antt =====
-- A window of 10 ns in buckets of 2 ns; a limiter of two requests.
use bsc_builder_proxyd.Base.{
  ℕ, ◌≡◌, refl, List, [], ◌∷◌, String, lookup, insert, remove, string_eq, nat_eq, ℤ, pos, negsuc,
  ◌+ℤ◌, ◌-ℤ◌, arith,
}
use Prim.Native.Nat.{min}
use bsc_builder_proxyd.Window.{
  AvgSlidingWindow, new_sliding_window, add, add_with_time, sum_of, count, clear, round, advance,
  advance_from, evict, in_window, after_start, put_point, bucket_at,
}
use bsc_builder_proxyd.Window.Sums.{Consistent, total_sum}
use bsc_builder_proxyd.Window.History.{add_all, points_sum, sum_of-history}
use bsc_builder_proxyd.Window.Clear.{count-clear}
use bsc_builder_proxyd.Limiter.{LimitedKeys, new_memory_frontend_rate_limit}
use bsc_builder_proxyd.Limiter.Quota.{take_all, granted, asked, take_all-granted}

abbrev points : List (ℕ × ℤ)
points = (3, pos 5) ∷ (4, pos 2) ∷ (9, negsuc 0) ∷ (14, pos 8) ∷ []

history_run : (sum_of (add_all (new_sliding_window 2 10) points) 15).1 ≡ pos 7
unfolding sum_of add_all new_sliding_window add add_with_time in_window put_point bucket_at advance
    advance_from after_start evict round lookup insert remove ◌+ℤ◌ ◌-ℤ◌
history_run = refl

sum_of-history_example :
    (sum_of (add_all (new_sliding_window 2 10) points) 15).1 ≡ points_sum 2 10 (round 15 2) points
unfolding new_sliding_window
sum_of-history_example =
    sum_of-history 2 10 15 points
      (omega arith, (omega arith, (omega arith, (omega arith, omega arith))))

abbrev window : AvgSlidingWindow
window = record {
  bucket_size = 2;
  window_length = 10;
  buckets = (4, record { sum = pos 7; qty = 2 }) ∷ (10, record { sum = pos 1; qty = 1 }) ∷ [];
  qty = 3;
  sum = pos 8;
}

window-Consistent : Consistent window
unfolding total_sum ◌+ℤ◌
window-Consistent = record {
  range = (omega arith, (omega arith, tt));
  counted = refl;
  summed = refl;
}

count-clear_example : (count (clear window) 14).1 ≡ 18446744073709551614
unfolding round
count-clear_example =
    count-clear window 4 10 14 (record { sum = pos 7; qty = 2 }) (record { sum = pos 1; qty = 1 })
      [] refl (omega arith) (omega arith) (omega arith) (omega arith)

abbrev requests : List String
requests = "a" ∷ "b" ∷ "a" ∷ "a" ∷ []

take_all-granted_example :
    granted "a" requests (take_all (new_memory_frontend_rate_limit 2) 60 requests).1
    ≡ min (asked "a" requests) 2
take_all-granted_example = take_all-granted 2 60 "a" requests

abbrev spent : LimitedKeys
spent = record { trunc_ts = 60; keys = ("a", 9) ∷ [] }
