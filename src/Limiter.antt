-- ===== src/Limiter.antt =====
-- frontend_rate_limiter.go. `time.Now().Truncate(dur).Unix()` is the argument `trunc_ts`; what Redis
-- answers to the pipeline is the argument of the limiter that uses it.
pub mod Quota
use bsc_builder_proxyd.Base.{
  ℕ, ◌+◌, ◌-◌, Bool, true, false, Option, none, some, String, if◌then◌else◌, ltb, ◌==◌, List, [],
  ◌∷◌, lookup, insert, string_eq,
}

pub record LimitedKeys : Type 0 where
  pub trunc_ts : ℕ
  pub keys : List (String × ℕ)

unfoldable pub new_limited_keys : ℕ → LimitedKeys
new_limited_keys t = record { trunc_ts = t; keys = [] }

abbrev pub used : Option ℕ → ℕ
used none = 0
used (some n) = n

-- The count grows whether or not the limit could be taken.
unfoldable pub limited_keys_take : LimitedKeys → String → ℕ → LimitedKeys × Bool
limited_keys_take l key max =
    let val = used (lookup key l.keys) in
    (record l { keys = insert key (val + 1) l.keys }, ltb val max)

pub record MemoryFrontendRateLimiter : Type 0 where
  pub curr_generation : Option LimitedKeys
  pub max : ℕ

unfoldable pub new_memory_frontend_rate_limit : ℕ → MemoryFrontendRateLimiter
new_memory_frontend_rate_limit max = record { curr_generation = none; max = max }

-- The generation to count in: a new one if there is none or time has gone on.
unfoldable pub generation : Option LimitedKeys → ℕ → LimitedKeys
generation none trunc_ts = new_limited_keys trunc_ts
generation (some l) trunc_ts = if l.trunc_ts == trunc_ts then l else new_limited_keys trunc_ts

unfoldable pub memory_take :
    MemoryFrontendRateLimiter → ℕ → String → MemoryFrontendRateLimiter × Bool
memory_take m trunc_ts key =
    let (l, ok_take) = limited_keys_take (generation m.curr_generation trunc_ts) key m.max in
    (record m { curr_generation = some l }, ok_take)

-- The count after `Incr`, or an error; `incr.Val()-1 < max`.
unfoldable pub redis_take : Option ℕ → ℕ → Option Bool
redis_take none max = none
redis_take (some n) max = some (ltb (n - 1) max)

unfoldable pub noop_take : Option Bool
noop_take = some true

-- `none` is an error; the second limiter is asked only then.
unfoldable pub fallback_take : Option Bool → Option Bool → Option Bool
fallback_take none secondary = secondary
fallback_take (some ok_take) secondary = some ok_take
