-- ===== src/Limiter/Quota.antt =====
-- How many requests a limiter lets through.
use Prim.Native.Nat.{min}
use bsc_builder_proxyd.Base.{
  ℕ, ◌+◌, ◌≡◌, refl, Bool, true, false, Option, none, some, String, if◌then◌else◌, ltb, List, [],
  ◌∷◌, lookup, insert, lookup-insert, string_eq, eqb, arith, Bool-cases, inl, inr, ◌-◌, ◌∙◌, ap,
  ==_iff, ◌≢◌,
}
use bsc_builder_proxyd.Limiter.{
  LimitedKeys, new_limited_keys, used, limited_keys_take, MemoryFrontendRateLimiter, generation,
  memory_take, new_memory_frontend_rate_limit,
}

-- Requests of a time slice, each by its key, with the limiter's answers.
unfoldable pub take_all :
    MemoryFrontendRateLimiter → ℕ → List String → MemoryFrontendRateLimiter × List Bool
take_all m ts [] = (m, [])
take_all m ts (k ∷ ks) =
    let (m', b) = memory_take m ts k in let (m'', bs) = take_all m' ts ks in (m'', b ∷ bs)

-- How many of the requests with one key were let through, and how many there were.
unfoldable pub granted : String → List String → List Bool → ℕ
granted k [] bs = 0
granted k (j ∷ js) [] = 0
granted k (j ∷ js) (b ∷ bs) = (if eqb j k then (if b then 1 else 0) else 0) + granted k js bs

unfoldable pub asked : String → List String → ℕ
asked k [] = 0
asked k (j ∷ js) = (if eqb j k then 1 else 0) + asked k js

-- The count of a key in the generation of a time slice.
count_at : MemoryFrontendRateLimiter → ℕ → String → ℕ
count_at m ts k = used (lookup k (generation m.curr_generation ts).keys)

generation_ts : (c : Option LimitedKeys) (ts : ℕ) → (generation c ts).trunc_ts ≡ ts
unfolding generation new_limited_keys
generation_ts none ts = refl
generation_ts (some l) ts = ground arith

generation-some : (l : LimitedKeys) (ts : ℕ) → l.trunc_ts ≡ ts → generation (some l) ts ≡ l
unfolding generation
generation-some l ts h = rw ((==_iff l.trunc_ts ts).1 h) refl

memory_take-count :
    (m : MemoryFrontendRateLimiter) (ts : ℕ) (j k : String)
    → count_at (memory_take m ts j).0 ts k
      ≡ (if eqb j k then count_at m ts j + 1 else count_at m ts k)
unfolding count_at memory_take limited_keys_take
memory_take-count m ts j k =
    let g = generation m.curr_generation ts in
    let n = used (lookup j g.keys) + 1 in
    let g' : LimitedKeys = record g { keys = insert j n g.keys } in
    ap (λ h. used (lookup k h.keys)) (generation-some g' ts (generation_ts m.curr_generation ts))
    ∙ rw (lookup-insert j k n g.keys) (if_used (eqb j k) n (lookup k g.keys))
  where
    if_used :
        (b : Bool) (n : ℕ) (o : Option ℕ)
        → used (if b then some n else o) ≡ (if b then n else used o)
    if_used true n o = refl
    if_used false n o = refl

memory_take-max :
    (m : MemoryFrontendRateLimiter) (ts : ℕ) (j : String) → (memory_take m ts j).0.max ≡ m.max
unfolding memory_take
memory_take-max m ts j = refl

memory_take-answer :
    (m : MemoryFrontendRateLimiter) (ts : ℕ) (j : String)
    → (memory_take m ts j).1 ≡ ltb (count_at m ts j) m.max
unfolding memory_take limited_keys_take count_at
memory_take-answer m ts j = refl

take_all-min :
    (m : MemoryFrontendRateLimiter) (ts : ℕ) (k : String) (ks : List String)
    → granted k ks (take_all m ts ks).1 ≡ min (asked k ks) (m.max - count_at m ts k)
unfolding granted asked take_all
take_all-min m ts k [] = omega arith
take_all-min m ts k (j ∷ js) =
    let m' = (memory_take m ts j).0 in
    let ih = take_all-min m' ts k js in
    let mx = memory_take-max m ts j in
    elim (Bool-cases (eqb j k)) [
      | inl e ↦
          let same : count_at m ts j ≡ count_at m ts k =
            ap (count_at m ts) ((string_eq.beq_iff j k).0 e) in
          let c : count_at m' ts k ≡ count_at m ts j + 1 = memory_take-count m ts j k ∙ rw e refl in
          rw (e, memory_take-answer m ts j) (ground (arith, ih, mx, c, same))
      | inr e ↦
          let c : count_at m' ts k ≡ count_at m ts k = memory_take-count m ts j k ∙ rw e refl in
          rw e (omega (arith, ih, mx, c))
    ]

-- A new limiter lets through, of the requests of one time slice, exactly as many with a key as
-- there are, up to the limit; requests with other keys between them do not count.
pub take_all-granted :
    (max ts : ℕ) (k : String) (ks : List String)
    → granted k ks (take_all (new_memory_frontend_rate_limit max) ts ks).1 ≡ min (asked k ks) max
unfolding new_memory_frontend_rate_limit
take_all-granted max ts k ks =
    take_all-min (new_memory_frontend_rate_limit max) ts k ks ∙ omega (arith, fresh)
  where
    fresh : count_at (new_memory_frontend_rate_limit max) ts k ≡ 0
    fresh = unfold count_at generation new_limited_keys lookup in refl

-- When the time slice changes, every key starts anew: whatever was counted before, the requests of
-- the new slice are let through up to the limit.
pub take_all_reset :
    (m : MemoryFrontendRateLimiter) (l : LimitedKeys) (ts : ℕ) (k : String) (ks : List String)
    → m.curr_generation ≡ some l
    → l.trunc_ts ≢ ts
    → granted k ks (take_all m ts ks).1 ≡ min (asked k ks) m.max
take_all_reset m l ts k ks e other = take_all-min m ts k ks ∙ omega (arith, fresh)
  where
    fresh : count_at m ts k ≡ 0
    fresh = unfold count_at generation new_limited_keys lookup in rw e (ground (arith, other))
