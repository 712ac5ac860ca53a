-- ===== src/Rewriter/Limits.antt =====
-- The size of a range that `rewriteRange` lets through.
use bsc_builder_proxyd.Base.{
  ℕ, ◌≤◌, ◌<◌, ◌≡◌, ◌≢◌, refl, ◌⊎◌, inl, inr, Bool, true, false, ◌||◌, Option, none, some, List,
  ◌∷◌, ◌∙◌, arith, is_some, Option-cases, Bool-cases, String, eqb, string_eq,
}
use bsc_builder_proxyd.Json.{Json, null, boolean, number, text, array, object, Fields, field_of}
use bsc_builder_proxyd.Rpc.{RpcReq}
use bsc_builder_proxyd.Rewriter.{
  Codec, RewriteContext, Change, keep, put, refuse, rewrite_tag, Rewritten, RewriteError,
  rewrite_override_error,
}
use bsc_builder_proxyd.Rewriter.Ranges.{
  TagMap, tag_map, tag_error, block_number, distance, check_distance, check_range, finish_range,
  then_to, then_from, changed_field, rewrite_tag_value, rewrite_tag_map, rewrite_first,
  default_ends,
}

-- The two ends of a map as numbers, no further apart than the limit.
abbrev pub IsBounded : Codec → RewriteContext → Fields → Type 0
IsBounded codec rctx m =
    (from : ℕ) × (to : ℕ) × (block_number codec m "fromBlock" rctx.latest ≡ some from)
    × (block_number codec m "toBlock" rctx.latest ≡ some to)
    × (distance from to ≤ rctx.max_block_range)

-- The request is the old one and the map its own, or the request carries the map.
abbrev pub Carries : Codec → RpcReq → Fields → List Fields → Fields → Rewritten → Type 0
Carries codec req own ms m w =
    ((w.request ≡ req) × (m ≡ own)) ⊎ (codec.marshal_maps (m ∷ ms) ≡ some w.request.params)

module _ (codec : Codec) (rctx : RewriteContext) where
  changed_field-same :
      (key : String) (m m' : Fields) (c : Change String)
      → changed_field key m c ≡ tag_map m' false
      → m' ≡ m
  changed_field-same key m m' keep h = cc
  changed_field-same key m m' (put s) h = absurd (cc)
  changed_field-same key m m' (refuse e) h = absurd (cc)

  rewrite_tag_value-same :
      (m m' : Fields) (key : String) (v : Option Json)
      → rewrite_tag_value codec rctx m key v ≡ tag_map m' false
      → m' ≡ m
  unfolding rewrite_tag_value
  rewrite_tag_value-same m m' key none h = cc
  rewrite_tag_value-same m m' key (some (text s)) h = elim (Bool-cases (eqb s "")) [
    | inl x ↦ let e : tag_map m false ≡ tag_map m' false = rw x at h in cc
    | inr x ↦ changed_field-same key m m' (rewrite_tag codec rctx s) (rw x at h)
  ]
  rewrite_tag_value-same m m' key (some null) h = cc
  rewrite_tag_value-same m m' key (some (boolean b)) h = absurd (cc)
  rewrite_tag_value-same m m' key (some (number n)) h = absurd (cc)
  rewrite_tag_value-same m m' key (some (array vs)) h = absurd (cc)
  rewrite_tag_value-same m m' key (some (object fs)) h = absurd (cc)

  -- A map that was not modified is the map as it was.
  rewrite_tag_map-same :
      (m m' : Fields) (key : String) → rewrite_tag_map codec rctx m key ≡ tag_map m' false → m' ≡ m
  unfolding rewrite_tag_map
  rewrite_tag_map-same m m' key h = rewrite_tag_value-same m m' key (field_of key m) h

module _ (codec : Codec) (rctx : RewriteContext) (req : RpcReq) (ms : List Fields) where
  check_distance-IsBounded :
      (m : Fields) (from to : Option ℕ)
      → block_number codec m "fromBlock" rctx.latest ≡ from
      → block_number codec m "toBlock" rctx.latest ≡ to
      → check_distance rctx from to ≡ none
      → IsBounded codec rctx m
  unfolding check_distance
  check_distance-IsBounded m none to f t h = absurd (cc)
  check_distance-IsBounded m (some a) none f t h = absurd (cc)
  check_distance-IsBounded m (some a) (some b) f t h = (a, b, f, t, ground arith)

  check_range-IsBounded :
      (m : Fields)
      → 0 < rctx.max_block_range
      → check_range codec rctx true m ≡ none
      → IsBounded codec rctx m
  unfolding check_range
  check_range-IsBounded m pos_max h = check_distance-IsBounded m _ _ refl refl (ground (arith, h))

  finish_range-Carries :
      (own m : Fields) (modified : Bool) (e : Option RewriteError)
      → (modified ≡ false → m ≡ own)
      → (finish_range codec req ms m modified e).result ≢ rewrite_override_error
      → (e ≡ none) × Carries codec req own ms m (finish_range codec req ms m modified e)
  unfolding finish_range
  finish_range-Carries own m modified (some e) same h = absurd (h refl)
  finish_range-Carries own m true none same h = elim (Option-cases (codec.marshal_maps (m ∷ ms))) [
    | inl x ↦ absurd (h (rw x))
    | inr (s, x) ↦ (refl, inr (rw x))
  ]
  finish_range-Carries own m false none same h = (refl, inl (refl, same refl))

  Limited : Fields → Rewritten → Type 0
  Limited own w = (m : Fields) × IsBounded codec rctx m × Carries codec req own ms m w

  then_to-Limited :
      (own : Fields) (modified : Bool) (t : TagMap)
      → ((m : Fields) (b : Bool) → t ≡ tag_map m b → (modified || b) ≡ false → m ≡ own)
      → 0 < rctx.max_block_range
      → (then_to codec rctx req ms true modified t).result ≢ rewrite_override_error
      → Limited own (then_to codec rctx req ms true modified t)
  unfolding Limited
  then_to-Limited own modified (tag_error e) same p h = absurd (h refl)
  then_to-Limited own modified (tag_map m b) same p h =
      let (ok_range, carries) =
        finish_range-Carries own m (modified || b) (check_range codec rctx true m) (same m b refl)
          h in
      (m, check_range-IsBounded m p ok_range, carries)

  then_from-Limited :
      (own : Fields) (t : TagMap)
      → ((m : Fields) → t ≡ tag_map m false → m ≡ own)
      → 0 < rctx.max_block_range
      → (then_from codec rctx req ms true t).result ≢ rewrite_override_error
      → Limited own (then_from codec rctx req ms true t)
  then_from-Limited own (tag_error e) same p h = absurd (h refl)
  then_from-Limited own (tag_map m b) same p h = then_to-Limited own b _ (later m b same) p h
    where
      later :
          (m : Fields) (b : Bool)
          → ((m1 : Fields) → tag_map m b ≡ tag_map m1 false → m1 ≡ own)
          → (m2 : Fields) (c : Bool) → rewrite_tag_map codec rctx m "toBlock" ≡ tag_map m2 c
          → (b || c) ≡ false
          → m2 ≡ own
      later m false same m2 false x y =
          rewrite_tag_map-same codec rctx m m2 "toBlock" x ∙ same m refl
      later m true same m2 c x y = absurd (cc)
      later m false same m2 true x y = absurd (cc)

  -- The filter, with `latest` for the end that it does not name.
  abbrev pub own_range : Fields → Fields
  own_range m = default_ends (is_some (field_of "fromBlock" m)) (is_some (field_of "toBlock" m)) m

  -- Where a limit is set and the filter names a first or a last block, a filter that is let through
  -- has both ends as numbers and the last is at most the limit after the first, counting on 64 bits: in
  -- the map that the forwarded request carries or, where the request was left as it was, in its own
  -- filter, with `latest` for an end that it does not name.
  pub rewrite_first-Limited :
      (m : Fields)
      → (is_some (field_of "fromBlock" m) || is_some (field_of "toBlock" m)) ≡ true
      → 0 < rctx.max_block_range
      → (rewrite_first codec rctx req m ms).result ≢ rewrite_override_error
      → (m' : Fields) × IsBounded codec rctx m'
        × Carries codec req (own_range m) ms m' (rewrite_first codec rctx req m ms)
  unfolding rewrite_first Limited
  rewrite_first-Limited m named p = rw named (λ h.
      then_from-Limited (own_range m) (rewrite_tag_map codec rctx (own_range m) "fromBlock")
        (λ m1 e. rewrite_tag_map-same codec rctx (own_range m) m1 "fromBlock" e) p h)
