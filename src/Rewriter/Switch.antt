-- ===== src/Rewriter/Switch.antt =====
-- What one block parameter is changed to.
use bsc_builder_proxyd.Base.{
  ℕ, ◌<◌, ◌≡◌, ◌≢◌, refl, sym, ap, ◌∙◌, subst, ◌⊎◌, inl, inr, Bool, true, false, ◌||◌, Option, none,
  some, String, if◌then◌else◌, arith, ℤ, pos, pos_part, neg_part, ltb_ℤ, ◌≤ℤ◌, Option-cases,
  eq_of_parts, lt→ltb,
}
use bsc_builder_proxyd.Json.{Json, null, boolean, number, text, array, object, Items, as_text}
use bsc_builder_proxyd.Rewriter.{
  Codec, RewriteContext, BlockNumberOrHash, with_number, to_int64, Change, keep, put, refuse,
  switch, switch_block, rewrite_tag, block_out_of_range, eqb_ℤ, rewrite_tag_block_number_or_hash,
}
use bsc_builder_proxyd.Rewriter.Params.{json_change, change_text, change_block, change_param}

-- What the rewriter relies on: marshalled params are read back as they were, and so is a block
-- number, written as a quantity or as an object.
pub record IsLawful (codec : Codec) : Type 0 where
  pub round_trip :
      (p : Items) (s : String) → codec.marshal_items p ≡ some s → codec.unmarshal_items s ≡ some p
  pub parse_encoded :
      (n : ℕ)
      → n < 9223372036854775808
      → codec.parse (text (codec.encode_uint64 n)) ≡ some (with_number (pos n))
  pub parse_marshalled :
      (n : ℕ)
      → n < 9223372036854775808
      → codec.parse (codec.marshal_block (with_number (pos n))) ≡ some (with_number (pos n))

-- A context whose blocks fit an int64.
pub record Fits (rctx : RewriteContext) : Type 0 where
  pub latest_fits : rctx.latest < 9223372036854775808
  pub safe_fits : rctx.safe < 9223372036854775808
  pub finalized_fits : rctx.finalized < 9223372036854775808

-- A block number that may be forwarded: pending, earliest, one of the consensus's own, or a block
-- that is none of the tags and not after the latest.
abbrev pub Within : Codec → RewriteContext → ℤ → Type 0
Within codec rctx n =
    (n ≡ codec.pending)
    ⊎ (n ≡ codec.earliest)
    ⊎ (n ≡ pos rctx.latest)
    ⊎ (n ≡ pos rctx.safe)
    ⊎ (n ≡ pos rctx.finalized)
    ⊎ ((n ≢ codec.latest) × (n ≢ codec.safe) × (n ≢ codec.finalized) × (n ≤ℤ pos rctx.latest))

-- A parameter all of whose readings are within.
abbrev pub IsCompliant : Codec → RewriteContext → Json → Type 0
IsCompliant codec rctx v =
    (bnh : BlockNumberOrHash) (n : ℤ)
    → codec.parse v ≡ some bnh
    → bnh.block_number ≡ some n
    → Within codec rctx n

eq_by_parts : (a b : ℤ) → eqb_ℤ a b ≡ true → a ≡ b
eq_by_parts a b h = eq_of_parts a b (ground arith)

parts_differ : (a b : ℤ) → eqb_ℤ a b ≡ false → a ≢ b
parts_differ a b h e = ground (arith, ap pos_part e, ap neg_part e)

-- The branches of `switch`, for any outcome of its tests.
branches : (p q f s l g : Bool) (rctx : RewriteContext) → Change ℕ
branches p q f s l g rctx =
    if p || q
    then keep
    else if f
    then put rctx.finalized
    else if s
    then put rctx.safe
    else if l
    then put rctx.latest
    else if g
    then refuse block_out_of_range
    else keep

branches-keep :
    (p q f s l g : Bool) (rctx : RewriteContext)
    → branches p q f s l g rctx ≡ keep
    → (p ≡ true) ⊎ (q ≡ true) ⊎ ((f ≡ false) × (s ≡ false) × (l ≡ false) × (g ≡ false))
unfolding branches
branches-keep p q f s l g rctx h = ground arith

branches-put :
    (p q f s l g : Bool) (rctx : RewriteContext) (k : ℕ)
    → branches p q f s l g rctx ≡ put k
    → (k ≡ rctx.latest) ⊎ (k ≡ rctx.safe) ⊎ (k ≡ rctx.finalized)
unfolding branches
branches-put p q f s l g rctx k h = ground arith

module _ (codec : Codec) (lawful : IsLawful codec) (rctx : RewriteContext) (fits : Fits rctx) where
  switch-branches :
      (n : ℤ)
      → switch codec rctx n
        ≡ branches
            (eqb_ℤ n codec.pending)
            (eqb_ℤ n codec.earliest)
            (eqb_ℤ n codec.finalized)
            (eqb_ℤ n codec.safe)
            (eqb_ℤ n codec.latest)
            (ltb_ℤ (to_int64 rctx.latest) n)
            rctx
  unfolding switch branches
  switch-branches n = refl

  switch-keep : (n : ℤ) → switch codec rctx n ≡ keep → Within codec rctx n
  unfolding to_int64
  switch-keep n h = elim (branches-keep _ _ _ _ _ _ rctx (sym (switch-branches n) ∙ h)) [
    | inl e ↦ inl (eq_by_parts n codec.pending e)
    | inr (inl e) ↦ inr (inl (eq_by_parts n codec.earliest e))
    | inr (inr (f, s, l, g)) ↦ inr (
        inr (
          inr (
            inr (
              inr (
                parts_differ n codec.latest l,
                parts_differ n codec.safe s,
                parts_differ n codec.finalized f,
                ground (arith, fits.latest_fits),
              )))))
  ]

  -- What is put in is a block of the consensus.
  Own : ℕ → Type 0
  Own k = (k < 9223372036854775808) × Within codec rctx (pos k)

  switch-put : (n : ℤ) (k : ℕ) → switch codec rctx n ≡ put k → Own k
  unfolding Own
  switch-put n k h = elim (branches-put _ _ _ _ _ _ rctx k (sym (switch-branches n) ∙ h)) [
    | inl e ↦ (omega (arith, fits.latest_fits), inr (inr (inl (ap pos e))))
    | inr (inl e) ↦ (omega (arith, fits.safe_fits), inr (inr (inr (inl (ap pos e)))))
    | inr (inr e) ↦ (omega (arith, fits.finalized_fits), inr (inr (inr (inr (inl (ap pos e))))))
  ]

  switch_block-keep :
      {A : Type 0} (f : ℕ → A) (o : Option ℤ) (n : ℤ)
      → switch_block f codec rctx o ≡ keep
      → o ≡ some n
      → Within codec rctx n
  unfolding switch_block
  switch_block-keep f none n h e = absurd (cc)
  switch_block-keep f (some m) n h e =
      let same : m ≡ n = ground (arith, e) in
      subst (Within codec rctx) same (switch-keep m (ground (arith, h)))

  switch_block-put :
      {A : Type 0} (f : ℕ → A) (o : Option ℤ) (a : A)
      → switch_block f codec rctx o ≡ put a
      → (k : ℕ) × (a ≡ f k) × Own k
  unfolding switch_block
  switch_block-put f none a h = absurd (cc)
  switch_block-put f (some m) a h = from_change (switch codec rctx m) refl
    where
      from_change : (c : Change ℕ) → switch codec rctx m ≡ c → (k : ℕ) × (a ≡ f k) × Own k
      from_change keep e = absurd (ground (arith, h, e))
      from_change (refuse x) e = absurd (ground (arith, h, e))
      from_change (put k) e = (k, ground (arith, h, e), switch-put m k e)

  -- A quantity that is put in is read as itself.
  parses_once :
      (v : Json) (k : ℕ)
      → codec.parse v ≡ some (with_number (pos k))
      → Own k
      → IsCompliant codec rctx v
  unfolding Own with_number
  parses_once v k e own bnh n p q = subst (Within codec rctx) (ground (arith, e, p, q)) own.1

  -- The outcome for one value: left and compliant, or replaced by one that is.
  unfoldable pub Good : Json → Change Json → Type 0
  Good v keep = IsCompliant codec rctx v
  Good v (put w) = IsCompliant codec rctx w
  Good v (refuse e) = Unit {0}

  block-Good :
      {A : Type 0} (f : ℕ → A) (to_json : A → Json) (v : Json) (bnh : BlockNumberOrHash)
      → ((k : ℕ)
          → k < 9223372036854775808
          → codec.parse (to_json (f k)) ≡ some (with_number (pos k)))
      → codec.parse v ≡ some bnh
      → Good v (json_change to_json (switch_block f codec rctx bnh.block_number))
  block-Good {A} f to_json v bnh reads e =
      from_change (switch_block f codec rctx bnh.block_number) refl
    where
      from_change :
          (c : Change A)
          → switch_block f codec rctx bnh.block_number ≡ c
          → Good v (json_change to_json c)
      from_change keep h =
          unfold Good in
          λ bnh' n p q. switch_block-keep f bnh.block_number n h (ground (arith, e, p, q))
      from_change (refuse x) h = unfold Good in tt
      from_change (put a) h =
          let (k, same, own) = switch_block-put f bnh.block_number a h in
          unfold Good Own in
          parses_once (to_json a) k (ap (λ b. codec.parse (to_json b)) same ∙ reads k own.0) own

  rewrite_tag-Good : (s : String) → Good (text s) (json_change text (rewrite_tag codec rctx s))
  unfolding rewrite_tag
  rewrite_tag-Good s = elim (Option-cases (codec.parse (text s))) [
    | inl e ↦ rw (e, rewrite_tag) (unfold Good in tt)
    | inr (bnh, e) ↦
        rw (e, rewrite_tag)
          (block-Good codec.encode_uint64 text (text s) bnh lawful.parse_encoded e)
  ]

  change_text-Good : (v : Json) → Good v (change_text codec rctx (as_text v))
  unfolding change_text
  change_text-Good (text s) = rewrite_tag-Good s
  change_text-Good null = unfold Good in tt
  change_text-Good (boolean b) = unfold Good in tt
  change_text-Good (number n) = unfold Good in tt
  change_text-Good (array vs) = unfold Good in tt
  change_text-Good (object fs) = unfold Good in tt

  reads_number :
      (k : ℕ)
      → k < 9223372036854775808
      → codec.parse (codec.marshal_block (with_number (to_int64 k))) ≡ some (with_number (pos k))
  unfolding to_int64
  reads_number k h = rw (lt→ltb k 9223372036854775808 h) (lawful.parse_marshalled k h)

  change_block-Good : (v : Json) → Good v (change_block codec rctx v)
  unfolding change_block rewrite_tag_block_number_or_hash
  change_block-Good v = elim (Option-cases (codec.parse v)) [
    | inl e ↦ rw (e, change_block) (change_text-Good v)
    | inr (bnh, e) ↦
        rw (e, change_block)
          (block-Good (λ n. with_number (to_int64 n)) codec.marshal_block v bnh reads_number e)
  ]

  pub change_param-Good : (b : Bool) (v : Json) → Good v (change_param codec rctx b v)
  unfolding change_param
  change_param-Good true v = change_block-Good v
  change_param-Good false v = change_text-Good v
