-- ===== src/Server/Separate.antt =====
-- The batches of `handleBatchRPC`: an element that is added keeps the ids in each batch distinct.
use bsc_builder_proxyd.Base.{
  All-snoc, ℕ, ◌+◌, ◌≤◌, ◌≡◌, ◌≢◌, refl, ap, ◌⊎◌, inl, inr, ◌&&◌, List, [], ◌∷◌, ◌++◌, String, some,
  arith, get_elem?, All, Bool-cases, eqb, string_eq, lookup, insert, lookup-insert,
  lookup-insert_self, ◌==◌,
}
use bsc_builder_proxyd.Server.Batch.{BatchElem, Batch, add_elem, count_of}
use bsc_builder_proxyd.Server.Slots.{InElems, InBatches}
use bsc_builder_proxyd.Server.Distinct.{DistinctElems, OwnIndex}

-- The elements have distinct ids and their own indices, and each is at least that occurrence of its id.
abbrev pub Separate : List String → List (String × ℕ) → Batch → Type 0
Separate ids counts b =
    DistinctElems b.elems
    × All (OwnIndex ids) b.elems
    × All (λ e. b.group_id ≤ count_of (lookup e.req.id counts)) b.elems

module _ (P : BatchElem → Type 0) where
  All-map :
      (Q : BatchElem → Type 0) (es : List BatchElem)
      → ((e : BatchElem) → P e → Q e)
      → All P es
      → All Q es
  All-map Q [] f h = tt
  All-map Q (e ∷ es) f h = (f e h.0, All-map Q es f h.1)

DistinctElems-snoc :
    (es : List BatchElem) (e : BatchElem)
    → DistinctElems es
    → All (λ d. d.req.id ≢ e.req.id) es
    → DistinctElems (es ++ e ∷ [])
DistinctElems-snoc [] e h k = (tt, tt)
DistinctElems-snoc (d ∷ es) e h k = (All-snoc _ es e h.0 k.0, DistinctElems-snoc es e h.1 k.1)

InElems-snoc :
    (es : List BatchElem) (e : BatchElem) (j : ℕ)
    → InElems es j ⊎ (j ≡ e.index)
    → InElems (es ++ e ∷ []) j
InElems-snoc [] e j (inl h) = absurd h
InElems-snoc [] e j (inr h) = inl h
InElems-snoc (d ∷ es) e j (inl (inl h)) = inl h
InElems-snoc (d ∷ es) e j (inl (inr h)) = inr (InElems-snoc es e j (inl h))
InElems-snoc (d ∷ es) e j (inr h) = inr (InElems-snoc es e j (inr h))

pub add_elem-InBatches :
    (n : ℕ) (group : String) (e : BatchElem) (bs : List Batch) (j : ℕ)
    → InBatches bs j ⊎ (j ≡ e.index)
    → InBatches (add_elem n group e bs) j
unfolding add_elem
add_elem-InBatches n group e [] j (inl h) = absurd h
add_elem-InBatches n group e [] j (inr h) = inl (inl h)
add_elem-InBatches n group e (b ∷ bs) j h =
    elim (Bool-cases (b.group_id == n && eqb b.backend_group group)) [
      | inl x ↦
          rw (x, add_elem)
            (elim h [
              | inl (inl y) ↦ inl (InElems-snoc b.elems e j (inl y))
              | inl (inr y) ↦ inr y
              | inr y ↦ inl (InElems-snoc b.elems e j (inr y))
            ])
      | inr x ↦
          rw (x, add_elem)
            (elim h [
              | inl (inl y) ↦ inl y
              | inl (inr y) ↦ inr (add_elem-InBatches n group e bs j (inl y))
              | inr y ↦ inr (add_elem-InBatches n group e bs j (inr y))
            ])
    ]

module _ (ids : List String) (counts : List (String × ℕ)) (e : BatchElem) where
  abbrev next : ℕ
  next = count_of (lookup e.req.id counts) + 1

  abbrev counted : List (String × ℕ)
  counted = insert e.req.id next counts

  counted_le : (id : String) → count_of (lookup id counts) ≤ count_of (lookup id counted)
  counted_le id =
      ground (arith, lookup-insert e.req.id id next counts, string_eq.beq_iff e.req.id id)

  counted_self : count_of (lookup e.req.id counted) ≡ next
  counted_self = rw (lookup-insert_self e.req.id next counts) refl

  Separate-counted : (b : Batch) → Separate ids counts b → Separate ids counted b
  Separate-counted b (d, o, c) = (
    d,
    o,
    All-map _ _ b.elems
        (λ f (h : b.group_id ≤ count_of (lookup f.req.id counts)).
          omega (arith, counted_le f.req.id))
        c,
  )

  All-weaken : (bs : List Batch) → All (Separate ids counts) bs → All (Separate ids counted) bs
  All-weaken [] h = tt
  All-weaken (b ∷ bs) h = (Separate-counted b h.0, All-weaken bs h.1)

  -- An element with the new one's id is an earlier occurrence, so it is in another batch.
  Separate-snoc :
      (b : Batch)
      → get_elem? ids e.index ≡ some e.req.id
      → b.group_id ≡ next
      → Separate ids counts b
      → Separate ids counted (record b { elems = b.elems ++ e ∷ [] })
  Separate-snoc b own n h =
      let (d, o, c) = Separate-counted b h in
      (
        DistinctElems-snoc b.elems e d (
            All-map _ _ b.elems
              (λ f (k : b.group_id ≤ count_of (lookup f.req.id counts)) same.
                absurd (omega (arith, ap (λ x. count_of (lookup x counts)) same)))
              h.2),
        All-snoc _ b.elems e o own,
        All-snoc _ b.elems e c (omega (arith, counted_self)),
      )

  pub add_elem-Separate :
      (group : String) (bs : List Batch)
      → get_elem? ids e.index ≡ some e.req.id
      → All (Separate ids counts) bs
      → All (Separate ids counted) (add_elem next group e bs)
  unfolding add_elem
  add_elem-Separate group [] own h = (((tt, tt), (own, tt), (omega (arith, counted_self), tt)), tt)
  add_elem-Separate group (b ∷ bs) own h =
      elim (Bool-cases (b.group_id == next && eqb b.backend_group group)) [
        | inl x ↦ rw (x, add_elem) (Separate-snoc b own (ground (arith, x)) h.0, All-weaken bs h.1)
        | inr x ↦ rw (x, add_elem) (Separate-counted b h.0, add_elem-Separate group bs own h.1)
      ]
