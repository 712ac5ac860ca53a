-- ===== src/Exchange/Order.antt =====
-- The responses of an exchange come in the order of the requests.
use mathlib.Core.List.{Permᴰ}
use bsc_builder_proxyd.Base.{
  ℕ, suc, ◌≤◌, ◌≡◌, ◌≢◌, refl, sym, ◌∙◌, ap, subst, inl, inr, false, List, [], ◌∷◌, String, some,
  arith, map, leb, string_eq, All, All-Perm, Bool-cases, get_elem?, some_inj, ℕ_discrete,
}
use bsc_builder_proxyd.Rpc.{RpcReq, RpcRes}
use bsc_builder_proxyd.Exchange.Sorting.{
  insert_by, sort_by, position, position_key, occurs, has_duplicate, sort_batch_rpc_response,
}

module _ {A B : Type 0} (f : A → B) (key : B → ℕ) where
  insert_by-map :
      (x : A) (xs : List A)
      → map f (insert_by (λ a. key (f a)) x xs) ≡ insert_by key (f x) (map f xs)
  unfolding insert_by
  insert_by-map x [] = refl
  insert_by-map x (y ∷ ys) = elim (Bool-cases (leb (key (f x)) (key (f y)))) [
    | inl h ↦ rw h refl
    | inr h ↦ rw h (ap (◌∷◌ (f y)) (insert_by-map x ys))
  ]

  sort_by-map : (xs : List A) → map f (sort_by (λ a. key (f a)) xs) ≡ sort_by key (map f xs)
  unfolding sort_by
  sort_by-map [] = refl
  sort_by-map (x ∷ xs) =
      insert_by-map x (sort_by (λ a. key (f a)) xs) ∙ ap (insert_by key (f x)) (sort_by-map xs)

module _ {A : Type 0} (key : A → ℕ) where
  insert_by_swap :
      (x y : A) (l : List A)
      → key x ≢ key y
      → insert_by key x (insert_by key y l) ≡ insert_by key y (insert_by key x l)
  unfolding insert_by
  insert_by_swap x y [] n = ground arith
  insert_by_swap x y (z ∷ l) n = ground (arith, insert_by_swap x y l n)

  -- Values that their keys tell apart can be inserted in either order.
  insert_by_comm :
      (x y : A) (l : List A)
      → (key x ≡ key y → x ≡ y)
      → insert_by key x (insert_by key y l) ≡ insert_by key y (insert_by key x l)
  insert_by_comm x y l apart = elim (ℕ_discrete (key x) (key y)) [
    | yes p ↦
        subst (λ c. insert_by key x (insert_by key c l) ≡ insert_by key c (insert_by key x l))
          (apart p) refl
    | no n ↦ insert_by_swap x y l n
  ]

  sort_by-Perm :
      (P : A → Type 0) {xs ys : List A}
      → ((x y : A) → P x → P y → key x ≡ key y → x ≡ y)
      → Permᴰ xs ys
      → All P xs
      → sort_by key xs ≡ sort_by key ys
  unfolding sort_by
  sort_by-Perm P inj Permᴰ.nil h = refl
  sort_by-Perm P inj (Permᴰ.cons {a = a} {l₂ = l₂} e p) h =
      ap (insert_by key a) (sort_by-Perm P inj p h.1) ∙ ap (λ c. insert_by key c (sort_by key l₂)) e
  sort_by-Perm P inj (Permᴰ.swap {a = a} {b = b} {a' = a'} {l = l} d e) h =
      insert_by_comm a b (sort_by key l) (inj a b h.0 h.1.0)
      ∙ ap (λ c. insert_by key c (insert_by key a (sort_by key l))) e
      ∙ ap (λ c. insert_by key a' (insert_by key c (sort_by key l))) d
  sort_by-Perm P inj (Permᴰ.trans p q) h =
      sort_by-Perm P inj p h ∙ sort_by-Perm P inj q (All-Perm P p h)

  Ascending : List A → Type 0
  Ascending [] = Unit
  Ascending (x ∷ xs) = All (λ y. key x ≤ key y) xs × Ascending xs

  insert_by_least :
      (x : A) (xs : List A) → All (λ y. key x ≤ key y) xs → insert_by key x xs ≡ x ∷ xs
  unfolding insert_by
  insert_by_least x [] h = refl
  insert_by_least x (y ∷ ys) h = ground (arith, h.0)

  sort_by-Ascending : (xs : List A) → Ascending xs → sort_by key xs ≡ xs
  unfolding sort_by Ascending
  sort_by-Ascending [] h = refl
  sort_by-Ascending (x ∷ xs) h =
      ap (insert_by key x) (sort_by-Ascending xs h.1) ∙ insert_by_least x xs h.0

abbrev Placed : List String → String → Type 0
Placed ids x = (i : ℕ) × (position x ids ≡ some i) × (get_elem? ids i ≡ some x)

Placed-head : (ids : List String) (x : String) → Placed (x ∷ ids) x
unfolding position
Placed-head ids x = (0, ground (arith, string_eq.beq_iff x x), refl)

position_key-head : (ids : List String) (x : String) → position_key (x ∷ ids) x ≡ 0
unfolding position_key position
position_key-head ids x = ground (arith, string_eq.beq_iff x x)

-- A place in the tail is one in the whole.
Placed-tail : (ids : List String) (y x : String) → y ≢ x → Placed ids x → Placed (y ∷ ids) x
unfolding position
Placed-tail ids y x n (i, p, e) = (suc i, ground (arith, string_eq.beq_iff y x, p, n), e)

Placed-inj :
    (ids : List String) (x y : String)
    → Placed ids x
    → Placed ids y
    → position_key ids x ≡ position_key ids y
    → x ≡ y
unfolding position_key
Placed-inj ids x y (i, p, e) (j, q, f) same =
    let k : i ≡ j = ground (arith, p, q, same) in some_inj (sym e ∙ ap (get_elem? ids) k ∙ f)

abbrev pub DistinctIds : List String → Type 0
DistinctIds [] = Unit
DistinctIds (x ∷ xs) = All (λ y. x ≢ y) xs × DistinctIds xs

All-Placed-tail :
    (ids xs : List String) (y : String)
    → All (λ x. y ≢ x) xs
    → All (Placed ids) xs
    → All (Placed (y ∷ ids)) xs
All-Placed-tail ids [] y n h = tt
All-Placed-tail ids (x ∷ xs) y n h = (Placed-tail ids y x n.0 h.0, All-Placed-tail ids xs y n.1 h.1)

All-Placed : (ids : List String) → DistinctIds ids → All (Placed ids) ids
All-Placed [] d = tt
All-Placed (x ∷ ids) d = (Placed-head ids x, All-Placed-tail ids ids x d.0 (All-Placed ids d.1))

position_key-tail :
    (ids : List String) (y x : String)
    → y ≢ x
    → Placed ids x
    → position_key (y ∷ ids) x ≡ suc (position_key ids x)
unfolding position_key position
position_key-tail ids y x n (i, p, e) = ground (arith, string_eq.beq_iff y x, p, n)

Ascending-tail :
    (ids xs : List String) (y : String)
    → All (λ x. y ≢ x) xs
    → All (Placed ids) xs
    → Ascending (position_key ids) xs
    → Ascending (position_key (y ∷ ids)) xs
unfolding Ascending
Ascending-tail ids [] y n p h = tt
Ascending-tail ids (x ∷ xs) y n p h = (least xs n.1 p.1 h.0, Ascending-tail ids xs y n.1 p.1 h.1)
  where
    least :
        (zs : List String)
        → All (λ z. y ≢ z) zs
        → All (Placed ids) zs
        → All (λ z. position_key ids x ≤ position_key ids z) zs
        → All (λ z. position_key (y ∷ ids) x ≤ position_key (y ∷ ids) z) zs
    least [] m q k = tt
    least (z ∷ zs) m q k = (
      omega (arith, position_key-tail ids y x n.0 p.0, position_key-tail ids y z m.0 q.0),
      least zs m.1 q.1 k.1,
    )

-- The ids of the requests are in the order of their positions.
Ascending-self : (ids : List String) → DistinctIds ids → Ascending (position_key ids) ids
unfolding Ascending
Ascending-self [] d = tt
Ascending-self (x ∷ ids) d =
    (first ids, Ascending-tail ids ids x d.0 (All-Placed ids d.1) (Ascending-self ids d.1))
  where
    first : (zs : List String) → All (λ z. position_key (x ∷ ids) x ≤ position_key (x ∷ ids) z) zs
    first [] = tt
    first (z ∷ zs) = (omega (arith, position_key-head ids x), first zs)

All-occurs : (x : String) (xs : List String) → All (λ y. x ≢ y) xs → occurs x xs ≡ false
unfolding occurs
All-occurs x [] h = refl
All-occurs x (y ∷ xs) h = ground (arith, string_eq.beq_iff x y, h.0, All-occurs x xs h.1)

has_duplicate-distinct : (ids : List String) → DistinctIds ids → has_duplicate ids ≡ false
unfolding has_duplicate
has_duplicate-distinct [] d = refl
has_duplicate-distinct (x ∷ ids) d =
    ground (arith, All-occurs x ids d.0, has_duplicate-distinct ids d.1)

-- Responses whose ids are those of the requests, in some order, come out in the requests' order.
pub sort_batch_rpc_response-order :
    (reqs : List RpcReq) (res : List RpcRes)
    → DistinctIds (map (λ q. q.id) reqs)
    → Permᴰ (map (λ q. q.id) reqs) (map (λ r. r.id) res)
    → (out : List RpcRes) × (sort_batch_rpc_response reqs res ≡ some out)
      × (map (λ r. r.id) out ≡ map (λ q. q.id) reqs)
unfolding sort_batch_rpc_response
sort_batch_rpc_response-order reqs res d perm =
    let ids = map (λ q. q.id) reqs in
    (
      sort_by (λ r. position_key ids r.id) res,
      ground (arith, has_duplicate-distinct ids d),
      sort_by-map (λ r. r.id) (position_key ids) res
          ∙ sym (
              sort_by-Perm (position_key ids) (Placed ids) (Placed-inj ids) perm (All-Placed ids d))
          ∙ sort_by-Ascending (position_key ids) ids (Ascending-self ids d),
    )
