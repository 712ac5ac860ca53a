-- ===== src/Server/Slots.antt =====
-- The slots of the responses of a call: which are filled, with whose response, and which wait.
use bsc_builder_proxyd.Base.{
  ℕ, zero, suc, ◌≡◌, ◌≢◌, refl, sym, ◌∙◌, ap, subst, ◌⊎◌, inl, inr, List, [], ◌∷◌, String, Option,
  none, some, arith, length, length-set, get_elem?, set, take, drop, some_inj,
}
use bsc_builder_proxyd.Rpc.{RpcRes}
use bsc_builder_proxyd.Server.Batch.{BatchElem, Batch}

-- A filled slot holds a response with the id of its request, and the indices of the empty slots are
-- among those that wait.
pub record Fits (ids : List String) (waits : ℕ → Type 0) (slots : List (Option RpcRes))
    : Type 0 where
  pub same_length : length slots ≡ length ids
  pub own_id :
      (i : ℕ) (r : RpcRes) → get_elem? slots i ≡ some (some r) → get_elem? ids i ≡ some r.id
  pub waiting : (i : ℕ) → get_elem? slots i ≡ some none → waits i

abbrev pub InElems : List BatchElem → ℕ → Type 0
InElems [] i = ⊥
InElems (e ∷ es) i = (i ≡ e.index) ⊎ InElems es i

abbrev pub InBatches : List Batch → ℕ → Type 0
InBatches [] i = ⊥
InBatches (b ∷ bs) i = InElems b.elems i ⊎ InBatches bs i

module _ {A : Type 0} where
  pub get_elem?-set_cases :
      (xs : List A) (i j : ℕ) (v w : A)
      → get_elem? (set xs i v) j ≡ some w
      → ((j ≡ i) × (v ≡ w)) ⊎ ((j ≢ i) × (get_elem? xs j ≡ some w))
  get_elem?-set_cases [] i j v w h = cc
  get_elem?-set_cases (x ∷ xs) zero zero v w h = inl (refl, some_inj h)
  get_elem?-set_cases (x ∷ xs) zero (suc j) v w h = inr (λ e. absurd (omega arith), h)
  get_elem?-set_cases (x ∷ xs) (suc i) zero v w h = inr (λ e. absurd (omega arith), h)
  get_elem?-set_cases (x ∷ xs) (suc i) (suc j) v w h = elim (get_elem?-set_cases xs i j v w h) [
    | inl (e, p) ↦ inl (ap suc e, p)
    | inr (n, p) ↦ inr (λ e. n (omega arith), p)
  ]

pub Fits-set :
    {ids : List String} {waits rest : ℕ → Type 0} {slots : List (Option RpcRes)} (i : ℕ)
    (r : RpcRes)
    → Fits ids waits slots
    → get_elem? ids i ≡ some r.id
    → ((j : ℕ) → j ≢ i → waits j → rest j)
    → Fits ids rest (set slots i (some r))
Fits-set {ids} {slots} i r f own smaller = record {
  same_length = length-set slots i (some r) ∙ f.same_length;
  own_id = λ j r' h. elim (get_elem?-set_cases slots i j (some r) (some r') h) [
    | inl (e, p) ↦
        subst (λ k. get_elem? ids k ≡ some r'.id) (sym e)
          (own ∙ ap some (ap (λ q. q.id) (some_inj p)))
    | inr (n, p) ↦ f.own_id j r' p
  ];
  waiting = λ j h. elim (get_elem?-set_cases slots i j (some r) none h) [
    | inl (e, p) ↦ absurd (cc)
    | inr (n, p) ↦ smaller j n (f.waiting j p)
  ];
}

pub Fits-mono :
    {ids : List String} {waits rest : ℕ → Type 0} {slots : List (Option RpcRes)}
    → Fits ids waits slots
    → ((j : ℕ) → waits j → rest j)
    → Fits ids rest slots
Fits-mono f h = record {
  same_length = f.same_length;
  own_id = f.own_id;
  waiting = λ i e. h i (f.waiting i e);
}

pub InElems-take-drop :
    (n : ℕ) (es : List BatchElem) (i : ℕ)
    → InElems es i
    → InElems (take n es) i ⊎ InElems (drop n es) i
InElems-take-drop zero es i h = inr h
InElems-take-drop (suc n) [] i h = absurd h
InElems-take-drop (suc n) (e ∷ es) i (inl h) = inl (inl h)
InElems-take-drop (suc n) (e ∷ es) i (inr h) = elim (InElems-take-drop n es i h) [
  | inl t ↦ inl (inr t)
  | inr d ↦ inr d
]
