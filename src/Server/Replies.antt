-- ===== src/Server/Replies.antt =====
-- What `handleBatchRPC` returns: a response for each request, in its place and under its id.
use mathlib.Core.List.{Permᴰ}
use bsc_builder_proxyd.Base.{
  ℕ, zero, suc, ◌≡◌, refl, sym, ◌∙◌, ap, subst, inl, inr, Bool, List, [], ◌∷◌, String, Option, true,
  false, none, some, arith, length, get_elem?, All, All-Perm, map, length-map, Option-cases, ◌==◌,
  some_inj,
}
use bsc_builder_proxyd.Rpc.{RpcRes}
use bsc_builder_proxyd.Server.Batch.{
  Service, Batch, Collected, Collecting, collected, health_reply, is_receipts_error, Ending, go_on,
  expired, receipts_error, crashed,
}
use bsc_builder_proxyd.Server.Minibatches.{
  Handled, replied, timed_out, refused, panicked, handle_batch_rpc, no_responses, first_collected,
  first_progress, finish, run_batches,
}
use bsc_builder_proxyd.Server.Slots.{Fits, InElems, InBatches, Fits-mono}
use bsc_builder_proxyd.Server.Distinct.{IsExact, Panics, Safe, DistinctElems, OwnIndex}
use bsc_builder_proxyd.Server.Served.{run_batches-Safe}
use bsc_builder_proxyd.Server.Classified.{expected_id}
use bsc_builder_proxyd.Server.Separate.{Separate}
use bsc_builder_proxyd.Server.Asked.{
  AskedBy, AllAsked, Collects, collect_from-AllAsked, AskedBy-all,
}
use bsc_builder_proxyd.Server.Gathered.{Ready, Gathered, get_elem?_bound, collect_from-Ready}

-- The slot at each request's index holds a response with the id expected for it.
abbrev pub Answers : {L C W : Type 0} → Service L C W → List String → List (Option RpcRes) → Type 0
Answers s raws slots =
    (length slots ≡ length raws)
    × ((i : ℕ) (raw : String)
        → get_elem? raws i ≡ some raw
        → (r : RpcRes) × (get_elem? slots i ≡ some (some r))
          × (r.id ≡ expected_id s (length raws == 1) raw))

-- A call that returns no responses says truly why; one that panics does so in the Forward of a
-- group, on requests that the texts of the call are parsed to.
abbrev pub IsAnswered : {L C W : Type 0} → Service L C W → List String → Handled L C W → Type 0
IsAnswered s raws (replied l c w slots hit by) = Answers s raws slots
IsAnswered s raws (timed_out l c w) = s.is_expired w ≡ true
IsAnswered s raws (refused l c w e) = is_receipts_error e.kind ≡ true
IsAnswered s raws panicked = Panics s (AskedBy s raws)

InBatches-Perm : {bs cs : List Batch} (i : ℕ) → Permᴰ bs cs → InBatches bs i → InBatches cs i
InBatches-Perm i Permᴰ.nil h = h
InBatches-Perm i (Permᴰ.cons e p) (inl h) = inl (subst (λ b. InElems b.elems i) e h)
InBatches-Perm i (Permᴰ.cons e p) (inr h) = inr (InBatches-Perm i p h)
InBatches-Perm i (Permᴰ.swap d e) (inl h) = inr (inl (subst (λ b. InElems b.elems i) d h))
InBatches-Perm i (Permᴰ.swap d e) (inr (inl h)) = inl (subst (λ b. InElems b.elems i) e h)
InBatches-Perm i (Permᴰ.swap d e) (inr (inr h)) = inr (inr h)
InBatches-Perm i (Permᴰ.trans p q) h = InBatches-Perm i q (InBatches-Perm i p h)

get_elem?-map :
    {A B : Type 0} (f : A → B) (xs : List A) (i : ℕ) (x : A)
    → get_elem? xs i ≡ some x
    → get_elem? (map f xs) i ≡ some (f x)
get_elem?-map f [] i x h = absurd (cc)
get_elem?-map f (y ∷ xs) zero x h = ap some (ap f (some_inj h))
get_elem?-map f (y ∷ xs) (suc i) x h = get_elem?-map f xs i x h

slot_exists :
    {A B : Type 0} (xs : List A) (ys : List B) (i : ℕ) (x : A)
    → length ys ≡ length xs
    → get_elem? xs i ≡ some x
    → (y : B) × (get_elem? ys i ≡ some y)
slot_exists [] ys i x n h = absurd (cc)
slot_exists (x' ∷ xs) [] i x n h = absurd (omega arith)
slot_exists (x' ∷ xs) (y ∷ ys) zero x n h = (y, refl)
slot_exists (x' ∷ xs) (y ∷ ys) (suc i) x n h = slot_exists xs ys i x (omega arith) h

no_responses-Fits :
    (raws : List String)
    → (length (no_responses raws) ≡ length raws)
      × ((i : ℕ) (r : RpcRes) → get_elem? (no_responses raws) i ≡ some (some r) → ⊥)
unfolding no_responses
no_responses-Fits [] = (refl, λ i r h. cc)
no_responses-Fits (raw ∷ raws) =
    let (n, f) = no_responses-Fits raws in (ap suc n, λ i r h. first i r h f)
  where
    first :
        (i : ℕ) (r : RpcRes)
        → get_elem? (none ∷ no_responses raws) i ≡ some (some r)
        → ((i : ℕ) (r : RpcRes) → get_elem? (no_responses raws) i ≡ some (some r) → ⊥)
        → ⊥
    first zero r h f = cc
    first (suc i) r h f = f i r h

module _ {L C W : Type 0} (s : Service L C W) (raws : List String) where
  abbrev ids : List String
  ids = map (expected_id s (length raws == 1)) raws

  -- Slots that fit with nothing waiting answer the call.
  Fits-Answers : (slots : List (Option RpcRes)) → Fits ids (λ i. ⊥) slots → Answers s raws slots
  Fits-Answers slots f = (
    f.same_length ∙ length-map raws (expected_id s (length raws == 1)),
    λ i raw h. filled i raw h,
  )
    where
      filled :
          (i : ℕ) (raw : String)
          → get_elem? raws i ≡ some raw
          → (r : RpcRes) × (get_elem? slots i ≡ some (some r))
            × (r.id ≡ expected_id s (length raws == 1) raw)
      filled i raw h =
          let (slot, x) = slot_exists raws slots i raw (f.same_length ∙ length-map raws _) h in
          elim (Option-cases slot) [
            | inl e ↦ absurd (f.waiting i (x ∙ ap some e))
            | inr (r, e) ↦ (
              r,
              x ∙ ap some e,
              some_inj (
                  sym (f.own_id i r (x ∙ ap some e))
                  ∙ get_elem?-map (expected_id s (length raws == 1)) raws i raw h),
            )
          ]

  finish-IsAnswered :
      (l : L) (m : Ending C W)
      → Safe s (AskedBy s raws) ids (λ i. ⊥) m
      → IsAnswered s raws (finish s l m)
  finish-IsAnswered l (go_on p) h = Fits-Answers p.slots h
  finish-IsAnswered l (expired p) h = h
  finish-IsAnswered l (receipts_error p e) h = h
  finish-IsAnswered l crashed h = h

  collected-IsAnswered :
      (exact : IsExact s) (order : List Batch → List Batch) (is_batch : Bool) (c : C) (w : W)
      (k : Collected L)
      → Permᴰ k.batches (order k.batches)
      → Fits ids (InBatches k.batches) k.responses
      → All (Separate ids k.ids) k.batches
      → AllAsked (AskedBy s raws) k.batches
      → IsAnswered s raws
          (finish s k.limits (run_batches s is_batch (order k.batches) (first_progress s c w k)))
  collected-IsAnswered exact order is_batch c w k perm fits separate asked =
      finish-IsAnswered k.limits _ (
        run_batches-Safe s (AskedBy s raws) ids exact is_batch (order k.batches)
          (first_progress s c w k)
          (weaken (order k.batches) (All-Perm _ perm separate) (All-Perm _ perm asked))
          (Fits-mono fits (λ i h. InBatches-Perm i perm h)))
    where
      weaken :
          (bs : List Batch)
          → All (Separate ids k.ids) bs
          → AllAsked (AskedBy s raws) bs
          → All
              (λ b.
                DistinctElems b.elems
                × All (OwnIndex ids) b.elems
                × All (λ e. AskedBy s raws e.req) b.elems)
              bs
      weaken [] h a = tt
      weaken (b ∷ bs) h a = ((h.0.0, h.0.1, a.0), weaken bs h.1 a.1)

  health-Answers :
      (r : RpcRes) (j : ℕ)
      → (length raws == 1) ≡ true
      → get_elem? ids j ≡ some r.id
      → Answers s raws (some r ∷ [])
  health-Answers r j n h =
      let one : length ids ≡ 1 =
        length-map raws (expected_id s (length raws == 1)) ∙ ground arith in
      let first : j ≡ 0 = omega (arith, get_elem?_bound ids j r.id h) in
      Fits-Answers (some r ∷ []) (record {
        same_length = sym one;
        own_id = λ i r' e. own i r' e (subst (λ k. get_elem? ids k ≡ some r.id) first h);
        waiting = λ i e. empty i e;
      })
    where
      own :
          (i : ℕ) (r' : RpcRes)
          → get_elem? (some r ∷ []) i ≡ some (some r')
          → get_elem? ids 0 ≡ some r.id
          → get_elem? ids i ≡ some r'.id
      own zero r' e z = z ∙ ap some (ap (λ q. q.id) (some_inj (some_inj e)))
      own (suc i) r' e z = absurd (cc)

      empty : (i : ℕ) → get_elem? (some r ∷ []) i ≡ some none → ⊥
      empty zero e = cc
      empty (suc i) e = cc

  before_all : (l : L) → Gathered ids 0 (first_collected s l raws)
  before_all l =
      let (n, none_filled) = no_responses-Fits raws in
      record {
        fits = record {
          same_length = n ∙ sym (length-map raws (expected_id s (length raws == 1)));
          own_id = λ i r h. absurd (none_filled i r h);
          waiting = λ i h. inl (omega arith);
        };
        separate = tt;
      }

  handled-IsAnswered :
      (exact : IsExact s) (order : List Batch → List Batch) (is_batch : Bool) (c : C) (w : W)
      (k : Collecting L)
      → ((bs : List Batch) → Permᴰ bs (order bs))
      → Ready ids (length raws == 1) k
      → Collects (AskedBy s raws) k
      → IsAnswered s raws (elim k [
        | health_reply l' res ↦ replied l' c w (some res ∷ []) false ""
        | collected k' ↦
            finish s k'.limits (run_batches s is_batch (order k'.batches) (first_progress s c w k'))
      ])
  handled-IsAnswered exact order is_batch c w (collected k) perm ready asked =
      collected-IsAnswered exact order is_batch c w k (perm k.batches) ready.0 ready.1 asked
  handled-IsAnswered exact order is_batch c w (health_reply l r) perm ready asked =
      health-Answers r ready.1.0 ready.0 ready.1.1

  -- Where the backend groups and the cache keep the promise of `IsExact`, and in whatever order the
  -- batches are ranged over: a call panics only where the Forward of a group panics, on requests that
  -- the texts of the call are parsed to; when it replies, the slot at each request's index
  -- holds a response with the request's id, or with none for a request that cannot be parsed or is
  -- invalid; and it returns without responses only after its deadline or on an error about the
  -- translation of receipts.
  pub handle_batch_rpc-IsAnswered :
      (exact : IsExact s) (order : List Batch → List Batch) (is_batch : Bool) (l : L) (c : C)
      (w : W)
      → ((bs : List Batch) → Permᴰ bs (order bs))
      → IsAnswered s raws (handle_batch_rpc s order is_batch l c w raws)
  unfolding handle_batch_rpc
  handle_batch_rpc-IsAnswered exact order is_batch l c w perm =
      handled-IsAnswered exact order is_batch c w _ perm
        (collect_from-Ready s (length raws == 1) ids 0 raws (first_collected s l raws)
          (omega arith, λ j. ap (get_elem? ids) (omega arith)) (before_all l))
        (collect_from-AllAsked s (length raws == 1) (AskedBy s raws) 0 raws
          (first_collected s l raws) (AskedBy-all s raws) tt)
