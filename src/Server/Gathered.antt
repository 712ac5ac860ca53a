-- ===== src/Server/Gathered.antt =====
-- The first loop of `handleBatchRPC`: each request is answered or waits in a batch in which no other
-- has its id.
use bsc_builder_proxyd.Base.{
  ℕ, zero, suc, ◌+◌, ◌≤◌, ◌<◌, ◌≡◌, ◌≢◌, sym, ◌∙◌, ap, ◌⊎◌, inl, inr, Bool, true, List, [], ◌∷◌,
  String, none, some, arith, length, get_elem?, All, map, dec_lt, string_eq,
}
use bsc_builder_proxyd.Rpc.{RpcReq, RpcRes}
use bsc_builder_proxyd.Server.Batch.{
  Service, BatchElem, Outcome, respond, healthy, queue, Collected, Collecting, collected,
  health_reply, collect_from, enqueue, answer_here,
}
use bsc_builder_proxyd.Server.Slots.{Fits, InBatches, Fits-set, Fits-mono}
use bsc_builder_proxyd.Server.Classified.{expected_id, OutcomeHas, classify-Has}
use bsc_builder_proxyd.Server.Separate.{Separate, add_elem-InBatches, add_elem-Separate}

Nat-split : (i j : ℕ) → i ≤ j → (j ≡ i) ⊎ (suc i ≤ j)
Nat-split i j h = elim (dec_lt i j) [ yes p ↦ inr p | no p ↦ inl (omega arith) ]

next_le : (i j : ℕ) → i ≤ j → j ≢ i → suc i ≤ j
next_le i j h n = elim (Nat-split i j h) [ inl e ↦ absurd (n e) | inr p ↦ p ]

pub get_elem?_bound :
    {A : Type 0} (xs : List A) (i : ℕ) (x : A) → get_elem? xs i ≡ some x → i < length xs
get_elem?_bound [] i x h = absurd (cc)
get_elem?_bound (y ∷ xs) zero x h = omega arith
get_elem?_bound (y ∷ xs) (suc i) x h = omega (arith, get_elem?_bound xs i x h)

-- After the requests below `i`: their slots are filled or wait in a batch.
pub record Gathered {L : Type 0} (ids : List String) (i : ℕ) (k : Collected L) : Type 0 where
  pub fits : Fits ids (λ j. (i ≤ j) ⊎ InBatches k.batches j) k.responses
  pub separate : All (Separate ids k.ids) k.batches

module _ {L : Type 0} (ids : List String) (i : ℕ) (k : Collected L) (g : Gathered ids i k) where
  enqueue-Gathered :
      (group : String) (req : RpcReq)
      → get_elem? ids i ≡ some req.id
      → Gathered ids (suc i) (enqueue i group req k)
  unfolding enqueue
  enqueue-Gathered group req own =
      let e : BatchElem = record { req = req; index = i } in
      record {
        fits = Fits-mono g.fits (λ j w. elim w [
          | inl le ↦ elim (Nat-split i j le) [
            | inl same ↦ inr (add_elem-InBatches _ group e k.batches j (inr same))
            | inr above ↦ inl above
          ]
          | inr x ↦ inr (add_elem-InBatches _ group e k.batches j (inl x))
        ]);
        separate = add_elem-Separate ids k.ids e group k.batches own g.separate;
      }

  answer_here-Gathered :
      (r : RpcRes) → get_elem? ids i ≡ some r.id → Gathered ids (suc i) (answer_here i r k)
  unfolding answer_here
  answer_here-Gathered r own = record {
    fits =
        Fits-set i r g.fits own
          (λ j n w. elim w [ inl le ↦ inl (next_le i j le n) | inr x ↦ inr x ]);
    separate = g.separate;
  }

of_limits :
    {L : Type 0} (ids : List String) (i : ℕ) (k : Collected L) (l : L)
    → Gathered ids i k
    → Gathered ids i (record k { limits = l })
of_limits ids i k l g = record { fits = g.fits; separate = g.separate }

-- With no request left only those in the batches wait.
rest_answered :
    {L : Type 0} (ids : List String) (i : ℕ) (k : Collected L)
    → Gathered ids i k
    → i ≡ length ids
    → Fits ids (InBatches k.batches) k.responses
rest_answered ids i k g n = record {
  same_length = g.fits.same_length;
  own_id = g.fits.own_id;
  waiting = λ j h. elim (g.fits.waiting j h) [
    | inl le ↦ absurd (omega (arith, get_elem?_bound k.responses j none h, g.fits.same_length))
    | inr x ↦ x
  ];
}

-- The requests from `i` on.
abbrev Rest : List String → ℕ → List String → Type 0
Rest ids i rest =
    (i + length rest ≡ length ids) × ((j : ℕ) → get_elem? ids (i + j) ≡ get_elem? rest j)

abbrev pub Ready : {L : Type 0} → List String → Bool → Collecting L → Type 0
Ready ids single (collected k) =
    Fits ids (InBatches k.batches) k.responses × All (Separate ids k.ids) k.batches
Ready ids single (health_reply l r) = (single ≡ true) × ((j : ℕ) × (get_elem? ids j ≡ some r.id))

module _ {L C W : Type 0} (s : Service L C W) (single : Bool) (ids : List String) where
  Ready-outcome :
      (i : ℕ) (raw : String) (raws : List String) (k : Collected L) (l : L) (o : Outcome)
      → Gathered ids i k
      → get_elem? ids i ≡ some (expected_id s single raw)
      → OutcomeHas single (expected_id s single raw) o
      → ((k' : Collected L)
          → Gathered ids (suc i) k'
          → Ready ids single (collect_from s single (suc i) raws k'))
      → Ready ids single (elim o [
        | respond res ↦
            collect_from s single (suc i) raws (answer_here i res (record k { limits = l }))
        | healthy res ↦ health_reply l res
        | queue group req ↦
            collect_from s single (suc i) raws (enqueue i group req (record k { limits = l }))
      ])
  unfolding OutcomeHas
  Ready-outcome i raw raws k l (respond res) g own has rest =
      rest _ (answer_here-Gathered ids i _ (of_limits ids i k l g) res (own ∙ ap some (sym has)))
  Ready-outcome i raw raws k l (healthy res) g own has rest =
      (has.0, (i, own ∙ ap some (sym has.1)))
  Ready-outcome i raw raws k l (queue group req) g own has rest =
      rest _ (enqueue-Gathered ids i _ (of_limits ids i k l g) group req (own ∙ ap some (sym has)))

  pub collect_from-Ready :
      (i : ℕ) (raws : List String) (k : Collected L)
      → Rest ids i (map (expected_id s single) raws)
      → Gathered ids i k
      → Ready ids single (collect_from s single i raws k)
  unfolding collect_from
  collect_from-Ready i [] k (n, at) g = (rest_answered ids i k g (omega arith), g.separate)
  collect_from-Ready i (raw ∷ raws) k (n, at) g =
      Ready-outcome i raw raws k _ _ g (ap (get_elem? ids) (omega arith) ∙ at 0)
        (classify-Has s single k.limits raw)
        (λ k'.
          collect_from-Ready (suc i) raws k'
            (omega arith, λ j. ap (get_elem? ids) (omega arith) ∙ at (suc j)))
