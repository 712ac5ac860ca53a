-- ===== src/Server/Served.antt =====
-- The loop over the batches of `handleBatchRPC`: it fills the slots of their elements.
use bsc_builder_proxyd.Base.{
  ℕ, zero, suc, ◌+◌, ◌*◌, ◌≤◌, ◌<◌, ◌≡◌, sym, ◌∙◌, ap, ◌⊎◌, inl, inr, Bool, List, [], ◌∷◌, String,
  none, some, arith, length, take, drop, All, Bool-cases, Option-cases, length-take, length-drop,
}
use bsc_builder_proxyd.Rpc.{RpcReq, RpcRes}
use bsc_builder_proxyd.Server.Batch.{
  Service, Reply, BatchElem, Batch, Progress, Ending, go_on, expired, receipts_error, crashed,
  ◌>>=◌, create_batch_request, is_receipts_error,
}
use bsc_builder_proxyd.Server.Minibatches.{
  refresh, num_batches, lookup_elems, store, take_reply, handle_reply, forward_minibatch,
  forward_minibatches, run_batch, run_batches,
}
use bsc_builder_proxyd.Server.Slots.{
  Fits, InElems, InBatches, Fits-set, Fits-mono, InElems-take-drop,
}
use bsc_builder_proxyd.Server.Distinct.{
  req_ids, res_ids, DistinctElems, OwnIndex, IsExact, Safe, cons_inj, All-take, All-drop,
  DistinctElems-take, DistinctElems-drop, create_batch_request-Distinct, All-create_batch_request,
  length-create_batch_request, error_responses-ids, refresh-SameElems,
}

module _ {L C W : Type 0} (s : Service L C W) (asked : RpcReq → Type 0) (ids : List String) where
  bind-Safe :
      (mid rest : ℕ → Type 0) (m : Ending C W) (f : Progress C W → Ending C W)
      → Safe s asked ids mid m
      → ((p : Progress C W) → Fits ids mid p.slots → Safe s asked ids rest (f p))
      → Safe s asked ids rest (m >>= f)
  bind-Safe mid rest (go_on p) f h k = k p h
  bind-Safe mid rest (expired p) f h k = h
  bind-Safe mid rest (receipts_error p e) f h k = h
  bind-Safe mid rest crashed f h k = h

  store-Safe :
      (rest : ℕ → Type 0) (es : List BatchElem) (res : List RpcRes) (p : Progress C W)
      → All (OwnIndex ids) es
      → res_ids res ≡ req_ids (create_batch_request es)
      → Fits ids (λ i. InElems es i ⊎ rest i) p.slots
      → Safe s asked ids rest (store s es res p)
  unfolding store create_batch_request
  store-Safe rest [] res p own h f = Fits-mono f (λ i w. elim w [ inl x ↦ absurd x | inr x ↦ x ])
  store-Safe rest (e ∷ es) [] p own h f = absurd (cc)
  store-Safe rest (e ∷ es) (r ∷ res) p own h f =
      let (same, others) = cons_inj h in
      store-Safe rest es res _ own.1 others (
        Fits-set e.index r f (own.0 ∙ ap some (sym same))
          (λ j n w. elim w [ inl (inl x) ↦ absurd (n x) | inl (inr x) ↦ inl x | inr x ↦ inr x ]))

  lookup_elems-All :
      (P : BatchElem → Type 0) (es : List BatchElem) (p : Progress C W)
      → All P es
      → All P (lookup_elems s es p).1
  unfolding lookup_elems
  lookup_elems-All P [] p h = tt
  lookup_elems-All P (e ∷ es) p h = elim (Option-cases (s.get_rpc p.cache e.req)) [
    | inl x ↦ rw (x, lookup_elems) (h.0, lookup_elems-All P es p h.1)
    | inr (r, x) ↦ rw (x, lookup_elems) (lookup_elems-All P es _ h.1)
  ]

  lookup_elems-Distinct :
      (es : List BatchElem) (p : Progress C W)
      → DistinctElems es
      → DistinctElems (lookup_elems s es p).1
  unfolding lookup_elems
  lookup_elems-Distinct [] p h = tt
  lookup_elems-Distinct (e ∷ es) p h = elim (Option-cases (s.get_rpc p.cache e.req)) [
    | inl x ↦ rw (x, lookup_elems) (lookup_elems-All _ es p h.0, lookup_elems-Distinct es p h.1)
    | inr (r, x) ↦ rw (x, lookup_elems) (lookup_elems-Distinct es _ h.1)
  ]

  -- The slots of the hits are filled, and those of the misses wait.
  lookup_elems-Fits :
      (exact : IsExact s) (rest : ℕ → Type 0) (es : List BatchElem) (p : Progress C W)
      → All (OwnIndex ids) es
      → Fits ids (λ i. InElems es i ⊎ rest i) p.slots
      → Fits ids (λ i. InElems (lookup_elems s es p).1 i ⊎ rest i) (lookup_elems s es p).0.slots
  unfolding lookup_elems
  lookup_elems-Fits exact rest [] p own f = f
  lookup_elems-Fits exact rest (e ∷ es) p own f = elim (Option-cases (s.get_rpc p.cache e.req)) [
    | inl x ↦
        rw (x, lookup_elems)
          (Fits-mono
            (lookup_elems-Fits exact (λ i. (i ≡ e.index) ⊎ rest i) es p own.1
              (Fits-mono f (λ i w. elim w [
                | inl (inl y) ↦ inr (inl y)
                | inl (inr y) ↦ inl y
                | inr y ↦ inr (inr y)
              ])))
            (λ i w. elim w [
              | inl y ↦ inl (inr y)
              | inr (inl y) ↦ inl (inl y)
              | inr (inr y) ↦ inr y
            ]))
    | inr (r, x) ↦
        rw (x, lookup_elems)
          (lookup_elems-Fits exact rest es _ own.1 (
            Fits-set e.index r f (own.0 ∙ ap some (sym (exact.cache_own p.cache e.req r x)))
              (λ j n w. elim w [
                | inl (inl y) ↦ absurd (n y)
                | inl (inr y) ↦ inl y
                | inr y ↦ inr y
              ])))
  ]

  handle_reply-Safe :
      (rest : ℕ → Type 0) (es : List BatchElem) (p : Progress C W) (reply : Reply W)
      → All (OwnIndex ids) es
      → Fits ids (λ i. InElems es i ⊎ rest i) p.slots
      → req_ids reply.requests ≡ req_ids (create_batch_request es)
      → (reply.error ≡ none → res_ids reply.res ≡ req_ids (create_batch_request es))
      → Safe s asked ids rest (handle_reply s es p reply)
  unfolding handle_reply
  handle_reply-Safe rest es p reply own f same answered =
      let r = refresh-SameElems es reply.requests same in
      let f' : Fits ids (λ i. InElems (refresh es reply.requests) i ⊎ rest i) p.slots =
        Fits-mono f (λ i w. elim w [ inl x ↦ inl (r.within i x) | inr x ↦ inr x ]) in
      elim (Option-cases reply.error) [
        | inl x ↦
            rw (x, handle_reply)
              (store-Safe rest _ reply.res (take_reply p reply) (r.own ids own)
                (answered x ∙ sym r.same_ids) f')
        | inr (e, x) ↦ elim (Bool-cases (is_receipts_error e.kind)) [
          | inl k ↦ rw (x, handle_reply) (rw (k, handle_reply) k)
          | inr k ↦
              rw (x, handle_reply)
                (rw (k, handle_reply)
                  (store-Safe rest _ _ (take_reply p reply) (r.own ids own)
                    (error_responses-ids s.to_any e _) f'))
        ]
      ]

  forward_minibatch-Safe :
      (exact : IsExact s) (rest : ℕ → Type 0) (group : String) (is_batch : Bool)
      (es : List BatchElem) (p : Progress C W)
      → 0 < length es
      → length es ≤ s.max_upstream_batch_size
      → DistinctElems es
      → All (OwnIndex ids) es
      → All (λ e. asked e.req) es
      → Fits ids (λ i. InElems es i ⊎ rest i) p.slots
      → Safe s asked ids rest (forward_minibatch s group is_batch es p)
  unfolding forward_minibatch
  forward_minibatch-Safe exact rest group is_batch es p some_es few distinct own from f =
      let n = length-create_batch_request es in
      elim (exact.forward_own p.world group (create_batch_request es) is_batch (omega (arith, n))
        (omega (arith, n)) (create_batch_request-Distinct es distinct)) [
          | inl x ↦
              rw (x, forward_minibatch)
                (
                  p.world,
                  group,
                  create_batch_request es,
                  is_batch,
                  omega (arith, n),
                  All-create_batch_request asked es from,
                  x,
                )
          | inr (reply, x, same, answered) ↦
              rw (x, forward_minibatch) (handle_reply-Safe rest es p reply own f same answered)
        ]

  -- `n` minibatches hold the elements, and `n - 1` do not.
  forward_minibatches-Safe :
      (exact : IsExact s) (rest : ℕ → Type 0) (n : ℕ) (group : String) (is_batch : Bool)
      (es : List BatchElem) (p : Progress C W)
      → length es ≤ n * s.max_upstream_batch_size
      → n * s.max_upstream_batch_size < length es + s.max_upstream_batch_size
      → DistinctElems es
      → All (OwnIndex ids) es
      → All (λ e. asked e.req) es
      → Fits ids (λ i. InElems es i ⊎ rest i) p.slots
      → Safe s asked ids rest (forward_minibatches s n group is_batch es p)
  unfolding forward_minibatches
  forward_minibatches-Safe exact rest zero group is_batch [] p enough tight distinct own from f =
      Fits-mono f (λ i w. elim w [ inl x ↦ absurd x | inr x ↦ x ])
  forward_minibatches-Safe exact rest zero group is_batch (e ∷ es) p enough tight distinct own from
        f =
      absurd (omega arith)
  forward_minibatches-Safe exact rest (suc n) group is_batch es p enough tight distinct own from f =
      let max = s.max_upstream_batch_size in
      let pos = exact.some_batch in
      let l = length-take max es in
      let d = length-drop max es in
      let t : suc n * max ≡ n * max + max = grind arith in
      elim (Bool-cases (s.is_expired p.world)) [
        | inl x ↦ rw (x, forward_minibatches) x
        | inr x ↦
            rw (x, forward_minibatches)
              (bind-Safe (λ i. InElems (drop max es) i ⊎ rest i) rest _ _
                (forward_minibatch-Safe exact (λ i. InElems (drop max es) i ⊎ rest i) group is_batch
                  (take max es) p (omega arith) (omega arith) (DistinctElems-take max es distinct)
                  (All-take _ max es own) (All-take _ max es from)
                  (Fits-mono f (λ i w. elim w [
                    | inl y ↦ elim (InElems-take-drop max es i y) [
                      | inl z ↦ inl z
                      | inr z ↦ inr (inl z)
                    ]
                    | inr y ↦ inr (inr y)
                  ])))
                (λ p' f'.
                  forward_minibatches-Safe exact rest n group is_batch (drop max es) p'
                    (omega arith) (omega arith) (DistinctElems-drop max es distinct)
                    (All-drop _ max es own) (All-drop _ max es from) f'))
      ]

  num_batches_enough :
      (n max : ℕ) → 0 < max → (n ≤ num_batches n max * max) × (num_batches n max * max < n + max)
  unfolding num_batches
  num_batches_enough n max h = grind arith

  run_batch-Safe :
      (exact : IsExact s) (rest : ℕ → Type 0) (is_batch : Bool) (b : Batch) (p : Progress C W)
      → DistinctElems b.elems
      → All (OwnIndex ids) b.elems
      → All (λ e. asked e.req) b.elems
      → Fits ids (λ i. InElems b.elems i ⊎ rest i) p.slots
      → Safe s asked ids rest (run_batch s is_batch b p)
  unfolding run_batch
  run_batch-Safe exact rest is_batch b p distinct own from f =
      let (p', misses) = lookup_elems s b.elems p in
      let (enough, tight) = num_batches_enough (length misses) _ exact.some_batch in
      forward_minibatches-Safe exact rest _ b.backend_group is_batch misses p' enough tight
        (lookup_elems-Distinct b.elems p distinct) (lookup_elems-All _ b.elems p own)
        (lookup_elems-All _ b.elems p from) (lookup_elems-Fits exact rest b.elems p own f)

  pub run_batches-Safe :
      (exact : IsExact s) (is_batch : Bool) (bs : List Batch) (p : Progress C W)
      → All
          (λ b. DistinctElems b.elems × All (OwnIndex ids) b.elems × All (λ e. asked e.req) b.elems)
          bs
      → Fits ids (InBatches bs) p.slots
      → Safe s asked ids (λ i. ⊥) (run_batches s is_batch bs p)
  unfolding run_batches
  run_batches-Safe exact is_batch [] p h f = f
  run_batches-Safe exact is_batch (b ∷ bs) p h f =
      bind-Safe (InBatches bs) (λ i. ⊥) _ _
        (run_batch-Safe exact (InBatches bs) is_batch b p h.0.0 h.0.1 h.0.2 f)
        (λ p' f'. run_batches-Safe exact is_batch bs p' h.1 f')
