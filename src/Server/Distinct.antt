-- ===== src/Server/Distinct.antt =====
-- Requests and elements by their ids, and what a call relies on of the groups and the cache.
use bsc_builder_proxyd.Base.{
  ℕ, zero, suc, ◌≤◌, ◌<◌, ◌≡◌, ◌≢◌, refl, sym, ◌∙◌, ap, inl, inr, ◌⊎◌, Bool, true, List, [], ◌∷◌,
  String, none, some, length, get_elem?, take, drop, All, map,
}
use bsc_builder_proxyd.Rpc.{RpcReq, RpcRes, AnyErr, new_rpc_error_res, rpc, other}
use bsc_builder_proxyd.Routing.{ForwardError}
use bsc_builder_proxyd.Server.Batch.{
  Service, Reply, BatchElem, Ending, go_on, expired, receipts_error, crashed, create_batch_request,
  is_receipts_error, error_responses,
}
use bsc_builder_proxyd.Server.Minibatches.{refresh}
use bsc_builder_proxyd.Server.Slots.{Fits, InElems}

abbrev pub req_ids : List RpcReq → List String
req_ids = map (λ r. r.id)

abbrev pub res_ids : List RpcRes → List String
res_ids = map (λ r. r.id)

-- No two requests have one id.
abbrev pub Distinct : List RpcReq → Type 0
Distinct [] = Unit
Distinct (q ∷ qs) = All (λ r. q.id ≢ r.id) qs × Distinct qs

abbrev pub DistinctElems : List BatchElem → Type 0
DistinctElems [] = Unit
DistinctElems (e ∷ es) = All (λ d. e.req.id ≢ d.req.id) es × DistinctElems es

-- The element's index is that of a request with its id.
abbrev pub OwnIndex : List String → BatchElem → Type 0
OwnIndex ids e = get_elem? ids e.index ≡ some e.req.id

-- What the group and the cache promise: a call with some requests, no more than a minibatch holds and
-- no two with one id, leaves the ids of the requests unless it panics, and without an error it gives
-- each its response, in order. The cache answers a request under its own id.
pub record IsExact {L C W : Type 0} (s : Service L C W) : Type 0 where
  pub some_batch : 0 < s.max_upstream_batch_size
  pub forward_own :
      (w : W) (group : String) (reqs : List RpcReq) (is_batch : Bool)
      → 0 < length reqs
      → length reqs ≤ s.max_upstream_batch_size
      → Distinct reqs
      → (s.forward w group reqs is_batch ≡ none)
        ⊎ ((reply : Reply W) × (s.forward w group reqs is_batch ≡ some reply)
            × (req_ids reply.requests ≡ req_ids reqs)
            × (reply.error ≡ none → res_ids reply.res ≡ req_ids reqs))
  pub cache_own : (c : C) (req : RpcReq) (r : RpcRes) → s.get_rpc c req ≡ some r → r.id ≡ req.id

-- A group's Forward panics on some requests that are asked.
abbrev pub Panics : {L C W : Type 0} → Service L C W → (RpcReq → Type 0) → Type 0
Panics {W = W} s asked =
    (w : W) × (group : String) × (reqs : List RpcReq) × (is_batch : Bool) × (0 < length reqs)
    × All asked reqs
    × (s.forward w group reqs is_batch ≡ none)

-- A call that goes on has its slots right; one that ends has the reason that it gives.
abbrev pub Safe :
    {L C W : Type 0}
    → Service L C W
    → (RpcReq → Type 0)
    → List String
    → (ℕ → Type 0)
    → Ending C W
    → Type 0
Safe s asked ids rest (go_on p) = Fits ids rest p.slots
Safe s asked ids rest (expired p) = s.is_expired p.world ≡ true
Safe s asked ids rest (receipts_error p e) = is_receipts_error e.kind ≡ true
Safe s asked ids rest crashed = Panics s asked

pub new_rpc_error_res-id : (id : String) (e : AnyErr) → (new_rpc_error_res id e).id ≡ id
unfolding new_rpc_error_res
new_rpc_error_res-id id (rpc e) = refl
new_rpc_error_res-id id (other m) = refl

pub cons_inj : {A : Type 0} {x y : A} {xs ys : List A} → x ∷ xs ≡ y ∷ ys → (x ≡ y) × (xs ≡ ys)
cons_inj h = (cc, cc)

module _ {A : Type 0} (P : A → Type 0) where
  pub All-take : (n : ℕ) (xs : List A) → All P xs → All P (take n xs)
  All-take zero xs h = tt
  All-take (suc n) [] h = tt
  All-take (suc n) (x ∷ xs) h = (h.0, All-take n xs h.1)

  pub All-drop : (n : ℕ) (xs : List A) → All P xs → All P (drop n xs)
  All-drop zero xs h = h
  All-drop (suc n) [] h = tt
  All-drop (suc n) (x ∷ xs) h = All-drop n xs h.1

pub DistinctElems-take :
    (n : ℕ) (es : List BatchElem) → DistinctElems es → DistinctElems (take n es)
DistinctElems-take zero es h = tt
DistinctElems-take (suc n) [] h = tt
DistinctElems-take (suc n) (e ∷ es) h = (All-take _ n es h.0, DistinctElems-take n es h.1)

pub DistinctElems-drop :
    (n : ℕ) (es : List BatchElem) → DistinctElems es → DistinctElems (drop n es)
DistinctElems-drop zero es h = h
DistinctElems-drop (suc n) [] h = tt
DistinctElems-drop (suc n) (e ∷ es) h = DistinctElems-drop n es h.1

pub All-create_batch_request :
    (P : RpcReq → Type 0) (es : List BatchElem)
    → All (λ e. P e.req) es
    → All P (create_batch_request es)
unfolding create_batch_request
All-create_batch_request P [] h = tt
All-create_batch_request P (e ∷ es) h = (h.0, All-create_batch_request P es h.1)

pub create_batch_request-Distinct :
    (es : List BatchElem) → DistinctElems es → Distinct (create_batch_request es)
unfolding create_batch_request
create_batch_request-Distinct [] h = tt
create_batch_request-Distinct (e ∷ es) h =
    (All-create_batch_request (λ r. e.req.id ≢ r.id) es h.0, create_batch_request-Distinct es h.1)

pub length-create_batch_request :
    (es : List BatchElem) → length (create_batch_request es) ≡ length es
unfolding create_batch_request
length-create_batch_request [] = refl
length-create_batch_request (e ∷ es) = ap suc (length-create_batch_request es)

pub error_responses-ids :
    (f : ForwardError → AnyErr) (e : ForwardError) (reqs : List RpcReq)
    → res_ids (error_responses f e reqs) ≡ req_ids reqs
unfolding error_responses
error_responses-ids f e [] = refl
error_responses-ids f e (r ∷ rs) =
    rw (new_rpc_error_res-id r.id (f e), error_responses-ids f e rs) refl

-- The requests keep their ids, so the elements do.
pub record SameElems (es fs : List BatchElem) : Type 0 where
  pub same_ids : req_ids (create_batch_request fs) ≡ req_ids (create_batch_request es)
  pub own : (ids : List String) → All (OwnIndex ids) es → All (OwnIndex ids) fs
  pub within : (i : ℕ) → InElems es i → InElems fs i

pub refresh-SameElems :
    (es : List BatchElem) (qs : List RpcReq)
    → req_ids qs ≡ req_ids (create_batch_request es)
    → SameElems es (refresh es qs)
unfolding refresh create_batch_request
refresh-SameElems [] qs h = record { same_ids = refl; own = λ ids o. o; within = λ i o. o }
refresh-SameElems (e ∷ es) [] h = absurd (cc)
refresh-SameElems (e ∷ es) (q ∷ qs) h =
    let (same, rest) = cons_inj h in
    let r = refresh-SameElems es qs rest in
    record {
      same_ids = rw (same, r.same_ids) refl;
      own = λ ids o. (o.0 ∙ ap some (sym same), r.own ids o.1);
      within = λ i o. elim o [ inl x ↦ inl x | inr x ↦ inr (r.within i x) ];
    }
