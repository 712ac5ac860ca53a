-- ===== src/Routing/Failover.antt =====
-- Which backend's answer a request gets.
use bsc_builder_proxyd.Base.{
  All-append, ℕ, ◌≤◌, ◌<◌, ◌≡◌, refl, Option, ◌⊎◌, inl, inr, Bool, true, false, not, ◌&&◌, List, [],
  ◌∷◌, ◌++◌, String, none, some, All, All-Perm, Bool-cases, filter,
}
use mathlib.Core.List.{Permᴰ}
use bsc_builder_proxyd.Rpc.{RpcReq, RpcRes}
use bsc_builder_proxyd.Backend.{Backend, is_healthy, is_degraded}
use bsc_builder_proxyd.Consensus.{BackendGroup, ConsensusPoller}
use bsc_builder_proxyd.Routing.{
  no_backends, wrap_err, ForwardError, Answer, responses, failure, crashed, Attempts, is_final,
  GroupResponse, group_error, is_fatal, answer_at, forward_request_to_backend_group, Shuffles,
  load_balanced_consensus_group,
}

-- An answer that makes the caller try again, or try the next backend.
abbrev pub Fails : (ForwardError → Bool) → Answer → Type 0
Fails p (responses res) = ⊥
Fails p (failure e) = p e ≡ false
Fails p crashed = ⊥

abbrev pub Ends : (ForwardError → Bool) → Answer → Type 0
Ends p (responses res) = Unit {0}
Ends p (failure e) = p e ≡ true
Ends p crashed = Unit {0}

Fails-cases :
    (p : ForwardError → Bool) (a : Answer)
    → Fails p a
    → (e : ForwardError) × (a ≡ failure e) × (p e ≡ false)
Fails-cases p (responses res) f = absurd f
Fails-cases p (failure e) f = (e, refl, f)
Fails-cases p crashed f = absurd f

Ends-cases :
    (p : ForwardError → Bool) (a : Answer)
    → Ends p a
    → ((res : List RpcRes) × (a ≡ responses res))
      ⊎ ((e : ForwardError) × (a ≡ failure e) × (p e ≡ true))
      ⊎ (a ≡ crashed)
Ends-cases p (responses res) f = inl (res, refl)
Ends-cases p (failure e) f = inr (inl (e, refl, f))
Ends-cases p crashed f = inr (inr refl)

-- The outcome of a first attempt with `n` retries: the first answer that gives responses, a panic or an
-- error which is not retried; or, where each gives an error which is retried, the last error, wrapped.
abbrev pub Retried : (ℕ → Answer) → ℕ → Answer → Type 0
Retried a n out =
    ((k : ℕ) × (k ≤ n)
      × ((j : ℕ) → j < k → Fails is_final (a j))
      × Ends is_final (a k)
      × (out ≡ a k))
    ⊎ (((j : ℕ) → j ≤ n → Fails is_final (a j))
        × ((e : ForwardError) × (a n ≡ failure e) × (out ≡ failure (wrap_err e))))

-- The outcome for the group of one answer that ends the search.
abbrev pub Gives : Answer → Option GroupResponse → Type 0
Gives (responses res) o = (r : GroupResponse) × (o ≡ some r) × (r.res ≡ res) × (r.error ≡ none)
Gives (failure e) o = (r : GroupResponse) × (o ≡ some r) × (r.res ≡ []) × (r.error ≡ some e)
Gives crashed o = o ≡ none

-- Requests fail over: behind backends that all fail in a way that lets the next one be tried, the
-- outcome is that of the first one that does not, whatever comes after it.
pub forward_request_to_backend_group_first :
    (do_forward : Attempts) (name : String) (reqs : List RpcReq) (is_batch : Bool)
    (pre post : List Backend) (b : Backend)
    → All (λ c. Fails is_fatal (answer_at do_forward reqs is_batch c)) pre
    → Ends is_fatal (answer_at do_forward reqs is_batch b)
    → Gives
        (answer_at do_forward reqs is_batch b)
        (forward_request_to_backend_group do_forward name reqs is_batch (pre ++ b ∷ post))
unfolding forward_request_to_backend_group
forward_request_to_backend_group_first do_forward name reqs is_batch [] post b fails ends =
    elim (Ends-cases is_fatal (answer_at do_forward reqs is_batch b) ends) [
      | inl (res, x) ↦ rw (x, forward_request_to_backend_group) (_, refl, refl, refl)
      | inr (inl (e, x, f)) ↦
          rw (x, forward_request_to_backend_group)
            (rw (f, forward_request_to_backend_group) (group_error e, refl, refl, refl))
      | inr (inr x) ↦ rw (x, forward_request_to_backend_group) refl
    ]
forward_request_to_backend_group_first do_forward name reqs is_batch (c ∷ pre) post b fails ends =
    let (e, x, f) = Fails-cases is_fatal (answer_at do_forward reqs is_batch c) fails.0 in
    rw (x, forward_request_to_backend_group)
      (rw (f, forward_request_to_backend_group)
        (forward_request_to_backend_group_first do_forward name reqs is_batch pre post b fails.1
          ends))

-- The error `no_backends` comes from the group itself only when every backend failed in a way that
-- lets the next one be tried.
forward_request_to_backend_group_exhausted :
    (do_forward : Attempts) (name : String) (reqs : List RpcReq) (is_batch : Bool)
    (bs : List Backend)
    → All (λ c. Fails is_fatal (answer_at do_forward reqs is_batch c)) bs
    → forward_request_to_backend_group do_forward name reqs is_batch bs
      ≡ some (group_error (record { kind = no_backends; wrapped = false }))
unfolding forward_request_to_backend_group
forward_request_to_backend_group_exhausted do_forward name reqs is_batch [] fails = refl
forward_request_to_backend_group_exhausted do_forward name reqs is_batch (c ∷ bs) fails =
    let (e, x, f) = Fails-cases is_fatal (answer_at do_forward reqs is_batch c) fails.0 in
    rw (x, forward_request_to_backend_group)
      (rw (f, forward_request_to_backend_group)
        (forward_request_to_backend_group_exhausted do_forward name reqs is_batch bs fails.1))

-- Only what permutes.
pub record IsLawful (sh : Shuffles) : Type 0 where
  pub healthy_perm : (bs : List Backend) → Permᴰ bs (sh.shuffle_healthy bs)
  pub degraded_perm : (bs : List Backend) → Permᴰ bs (sh.shuffle_degraded bs)
  pub weighted_perm : (bs : List Backend) → Permᴰ bs (sh.weighted_healthy bs)

filter_healthy :
    (now : ℕ) (q : Backend → Bool) (bs : List Backend)
    → All (λ be. is_healthy be now ≡ true) (filter (λ be. is_healthy be now && q be) bs)
filter_healthy now q [] = tt
filter_healthy now q (b ∷ bs) = elim (Bool-cases (is_healthy b now)) [
  | inl e ↦ elim (Bool-cases (q b)) [
    | inl f ↦ rw (e, f) (e, filter_healthy now q bs)
    | inr f ↦ rw (e, f) (filter_healthy now q bs)
  ]
  | inr e ↦ rw e (filter_healthy now q bs)
]

-- Whatever the shuffles, a consensus group sends requests to healthy backends only.
pub load_balanced_consensus_group-All :
    (sh : Shuffles) (bg : BackendGroup) (cp : ConsensusPoller) (now : ℕ)
    → IsLawful sh
    → All (λ be. is_healthy be now ≡ true) (load_balanced_consensus_group sh bg cp now)
unfolding load_balanced_consensus_group
load_balanced_consensus_group-All sh bg cp now lawful =
    let cg = cp.consensus_group in
    let hs = filter_healthy now (λ be. not (is_degraded be now)) cg in
    let ds = filter_healthy now (λ be. is_degraded be now) cg in
    let h = All-Perm _ (lawful.healthy_perm _) hs in
    let d = All-Perm _ (lawful.degraded_perm _) ds in
    elim (Bool-cases bg.weighted_routing) [
      | inl e ↦ rw e (All-append _ _ _ (All-Perm _ (lawful.weighted_perm _) h) d)
      | inr e ↦ rw e (All-append _ _ _ h d)
    ]
