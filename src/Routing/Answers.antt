-- ===== src/Routing/Answers.antt =====
-- What a client of a group gets: an answer of one of its backends, and the first success of a
-- multicall.
use bsc_builder_proxyd.Base.{
  ℕ, zero, suc, ◌≡◌, ◌≢◌, refl, sym, ◌⊎◌, inl, inr, Bool, true, false, List, [], ◌∷◌, ◌++◌, String,
  Option, none, some, arith, All, Bool-cases, Option-cases, is_empty, ◌∙◌, ap, subst, some_inj,
}
use bsc_builder_proxyd.Rpc.{RpcReq, RpcRes}
use bsc_builder_proxyd.Backend.{Backend}
use bsc_builder_proxyd.Consensus.{BackendGroup, ConsensusPoller}
use bsc_builder_proxyd.Rewriter.{Codec}
use bsc_builder_proxyd.Rewriter.Overrides.{Overwritten, override_responses}
use bsc_builder_proxyd.Routing.{
  ForwardError, Answer, responses, failure, crashed, Attempts, is_final, forward_from, forward,
  GroupResponse, is_fatal, answer_at, forward_request_to_backend_group, Shuffles,
  ordered_backends_for_request,
}
use bsc_builder_proxyd.Routing.Group.{
  RoutingStrategy, multicall, consensus_aware, fallback, first_is_error,
  process_multicall_responses, overwrite, with_overrides, takes_multicall, forward_rewritten,
  group_forward,
}

Answer-cases :
    (a : Answer)
    → ((res : List RpcRes) × (a ≡ responses res))
      ⊎ ((e : ForwardError) × (a ≡ failure e))
      ⊎ (a ≡ crashed)
Answer-cases (responses res) = inl (res, refl)
Answer-cases (failure e) = inr (inl (e, refl))
Answer-cases crashed = inr (inr refl)

is_empty-nil : (rs : List RpcReq) → is_empty rs ≡ true → [] ≡ rs
is_empty-nil [] h = refl
is_empty-nil (r ∷ rs) h = absurd (cc)

-- What holds of some requests and of every answer of a backend to them.
abbrev Promise : (List RpcReq → List RpcRes → Type 0) → Attempts → Type 0
Promise P do_forward =
    (b : Backend) (i : ℕ) (reqs : List RpcReq) (is_batch : Bool) (res : List RpcRes)
    → is_empty reqs ≡ false
    → do_forward b i reqs is_batch ≡ responses res
    → P reqs res

module _ (P : List RpcReq → List RpcRes → Type 0) (nothing : P [] []) where
  Matches : List RpcReq → Answer → Type 0
  Matches reqs (responses res) = P reqs res
  Matches reqs (failure e) = Unit {0}
  Matches reqs crashed = Unit {0}

  module _ (do_forward : Attempts) (keeps : Promise P do_forward) (reqs : List RpcReq)
      (is_batch : Bool) where
    forward_from-Matches :
        (b : Backend) (left i : ℕ) (last : ForwardError)
        → is_empty reqs ≡ false
        → Matches reqs (forward_from do_forward b reqs is_batch left i last)
    unfolding forward_from Matches
    forward_from-Matches b zero i last n = tt
    forward_from-Matches b (suc left) i last n =
        elim (Answer-cases (do_forward b i reqs is_batch)) [
          | inl (res, x) ↦ rw (x, forward_from) (keeps b i reqs is_batch res n x)
          | inr (inr x) ↦ rw (x, forward_from) tt
          | inr (inl (e, x)) ↦ elim (Bool-cases (is_final e)) [
            | inl f ↦ rw (x, forward_from) (rw (f, forward_from) tt)
            | inr f ↦
                rw (x, forward_from)
                  (rw (f, forward_from) (forward_from-Matches b left (suc i) e n))
          ]
        ]

    answer_at-Matches : (b : Backend) → Matches reqs (answer_at do_forward reqs is_batch b)
    unfolding forward Matches
    answer_at-Matches b = elim (Bool-cases (is_empty reqs)) [
      | inl e ↦ rw e (subst (λ l. P l []) (is_empty-nil reqs e) nothing)
      | inr e ↦ rw e (forward_from-Matches b _ 0 _ e)
    ]

    group-Matches :
        (name : String) (bs : List Backend) (r : GroupResponse)
        → forward_request_to_backend_group do_forward name reqs is_batch bs ≡ some r
        → r.error ≡ none
        → P reqs r.res
    unfolding forward_request_to_backend_group
    group-Matches name [] r k = λ h. absurd (cc (ap (λ v. v.error) (some_inj k) ∙ h))
    group-Matches name (b ∷ bs) r k = elim (Answer-cases (answer_at do_forward reqs is_batch b)) [
      | inl (res, x) ↦ λ h.
          let e : res ≡ r.res =
            ap (λ v. v.res) (some_inj (rw (x, forward_request_to_backend_group) at k)) in
          subst (P reqs) e (unfold Matches in subst (Matches reqs) x (answer_at-Matches b))
      | inr (inr x) ↦ absurd (cc (rw (x, forward_request_to_backend_group) at k))
      | inr (inl (e, x)) ↦ elim (Bool-cases (is_fatal e)) [
        | inl f ↦ λ h. absurd (
            cc (
              ap (λ v. v.error)
                (some_inj (
                  rw (f, forward_request_to_backend_group) at
                    (rw (x, forward_request_to_backend_group) at k)))
              ∙ h))
        | inr f ↦ group-Matches name bs r (
            rw (f, forward_request_to_backend_group) at
              (rw (x, forward_request_to_backend_group) at k))
      ]
    ]

with_overrides-res :
    (o : Overwritten) (r : GroupResponse)
    → (with_overrides o r).error ≡ none
    → (r.error ≡ none) × ((with_overrides o r).res ≡ override_responses r.res o.overridden)
with_overrides-res o r = elim (Option-cases r.error) [
  | inl x ↦ rw x (λ e. (refl, refl))
  | inr (err, x) ↦ rw x (λ e. absurd (ground (arith, x, e)))
]

pub single_route :
    (strategy : RoutingStrategy) (reqs : List RpcReq) (is_batch : Bool)
    → strategy ≢ multicall
    → takes_multicall strategy reqs is_batch ≡ false
unfolding takes_multicall
single_route consensus_aware reqs is_batch h = refl
single_route fallback reqs is_batch h = refl
single_route multicall reqs is_batch h = absurd (h refl)

-- What a group gives that is no multicall: nothing for no requests, or a group's answer to the
-- requests as they were rewritten, with the responses made here put into it.
pub group_forward-cases :
    (P : List RpcReq → List RpcRes → Type 0) (codec : Codec) (do_forward : Attempts) (sh : Shuffles)
    (arrive : List GroupResponse → List GroupResponse) (strategy : RoutingStrategy)
    (bg : BackendGroup) (consensus : Option ConsensusPoller) (now : ℕ) (reqs : List RpcReq)
    (is_batch : Bool) (u : GroupResponse)
    → P [] []
    → Promise P do_forward
    → strategy ≢ multicall
    → group_forward codec do_forward sh arrive strategy bg consensus now reqs is_batch ≡ some u
    → u.error ≡ none
    → (([] ≡ reqs) × (u.res ≡ []))
      ⊎ ((o : Overwritten) × (res : List RpcRes) × (overwrite codec consensus reqs ≡ some o)
          × P o.requests res
          × (u.res ≡ override_responses res o.overridden))
unfolding group_forward forward_rewritten
group_forward-cases P codec do_forward sh arrive strategy bg consensus now reqs is_batch u nothing
      keeps single e served =
    elim (Bool-cases (is_empty reqs)) [
      | inl x ↦
          let same : record { res = []; served_by = ""; error = none } ≡ u =
            some_inj (ground (arith, e, x)) in
          inl (is_empty-nil reqs x, ap (λ v. v.res) (sym same))
      | inr x ↦ elim (Option-cases (overwrite codec consensus reqs)) [
        | inl y ↦ absurd (ground (arith, e, x, y))
        | inr (o, y) ↦
            let bs = ordered_backends_for_request sh bg consensus now in
            elim (Option-cases
              (forward_request_to_backend_group do_forward bg.name o.requests is_batch bs)) [
                | inl z ↦
                    absurd
                      (ground (arith, e, x, y, z, single_route strategy o.requests is_batch single))
                | inr (r, z) ↦
                    let same : with_overrides o r ≡ u = some_inj (
                      ground
                        (arith, e, x, y, z, single_route strategy o.requests is_batch single)) in
                    let (none_r, put) = with_overrides-res o r (ap (λ v. v.error) same ∙ served) in
                    inr (
                      o,
                      r.res,
                      y,
                      group-Matches P nothing do_forward keeps o.requests is_batch bg.name bs r z
                          none_r,
                      ap (λ v. v.res) (sym same) ∙ put,
                    )
              ]
      ]
    ]

-- A response that the loop over the channel passes over, and one that it returns.
abbrev pub PassedOver : Bool → GroupResponse → Type 0
PassedOver check r =
    ((err : ForwardError) × (r.error ≡ some err))
    ⊎ ((r.error ≡ none) × (check ≡ true) × (first_is_error r.res ≡ some true))

abbrev pub Succeeds : Bool → GroupResponse → Type 0
Succeeds check r =
    (r.error ≡ none) × ((check ≡ false) ⊎ ((check ≡ true) × (first_is_error r.res ≡ some false)))

-- A multicall returns the first success to arrive: a response without an error, and without an RPC
-- error where these are checked; whatever failed before it and whatever comes after it.
pub process_multicall_responses_first :
    (check : Bool) (final : GroupResponse) (pre post : List GroupResponse) (r : GroupResponse)
    → All (PassedOver check) pre
    → Succeeds check r
    → process_multicall_responses check final (pre ++ r ∷ post) ≡ some r
unfolding process_multicall_responses
process_multicall_responses_first check final [] post r passed (e, c) = ground (arith, e, c)
process_multicall_responses_first check final (p ∷ pre) post r (x, ps) ok_r =
    ground (arith, x, process_multicall_responses_first check p pre post r ps ok_r)
