-- ===== src/Routing/Order.antt =====
-- backend.go, `BackendGroup.Forward`: whose responses a client gets, and in which order.
use mathlib.Core.Path.{ap₂}
use bsc_builder_proxyd.Base.{
  ℕ, suc, ◌<◌, ◌≡◌, ◌≢◌, refl, sym, ap, ◌∙◌, subst, inl, inr, Bool, false, List, [], ◌∷◌, String,
  Option, none, some, arith, All, map, length, some_inj, is_empty,
}
use bsc_builder_proxyd.Rpc.{RpcReq, RpcRes}
use bsc_builder_proxyd.Backend.{Backend}
use bsc_builder_proxyd.Consensus.{BackendGroup, ConsensusPoller}
use bsc_builder_proxyd.Rewriter.{Codec}
use bsc_builder_proxyd.Rewriter.Overrides.{
  Fate, answer, Overwritten, overwrite_consensus_responses, override_responses,
}
use bsc_builder_proxyd.Rewriter.Overrides as Overrides
use bsc_builder_proxyd.Rewriter.Weave.{
  forwarded, weave, override_responses_lem, overwrite_consensus_responses-fates,
}
use bsc_builder_proxyd.Rewriter.Ids.{fate_id, fates-ids}
use bsc_builder_proxyd.Exchange.Translation.{Wire}
use bsc_builder_proxyd.Exchange.{Sent, got, do_forward}
use bsc_builder_proxyd.Exchange.Answered as Exchanges
use bsc_builder_proxyd.Exchange.Answered.{IsHonest, do_forward-Kept}
use bsc_builder_proxyd.Exchange.Ids.{ids_of}
use bsc_builder_proxyd.Exchange.Order.{DistinctIds}
use bsc_builder_proxyd.Routing.{Attempts, responses, GroupResponse, Shuffles}
use bsc_builder_proxyd.Routing.Group.{
  RoutingStrategy, multicall, overwrite, group_forward, context_of,
}
use bsc_builder_proxyd.Routing.Answers.{group_forward-cases}

abbrev pub InOrder : List RpcReq → List RpcRes → Type 0
InOrder reqs res = map (λ r. r.id) res ≡ ids_of reqs

-- A backend that answers some requests with distinct ids returns the response of each, in order.
abbrev pub IsOrdered : Attempts → Type 0
IsOrdered attempts =
    (b : Backend) (i : ℕ) (reqs : List RpcReq) (is_batch : Bool) (res : List RpcRes)
    → is_empty reqs ≡ false
    → DistinctIds (ids_of reqs)
    → attempts b i reqs is_batch ≡ responses res
    → InOrder reqs res

-- The responses of an attempt are those of an exchange with the backend. The requests of the exchange
-- may have other methods, since an earlier attempt may have left them translated, but their ids stay.
abbrev pub IsExchanged :
    Wire
    → (Backend → ℕ → List RpcReq → Sent)
    → (Backend → ℕ → ℕ)
    → (Backend → ℕ → ℕ)
    → Attempts
    → Type 0
IsExchanged wire send now later attempts =
    (b : Backend) (i : ℕ) (reqs : List RpcReq) (is_batch : Bool) (res : List RpcRes)
    → attempts b i reqs is_batch ≡ responses res
    → (left : List RpcReq) × (ids_of left ≡ ids_of reqs)
      × ((do_forward wire (send b i) (now b i) (later b i) b left is_batch).outcome ≡ got res)

some_requests : (reqs : List RpcReq) → is_empty reqs ≡ false → 0 < length reqs
some_requests [] h = absurd (cc)
some_requests (q ∷ reqs) h = omega arith

same_length : (ps qs : List RpcReq) → ids_of ps ≡ ids_of qs → length ps ≡ length qs
same_length [] [] h = refl
same_length [] (q ∷ qs) h = absurd (cc)
same_length (p ∷ ps) [] h = absurd (cc)
same_length (p ∷ ps) (q ∷ qs) h = ap suc (same_length ps qs (cc))

-- Exchanges with honest backends give the responses in the order of the requests.
pub do_forward-IsOrdered :
    (wire : Wire) (send : Backend → ℕ → List RpcReq → Sent) (now later : Backend → ℕ → ℕ)
    (attempts : Attempts)
    → ((b : Backend) (i : ℕ) → IsHonest wire (send b i))
    → IsExchanged wire send now later attempts
    → IsOrdered attempts
unfolding do_forward
do_forward-IsOrdered wire send now later attempts honest exchanged b i reqs is_batch res n d e =
    let (left, same, x) = exchanged b i reqs is_batch res e in
    let some_left : 0 < length left =
      omega (arith, some_requests reqs n, same_length left reqs same) in
    subst (Exchanges.InOrder left) x
      (do_forward-Kept wire (send b i) (now b i) (later b i) b left is_batch (honest b i)
        (subst DistinctIds (sym same) d) some_left (λ l. absurd (ground (arith, x, l)))).1
    ∙ same

weave-ids :
    (fs : List Fate) (res : List RpcRes)
    → InOrder (forwarded fs) res
    → map (λ r. r.id) (weave fs res) ≡ map fate_id fs
unfolding weave forwarded
weave-ids [] res h = refl
weave-ids (answer r ∷ fs) res h = ap (◌∷◌ r.id) (weave-ids fs res h)
weave-ids (Overrides.forward q ∷ fs) [] h = absurd (cc)
weave-ids (Overrides.forward q ∷ fs) (r ∷ res) h = ap₂ ◌∷◌ (cc) (weave-ids fs res (cc))

forwarded-All :
    (P : String → Type 0) (fs : List Fate) → All P (map fate_id fs) → All P (ids_of (forwarded fs))
unfolding forwarded
forwarded-All P [] h = h
forwarded-All P (answer r ∷ fs) (p, ps) = forwarded-All P fs ps
forwarded-All P (Overrides.forward q ∷ fs) (p, ps) = (p, forwarded-All P fs ps)

forwarded-DistinctIds :
    (fs : List Fate) → DistinctIds (map fate_id fs) → DistinctIds (ids_of (forwarded fs))
unfolding forwarded
forwarded-DistinctIds [] h = h
forwarded-DistinctIds (answer r ∷ fs) (p, ps) = forwarded-DistinctIds fs ps
forwarded-DistinctIds (Overrides.forward q ∷ fs) (p, ps) =
    (forwarded-All _ fs p, forwarded-DistinctIds fs ps)

length-InOrder :
    (reqs : List RpcReq) (res : List RpcRes) → InOrder reqs res → length res ≡ length reqs
length-InOrder [] [] h = refl
length-InOrder [] (r ∷ res) h = absurd (cc)
length-InOrder (q ∷ reqs) [] h = absurd (cc)
length-InOrder (q ∷ reqs) (r ∷ res) h = ap suc (length-InOrder reqs res (cc))

-- What a group's answer to the rewritten requests comes to for the client's requests.
abbrev Answered : List RpcReq → List RpcRes → Type 0
Answered qs res = DistinctIds (ids_of qs) → InOrder qs res

overwrite-InOrder :
    (codec : Codec) (consensus : Option ConsensusPoller) (reqs : List RpcReq) (o : Overwritten)
    (res : List RpcRes)
    → overwrite codec consensus reqs ≡ some o
    → DistinctIds (ids_of reqs)
    → Answered o.requests res
    → InOrder reqs (override_responses res o.overridden)
unfolding override_responses
overwrite-InOrder codec none reqs o res e d h =
    let s = some_inj e in
    let answered : Answered reqs res = subst (λ p. Answered p.requests res) (sym s) h in
    subst (λ p. InOrder reqs (override_responses res p.overridden)) s (answered d)
overwrite-InOrder codec (some cp) reqs o res e d h =
    let (fs, f, r) = overwrite_consensus_responses-fates codec (context_of cp) reqs o e in
    let distinct : DistinctIds (ids_of o.requests) =
      subst (λ qs. DistinctIds (ids_of qs)) (sym r)
        (forwarded-DistinctIds fs
          (subst DistinctIds (sym (fates-ids codec (context_of cp) reqs fs f)) d)) in
    let order = h distinct in
    let (gs, g, l, q, v) =
      override_responses_lem codec (context_of cp) reqs o res e
        (length-InOrder o.requests res order) in
    ap (map (λ x. x.id)) v
    ∙ weave-ids gs res (order ∙ ap ids_of q)
    ∙ fates-ids codec (context_of cp) reqs gs g

-- Unless the strategy is multicall: where every backend that answers requests with distinct ids
-- returns the response of each, in order, and the client's requests have distinct ids, a call of the
-- group that ends without an error returns the response of each of the client's requests, in the
-- client's order and under the client's ids, those that the proxy answers or refuses itself included.
pub group_forward-InOrder :
    (codec : Codec) (attempts : Attempts) (sh : Shuffles)
    (arrive : List GroupResponse → List GroupResponse) (strategy : RoutingStrategy)
    (bg : BackendGroup) (consensus : Option ConsensusPoller) (now : ℕ) (reqs : List RpcReq)
    (is_batch : Bool) (u : GroupResponse)
    → IsOrdered attempts
    → DistinctIds (ids_of reqs)
    → strategy ≢ multicall
    → group_forward codec attempts sh arrive strategy bg consensus now reqs is_batch ≡ some u
    → u.error ≡ none
    → map (λ r. r.id) u.res ≡ ids_of reqs
group_forward-InOrder codec attempts sh arrive strategy bg consensus now reqs is_batch u ordered
      distinct single e served =
    elim (group_forward-cases Answered codec attempts sh arrive strategy bg consensus now reqs
      is_batch u (λ d. refl) (λ b i qs x res n h d. ordered b i qs x res n d h) single e served) [
        | inl (x, y) ↦ ap (map (λ r. r.id)) y ∙ ap ids_of x
        | inr (o, res, x, h, y) ↦
            ap (map (λ r. r.id)) y ∙ overwrite-InOrder codec consensus reqs o res x distinct h
      ]
