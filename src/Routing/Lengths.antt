-- ===== src/Routing/Lengths.antt =====
-- backend.go, `BackendGroup.Forward`: how many responses a client gets.
use bsc_builder_proxyd.Base.{
  ℕ, suc, ◌≡◌, ◌≢◌, refl, sym, inl, inr, Bool, List, [], ◌∷◌, Option, none, some, arith, ◌∙◌, ap,
  length, some_inj,
}
use bsc_builder_proxyd.Rpc.{RpcReq, RpcRes}
use bsc_builder_proxyd.Backend.{Backend}
use bsc_builder_proxyd.Consensus.{BackendGroup, ConsensusPoller}
use bsc_builder_proxyd.Rewriter.{Codec}
use bsc_builder_proxyd.Rewriter.Overrides.{
  Fate, answer, Overwritten, overwrite_consensus_responses, override_responses,
}
use bsc_builder_proxyd.Rewriter.Overrides as Overrides
use bsc_builder_proxyd.Rewriter.Weave.{forwarded, weave, override_responses_lem}
use bsc_builder_proxyd.Routing.{responses, Attempts, GroupResponse, Shuffles}
use bsc_builder_proxyd.Routing.Group.{
  RoutingStrategy, multicall, overwrite, group_forward, context_of,
}
use bsc_builder_proxyd.Routing.Answers.{group_forward-cases}

-- A backend that answers returns one response for each request.
abbrev IsExact : Attempts → Type 0
IsExact do_forward =
    (b : Backend) (i : ℕ) (reqs : List RpcReq) (is_batch : Bool) (res : List RpcRes)
    → do_forward b i reqs is_batch ≡ responses res
    → length res ≡ length reqs

length-weave :
    (fs : List Fate) (res : List RpcRes)
    → length res ≡ length (forwarded fs)
    → length (weave fs res) ≡ length fs
unfolding weave forwarded
length-weave [] res h = refl
length-weave (answer r ∷ fs) res h = ap suc (length-weave fs res h)
length-weave (Overrides.forward q ∷ fs) [] h = absurd (omega arith)
length-weave (Overrides.forward q ∷ fs) (r ∷ res) h = ap suc (length-weave fs res (omega arith))

-- The responses of the group with the proxy's own make one for each request.
overwrite-length :
    (codec : Codec) (consensus : Option ConsensusPoller) (reqs : List RpcReq) (o : Overwritten)
    (res : List RpcRes)
    → overwrite codec consensus reqs ≡ some o
    → length res ≡ length o.requests
    → length (override_responses res o.overridden) ≡ length reqs
unfolding override_responses
overwrite-length codec none reqs o res e h =
    let s = sym (some_inj e) in rw (ap (λ p. p.overridden) s) (h ∙ ap (λ p. length p.requests) s)
overwrite-length codec (some cp) reqs o res e h =
    let (fs, f, l, r, v) = override_responses_lem codec (context_of cp) reqs o res e h in
    ap length v ∙ length-weave fs res (h ∙ ap length r) ∙ l

-- Unless the strategy is multicall: where every backend that answers returns one response for each
-- request it gets, a call of the group that ends without an error returns exactly one response for
-- each request of the client, those that the proxy answers or refuses itself included.
group_forward-length :
    (codec : Codec) (do_forward : Attempts) (sh : Shuffles)
    (arrive : List GroupResponse → List GroupResponse) (strategy : RoutingStrategy)
    (bg : BackendGroup) (consensus : Option ConsensusPoller) (now : ℕ) (reqs : List RpcReq)
    (is_batch : Bool) (u : GroupResponse)
    → IsExact do_forward
    → strategy ≢ multicall
    → group_forward codec do_forward sh arrive strategy bg consensus now reqs is_batch ≡ some u
    → u.error ≡ none
    → length u.res ≡ length reqs
group_forward-length codec do_forward sh arrive strategy bg consensus now reqs is_batch u exact
      single e served =
    elim (group_forward-cases (λ qs res. length res ≡ length qs) codec do_forward sh arrive strategy
      bg consensus now reqs is_batch u refl (λ b i qs x res n h. exact b i qs x res h) single e
      served) [
        | inl (x, y) ↦ ap length y ∙ ap length x
        | inr (o, res, x, h, y) ↦ ap length y ∙ overwrite-length codec consensus reqs o res x h
      ]
