-- ===== src/Server/Honest.antt =====
-- server.go with backend.go: calls whose groups are the routing's, with honest backends behind them.
use mathlib.Core.List.{Permᴰ}
use bsc_builder_proxyd.Base.{
  ℕ, ◌<◌, ◌≡◌, ◌≢◌, sym, ap, ◌∙◌, inl, inr, Bool, List, [], ◌∷◌, String, Option, none, some, All,
  map, Option-cases,
}
use bsc_builder_proxyd.Rpc.{RpcReq, RpcRes}
use bsc_builder_proxyd.Backend.{Backend}
use bsc_builder_proxyd.Consensus.{BackendGroup, ConsensusPoller}
use bsc_builder_proxyd.Rewriter.{Codec}
use bsc_builder_proxyd.Exchange.Translation.{Wire}
use bsc_builder_proxyd.Exchange.{Sent}
use bsc_builder_proxyd.Exchange.Answered.{IsHonest}
use bsc_builder_proxyd.Exchange.Order.{DistinctIds}
use bsc_builder_proxyd.Exchange.Ids.{ids_of}
use bsc_builder_proxyd.Routing.{Attempts, GroupResponse, Shuffles}
use bsc_builder_proxyd.Routing.Group.{RoutingStrategy, multicall, group_forward}
use bsc_builder_proxyd.Routing.Order.{IsExchanged, do_forward-IsOrdered, group_forward-InOrder}
use bsc_builder_proxyd.Server.Batch.{Service, Reply, Batch}
use bsc_builder_proxyd.Server.Minibatches.{handle_batch_rpc}
use bsc_builder_proxyd.Server.Distinct.{IsExact, Distinct, req_ids}
use bsc_builder_proxyd.Server.Access.{HttpRequest, RequestContext, Client}
use bsc_builder_proxyd.Server.Handle.{Server, Body, service_for}
use bsc_builder_proxyd.Server.Outcomes.{Replied, handle_rpc-IsProper}
use bsc_builder_proxyd.Server.Replies.{IsAnswered, handle_batch_rpc-IsAnswered}

-- What a call of a group's Forward depends on.
pub record GroupState : Type 0 where
  pub codec : Codec
  pub attempts : Attempts
  pub shuffles : Shuffles
  pub arrive : List GroupResponse → List GroupResponse
  pub strategy : RoutingStrategy
  pub bg : BackendGroup
  pub consensus : Option ConsensusPoller
  pub now : ℕ

abbrev pub call_group : GroupState → List RpcReq → Bool → Option GroupResponse
call_group g reqs is_batch =
    group_forward g.codec g.attempts g.shuffles g.arrive g.strategy g.bg g.consensus g.now reqs
      is_batch

-- The backends of a group are honest, and its attempts are the exchanges with them.
pub record HasHonest (g : GroupState) : Type 0 where
  pub wire : Wire
  pub send : Backend → ℕ → List RpcReq → Sent
  pub now : Backend → ℕ → ℕ
  pub later : Backend → ℕ → ℕ
  pub honest : (b : Backend) (i : ℕ) → IsHonest wire (send b i)
  pub exchanged : IsExchanged wire send now later g.attempts

-- The service forwards to groups that do not multicall, and whose backends are honest; what a call leaves of
-- the requests has their ids; and the cache answers a request under its own id.
pub record IsRouted {L C W : Type 0} (s : Service L C W) (group_at : W → String → GroupState)
    : Type 0 where
  pub some_batch : 0 < s.max_upstream_batch_size
  pub single : (w : W) (name : String) → (group_at w name).strategy ≢ multicall
  pub backends : (w : W) (name : String) → HasHonest (group_at w name)
  pub panics :
      (w : W) (name : String) (reqs : List RpcReq) (is_batch : Bool)
      → call_group (group_at w name) reqs is_batch ≡ none
      → s.forward w name reqs is_batch ≡ none
  pub forwards :
      (w : W) (name : String) (reqs : List RpcReq) (is_batch : Bool) (u : GroupResponse)
      → call_group (group_at w name) reqs is_batch ≡ some u
      → (reply : Reply W) × (s.forward w name reqs is_batch ≡ some reply)
        × (req_ids reply.requests ≡ req_ids reqs)
        × (reply.res ≡ u.res)
        × (reply.error ≡ u.error)
  pub cache_own : (c : C) (req : RpcReq) (r : RpcRes) → s.get_rpc c req ≡ some r → r.id ≡ req.id

Distinct-ids : (reqs : List RpcReq) → Distinct reqs → DistinctIds (ids_of reqs)
Distinct-ids [] h = tt
Distinct-ids (q ∷ qs) (h, hs) = (others q qs h, Distinct-ids qs hs)
  where
    others :
        (q : RpcReq) (qs : List RpcReq)
        → All (λ r. q.id ≢ r.id) qs
        → All (λ i. q.id ≢ i) (ids_of qs)
    others q [] h = tt
    others q (r ∷ qs) (h, hs) = (h, others q qs hs)

pub IsRouted-IsExact :
    {L C W : Type 0} (s : Service L C W) (group_at : W → String → GroupState)
    → IsRouted s group_at
    → IsExact s
IsRouted-IsExact s group_at routed = record {
  some_batch = routed.some_batch;
  forward_own = λ w name reqs is_batch some_reqs few distinct.
      let g = group_at w name in
      let h = routed.backends w name in
      elim (Option-cases (call_group g reqs is_batch)) [
        | inl e ↦ inl (routed.panics w name reqs is_batch e)
        | inr (u, e) ↦
            let (reply, f, kept, res, err) = routed.forwards w name reqs is_batch u e in
            inr (
              reply,
              f,
              kept,
              λ served.
                  ap (map (λ r. r.id)) res
                  ∙ group_forward-InOrder g.codec g.attempts g.shuffles g.arrive g.strategy g.bg
                      g.consensus g.now reqs is_batch u
                      (do_forward-IsOrdered h.wire h.send h.now h.later g.attempts h.honest
                        h.exchanged)
                      (Distinct-ids reqs distinct) (routed.single w name) e (sym err ∙ served),
            )
      ];
  cache_own = routed.cache_own;
}

-- Where the minibatches of a server have a positive size, its cache answers a request under its own id, and
-- it forwards to groups that do not multicall, with backends behind them that are honest, that is, answer
-- each request that they are sent once, in any order: in whatever order the batches are ranged over, a call panics only where the Forward of a group
-- panics, on requests that the texts of the call are parsed to; when it replies, the slot at each
-- request's index holds a response with the request's id, or with none for a request that cannot be
-- parsed or is invalid; and it returns without responses only after its deadline or on an error
-- about the translation of receipts.
pub handle_batch_rpc_honest :
    {L C W : Type 0} (s : Service L C W) (group_at : W → String → GroupState) (raws : List String)
    (order : List Batch → List Batch) (is_batch : Bool) (l : L) (c : C) (w : W)
    → IsRouted s group_at
    → ((bs : List Batch) → Permᴰ bs (order bs))
    → IsAnswered s raws (handle_batch_rpc s order is_batch l c w raws)
handle_batch_rpc_honest s group_at raws order is_batch l c w routed perm =
    handle_batch_rpc-IsAnswered s raws (IsRouted-IsExact s group_at routed) order is_batch l c w
      perm

-- Where the minibatches of a server have a positive size, its cache answers a request under its own id, and
-- it forwards to groups that do not multicall, with honest backends behind them: the handler panics
-- only where the Forward of a group panics, on requests that the body is parsed to. A request that
-- is not authorized gets the status 401 and changes nothing. Any other gets one error without an id,
-- or, with the status 200, a list of responses to the requests of a batch that is within the limit,
-- each in its place and under its id, or the one response to a request that is no batch, under its
-- id.
pub handle_rpc_honest :
    {L C W : Type 0} (s : Server L C W) (group_at : RequestContext → W → String → GroupState)
    (l : L) (c : C) (w : W) (r : HttpRequest) (body : Body)
    → ((ctx : RequestContext) (client : Client)
        → IsRouted (service_for s ctx client) (group_at ctx))
    → ((bs : List Batch) → Permᴰ bs (s.order bs))
    → Replied s l c w r body
handle_rpc_honest s group_at l c w r body routed perm =
    handle_rpc-IsProper s l c w r body
      (λ ctx client. IsRouted-IsExact (service_for s ctx client) (group_at ctx) (routed ctx client))
      perm
