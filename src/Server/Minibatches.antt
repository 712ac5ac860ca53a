-- ===== src/Server/Minibatches.antt =====
-- server.go, `handleBatchRPC`: the loop over the batches, each looked up in the cache and forwarded in
-- minibatches, and the whole function. The order in which Go ranges over the map of batches is the
-- parameter `order`. A minibatch size of 0 does not occur: NewServer puts a default in its place.
use Prim.Native.String as Text
use bsc_builder_proxyd.Base.{
  ℕ, zero, suc, ◌+◌, ◌-◌, ◌/◌, Bool, true, false, List, [], ◌∷◌, String, Option, none, some,
  if◌then◌else◌, ◌==◌, eqb, string_eq, length, set, take, drop,
}
use bsc_builder_proxyd.Rpc.{RpcReq, RpcRes}
use bsc_builder_proxyd.Routing.{ForwardError}
use bsc_builder_proxyd.Server.Batch.{
  Service, Reply, BatchElem, Batch, Collected, collected, health_reply, collect_from, Progress,
  Ending, go_on, expired, receipts_error, crashed, ◌>>=◌, add_name, create_batch_request,
  is_receipts_error, is_cacheable, error_responses,
}

-- The elements' requests as the call left them.
unfoldable pub refresh : List BatchElem → List RpcReq → List BatchElem
refresh [] reqs = []
refresh (e ∷ es) [] = e ∷ es
refresh (e ∷ es) (q ∷ qs) = record e { req = q } ∷ refresh es qs

-- `responses := make([]*RPCRes, len(reqs))`.
unfoldable pub no_responses : List String → List (Option RpcRes)
no_responses [] = []
no_responses (raw ∷ raws) = none ∷ no_responses raws

-- The least number of minibatches of `max` that hold `n` elements.
unfoldable pub num_batches : ℕ → ℕ → ℕ
num_batches n max = (n + (max - 1)) / max

-- A name that is empty leaves no comma before the next if nothing stands before it.
unfoldable pub join_names : String → List String → String
join_names acc [] = acc
join_names acc (x ∷ xs) =
    join_names (Text.◌++◌ (if eqb acc "" then "" else Text.◌++◌ acc ", ") x) xs

module _ {C W : Type 0} where
  abbrev pub put_slot : ℕ → RpcRes → Progress C W → Progress C W
  put_slot i r p = record p { slots = set p.slots i (some r) }

  abbrev pub take_reply : Progress C W → Reply W → Progress C W
  take_reply p reply = record p {
    world = reply.world;
    served_by = add_name reply.served_by p.served_by;
  }

-- What the caller of `handleBatchRPC` gets, with the states it leaves.
pub data Handled (L C W : Type 0) : Type 0 where
  replied : L → C → W → List (Option RpcRes) → Bool → String → Handled L C W
  timed_out : L → C → W → Handled L C W
  refused : L → C → W → ForwardError → Handled L C W
  panicked : Handled L C W

module _ {L C W : Type 0} (s : Service L C W) where
  -- The hits get their responses; the misses stay.
  unfoldable pub lookup_elems : List BatchElem → Progress C W → Progress C W × List BatchElem
  lookup_elems [] p = (p, [])
  lookup_elems (e ∷ es) p = elim (s.get_rpc p.cache e.req) [
    | some res ↦ lookup_elems es (record (put_slot e.index res p) { cached = true })
    | none ↦ let (p', misses) = lookup_elems es p in (p', e ∷ misses)
  ]

  unfoldable pub put_cache : C → RpcReq → RpcRes → C
  put_cache c req r = if is_cacheable r then s.put_rpc c req r else c

  -- `responses[elems[i].Index] = res[i]` for each element; `res` may be too short.
  unfoldable pub store : List BatchElem → List RpcRes → Progress C W → Ending C W
  store [] res p = go_on p
  store (e ∷ es) [] p = crashed
  store (e ∷ es) (r ∷ res) p =
      store es res (record (put_slot e.index r p) { cache = put_cache p.cache e.req r })

  unfoldable pub handle_reply : List BatchElem → Progress C W → Reply W → Ending C W
  handle_reply elems p reply =
      let elems' = refresh elems reply.requests in
      elim reply.error [
        | none ↦ store elems' reply.res (take_reply p reply)
        | some e ↦
            if is_receipts_error e.kind
            then receipts_error (take_reply p reply) e
            else store elems' (error_responses s.to_any e (create_batch_request elems'))
                (take_reply p reply)
      ]

  unfoldable pub forward_minibatch : String → Bool → List BatchElem → Progress C W → Ending C W
  forward_minibatch group is_batch elems p =
      elim (s.forward p.world group (create_batch_request elems) is_batch) [
        | none ↦ crashed
        | some reply ↦ handle_reply elems p reply
      ]

  -- The loop with `n` minibatches left.
  unfoldable pub forward_minibatches :
      ℕ → String → Bool → List BatchElem → Progress C W → Ending C W
  forward_minibatches zero group is_batch elems p = go_on p
  forward_minibatches (suc n) group is_batch elems p = elim (s.is_expired p.world) [
    | true ↦ expired p
    | false ↦
        forward_minibatch group is_batch (take s.max_upstream_batch_size elems) p
        >>= forward_minibatches n group is_batch (drop s.max_upstream_batch_size elems)
  ]

  unfoldable pub run_batch : Bool → Batch → Progress C W → Ending C W
  run_batch is_batch b p =
      let (p', misses) = lookup_elems b.elems p in
      forward_minibatches (num_batches (length misses) s.max_upstream_batch_size) b.backend_group
        is_batch misses p'

  unfoldable pub run_batches : Bool → List Batch → Progress C W → Ending C W
  run_batches is_batch [] p = go_on p
  run_batches is_batch (b ∷ bs) p = run_batch is_batch b p >>= run_batches is_batch bs

  abbrev pub finish : L → Ending C W → Handled L C W
  finish l (go_on p) = replied l p.cache p.world p.slots p.cached (join_names "" p.served_by)
  finish l (expired p) = timed_out l p.cache p.world
  finish l (receipts_error p e) = refused l p.cache p.world e
  finish l crashed = panicked

  abbrev pub first_progress : C → W → Collected L → Progress C W
  first_progress c w k = record {
    cache = c;
    world = w;
    slots = k.responses;
    cached = false;
    served_by = [];
  }

  abbrev pub first_collected : L → List String → Collected L
  first_collected l raws = record {
    limits = l;
    responses = no_responses raws;
    batches = [];
    ids = [];
  }

  unfoldable pub handle_batch_rpc :
      (List Batch → List Batch) → Bool → L → C → W → List String → Handled L C W
  handle_batch_rpc order is_batch l c w raws =
      elim (collect_from s (length raws == 1) 0 raws (first_collected l raws)) [
        | health_reply l' res ↦ replied l' c w (some res ∷ []) false ""
        | collected k ↦
            finish k.limits (run_batches is_batch (order k.batches) (first_progress c w k))
      ]
