-- ===== src/Tests/Whole.antt =====
-- A batch of two requests through the server, the routing and the exchange with an honest backend, which
-- answers them the other way round.
use mathlib.Core.List.Permᴰ
use bsc_builder_proxyd.Base.{
  String, Bool, ◌<◌, ◌∙◌, sym, ℕ, ◌≡◌, refl, ap, true, false, List, [], ◌∷◌, Option, none, some,
  arith,
}
use bsc_builder_proxyd.Rpc.{RpcReq, RpcRes, other}
use bsc_builder_proxyd.Exchange.{Outcome, got, failed, panicked, do_forward}
use bsc_builder_proxyd.Routing.{Attempts, Answer, responses, failure, crashed, GroupResponse}
use bsc_builder_proxyd.Routing.Group.{fallback}
use bsc_builder_proxyd.Server.Batch.{Service, Reply}
use bsc_builder_proxyd.Server.Minibatches.{handle_batch_rpc}
use bsc_builder_proxyd.Server.Replies.{IsAnswered}
use bsc_builder_proxyd.Server.Honest.{
  GroupState, call_group, IsRouted, handle_batch_rpc_honest, handle_rpc_honest,
}
use bsc_builder_proxyd.Server.Access.{RequestContext, Client}
use bsc_builder_proxyd.Server.Handle.{Server, whole, service_for}
use bsc_builder_proxyd.Server.Outcomes.{Replied}
use bsc_builder_proxyd.Tests.Calls.{server, post}
use bsc_builder_proxyd.Tests.Exchanges.{wire, send, backend, request, send-IsHonest}
use bsc_builder_proxyd.Tests.Requests.{codec}

abbrev answer_of : Outcome → Answer
answer_of (got res) = responses res
answer_of (failed e) = failure e
answer_of panicked = crashed

abbrev attempts : Attempts
attempts b i reqs is_batch = answer_of (do_forward wire send 0 5 b reqs is_batch).outcome

answer_of-got : (o : Outcome) (res : List RpcRes) → answer_of o ≡ responses res → o ≡ got res
answer_of-got (got rs) res h = cc
answer_of-got (failed e) res h = absurd (cc)
answer_of-got panicked res h = absurd (cc)

abbrev group_state : GroupState
group_state = record {
  codec = codec;
  attempts = attempts;
  shuffles = record {
    shuffle_healthy = λ bs. bs;
    shuffle_degraded = λ bs. bs;
    weighted_healthy = λ bs. bs;
    weighted_unhealthy = λ bs. bs;
  };
  arrive = λ rs. rs;
  strategy = fallback;
  bg = record {
    name = "main";
    backends = backend ∷ [];
    weighted_routing = false;
    fallback_backends = [];
    multicall_rpc_error_check = false;
  };
  consensus = none;
  now = 5;
}

abbrev reply_of : ℕ → List RpcReq → Option GroupResponse → Option (Reply ℕ)
reply_of w reqs none = none
reply_of w reqs (some u) =
    some
      (record { world = w; requests = reqs; res = u.res; served_by = u.served_by; error = u.error })

-- The text of a request is its id.
abbrev service : Service ℕ ℕ ℕ
service = record {
  parse = λ s. some (request s);
  rpc_method_mappings = ("m", "main") ∷ [];
  is_limited = λ l m. (l, false);
  limit_sender = none;
  override_call = λ q. none;
  get_rpc = λ c req. none;
  put_rpc = λ c req r. c;
  forward = λ w name reqs is_batch. reply_of w reqs (call_group group_state reqs is_batch);
  is_expired = λ w. false;
  to_any = λ e. other "failed";
  max_upstream_batch_size = 2;
}

-- Any service that forwards to this group and has no cache.
forwarding-IsRouted :
    (s : Service ℕ ℕ ℕ)
    → 0 < s.max_upstream_batch_size
    → ((w : ℕ) (name : String) (reqs : List RpcReq) (is_batch : Bool)
        → s.forward w name reqs is_batch ≡ reply_of w reqs (call_group group_state reqs is_batch))
    → ((c : ℕ) (req : RpcReq) → s.get_rpc c req ≡ none)
    → IsRouted s (λ w name. group_state)
forwarding-IsRouted s some_batch forwards no_cache = record {
  some_batch = some_batch;
  single = λ w name h. absurd (cc h);
  backends = λ w name. record {
    wire = wire;
    send = λ b i. send;
    now = λ b i. 0;
    later = λ b i. 5;
    honest = λ b i. send-IsHonest;
    exchanged = λ b i reqs is_batch res h. (reqs, refl, answer_of-got _ res h);
  };
  panics = λ w name reqs is_batch h. forwards w name reqs is_batch ∙ ap (reply_of w reqs) h;
  forwards = λ w name reqs is_batch u h. (
    record { world = w; requests = reqs; res = u.res; served_by = u.served_by; error = u.error },
    forwards w name reqs is_batch ∙ ap (reply_of w reqs) h,
    refl,
    refl,
    refl,
  );
  cache_own = λ c req r h. absurd (cc (sym (no_cache c req) ∙ h));
}

handle_batch_rpc_honest_example :
    IsAnswered service
      ("1" ∷ "2" ∷ [])
      (handle_batch_rpc service (λ bs. bs) true 0 0 0 ("1" ∷ "2" ∷ []))
handle_batch_rpc_honest_example =
    handle_batch_rpc_honest service (λ w name. group_state) ("1" ∷ "2" ∷ []) (λ bs. bs) true 0 0 0
      (forwarding-IsRouted service (omega arith) (λ w name reqs is_batch. refl) (λ c req. refl))
      (λ bs. Permᴰ.refl bs)

abbrev forwarding : Server ℕ ℕ ℕ
forwarding = record server {
  forward = λ ctx w name reqs is_batch. reply_of w reqs (call_group group_state reqs is_batch);
}

forwarding_for-IsRouted :
    (ctx : RequestContext) (client : Client)
    → IsRouted (service_for forwarding ctx client) (λ w name. group_state)
unfolding service_for
forwarding_for-IsRouted ctx client =
    forwarding-IsRouted (service_for forwarding ctx client) (omega arith)
      (λ w name reqs is_batch. refl) (λ c req. refl)

handle_rpc_honest_example : Replied forwarding 0 0 0 post (whole "[")
handle_rpc_honest_example =
    handle_rpc_honest forwarding (λ ctx w name. group_state) 0 0 0 post (whole "[")
      forwarding_for-IsRouted (λ bs. Permᴰ.refl bs)
