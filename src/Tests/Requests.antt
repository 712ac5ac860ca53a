-- ===== src/Tests/Requests.antt =====
-- Requests at a consensus with latest block 7, and heartbeats of a tracker.
use Prim.Native.Char.{Char}
use bsc_builder_proxyd.Base.{
  ℕ, zero, suc, some_inj, ap, sym, ◌≤◌, ◌≡◌, refl, true, false, List, [], ◌∷◌, String, Option, none,
  some, if◌then◌else◌, ◌==◌, string_eq, ℤ, pos, negsuc, arith, length,
}
use bsc_builder_proxyd.Json.{
  Json, null, boolean, number, text, array, object, Items, nil, cons, Fields, field, end, field_of,
  set_field, item_at, set_item, count_items,
}
use bsc_builder_proxyd.Rpc.{RpcReq, RpcRes, codes}
use bsc_builder_proxyd.Rewriter.{
  Codec, RewriteContext, BlockNumberOrHash, with_number, switch, switch_block, rewrite_tag,
  to_int64,
}
use bsc_builder_proxyd.Rewriter.Params.{
  rewrite_param, rewrite_items, rewrite_at, change_param, change_text,
}
use bsc_builder_proxyd.Rewriter.Ranges.{
  rewrite_first, rewrite_tag_map, rewrite_tag_value, default_ends, check_range, check_distance,
  finish_range, block_number, number_of,
}
use bsc_builder_proxyd.Rewriter.Overrides.{
  Overwritten, overwrite_consensus_responses, overwrite_from, rewrite_tags, rewrite_request,
  rewrite_response, rule_of, override_responses, override_one, Fate,
}
use bsc_builder_proxyd.Rewriter.Weave.{fates, forwarded, weave, override_responses_lem}
use bsc_builder_proxyd.Rewriter.Switch.{IsLawful, Fits, IsCompliant}
use bsc_builder_proxyd.Rewriter.Compliance.{rewrite_param-IsCompliant}
use bsc_builder_proxyd.Rewriter.Limits.{IsBounded, Carries, own_range, rewrite_first-Limited}
use bsc_builder_proxyd.Consensus.{TrackerState}
use bsc_builder_proxyd.Tracker.{
  RedisConsensusTracker, Redis, Key, mutex_key, leader_key, state_key, state_heartbeat, valid,
}
use bsc_builder_proxyd.Tracker.Election.{
  Published, state_heartbeat-Published, state_heartbeat_forward,
}

abbrev rctx : RewriteContext
rctx = record { latest = 7; safe = 6; finalized = 5; max_block_range = 4 }

-- Quantities in unary; a text that starts with `l` is the tag `latest`.
abbrev tick : Char
tick = "I"

abbrev unary : ℕ → String
unary zero = ""
unary (suc n) = String.◌∷◌ tick (unary n)

abbrev ticks : List ℕ → ℤ
ticks [] = pos 0
ticks (c ∷ cs) = if c == b'l' then negsuc 1 else pos (length (c ∷ cs))

abbrev numbered : Option Json → Option BlockNumberOrHash
numbered (some (number n)) = some (with_number n)
numbered (some v) = none
numbered none = none

abbrev parse : Json → Option BlockNumberOrHash
parse (text s) = some (with_number (ticks (codes s)))
parse (object fs) = numbered (field_of "blockNumber" fs)
parse v = none

abbrev marshal_number : Option ℤ → Json
marshal_number (some n) = object (field "blockNumber" (number n) end)
marshal_number none = null

-- Params of one text are that text.
abbrev unmarshal_items : String → Option Items
unmarshal_items s = some (cons (text s) nil)

abbrev marshal_items : Items → Option String
marshal_items (cons (text s) nil) = some s
marshal_items p = none

abbrev pub codec : Codec
codec = record {
  unmarshal_items = unmarshal_items;
  marshal_items = marshal_items;
  unmarshal_maps = λ s. none;
  marshal_maps = λ ms. some "maps";
  encode_uint64 = unary;
  decode_uint64 = λ s. some (length (codes s));
  range_message = λ n. "too large";
  parse = parse;
  marshal_block = λ b. marshal_number b.block_number;
  pending = negsuc 0;
  earliest = negsuc 4;
  finalized = negsuc 2;
  safe = negsuc 3;
  latest = negsuc 1;
}

marshal_items-round_trip :
    (p : Items) (s : String) → marshal_items p ≡ some s → unmarshal_items s ≡ some p
marshal_items-round_trip (cons (text t) nil) s h = ap unmarshal_items (sym (some_inj h))
marshal_items-round_trip nil s h = absurd (cc)
marshal_items-round_trip (cons (text t) (cons v p)) s h = absurd (cc)
marshal_items-round_trip (cons null p) s h = absurd (cc)
marshal_items-round_trip (cons (boolean b) p) s h = absurd (cc)
marshal_items-round_trip (cons (number n) p) s h = absurd (cc)
marshal_items-round_trip (cons (array vs) p) s h = absurd (cc)
marshal_items-round_trip (cons (object fs) p) s h = absurd (cc)

length-unary : (n : ℕ) → length (codes (unary n)) ≡ n
length-unary zero = refl
length-unary (suc n) = ap suc (length-unary n)

ticks-unary : (n : ℕ) → ticks (codes (unary n)) ≡ pos n
ticks-unary zero = refl
ticks-unary (suc n) = ap (λ k. pos (suc k)) (length-unary n)

codec-IsLawful : IsLawful codec
unfolding field_of with_number
codec-IsLawful = record {
  round_trip = marshal_items-round_trip;
  parse_encoded = λ n h. ap (λ z. some (with_number z)) (ticks-unary n);
  parse_marshalled = λ n h. refl;
}

rctx-Fits : Fits rctx
rctx-Fits = record {
  latest_fits = omega arith;
  safe_fits = omega arith;
  finalized_fits = omega arith;
}

abbrev get_block : RpcReq
get_block = record { jsonrpc = "2.0"; method = "eth_getBlockByNumber"; params = "latest"; id = "1" }

rewrite_param-IsCompliant_example : IsCompliant codec rctx (text "IIIIIII")
unfolding rewrite_param rewrite_items rewrite_at change_param change_text rewrite_tag switch_block
    switch with_number item_at set_item count_items
rewrite_param-IsCompliant_example =
    rewrite_param-IsCompliant codec codec-IsLawful rctx rctx-Fits get_block 0 false false (λ e. cc)
      (cons (text "IIIIIII") nil) (text "IIIIIII") refl refl

abbrev filter_map : Fields
filter_map = field "fromBlock" (text "IIII") end

abbrev get_logs : RpcReq
get_logs = record { jsonrpc = "2.0"; method = "eth_getLogs"; params = "maps"; id = "2" }

rewrite_first-Limited_example :
    (m : Fields) × IsBounded codec rctx m
    × Carries codec get_logs
        (own_range codec rctx get_logs [] filter_map)
        []
        m
        (rewrite_first codec rctx get_logs filter_map [])
unfolding rewrite_first rewrite_tag_map rewrite_tag_value default_ends check_range check_distance
    finish_range block_number number_of field_of set_field rewrite_tag switch_block switch
    with_number to_int64
rewrite_first-Limited_example =
    rewrite_first-Limited codec rctx get_logs [] filter_map refl (omega arith) (λ e. cc)

abbrev ask_number : RpcReq
ask_number = record { jsonrpc = "2.0"; method = "eth_blockNumber"; params = ""; id = "3" }

abbrev pub ask_version : RpcReq
ask_version = record { jsonrpc = "2.0"; method = "net_version"; params = ""; id = "4" }

abbrev pub own : RpcRes
own = record { jsonrpc = "2.0"; result = some (text "IIIIIII"); error = none; id = "3" }

abbrev pub backends_own : RpcRes
backends_own = record { jsonrpc = "2.0"; result = some (text "56"); error = none; id = "4" }

abbrev pub batch : List RpcReq
batch = ask_number ∷ ask_version ∷ []

abbrev overwritten : Overwritten
overwritten = record {
  requests = ask_version ∷ [];
  overridden = record { index = 0; req = ask_number; res = own } ∷ [];
}

batch_run : override_responses (backends_own ∷ []) overwritten.overridden ≡ own ∷ backends_own ∷ []
unfolding override_responses override_one
batch_run = refl

override_responses_lem_example :
    (fs : List Fate) × (fates codec rctx batch ≡ some fs)
    × (length fs ≡ 2)
    × (overwritten.requests ≡ forwarded fs)
    × (override_responses (backends_own ∷ []) overwritten.overridden ≡ weave fs (backends_own ∷ []))
unfolding overwrite_consensus_responses overwrite_from rewrite_tags rewrite_request rewrite_response
    rule_of
override_responses_lem_example =
    override_responses_lem codec rctx batch overwritten (backends_own ∷ []) refl refl

-- The leader "node" has stored a state that reads as block 9 under the lock "lock1".
abbrev stored : TrackerState
stored = record { latest = 9; safe = 8; finalized = 7 }

abbrev read_key : Option String → Key → Option String
read_key held mutex_key = held
read_key held (leader_key v) = some "node"
read_key held (state_key v) = some "state"

abbrev redis : Option String → Redis
redis held = record {
  get = read_key held;
  unlock = true;
  extend = true;
  lock = some "lock2";
  set = λ k v. true;
  marshal = λ s. some "mine";
  unmarshal = λ s. some stored;
  hostname = "here";
}

abbrev tracker : RedisConsensusTracker
tracker = record {
  lock_period = 30;
  heartbeat_interval = 2;
  redlock = none;
  leader = false;
  leader_name = "";
  local_state = record { latest = 10; safe = 9; finalized = 8 };
  remote_state = record { latest = 9; safe = 8; finalized = 7 };
}

state_heartbeat-Published_example :
    Published (redis (some "lock1")) tracker (state_heartbeat (redis (some "lock1")) tracker)
state_heartbeat-Published_example = state_heartbeat-Published (redis (some "lock1")) tracker

state_heartbeat_forward_example :
    (9 ≤ (state_heartbeat (redis (some "")) tracker).remote_state.latest)
    × (8 ≤ (state_heartbeat (redis (some "")) tracker).remote_state.safe)
    × (7 ≤ (state_heartbeat (redis (some "")) tracker).remote_state.finalized)
unfolding valid
state_heartbeat_forward_example = state_heartbeat_forward (redis (some "")) tracker refl refl
