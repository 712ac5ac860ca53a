-- ===== src/Cache.antt =====
-- cache.go and methods.go: the layers of the cache and the RPC cache above them. A cache is a record
-- of its two operations on a store. The LRU map, Redis, snappy, SHA-256 and `encoding/json` are
-- parameters. Locks make each operation one step.
pub mod RoundTrip
pub mod Keys
pub mod History
use Prim.Native.String as Text
use bsc_builder_proxyd.Base.{
  ℕ, Bool, true, false, not, ◌&&◌, List, [], ◌∷◌, String, Option, none, some, if◌then◌else◌, eqb,
  string_eq, ltb, is_some,
}
use bsc_builder_proxyd.Json.{Json, null, boolean, number, text, array, object, count_items}
use bsc_builder_proxyd.Rpc.{RpcReq, RpcRes}
use bsc_builder_proxyd.Rewriter.{BlockNumberOrHash}
use bsc_builder_proxyd.Rewriter.Overrides.{one_of}

-- `none` is an error, the empty text a miss. A `put` tells whether it went without an error.
pub record Cache (S : Type 0) : Type 0 where
  pub get : S → String → Option String
  pub put : S → String → String → S × Bool

pub record Lru (S : Type 0) : Type 0 where
  pub find : S → String → Option String
  pub add : S → String → String → S

abbrev or_empty : Option String → String
or_empty none = ""
or_empty (some v) = v

unfoldable pub memory_cache : {S : Type 0} → Lru S → Cache S
memory_cache lru = record {
  get = λ s key. some (or_empty (lru.find s key));
  put = λ s key value. (lru.add s key value, true);
}

unfoldable pub fallback_cache : {S R : Type 0} → Cache S → Cache R → Cache (S × R)
fallback_cache primary secondary = record {
  get = λ s key. elim (primary.get s.0 key) [ none ↦ secondary.get s.1 key | some v ↦ some v ];
  put = λ s key value.
      let (p, ok_put) = primary.put s.0 key value in
      if ok_put
      then ((p, s.1), true)
      else let (q, ok_second) = secondary.put s.1 key value in ((p, q), ok_second);
}

-- What Redis answers to a read; `missing` is `redis.Nil`.
pub data Reply : Type 0 where
  missing : Reply
  value_of : String → Reply
  broken : Reply

pub record RedisStore (S : Type 0) : Type 0 where
  pub read : S → String → Reply
  pub set_ex : S → String → String → ℕ → S × Bool

unfoldable pub namespaced : String → String → String
namespaced prefix key = if eqb prefix "" then key else Text.◌++◌ prefix (Text.◌++◌ ":" key)

abbrev of_reply : Reply → Option String
of_reply missing = some ""
of_reply (value_of v) = some v
of_reply broken = none

unfoldable pub redis_cache : {S : Type 0} → RedisStore S → String → ℕ → Cache S
redis_cache redis prefix ttl = record {
  get = λ s key. of_reply (redis.read s (namespaced prefix key));
  put = λ s key value. redis.set_ex s (namespaced prefix key) value ttl;
}

pub record Snappy : Type 0 where
  pub encode : String → String
  pub decode : String → Option String

abbrev decoded : Snappy → Option String → Option String
decoded snappy none = none
decoded snappy (some v) = if eqb v "" then some "" else snappy.decode v

unfoldable pub cache_with_compression : {S : Type 0} → Snappy → Cache S → Cache S
cache_with_compression snappy cache = record {
  get = λ s key. decoded snappy (cache.get s key);
  put = λ s key value. cache.put s key (snappy.encode value);
}

-- The hash of the params, the JSON of a result (`nil` included) and the params as blocks.
pub record CacheCodec : Type 0 where
  pub signature : String → String
  pub marshal : Option Json → String
  pub unmarshal : String → Option (Option Json)
  pub unmarshal_blocks : String → Option (List BlockNumberOrHash)

unfoldable pub cache_key : CacheCodec → RpcReq → String
cache_key codec req =
    Text.◌++◌ "cache:" (Text.◌++◌ req.method (Text.◌++◌ ":" (codec.signature req.params)))

-- The two handlers of `newRPCCache`, and the methods without one.
pub data Handler : Type 0 where
  static_handler raw_receipts_handler no_handler : Handler

unfoldable pub handler_of : String → Handler
handler_of method =
    if one_of method (
      "eth_chainId" ∷ "net_version" ∷ "eth_getBlockTransactionCountByHash"
      ∷ "eth_getUncleCountByBlockHash" ∷ "eth_getBlockByHash"
      ∷ "eth_getTransactionByBlockHashAndIndex" ∷ "eth_getUncleByBlockHashAndIndex" ∷ [])
    then static_handler
    else if eqb method "debug_getRawReceipts"
    then raw_receipts_handler
    else no_handler

abbrev single_hash : Option (List BlockNumberOrHash) → Bool
single_hash none = false
single_hash (some []) = false
single_hash (some (b ∷ [])) = is_some b.block_hash
single_hash (some (b ∷ c ∷ bs)) = false

unfoldable pub filter_get : CacheCodec → Handler → RpcReq → Bool
filter_get codec static_handler req = true
filter_get codec raw_receipts_handler req = single_hash (codec.unmarshal_blocks req.params)
filter_get codec no_handler req = false

abbrev some_receipts : Option Json → Bool
some_receipts (some (array vs)) = ltb 0 (count_items vs)
some_receipts (some null) = false
some_receipts (some (boolean b)) = false
some_receipts (some (number n)) = false
some_receipts (some (text s)) = false
some_receipts (some (object fs)) = false
some_receipts none = false

unfoldable pub filter_put : Handler → RpcRes → Bool
filter_put static_handler res = true
filter_put raw_receipts_handler res = some_receipts res.result
filter_put no_handler res = false

-- A hit, a miss, or an error.
pub data Lookup : Type 0 where
  hit : RpcRes → Lookup
  miss : Lookup
  lookup_error : Lookup

abbrev of_result : RpcReq → Option (Option Json) → Lookup
of_result req none = lookup_error
of_result req (some result) =
    hit (record { jsonrpc = req.jsonrpc; result = result; error = none; id = req.id })

abbrev of_value : CacheCodec → RpcReq → Option String → Lookup
of_value codec req none = lookup_error
of_value codec req (some v) = if eqb v "" then miss else of_result req (codec.unmarshal v)

unfoldable pub get_rpc : {S : Type 0} → CacheCodec → Cache S → S → RpcReq → Lookup
get_rpc codec cache s req =
    if filter_get codec (handler_of req.method) req
    then of_value codec req (cache.get s (cache_key codec req))
    else miss

unfoldable pub put_rpc : {S : Type 0} → CacheCodec → Cache S → S → RpcReq → RpcRes → S × Bool
put_rpc codec cache s req res =
    if filter_get codec (handler_of req.method) req && filter_put (handler_of req.method) res
    then cache.put s (cache_key codec req) (codec.marshal res.result)
    else (s, true)
