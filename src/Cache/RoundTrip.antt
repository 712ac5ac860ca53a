-- ===== src/Cache/RoundTrip.antt =====
-- What was put into the cache is found there, through its layers.
use bsc_builder_proxyd.Base.{
  ◌≡◌, refl, ◌∙◌, ap, ◌⊎◌, true, false, String, Option, none, some, eqb, string_eq, arith,
}
use bsc_builder_proxyd.Json.{Json}
use bsc_builder_proxyd.Rpc.{RpcReq, RpcRes}
use bsc_builder_proxyd.Cache.{
  Cache, Snappy, cache_with_compression, fallback_cache, CacheCodec, cache_key, Handler,
  static_handler, raw_receipts_handler, no_handler, handler_of, filter_get, filter_put, hit,
  get_rpc, put_rpc,
}

-- A value that was put without an error is what the next `get` of its key finds.
abbrev pub Retains : {S : Type 0} → Cache S → Type 0
Retains {S} cache =
    (s : S) (key value : String)
    → (cache.put s key value).1 ≡ true
    → cache.get (cache.put s key value).0 key ≡ some value

-- What snappy promises; no encoding is empty.
pub record IsCompression (snappy : Snappy) : Type 0 where
  pub decode_encode : (v : String) → snappy.decode (snappy.encode v) ≡ some v
  pub not_empty : (v : String) → eqb (snappy.encode v) "" ≡ false

-- A result whose JSON, which is not empty, is read back as it was.
pub record IsFaithful (codec : CacheCodec) (r : Option Json) : Type 0 where
  pub unmarshal_marshal : codec.unmarshal (codec.marshal r) ≡ some r
  pub some_text : eqb (codec.marshal r) "" ≡ false

-- Compression keeps the promise of the cache below it.
cache_with_compression-Retains :
    {S : Type 0} (snappy : Snappy) (cache : Cache S)
    → IsCompression snappy
    → Retains cache
    → Retains (cache_with_compression snappy cache)
unfolding cache_with_compression
cache_with_compression-Retains snappy cache c r s key value h =
    let e = r s key (snappy.encode value) h in rw (e, c.not_empty value, c.decode_encode value)

-- Of two caches, one of which is the fallback: what was put without an error is found again, if it
-- went to the first one, and also if it went to the second one, as long as the first one still fails.
fallback_cache_lem :
    {S R : Type 0} (primary : Cache S) (secondary : Cache R) (s : S × R) (key value : String)
    → Retains primary
    → Retains secondary
    → let (s', ok_put) = (fallback_cache primary secondary).put s key value in
      ok_put ≡ true
      → ((primary.put s.0 key value).1 ≡ true) ⊎ (primary.get s'.0 key ≡ none)
      → (fallback_cache primary secondary).get s' key ≡ some value
unfolding fallback_cache
fallback_cache_lem primary secondary s key value p q h c =
    ground (arith, p s.0 key value, q s.1 key value)

filter_get-same :
    (codec : CacheCodec) (h : Handler) (req later : RpcReq)
    → later.params ≡ req.params
    → filter_get codec h later ≡ filter_get codec h req
unfolding filter_get
filter_get-same codec static_handler req later n = refl
filter_get-same codec raw_receipts_handler req later n = rw n
filter_get-same codec no_handler req later n = refl

cache_key-same :
    (codec : CacheCodec) (req later : RpcReq)
    → later.method ≡ req.method
    → later.params ≡ req.params
    → cache_key codec later ≡ cache_key codec req
unfolding cache_key
cache_key-same codec req later m n = rw (m, n)

-- A value that reads as a result is a hit.
get_rpc-hit :
    {S : Type 0} (codec : CacheCodec) (cache : Cache S) (s : S) (req : RpcReq) (r : Option Json)
    → IsFaithful codec r
    → filter_get codec (handler_of req.method) req ≡ true
    → cache.get s (cache_key codec req) ≡ some (codec.marshal r)
    → get_rpc codec cache s req
      ≡ hit (record { jsonrpc = req.jsonrpc; result = r; error = none; id = req.id })
unfolding get_rpc
get_rpc-hit codec cache s req r f g e = rw (g, e, f.some_text, f.unmarshal_marshal)

put_rpc-get :
    {S : Type 0} (codec : CacheCodec) (cache : Cache S) (s : S) (req : RpcReq) (res : RpcRes)
    → Retains cache
    → filter_get codec (handler_of req.method) req ≡ true
    → filter_put (handler_of req.method) res ≡ true
    → (put_rpc codec cache s req res).1 ≡ true
    → cache.get (put_rpc codec cache s req res).0 (cache_key codec req)
      ≡ some (codec.marshal res.result)
unfolding put_rpc
put_rpc-get codec cache s req res r g p =
    rw (g, p) (r s (cache_key codec req) (codec.marshal res.result))

-- A response that the RPC cache takes is the response to every later request with its method and
-- params, under that request's own id and version; where the cache below retains what is put, and
-- the JSON of the result is read back as it was.
put_rpc-get_rpc :
    {S : Type 0} (codec : CacheCodec) (cache : Cache S) (s : S) (req later : RpcReq) (res : RpcRes)
    → IsFaithful codec res.result
    → Retains cache
    → filter_get codec (handler_of req.method) req ≡ true
    → filter_put (handler_of req.method) res ≡ true
    → (put_rpc codec cache s req res).1 ≡ true
    → later.method ≡ req.method
    → later.params ≡ req.params
    → get_rpc codec cache (put_rpc codec cache s req res).0 later
      ≡ hit (record { jsonrpc = later.jsonrpc; result = res.result; error = none; id = later.id })
put_rpc-get_rpc codec cache s req later res f r g p ok_put m n =
    let s' = (put_rpc codec cache s req res).0 in
    get_rpc-hit codec cache s' later res.result f
      (ap (λ x. filter_get codec (handler_of x) later) m
        ∙ filter_get-same codec (handler_of req.method) req later n
        ∙ g)
      (ap (cache.get s') (cache_key-same codec req later m n)
        ∙ put_rpc-get codec cache s req res r g p ok_put)
