-- ===== src/Tests/Caches.antt =====
-- A cache over an association list, with compression, and a fallback whose first cache is down.
use bsc_builder_proxyd.Base.{
  ◌≡◌, refl, ap, inl, inr, false, List, [], arith, String, Option, none, some, eqb, string_eq,
  lookup, insert, lookup-insert_self, lookup-insert, Bool-cases, ◌∷◌, sym, Any,
}
use bsc_builder_proxyd.Json.{Json, null, boolean, number, text, array, object}
use bsc_builder_proxyd.Rpc.{RpcReq, RpcRes}
use bsc_builder_proxyd.Cache.{
  Cache, Lru, Snappy, memory_cache, CacheCodec, handler_of, filter_get, filter_put, get_rpc,
  put_rpc, hit, cache_key,
}
use bsc_builder_proxyd.Cache.RoundTrip.{Retains, IsCompression}
use bsc_builder_proxyd.Cache.History.{Keeps, Misses, Answers, put_all, put_all-get_rpc}

abbrev Store : Type 0
Store = List (String × String)

abbrev lru : Lru Store
lru = record { find = λ s key. lookup key s; add = λ s key value. insert key value s }

memory-Retains : Retains (memory_cache lru)
unfolding memory_cache
memory-Retains s key value h = rw (lookup-insert_self key value s)

-- The encoding puts one character in front.
abbrev tail_of : String → Option String
tail_of String.[] = none
tail_of (String.◌∷◌ c s) = some s

abbrev snappy : Snappy
snappy = record { encode = λ v. String.◌∷◌ "x" v; decode = tail_of }

encode_some_text : (v : String) → eqb (snappy.encode v) "" ≡ false
encode_some_text v = elim (Bool-cases (eqb (snappy.encode v) "")) [
  | inl e ↦
      let q = ap tail_of ((string_eq.beq_iff (snappy.encode v) "").0 e) in
      absurd (ground (arith, q))
  | inr e ↦ e
]

snappy-IsCompression : IsCompression snappy
snappy-IsCompression = record { decode_encode = λ v. refl; not_empty = encode_some_text }

abbrev down : Cache Store
down = record { get = λ s key. none; put = λ s key value. (s, false) }

down-Retains : Retains down
down-Retains s key value h = absurd (cc)

abbrev chain_id : RpcReq
chain_id = record { jsonrpc = "2.0"; method = "eth_chainId"; params = "[]"; id = "1" }

abbrev chain_res : RpcRes
chain_res = record { jsonrpc = "2.0"; result = some (text "0x38"); error = none; id = "1" }

abbrev text_of : Option Json → String
text_of (some (text s)) = s
text_of (some null) = ""
text_of (some (boolean b)) = ""
text_of (some (number n)) = ""
text_of (some (array vs)) = ""
text_of (some (object fs)) = ""
text_of none = ""

starts_empty : (key : String) → Misses ((memory_cache lru).get [] key)
unfolding memory_cache lookup
starts_empty key = inr refl

-- A codec for results that are texts.
abbrev codec : CacheCodec
codec = record {
  signature = λ params. params;
  marshal = text_of;
  unmarshal = λ s. some (some (text s));
  unmarshal_blocks = λ params. none;
}

memory-Keeps : Keeps (memory_cache lru)
unfolding memory_cache
memory-Keeps s key value other =
    let found = lookup-insert key other value s in
    elim (Bool-cases (eqb key other)) [
      | inl x ↦ inr (inr (sym ((string_eq.beq_iff key other).0 x), rw (found, x) refl))
      | inr x ↦ inr (inl (rw (found, x) refl))
    ]

-- Another request with the method and the params of the one before.
abbrev again : RpcReq
again = record chain_id { id = "9" }

abbrev version : RpcReq
version = record chain_id { method = "net_version" }

abbrev puts : List (RpcReq × RpcRes)
puts = (chain_id, chain_res) ∷ (version, record chain_res { result = some (text "56") }) ∷ []

abbrev cached : RpcRes
cached = record chain_res { id = "9" }

found_again :
    get_rpc codec (memory_cache lru) (put_all codec (memory_cache lru) [] puts) again ≡ hit cached
unfolding put_all put_rpc get_rpc memory_cache handler_of filter_get filter_put cache_key insert
    lookup
found_again = refl

put_all-get_rpc_example : Any (Answers codec again cached) puts
put_all-get_rpc_example =
    put_all-get_rpc codec (memory_cache lru) [] puts again cached memory-Keeps starts_empty
      (refl, (refl, tt)) found_again
