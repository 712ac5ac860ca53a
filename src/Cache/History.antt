-- ===== src/Cache/History.antt =====
-- cache.go: whose responses the RPC cache gives after any number of puts.
use bsc_builder_proxyd.Base.{
  ◌≡◌, refl, sym, ap, ◌∙◌, ◌⊎◌, inl, inr, true, false, List, [], ◌∷◌, String, Option, none, some,
  arith, All, Any, Bool-cases, Option-cases, eqb, string_eq, some_inj, subst,
}
use bsc_builder_proxyd.Json.{Json}
use bsc_builder_proxyd.Rpc.{RpcReq, RpcRes}
use bsc_builder_proxyd.Cache.{
  Cache, CacheCodec, cache_key, handler_of, filter_get, filter_put, hit, get_rpc, put_rpc,
}
use bsc_builder_proxyd.Cache.Keys.{cache_key_inj}

-- A miss or an error.
abbrev pub Misses : Option String → Type 0
Misses v = (v ≡ none) ⊎ (v ≡ some "")

-- A cache may forget and fail at any time, but finds at a key only what was found there before or has
-- just been put there.
abbrev pub Keeps : {S : Type 0} → Cache S → Type 0
Keeps {S} cache =
    (s : S) (key value other : String)
    → Misses (cache.get (cache.put s key value).0 other)
      ⊎ (cache.get (cache.put s key value).0 other ≡ cache.get s other)
      ⊎ ((other ≡ key) × (cache.get (cache.put s key value).0 other ≡ some value))

-- The JSON of a result is read back as it was.
abbrev pub ReadsBack : CacheCodec → Option Json → Type 0
ReadsBack codec r = codec.unmarshal (codec.marshal r) ≡ some r

unfoldable pub put_all : {S : Type 0} → CacheCodec → Cache S → S → List (RpcReq × RpcRes) → S
put_all codec cache s [] = s
put_all codec cache s ((req, res) ∷ puts) =
    put_all codec cache (put_rpc codec cache s req res).0 puts

-- This put can answer the request: it has the request's method and the hash of its params.
abbrev pub Answers : CacheCodec → RpcReq → RpcRes → RpcReq × RpcRes → Type 0
Answers codec later found (req, res) =
    (req.method ≡ later.method)
    × (codec.signature req.params ≡ codec.signature later.params)
    × (filter_put (handler_of req.method) res ≡ true)
    × (found ≡ record { jsonrpc = later.jsonrpc; result = res.result; error = none; id = later.id })

-- What stands under a key was put there.
abbrev Put : CacheCodec → String → String → RpcReq × RpcRes → Type 0
Put codec key value (req, res) =
    (cache_key codec req ≡ key)
    × (codec.marshal res.result ≡ value)
    × (filter_get codec (handler_of req.method) req ≡ true)
    × (filter_put (handler_of req.method) res ≡ true)

abbrev Stands : {S : Type 0} → Cache S → S → (String → String → Type 0) → Type 0
Stands cache s P =
    (key value : String) → cache.get s key ≡ some value → eqb value "" ≡ false → P key value

module _ {S : Type 0} (codec : CacheCodec) (cache : Cache S) (keeps : Keeps cache)
    (P : String → String → Type 0) where
  put-Stands :
      (s : S) (key value : String)
      → P key value
      → Stands cache s P
      → Stands cache (cache.put s key value).0 P
  put-Stands s key value p h other v e n = elim (keeps s key value other) [
    | inl (inl x) ↦ absurd (ground (arith, e, x))
    | inl (inr x) ↦
        let same : v ≡ "" = some_inj (sym e ∙ x) in
        absurd (ground (arith, n, (string_eq.beq_iff v "").1 same))
    | inr (inl x) ↦ h other v (sym x ∙ e) n
    | inr (inr (k, x)) ↦ subst (λ j. P j v) (sym k) (subst (P key) (some_inj (sym x ∙ e)) p)
  ]

  put_rpc-Stands :
      (s : S) (req : RpcReq) (res : RpcRes)
      → (filter_get codec (handler_of req.method) req ≡ true
          → filter_put (handler_of req.method) res ≡ true
          → P (cache_key codec req) (codec.marshal res.result))
      → Stands cache s P
      → Stands cache (put_rpc codec cache s req res).0 P
  unfolding put_rpc
  put_rpc-Stands s req res p h = elim (Bool-cases (filter_get codec (handler_of req.method) req)) [
    | inl x ↦ elim (Bool-cases (filter_put (handler_of req.method) res)) [
      | inl y ↦ rw (x, y) (put-Stands s _ _ (p x y) h)
      | inr y ↦ rw (x, y) h
    ]
    | inr x ↦ rw x h
  ]

  put_all-Stands :
      (puts : List (RpcReq × RpcRes)) (s : S)
      → All
          (λ p.
            filter_get codec (handler_of p.0.method) p.0 ≡ true
            → filter_put (handler_of p.0.method) p.1 ≡ true
            → P (cache_key codec p.0) (codec.marshal p.1.result))
          puts
      → Stands cache s P
      → Stands cache (put_all codec cache s puts) P
  unfolding put_all
  put_all-Stands [] s all h = h
  put_all-Stands ((req, res) ∷ puts) s all h =
      put_all-Stands puts _ all.1 (put_rpc-Stands s req res all.0 h)

-- Each of the puts is one of them.
abbrev AllPut : CacheCodec → List (RpcReq × RpcRes) → List (RpcReq × RpcRes) → Type 0
AllPut codec puts rest =
    All
      (λ p.
        filter_get codec (handler_of p.0.method) p.0 ≡ true
        → filter_put (handler_of p.0.method) p.1 ≡ true
        → Any (Put codec (cache_key codec p.0) (codec.marshal p.1.result)) puts)
      rest

AllPut-cons :
    (codec : CacheCodec) (p : RpcReq × RpcRes) (puts rest : List (RpcReq × RpcRes))
    → AllPut codec puts rest
    → AllPut codec (p ∷ puts) rest
AllPut-cons codec p puts [] h = tt
AllPut-cons codec p puts (r ∷ rest) h = (λ x y. inr (h.0 x y), AllPut-cons codec p puts rest h.1)

AllPut-self : (codec : CacheCodec) (puts : List (RpcReq × RpcRes)) → AllPut codec puts puts
AllPut-self codec [] = tt
AllPut-self codec ((req, res) ∷ puts) =
    (λ x y. inl (refl, refl, x, y), AllPut-cons codec (req, res) puts puts (AllPut-self codec puts))

-- A hit reads a text that is not empty under the key of the request.
get_rpc-hit_inv :
    {S : Type 0} (codec : CacheCodec) (cache : Cache S) (s : S) (later : RpcReq) (found : RpcRes)
    → get_rpc codec cache s later ≡ hit found
    → (filter_get codec (handler_of later.method) later ≡ true)
      × ((v : String) × (cache.get s (cache_key codec later) ≡ some v)
          × (eqb v "" ≡ false)
          × ((r : Option Json) × (codec.unmarshal v ≡ some r)
              × (found
                  ≡ record { jsonrpc = later.jsonrpc; result = r; error = none; id = later.id })))
unfolding get_rpc
get_rpc-hit_inv codec cache s later found h =
    elim (Bool-cases (filter_get codec (handler_of later.method) later)) [
      | inr x ↦ absurd (ground (arith, x, h))
      | inl x ↦ elim (Option-cases (cache.get s (cache_key codec later))) [
        | inl y ↦ absurd (ground (arith, x, y, h))
        | inr (v, y) ↦ elim (Bool-cases (eqb v "")) [
          | inl z ↦ absurd (ground (arith, x, y, z, h))
          | inr z ↦ elim (Option-cases (codec.unmarshal v)) [
            | inl u ↦ absurd (ground (arith, x, y, z, u, h))
            | inr (r, u) ↦ (x, (v, y, z, (r, u, ground (arith, x, y, z, u, h))))
          ]
        ]
      ]
    ]

found_among :
    (codec : CacheCodec) (later : RpcReq) (found : RpcRes) (value : String) (r : Option Json)
    (puts : List (RpcReq × RpcRes))
    → filter_get codec (handler_of later.method) later ≡ true
    → All (λ p. ReadsBack codec p.1.result) puts
    → codec.unmarshal value ≡ some r
    → found ≡ record { jsonrpc = later.jsonrpc; result = r; error = none; id = later.id }
    → Any (Put codec (cache_key codec later) value) puts
    → Any (Answers codec later found) puts
found_among codec later found value r [] g back u f h = h
found_among codec later found value r ((req, res) ∷ puts) g back u f (inl (k, m, x, y)) =
    let (same_method, same_params) = cache_key_inj codec req later x g k in
    let same : r ≡ res.result = some_inj (sym u ∙ ap codec.unmarshal (sym m) ∙ back.0) in
    inl (
      same_method,
      same_params,
      y,
      subst
          (λ q. found ≡ record { jsonrpc = later.jsonrpc; result = q; error = none; id = later.id })
          same f,
    )
found_among codec later found value r ((req, res) ∷ puts) g back u f (inr h) =
    inr (found_among codec later found value r puts g back.1 u f h)

-- After any puts into an RPC cache in whose store nothing was found at first: a hit is the result of a
-- response that was put, and that the filter of its method takes, for a request with the method and
-- the hash of the params of the one that asks, under this one's id and version; where the JSON of
-- the results is read back as it was, and the store may forget and fail but does not mix up its keys.
pub put_all-get_rpc :
    {S : Type 0} (codec : CacheCodec) (cache : Cache S) (start : S) (puts : List (RpcReq × RpcRes))
    (later : RpcReq) (found : RpcRes)
    → Keeps cache
    → ((key : String) → Misses (cache.get start key))
    → All (λ p. ReadsBack codec p.1.result) puts
    → get_rpc codec cache (put_all codec cache start puts) later ≡ hit found
    → Any (Answers codec later found) puts
put_all-get_rpc codec cache start puts later found keeps empty back h =
    let s = put_all codec cache start puts in
    let (g, (v, e, n, (r, u, f))) = get_rpc-hit_inv codec cache s later found h in
    found_among codec later found v r puts g back u f (
      put_all-Stands codec cache keeps (λ key value. Any (Put codec key value) puts) puts start
        (AllPut-self codec puts) nothing (cache_key codec later) v e n)
  where
    nothing : Stands cache start (λ key value. Any (Put codec key value) puts)
    nothing key value e n = elim (empty key) [
      | inl x ↦ absurd (ground (arith, e, x))
      | inr x ↦
          let same : value ≡ "" = some_inj (sym e ∙ x) in
          absurd (ground (arith, n, (string_eq.beq_iff value "").1 same))
    ]
