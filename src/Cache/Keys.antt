-- ===== src/Cache/Keys.antt =====
-- cache.go: requests with one key in the cache have one method and one hash of their params.
use Prim.Native.Char.{Char, code}
use Prim.Native.String as Text
use Prim.Native.String.append as Append
use bsc_builder_proxyd.Base.{
  ◌≡◌, refl, sym, ap, ◌∙◌, inl, inr, Bool, true, false, ◌||◌, List, [], ◌∷◌, String, arith, All,
  Bool-cases, if◌then◌else◌, eqb, string_eq, ◌==◌,
}
use bsc_builder_proxyd.Rpc.{RpcReq}
use bsc_builder_proxyd.Rewriter.Overrides.{one_of}
use bsc_builder_proxyd.Cache.{CacheCodec, cache_key, handler_of, filter_get}

abbrev is_colon : Char → Bool
is_colon c = code c == b':'

unfoldable has_colon : String → Bool
has_colon String.[] = false
has_colon (String.◌∷◌ c s) = is_colon c || has_colon s

-- The text before the first colon, and the one after it.
unfoldable before : String → String
before String.[] = ""
before (String.◌∷◌ c s) = let rest = before s in if is_colon c then "" else String.◌∷◌ c rest

unfoldable after : String → String
after String.[] = ""
after (String.◌∷◌ c s) = let rest = after s in if is_colon c then s else rest

abbrev tail_of : String → String
tail_of String.[] = ""
tail_of (String.◌∷◌ c s) = s

drop_prefix : (p x y : String) → Text.◌++◌ p x ≡ Text.◌++◌ p y → x ≡ y
drop_prefix String.[] x y h = sym (Append.nil x) ∙ h ∙ Append.nil y
drop_prefix (String.◌∷◌ c p) x y h =
    drop_prefix p x y (ap tail_of (sym (Append.cons c p x) ∙ h ∙ Append.cons c p y))

before-colon : (m s : String) → has_colon m ≡ false → before (Text.◌++◌ m (Text.◌++◌ ":" s)) ≡ m
unfolding before has_colon
before-colon String.[] s h = rw (Append.nil (Text.◌++◌ ":" s), Append.cons ":" "" s) refl
before-colon (String.◌∷◌ c m) s h =
    rw (Append.cons c m (Text.◌++◌ ":" s)) (ground (arith, before-colon m s, h))

after-colon : (m s : String) → has_colon m ≡ false → after (Text.◌++◌ m (Text.◌++◌ ":" s)) ≡ s
unfolding after has_colon
after-colon String.[] s h = rw (Append.nil (Text.◌++◌ ":" s), Append.cons ":" "" s) (Append.nil s)
after-colon (String.◌∷◌ c m) s h =
    rw (Append.cons c m (Text.◌++◌ ":" s)) (ground (arith, after-colon m s, h))

one_of_no_colon :
    (m : String) (ts : List String)
    → All (λ t. has_colon t ≡ false) ts
    → one_of m ts ≡ true
    → has_colon m ≡ false
one_of_no_colon m [] h k = absurd (cc)
one_of_no_colon m (t ∷ ts) h k = elim (Bool-cases (eqb m t)) [
  | inl x ↦ ap has_colon ((string_eq.beq_iff m t).0 x) ∙ h.0
  | inr x ↦ one_of_no_colon m ts h.1 (ground (arith, x, k))
]

abbrev static_methods : List String
static_methods =
    "eth_chainId" ∷ "net_version" ∷ "eth_getBlockTransactionCountByHash"
    ∷ "eth_getUncleCountByBlockHash" ∷ "eth_getBlockByHash"
    ∷ "eth_getTransactionByBlockHashAndIndex" ∷ "eth_getUncleByBlockHashAndIndex" ∷ []

-- A method with a handler has no colon.
handled_no_colon :
    (codec : CacheCodec) (req : RpcReq)
    → filter_get codec (handler_of req.method) req ≡ true
    → has_colon req.method ≡ false
unfolding handler_of filter_get has_colon
handled_no_colon codec req g = elim (Bool-cases (one_of req.method static_methods)) [
  | inl x ↦
      one_of_no_colon req.method static_methods
        (refl, (refl, (refl, (refl, (refl, (refl, (refl, tt))))))) x
  | inr x ↦ elim (Bool-cases (eqb req.method "debug_getRawReceipts")) [
    | inl y ↦ ap has_colon ((string_eq.beq_iff req.method "debug_getRawReceipts").0 y)
    | inr y ↦ absurd (ground (arith, x, y, g))
  ]
]

pub cache_key_inj :
    (codec : CacheCodec) (p q : RpcReq)
    → filter_get codec (handler_of p.method) p ≡ true
    → filter_get codec (handler_of q.method) q ≡ true
    → cache_key codec p ≡ cache_key codec q
    → (p.method ≡ q.method) × (codec.signature p.params ≡ codec.signature q.params)
unfolding cache_key
cache_key_inj codec p q g h e =
    let f = drop_prefix "cache:" _ _ e in
    let m = handled_no_colon codec p g in
    let n = handled_no_colon codec q h in
    (
      sym (before-colon p.method (codec.signature p.params) m)
          ∙ ap before f
          ∙ before-colon q.method (codec.signature q.params) n,
      sym (after-colon p.method (codec.signature p.params) m)
          ∙ ap after f
          ∙ after-colon q.method (codec.signature q.params) n,
    )
