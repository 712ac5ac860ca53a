-- ===== src/Consensus/Fetch.antt =====
-- consensus_poller.go, the three requests that the poller makes of a backend, `fetchBlock`,
-- `getPeerCount` and `isInSync`. The backend's answer to `ForwardRPC` is a parameter, and so is
-- `hexutil.MustDecodeUint64`, which panics where `decode_uint64` says `none`.
use bsc_builder_proxyd.Base.{
  ℕ, Bool, true, false, not, List, [], ◌∷◌, String, Option, none, some, if◌then◌else◌, eqb,
  string_eq, ◌||◌,
}
use bsc_builder_proxyd.Json.{Json, null, boolean, number, text, array, object, field_of}
use bsc_builder_proxyd.Backend.{Backend}

-- A panic ends the process: no goroutine of the poller recovers.
pub data Outcome (A : Type 0) : Type 0 where
  ok : A → Outcome A
  err : Outcome A
  crash : Outcome A

infixl 5 ◌>>=◌
abbrev pub ◌>>=◌ : {A B : Type 0} → Outcome A → (A → Outcome B) → Outcome B
ok a >>= f = f a
err >>= f = err
crash >>= f = crash

-- What the poller meets: the answer of a backend to a method with parameters (`none` is an error),
-- and the decoder of quantities.
pub record Net : Type 0 where
  pub forward_rpc : Backend → String → List Json → Option Json
  pub decode_uint64 : String → Option ℕ

abbrev respond : Option Json → Outcome Json
respond none = err
respond (some v) = ok v

abbrev or_crash : {A : Type 0} → Option A → Outcome A
or_crash none = crash
or_crash (some a) = ok a

-- `v.(string)` with no `ok`: another type panics.
abbrev must_text : Option Json → Outcome String
must_text (some (text s)) = ok s
must_text (some null) = crash
must_text (some (boolean b)) = crash
must_text (some (number n)) = crash
must_text (some (array vs)) = crash
must_text (some (object fs)) = crash
must_text none = crash

unfoldable pub block_of : Net → Json → Outcome (ℕ × String)
block_of net (object fs) = do
  digits ← must_text (field_of "number" fs)
  n ← or_crash (net.decode_uint64 digits)
  hash ← must_text (field_of "hash" fs)
  ok (n, hash)
block_of net null = err
block_of net (boolean b) = err
block_of net (number n) = err
block_of net (text s) = err
block_of net (array vs) = err

unfoldable pub fetch_block : Net → Backend → String → Outcome (ℕ × String)
unfolding block_of
fetch_block net be block = do
  v ← respond (net.forward_rpc be "eth_getBlockByNumber" (text block ∷ boolean false ∷ []))
  block_of net v

unfoldable pub count_of : Net → Json → Outcome ℕ
count_of net (text s) = or_crash (net.decode_uint64 s)
count_of net null = err
count_of net (boolean b) = err
count_of net (number n) = err
count_of net (array vs) = err
count_of net (object fs) = err

unfoldable pub get_peer_count : Net → Backend → Outcome ℕ
unfolding count_of
get_peer_count net be = do v ← respond (net.forward_rpc be "net_peerCount" []); count_of net v

-- `strconv.ParseBool`.
unfoldable pub parse_bool : String → Option Bool
parse_bool s =
    if eqb s "1" || (eqb s "t" || (eqb s "T" || (eqb s "true" || (eqb s "TRUE" || eqb s "True"))))
    then some true
    else if eqb s "0"
        || (eqb s "f" || (eqb s "F" || (eqb s "false" || (eqb s "FALSE" || eqb s "False"))))
    then some false
    else none

abbrev negated : Option Bool → Outcome Bool
negated none = err
negated (some b) = ok (not b)

-- An object is the progress report of a node that is not in sync.
unfoldable pub sync_of : Json → Outcome Bool
sync_of (boolean syncing) = ok (not syncing)
sync_of (text s) = negated (parse_bool s)
sync_of null = ok false
sync_of (number n) = ok false
sync_of (array vs) = ok false
sync_of (object fs) = ok false

unfoldable pub is_in_sync : Net → Backend → Outcome Bool
unfolding sync_of
is_in_sync net be = do v ← respond (net.forward_rpc be "eth_syncing" []); sync_of v
