-- ===== src/Rewriter.antt =====
-- rewriter.go: block tags in requests become the consensus's block numbers. `encoding/json`,
-- `hexutil` and go-ethereum's `rpc.BlockNumberOrHash` are the parameter `Codec`.
pub mod Params
pub mod Ranges
pub mod Overrides
pub mod Switch
pub mod Compliance
pub mod Weave
pub mod Limits
pub mod Ids
use bsc_builder_proxyd.Base.{
  ℕ, ◌+◌, ◌-◌, ◌%◌, Bool, true, false, ◌&&◌, ◌||◌, not, Option, none, some, String, ℤ, pos, negsuc,
  eqb, string_eq, if◌then◌else◌, ltb, ltb_ℤ, leb_ℤ, List, [], ◌∷◌, ◌==◌, pos_part, neg_part,
}
use bsc_builder_proxyd.Json.{Json, text, Items, Fields}
use bsc_builder_proxyd.Rpc.{RpcReq, RpcRes}

pub record RewriteContext : Type 0 where
  pub latest : ℕ
  pub safe : ℕ
  pub finalized : ℕ
  pub max_block_range : ℕ

pub data RewriteResult : Type 0 where
  rewrite_none rewrite_override_error rewrite_override_request rewrite_override_response :
      RewriteResult

-- The two named errors, and any other.
pub data RewriteError : Type 0 where
  block_out_of_range range_too_large malformed : RewriteError

-- `rpc.BlockNumberOrHash`; a block number is an int64.
pub record BlockNumberOrHash : Type 0 where
  pub block_number : Option ℤ
  pub block_hash : Option String
  pub require_canonical : Bool

-- `rpc.BlockNumberOrHashWithNumber`.
unfoldable pub with_number : ℤ → BlockNumberOrHash
with_number n = record { block_number = some n; block_hash = none; require_canonical = false }

-- `parse` is the marshalling of a value followed by `UnmarshalJSON`, and
-- `range_message` a `fmt.Sprintf`. Unmarshalling `null` into a
-- slice gives the empty one. The last five are go-ethereum's constants for tags.
pub record Codec : Type 0 where
  pub unmarshal_items : String → Option Items
  pub marshal_items : Items → Option String
  pub unmarshal_maps : String → Option (List Fields)
  pub marshal_maps : List Fields → Option String
  pub encode_uint64 : ℕ → String
  pub decode_uint64 : String → Option ℕ
  pub range_message : ℕ → String
  pub parse : Json → Option BlockNumberOrHash
  pub marshal_block : BlockNumberOrHash → Json
  pub pending : ℤ
  pub earliest : ℤ
  pub finalized : ℤ
  pub safe : ℤ
  pub latest : ℤ

-- `int64(n)` of a uint64.
unfoldable pub to_int64 : ℕ → ℤ
to_int64 n = if ltb n 9223372036854775808 then pos n else negsuc (18446744073709551615 - n)

abbrev pub eqb_ℤ : ℤ → ℤ → Bool
eqb_ℤ a b = leb_ℤ a b && leb_ℤ b a

-- Leave the value, put another in its place, or refuse the request.
pub data Change (A : Type 0) : Type 0 where
  keep : Change A
  put : A → Change A
  refuse : RewriteError → Change A

-- The `switch` on a block number, which `rewriteTag` and `rewriteTagBlockNumberOrHash` share.
unfoldable pub switch : Codec → RewriteContext → ℤ → Change ℕ
switch codec rctx n =
    if eqb_ℤ n codec.pending || eqb_ℤ n codec.earliest
    then keep
    else if eqb_ℤ n codec.finalized
    then put rctx.finalized
    else if eqb_ℤ n codec.safe
    then put rctx.safe
    else if eqb_ℤ n codec.latest
    then put rctx.latest
    else if ltb_ℤ (to_int64 rctx.latest) n
    then refuse block_out_of_range
    else keep

abbrev pub as_change : {A : Type 0} → (ℕ → A) → Change ℕ → Change A
as_change f keep = keep
as_change f (put n) = put (f n)
as_change f (refuse e) = refuse e

-- A hash is left as it is.
unfoldable pub switch_block : {A : Type 0} → (ℕ → A) → Codec → RewriteContext → Option ℤ → Change A
switch_block f codec rctx none = keep
switch_block f codec rctx (some n) = as_change f (switch codec rctx n)

unfoldable pub rewrite_tag : Codec → RewriteContext → String → Change String
rewrite_tag codec rctx current = elim (codec.parse (text current)) [
  | none ↦ refuse malformed
  | some bnh ↦ switch_block codec.encode_uint64 codec rctx bnh.block_number
]

unfoldable pub rewrite_tag_block_number_or_hash :
    Codec → RewriteContext → BlockNumberOrHash → Change BlockNumberOrHash
rewrite_tag_block_number_or_hash codec rctx current =
    switch_block (λ n. with_number (to_int64 n)) codec rctx current.block_number

-- What a rewriting function returns, with the request as it left it.
pub record Rewritten : Type 0 where
  pub result : RewriteResult
  pub error : Option RewriteError
  pub request : RpcReq

abbrev pub unchanged : RpcReq → Rewritten
unchanged req = record { result = rewrite_none; error = none; request = req }

abbrev pub failed : RewriteError → RpcReq → Rewritten
failed e req = record { result = rewrite_override_error; error = some e; request = req }

-- The request with new params, unless these cannot be marshalled.
abbrev pub with_params : Option String → RpcReq → Rewritten
with_params none req = failed malformed req
with_params (some params) req = record {
  result = rewrite_override_request;
  error = none;
  request = record req { params = params };
}
