-- ===== src/Rewriter/Ranges.antt =====
-- rewriter.go, `rewriteRange`: the block range of a filter. `none` is a panic: the source indexes
-- the decoded params without looking at their number.
use bsc_builder_proxyd.Base.{
  ℕ, ◌+◌, ◌-◌, ◌%◌, Bool, true, false, ◌&&◌, ◌||◌, Option, none, some, String, if◌then◌else◌, ltb,
  eqb, string_eq, is_some, List, [], ◌∷◌,
}
use bsc_builder_proxyd.Json.{
  Json, null, boolean, number, text, array, object, Fields, as_text, field_of, set_field,
}
use bsc_builder_proxyd.Rpc.{RpcReq}
use bsc_builder_proxyd.Rewriter.{
  Codec, RewriteContext, Change, keep, put, refuse, Rewritten, unchanged, failed, with_params,
  RewriteError, malformed, range_too_large, rewrite_tag,
}

-- The map after `rewriteTagMap` with its verdict, or the error.
pub data TagMap : Type 0 where
  tag_map : Fields → Bool → TagMap
  tag_error : RewriteError → TagMap

abbrev pub changed_field : String → Fields → Change String → TagMap
changed_field key m keep = tag_map m false
changed_field key m (put s) = tag_map (set_field key (text s) m) true
changed_field key m (refuse e) = tag_error e

-- `nil` and the empty text are left alone.
unfoldable pub rewrite_tag_value : Codec → RewriteContext → Fields → String → Option Json → TagMap
rewrite_tag_value codec rctx m key none = tag_map m false
rewrite_tag_value codec rctx m key (some (text s)) =
    if eqb s "" then tag_map m false else changed_field key m (rewrite_tag codec rctx s)
rewrite_tag_value codec rctx m key (some null) = tag_map m false
rewrite_tag_value codec rctx m key (some (boolean b)) = tag_error malformed
rewrite_tag_value codec rctx m key (some (number n)) = tag_error malformed
rewrite_tag_value codec rctx m key (some (array vs)) = tag_error malformed
rewrite_tag_value codec rctx m key (some (object fs)) = tag_error malformed

unfoldable pub rewrite_tag_map : Codec → RewriteContext → Fields → String → TagMap
rewrite_tag_map codec rctx m key = rewrite_tag_value codec rctx m key (field_of key m)

abbrev text_of : Option Json → Option String
text_of none = none
text_of (some v) = as_text v

-- `none` is an error. `latest + 1` is a uint64.
unfoldable pub number_of : Codec → ℕ → Option String → Option ℕ
number_of codec latest none = none
number_of codec latest (some current) =
    if eqb current "earliest"
    then some 0
    else if eqb current "pending"
    then some ((latest + 1) % 18446744073709551616)
    else codec.decode_uint64 current

unfoldable pub block_number : Codec → Fields → String → ℕ → Option ℕ
block_number codec m key latest = number_of codec latest (text_of (field_of key m))

-- `to-from` on uint64.
abbrev pub distance : ℕ → ℕ → ℕ
distance from to = (to + 18446744073709551616 - from) % 18446744073709551616

-- The check of the range's size; `none` is that it passes.
unfoldable pub check_distance : RewriteContext → Option ℕ → Option ℕ → Option RewriteError
check_distance rctx none to = some malformed
check_distance rctx (some from) none = some malformed
check_distance rctx (some from) (some to) =
    if ltb rctx.max_block_range (distance from to) then some range_too_large else none

unfoldable pub check_range : Codec → RewriteContext → Bool → Fields → Option RewriteError
check_range codec rctx bounded m =
    if ltb 0 rctx.max_block_range && bounded
    then check_distance rctx (block_number codec m "fromBlock" rctx.latest)
        (block_number codec m "toBlock" rctx.latest)
    else none

-- If one end is given, the other is `latest`.
unfoldable pub default_ends : Bool → Bool → Fields → Fields
default_ends true false m = set_field "toBlock" (text "latest") m
default_ends false true m = set_field "fromBlock" (text "latest") m
default_ends true true m = m
default_ends false false m = m

-- Here the params are assigned before the error is looked at.
abbrev pub with_range_params : Option String → RpcReq → Rewritten
with_range_params none req = failed malformed (record req { params = "" })
with_range_params (some s) req = with_params (some s) req

unfoldable pub finish_range :
    Codec → RpcReq → List Fields → Fields → Bool → Option RewriteError → Rewritten
finish_range codec req ms m modified (some e) = failed e req
finish_range codec req ms m true none = with_range_params (codec.marshal_maps (m ∷ ms)) req
finish_range codec req ms m false none = unchanged req

abbrev pub then_to :
    Codec → RewriteContext → RpcReq → List Fields → Bool → Bool → TagMap → Rewritten
then_to codec rctx req ms bounded modified_from (tag_error e) = failed e req
then_to codec rctx req ms bounded modified_from (tag_map m modified_to) =
    finish_range codec req ms m (modified_from || modified_to) (check_range codec rctx bounded m)

abbrev pub then_from : Codec → RewriteContext → RpcReq → List Fields → Bool → TagMap → Rewritten
then_from codec rctx req ms bounded (tag_error e) = failed e req
then_from codec rctx req ms bounded (tag_map m modified_from) =
    then_to codec rctx req ms bounded modified_from (rewrite_tag_map codec rctx m "toBlock")

unfoldable pub rewrite_first : Codec → RewriteContext → RpcReq → Fields → List Fields → Rewritten
rewrite_first codec rctx req m ms =
    let has_from = is_some (field_of "fromBlock" m) in
    let has_to = is_some (field_of "toBlock" m) in
    then_from codec rctx req ms (has_from || has_to)
      (rewrite_tag_map codec rctx (default_ends has_from has_to m) "fromBlock")

unfoldable pub rewrite_maps : Codec → RewriteContext → RpcReq → List Fields → Option Rewritten
rewrite_maps codec rctx req [] = none
rewrite_maps codec rctx req (m ∷ ms) = some (rewrite_first codec rctx req m ms)

unfoldable pub rewrite_range : Codec → RewriteContext → RpcReq → Option Rewritten
rewrite_range codec rctx req = elim (codec.unmarshal_maps req.params) [
  | none ↦ some (failed malformed req)
  | some ms ↦ rewrite_maps codec rctx req ms
]
