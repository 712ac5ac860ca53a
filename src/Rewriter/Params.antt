-- ===== src/Rewriter/Params.antt =====
-- rewriter.go, `rewriteParam`: the block parameter at one position.
use bsc_builder_proxyd.Base.{
  ℕ, Bool, true, false, ◌&&◌, not, Option, none, some, String, if◌then◌else◌, leb, ◌==◌,
}
use bsc_builder_proxyd.Json.{
  Json, text, Items, as_text, item_at, set_item, append_item, count_items,
}
use bsc_builder_proxyd.Rpc.{RpcReq}
use bsc_builder_proxyd.Rewriter.{
  Codec, RewriteContext, Change, keep, put, refuse, Rewritten, unchanged, failed, with_params,
  malformed, rewrite_tag, rewrite_tag_block_number_or_hash,
}

-- A change of a text or of a block as a change of the JSON value.
abbrev pub json_change : {A : Type 0} → (A → Json) → Change A → Change Json
json_change f keep = keep
json_change f (put a) = put (f a)
json_change f (refuse e) = refuse e

unfoldable pub change_text : Codec → RewriteContext → Option String → Change Json
change_text codec rctx none = refuse malformed
change_text codec rctx (some s) = json_change text (rewrite_tag codec rctx s)

-- EIP-1898: a block number or hash, with a fall back to a string.
unfoldable pub change_block : Codec → RewriteContext → Json → Change Json
change_block codec rctx v = elim (codec.parse v) [
  | none ↦ change_text codec rctx (as_text v)
  | some bnh ↦ json_change codec.marshal_block (rewrite_tag_block_number_or_hash codec rctx bnh)
]

unfoldable pub change_param : Codec → RewriteContext → Bool → Json → Change Json
change_param codec rctx true v = change_block codec rctx v
change_param codec rctx false v = change_text codec rctx (as_text v)

abbrev pub apply_change : Codec → RpcReq → Items → ℕ → Change Json → Rewritten
apply_change codec req p position keep = unchanged req
apply_change codec req p position (put v) =
    with_params (codec.marshal_items (set_item position v p)) req
apply_change codec req p position (refuse e) = failed e req

unfoldable pub rewrite_at : Codec → RewriteContext → RpcReq → Items → ℕ → Bool → Rewritten
rewrite_at codec rctx req p position block_nr_or_hash = elim (item_at position p) [
  | none ↦ unchanged req
  | some v ↦ apply_change codec req p position (change_param codec rctx block_nr_or_hash v)
]

-- A missing parameter is taken for `latest`; with too few parameters nothing is rewritten.
unfoldable pub rewrite_items : Codec → RewriteContext → RpcReq → ℕ → Bool → Bool → Items → Rewritten
rewrite_items codec rctx req position required block_nr_or_hash p =
    if count_items p == position && not required
    then rewrite_at codec rctx req (append_item p (text "latest")) position block_nr_or_hash
    else if leb (count_items p) position
    then unchanged req
    else rewrite_at codec rctx req p position block_nr_or_hash

unfoldable pub rewrite_param : Codec → RewriteContext → RpcReq → ℕ → Bool → Bool → Rewritten
rewrite_param codec rctx req position required block_nr_or_hash =
    elim (codec.unmarshal_items req.params) [
      | none ↦ failed malformed req
      | some p ↦ rewrite_items codec rctx req position required block_nr_or_hash p
    ]
