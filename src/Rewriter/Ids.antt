-- ===== src/Rewriter/Ids.antt =====
-- rewriter.go: a rewritten request, and a response made here, has the id of the client's request.
use mathlib.Core.Path.{ap₂}
use bsc_builder_proxyd.Base.{
  ℕ, ◌≡◌, refl, sym, ap, ◌∙◌, subst, inl, inr, Bool, true, false, List, [], ◌∷◌, String, Option,
  none, some, arith, map, eqb, string_eq, Option-cases, Bool-cases, some_inj, ◌||◌, ◌&&◌, not, ◌==◌,
  leb, is_some,
}
use bsc_builder_proxyd.Json.{Json, Items, Fields, item_at, field_of, count_items}
use bsc_builder_proxyd.Rpc.{RpcReq, RpcRes}
use bsc_builder_proxyd.Rewriter.{
  Codec, RewriteContext, RewriteResult, rewrite_none, rewrite_override_error,
  rewrite_override_request, rewrite_override_response, RewriteError, Change, keep, put, refuse,
  Rewritten, with_params,
}
use bsc_builder_proxyd.Rewriter.Params.{apply_change, rewrite_at, rewrite_items, rewrite_param}
use bsc_builder_proxyd.Rewriter.Ranges.{
  TagMap, tag_map, tag_error, with_range_params, finish_range, then_to, then_from, rewrite_first,
  rewrite_maps, rewrite_range, rewrite_tag_map, default_ends,
}
use bsc_builder_proxyd.Rewriter.Overrides.{
  Rule, range_rule, param_rule, no_rule, rule_of, apply_rule, rewrite_request, rewrite_response,
  Fate, forward, answer, fate_of, rewrite_tags,
}
use bsc_builder_proxyd.Rewriter.Weave.{fates}
use bsc_builder_proxyd.Exchange.Ids.{ids_of}

abbrev Own : RpcReq → Rewritten → Type 0
Own req w = w.request.id ≡ req.id

with_params-Own : (o : Option String) (req : RpcReq) → Own req (with_params o req)
with_params-Own none req = refl
with_params-Own (some s) req = refl

apply_change-Own :
    (codec : Codec) (req : RpcReq) (p : Items) (position : ℕ) (c : Change Json)
    → Own req (apply_change codec req p position c)
apply_change-Own codec req p position keep = refl
apply_change-Own codec req p position (put v) = with_params-Own _ req
apply_change-Own codec req p position (refuse e) = refl

module _ (codec : Codec) (rctx : RewriteContext) (req : RpcReq) where
  rewrite_at-Own :
      (p : Items) (position : ℕ) (b : Bool) → Own req (rewrite_at codec rctx req p position b)
  unfolding rewrite_at
  rewrite_at-Own p position b = elim (Option-cases (item_at position p)) [
    | inl x ↦ rw (x, rewrite_at) refl
    | inr (v, x) ↦ rw (x, rewrite_at) (apply_change-Own codec req p position _)
  ]

  rewrite_items-Own :
      (position : ℕ) (required b : Bool) (p : Items)
      → Own req (rewrite_items codec rctx req position required b p)
  unfolding rewrite_items
  rewrite_items-Own position required b p =
      elim (Bool-cases (count_items p == position && not required)) [
        | inl x ↦ rw (x, rewrite_items) (rewrite_at-Own _ position b)
        | inr x ↦ elim (Bool-cases (leb (count_items p) position)) [
          | inl y ↦ rw (x, rewrite_items) (rw (y, rewrite_items) refl)
          | inr y ↦ rw (x, rewrite_items) (rw (y, rewrite_items) (rewrite_at-Own p position b))
        ]
      ]

  rewrite_param-Own :
      (position : ℕ) (required b : Bool)
      → Own req (rewrite_param codec rctx req position required b)
  unfolding rewrite_param
  rewrite_param-Own position required b = elim (Option-cases (codec.unmarshal_items req.params)) [
    | inl x ↦ rw (x, rewrite_param) refl
    | inr (p, x) ↦ rw (x, rewrite_param) (rewrite_items-Own position required b p)
  ]

  with_range_params-Own : (o : Option String) → Own req (with_range_params o req)
  with_range_params-Own none = refl
  with_range_params-Own (some s) = refl

  finish_range-Own :
      (ms : List Fields) (m : Fields) (modified : Bool) (e : Option RewriteError)
      → Own req (finish_range codec req ms m modified e)
  unfolding finish_range
  finish_range-Own ms m modified (some e) = refl
  finish_range-Own ms m true none = with_range_params-Own _
  finish_range-Own ms m false none = refl

  then_to-Own :
      (ms : List Fields) (bounded modified : Bool) (t : TagMap)
      → Own req (then_to codec rctx req ms bounded modified t)
  then_to-Own ms bounded modified (tag_error e) = refl
  then_to-Own ms bounded modified (tag_map m b) = finish_range-Own ms m _ _

  then_from-Own :
      (ms : List Fields) (bounded : Bool) (t : TagMap)
      → Own req (then_from codec rctx req ms bounded t)
  then_from-Own ms bounded (tag_error e) = refl
  then_from-Own ms bounded (tag_map m b) = then_to-Own ms bounded b _

  rewrite_first-Own : (m : Fields) (ms : List Fields) → Own req (rewrite_first codec rctx req m ms)
  unfolding rewrite_first
  rewrite_first-Own m ms =
      then_from-Own ms (is_some (field_of "fromBlock" m) || is_some (field_of "toBlock" m)) (
        rewrite_tag_map codec rctx
          (default_ends (is_some (field_of "fromBlock" m)) (is_some (field_of "toBlock" m)) m)
          "fromBlock")

  OwnOption : Option Rewritten → Type 0
  OwnOption o = (w : Rewritten) → o ≡ some w → Own req w

  some-Own : (w : Rewritten) → Own req w → OwnOption (some w)
  unfolding OwnOption
  some-Own w h = λ v e. subst (Own req) (some_inj e) h

  rewrite_range-Own : OwnOption (rewrite_range codec rctx req)
  unfolding rewrite_range rewrite_maps
  rewrite_range-Own = elim (Option-cases (codec.unmarshal_maps req.params)) [
    | inl x ↦ rw (x, rewrite_range) (some-Own _ refl)
    | inr ([], x) ↦ rw (x, rewrite_range) (unfold OwnOption in λ w e. absurd (cc))
    | inr (m ∷ ms, x) ↦
        rw (x, rewrite_range)
          (some-Own (rewrite_first codec rctx req m ms) (rewrite_first-Own m ms))
  ]

  apply_rule-Own : (r : Rule) → OwnOption (apply_rule codec rctx req r)
  apply_rule-Own range_rule = rewrite_range-Own
  apply_rule-Own (param_rule position required b) =
      some-Own _ (rewrite_param-Own position required b)
  apply_rule-Own no_rule = some-Own _ refl

-- The id under which a request is forwarded or answered.
abbrev pub fate_id : Fate → String
fate_id (forward q) = q.id
fate_id (answer r) = r.id

fate_of-id :
    (codec : Codec) (rctx : RewriteContext) (res : RpcRes) (w : Rewritten)
    → w.request.id ≡ res.id
    → fate_id (fate_of codec rctx res w) ≡ res.id
fate_of-id codec rctx res w h = by_result w.result refl
  where
    by_result : (r : RewriteResult) → w.result ≡ r → fate_id (fate_of codec rctx res w) ≡ res.id
    by_result rewrite_none x = rw x h
    by_result rewrite_override_request x = rw x h
    by_result rewrite_override_error x = rw x refl
    by_result rewrite_override_response x = rw x refl

rewrite_tags-id :
    (codec : Codec) (rctx : RewriteContext) (req : RpcReq) (f : Fate)
    → rewrite_tags codec rctx req ≡ some f
    → fate_id f ≡ req.id
unfolding rewrite_tags rewrite_response rewrite_request
rewrite_tags-id codec rctx req f e = elim (Bool-cases (eqb req.method "eth_blockNumber")) [
  | inl x ↦ ap fate_id (sym (some_inj (rw (x, rewrite_tags) at e)))
  | inr x ↦ elim (Option-cases (apply_rule codec rctx req (rule_of req.method))) [
    | inl y ↦ absurd (ground (arith, e, x, y))
    | inr (w, y) ↦
        let own : w.request.id ≡ req.id =
          unfold OwnOption in apply_rule-Own codec rctx req (rule_of req.method) w y in
        ap fate_id (sym (some_inj (rw (y, rewrite_tags) at (rw (x, rewrite_tags) at e))))
        ∙ fate_of-id codec rctx _ w own
  ]
]

-- The fates of a call's requests have the ids of the requests, in order.
pub fates-ids :
    (codec : Codec) (rctx : RewriteContext) (reqs : List RpcReq) (fs : List Fate)
    → fates codec rctx reqs ≡ some fs
    → map fate_id fs ≡ ids_of reqs
unfolding fates
fates-ids codec rctx [] fs e = ap (map fate_id) (sym (some_inj e))
fates-ids codec rctx (req ∷ reqs) fs e = elim (Option-cases (rewrite_tags codec rctx req)) [
  | inl x ↦ absurd (ground (arith, e, x))
  | inr (f, x) ↦ elim (Option-cases (fates codec rctx reqs)) [
    | inl y ↦ absurd (ground (arith, e, x, y))
    | inr (gs, y) ↦
        let same : f ∷ gs ≡ fs = some_inj (ground (arith, e, x, y)) in
        ap (map fate_id) (sym same)
        ∙ ap₂ ◌∷◌ (rewrite_tags-id codec rctx req f x) (fates-ids codec rctx reqs gs y)
  ]
]
