-- ===== src/Rewriter/Compliance.antt =====
-- No forwarded block parameter goes past the consensus.
use bsc_builder_proxyd.Base.{
  ℕ, ◌≡◌, ◌≢◌, refl, sym, ap, ◌∙◌, subst, inl, inr, Bool, ◌&&◌, not, some, arith, leb, ◌==◌,
  Option-cases, Bool-cases, some_inj,
}
use bsc_builder_proxyd.Json.{Json, text, Items, item_at, set_item, count_items}
use bsc_builder_proxyd.Rpc.{RpcReq}
use bsc_builder_proxyd.Rewriter.{
  Codec, RewriteContext, Change, keep, put, refuse, Rewritten, rewrite_override_error,
}
use bsc_builder_proxyd.Rewriter.Params.{apply_change, rewrite_at, rewrite_items, rewrite_param}
use bsc_builder_proxyd.Json.Positions.{item_at-set_item, item_at_ge, item_at_lt, item_at-append}
use bsc_builder_proxyd.Rewriter.Switch.{IsLawful, Fits, IsCompliant, Good, change_param-Good}

module _ (codec : Codec) (lawful : IsLawful codec) (rctx : RewriteContext) (fits : Fits rctx) where
  -- Every reading of the parameter at a position of a rewritten request is within.
  Complies : ℕ → Rewritten → Type 0
  Complies position w =
      w.result ≢ rewrite_override_error
      → (p : Items) (v : Json) → codec.unmarshal_items w.request.params ≡ some p
      → item_at position p ≡ some v
      → IsCompliant codec rctx v

  apply_change-Complies :
      (req : RpcReq) (p q : Items) (position : ℕ) (v : Json) (c : Change Json)
      → codec.unmarshal_items req.params ≡ some q
      → ((w : Json) → item_at position q ≡ some w → v ≡ w)
      → item_at position p ≡ some v
      → Good codec lawful rctx fits v c
      → Complies position (apply_change codec req p position c)
  unfolding Complies Good
  apply_change-Complies req p q position v keep e agree here good = λ ok_result p' v' f at_v'.
      let same : q ≡ p' = some_inj (sym e ∙ f) in
      subst (IsCompliant codec rctx) (agree v' (ap (item_at position) same ∙ at_v')) good
  apply_change-Complies req p q position v (refuse x) e agree here good =
      λ ok_result p' v' f at_v'. absurd (ok_result refl)
  apply_change-Complies req p q position v (put w) e agree here good =
      elim (Option-cases (codec.marshal_items (set_item position w p))) [
        | inl m ↦ rw m (λ ok_result p' v' f at_v'. absurd (ok_result refl))
        | inr (s, m) ↦ rw m (λ ok_result p' v' f at_v'.
            let same : set_item position w p ≡ p' = some_inj (sym (lawful.round_trip _ s m) ∙ f) in
            subst (IsCompliant codec rctx)
              (some_inj
                (sym (item_at-set_item position v w p here) ∙ ap (item_at position) same ∙ at_v'))
              good)
      ]

  rewrite_at-Complies :
      (req : RpcReq) (p q : Items) (position : ℕ) (b : Bool) (v : Json)
      → codec.unmarshal_items req.params ≡ some q
      → ((w : Json) → item_at position q ≡ some w → v ≡ w)
      → item_at position p ≡ some v
      → Complies position (rewrite_at codec rctx req p position b)
  unfolding rewrite_at
  rewrite_at-Complies req p q position b v e agree here =
      rw (here, rewrite_at)
        (apply_change-Complies req p q position v _ e agree here
          (change_param-Good codec lawful rctx fits b v))

  rewrite_items-Complies :
      (req : RpcReq) (position : ℕ) (required b : Bool) (q : Items)
      → codec.unmarshal_items req.params ≡ some q
      → Complies position (rewrite_items codec rctx req position required b q)
  unfolding rewrite_items
  rewrite_items-Complies req position required b q e =
      elim (Bool-cases (count_items q == position && not required)) [
        | inl short ↦ rw short (
            rewrite_at-Complies req _ q position b (text "latest") e
              (λ w h. absurd (ground (arith, h, item_at_ge position q, short)))
              (item_at-append position q (text "latest") (ground (arith, short))))
        | inr long ↦ elim (Bool-cases (leb (count_items q) position)) [
          | inl few ↦
              rw (long, few)
                (unfold Complies in
                  λ ok_result p' v' f at_v'. absurd (
                    ground (
                      arith,
                      item_at_ge position q,
                      at_v',
                      ap (item_at position) (some_inj (sym e ∙ f)),
                    )))
          | inr enough ↦
              let (v, h) = item_at_lt position q (ground (arith, enough)) in
              rw (long, enough)
                (rewrite_at-Complies req q q position b v e (λ w g. some_inj (sym h ∙ g)) h)
        ]
      ]

  -- Unless it reports an error, `rewriteParam` leaves a request whose block parameter, read again,
  -- is pending, earliest, a hash, the consensus's latest, safe or finalized block, or a number that
  -- is no tag and not after the latest block of the consensus; also where it leaves it unchanged.
  pub rewrite_param-IsCompliant :
      (req : RpcReq) (position : ℕ) (required block_nr_or_hash : Bool)
      → let w = rewrite_param codec rctx req position required block_nr_or_hash in
        w.result ≢ rewrite_override_error
        → (p : Items) (v : Json) → codec.unmarshal_items w.request.params ≡ some p
        → item_at position p ≡ some v
        → IsCompliant codec rctx v
  unfolding rewrite_param Complies
  rewrite_param-IsCompliant req position required b =
      elim (Option-cases (codec.unmarshal_items req.params)) [
        | inl e ↦ rw (e, rewrite_param) (λ ok_result p v f h. absurd (ok_result refl))
        | inr (q, e) ↦ rw (e, rewrite_param) (rewrite_items-Complies req position required b q e)
      ]
