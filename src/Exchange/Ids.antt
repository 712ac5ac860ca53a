-- ===== src/Exchange/Ids.antt =====
-- The translation of the requests keeps their ids.
use mathlib.Core.Path.{ap₂}
use bsc_builder_proxyd.Base.{
  ◌≡◌, refl, ap, subst, inl, inr, List, [], ◌∷◌, String, Option, none, some, map, eqb, string_eq,
  Bool-cases, Option-cases,
}
use bsc_builder_proxyd.Rpc.{RpcReq}
use bsc_builder_proxyd.Exchange.Translation.{
  One-cases, Wire, BlockRef, Translating, translated, stopped, lost, One, one, wrong, fault,
  with_params, translate_blocks, translate_one, keep_head, note_method, translate, is_text_target,
  text_params, object_params,
}

abbrev pub ids_of : List RpcReq → List String
ids_of = map (λ q. q.id)

unfoldable pub KeepsIds : List RpcReq → Translating → Type 0
KeepsIds reqs (translated t) = ids_of t.requests ≡ ids_of reqs
KeepsIds reqs (stopped reqs' e) = ids_of reqs' ≡ ids_of reqs
KeepsIds reqs lost = Unit

keep_head-KeepsIds :
    (q q' : RpcReq) (qs : List RpcReq) (t : Translating)
    → q'.id ≡ q.id
    → KeepsIds qs t
    → KeepsIds (q ∷ qs) (keep_head q' t)
unfolding KeepsIds
keep_head-KeepsIds q q' qs (translated t) e h = ap₂ ◌∷◌ e h
keep_head-KeepsIds q q' qs (stopped qs' err) e h = ap₂ ◌∷◌ e h
keep_head-KeepsIds q q' qs lost e h = tt

note_method-KeepsIds :
    (id method : String) (qs : List RpcReq) (t : Translating)
    → KeepsIds qs t
    → KeepsIds qs (note_method id method t)
unfolding KeepsIds
note_method-KeepsIds id method qs (translated t) h = h
note_method-KeepsIds id method qs (stopped qs' err) h = h
note_method-KeepsIds id method qs lost h = tt

OneKeeps : RpcReq → One → Type 0
OneKeeps q (one q') = q'.id ≡ q.id
OneKeeps q (wrong q' e) = q'.id ≡ q.id
OneKeeps q fault = Unit

with_params-Keeps : (q : RpcReq) (o : Option String) → OneKeeps q (with_params q o)
unfolding OneKeeps
with_params-Keeps q none = tt
with_params-Keeps q (some p) = refl

translate_blocks-Keeps :
    (wire : Wire) (q : RpcReq) (bs : List BlockRef) → OneKeeps q (translate_blocks wire q bs)
unfolding translate_blocks
translate_blocks-Keeps wire q bs = elim (Bool-cases (is_text_target q.method)) [
  | inl x ↦ rw (x, translate_blocks) (with_params-Keeps q (text_params wire bs))
  | inr x ↦ elim (Bool-cases (eqb q.method "alchemy_getTransactionReceipts")) [
    | inl y ↦
        rw (x, translate_blocks)
          (rw (y, translate_blocks) (with_params-Keeps q (object_params wire bs)))
    | inr y ↦ rw (x, translate_blocks) (rw (y, translate_blocks) (unfold OneKeeps in refl))
  ]
]

translate_one-Keeps :
    (wire : Wire) (target : String) (q : RpcReq) → OneKeeps q (translate_one wire target q)
unfolding translate_one OneKeeps
translate_one-Keeps wire target q = elim (Option-cases (wire.unmarshal_blocks q.params)) [
  | inl x ↦ rw (x, translate_one) refl
  | inr (bs, x) ↦
      rw (x, translate_one) (translate_blocks-Keeps wire (record q { method = target }) bs)
]

pub translate-KeepsIds :
    (wire : Wire) (target : String) (reqs : List RpcReq)
    → KeepsIds reqs (translate wire target reqs)
unfolding translate
translate-KeepsIds wire target [] = unfold KeepsIds in refl
translate-KeepsIds wire target (q ∷ qs) =
    let ih = translate-KeepsIds wire target qs in
    let keeps = translate_one-Keeps wire target q in
    elim (Bool-cases (eqb q.method "consensus_getReceipts")) [
      | inr x ↦ rw (x, translate) (keep_head-KeepsIds q q qs _ refl ih)
      | inl x ↦ elim (One-cases (translate_one wire target q)) [
        | inl (q', y) ↦
            rw (x, translate)
              (rw (y, translate)
                (note_method-KeepsIds q'.id q'.method (q ∷ qs) _ (
                  keep_head-KeepsIds q q' qs _ (unfold OneKeeps in subst (OneKeeps q) y keeps) ih)))
        | inr (inl (q', e, y)) ↦
            rw (x, translate)
              (rw (y, translate)
                (unfold KeepsIds in
                  ap (λ i. i ∷ ids_of qs) (unfold OneKeeps in subst (OneKeeps q) y keeps)))
        | inr (inr y) ↦ rw (x, translate) (rw (y, translate) (unfold KeepsIds in tt))
      ]
    ]
