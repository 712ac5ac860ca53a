-- ===== src/Exchange/Translation.antt =====
-- backend.go, `doForward`: the translation of consensus_getReceipts into what the backend has. What
-- `encoding/json` and go-ethereum decode and encode is the parameter `Wire`.
use bsc_builder_proxyd.Base.{
  ◌≡◌, refl, ◌⊎◌, inl, inr, Bool, true, false, ◌||◌, List, [], ◌∷◌, String, Option, none, some,
  if◌then◌else◌, eqb, string_eq, insert, lookup,
}
use bsc_builder_proxyd.Rpc.{RpcReq, RpcRes}
use bsc_builder_proxyd.Routing.{
  ForwardError, ErrorKind, receipts_cant_be_batched, receipts_invalid_target, other_error,
}

-- A `BlockNumberOrHash`: the text of its number, or of its hash, or neither.
pub data BlockRef : Type 0 where
  by_number : String → BlockRef
  by_hash : String → BlockRef
  neither : BlockRef

pub record Wire : Type 0 where
  pub unmarshal_blocks : String → Option (List BlockRef)
  pub params_of_text : String → String
  pub params_of_object : BlockRef → String
  pub unmarshal_res : String → Option RpcRes
  pub unmarshal_batch : String → Option (List (Option RpcRes))

abbrev pub kind_error : ErrorKind → ForwardError
kind_error k = record { kind = k; wrapped = false }

-- `translatedReqs` is the method by the id.
pub record Translated : Type 0 where
  pub requests : List RpcReq
  pub methods : List (String × String)

-- Left early, with the requests as they are then.
pub data Translating : Type 0 where
  translated : Translated → Translating
  stopped : List RpcReq → ForwardError → Translating
  lost : Translating

abbrev pub block_text : BlockRef → Option String
block_text (by_number n) = some n
block_text (by_hash h) = some h
block_text neither = none

-- `reqParams[0]` does not look at the length.
abbrev pub text_params : Wire → List BlockRef → Option String
text_params wire [] = none
text_params wire (r ∷ rs) = elim (block_text r) [
  | none ↦ none
  | some t ↦ some (wire.params_of_text t)
]

abbrev pub object_params : Wire → List BlockRef → Option String
object_params wire [] = none
object_params wire (r ∷ rs) = some (wire.params_of_object r)

unfoldable pub is_text_target : String → Bool
is_text_target target =
    eqb target "debug_getRawReceipts"
    || (eqb target "eth_getBlockReceipts" || eqb target "parity_getBlockReceipts")

pub data One : Type 0 where
  one : RpcReq → One
  wrong : RpcReq → ForwardError → One
  fault : One

abbrev pub with_params : RpcReq → Option String → One
with_params q none = fault
with_params q (some params) = one (record q { params = params })

unfoldable pub translate_blocks : Wire → RpcReq → List BlockRef → One
translate_blocks wire q blocks =
    if is_text_target q.method
    then with_params q (text_params wire blocks)
    else if eqb q.method "alchemy_getTransactionReceipts"
    then with_params q (object_params wire blocks)
    else wrong q (kind_error receipts_invalid_target)

-- The method changes first, so that a request that is refused keeps the target's method.
unfoldable pub translate_one : Wire → String → RpcReq → One
translate_one wire target q =
    let q' : RpcReq = record q { method = target } in
    elim (wire.unmarshal_blocks q.params) [
      | none ↦ wrong q' (kind_error other_error)
      | some blocks ↦ translate_blocks wire q' blocks
    ]

abbrev pub keep_head : RpcReq → Translating → Translating
keep_head q (translated t) = translated (record t { requests = q ∷ t.requests })
keep_head q (stopped qs e) = stopped (q ∷ qs) e
keep_head q lost = lost

-- The last request with an id decides, as in the map.
abbrev pub note_method : String → String → Translating → Translating
note_method id method (translated t) = translated (record t {
  methods = elim (lookup id t.methods) [ none ↦ insert id method t.methods | some m ↦ t.methods ];
})
note_method id method (stopped qs e) = stopped qs e
note_method id method lost = lost

unfoldable pub translate : Wire → String → List RpcReq → Translating
translate wire target [] = translated (record { requests = []; methods = [] })
translate wire target (q ∷ qs) =
    let rest = translate wire target qs in
    elim (eqb q.method "consensus_getReceipts") [
      | false ↦ keep_head q rest
      | true ↦ elim (translate_one wire target q) [
        | one q' ↦ note_method q'.id q'.method (keep_head q' rest)
        | wrong q' e ↦ stopped (q' ∷ qs) e
        | fault ↦ lost
      ]
    ]

unfoldable pub asks_for_receipts : List RpcReq → Bool
asks_for_receipts [] = false
asks_for_receipts (q ∷ qs) =
    if eqb q.method "consensus_getReceipts" then true else asks_for_receipts qs

unfoldable pub prepare : Wire → String → Bool → List RpcReq → Translating
prepare wire target is_batch reqs =
    if is_batch
    then (if asks_for_receipts reqs
        then stopped reqs (kind_error receipts_cant_be_batched)
        else translated (record { requests = reqs; methods = [] }))
    else translate wire target reqs

pub One-cases :
    (o : One)
    → ((q : RpcReq) × (o ≡ one q))
      ⊎ ((q : RpcReq) × (e : ForwardError) × (o ≡ wrong q e))
      ⊎ (o ≡ fault)
One-cases (one q) = inl (q, refl)
One-cases (wrong q e) = inr (inl (q, e, refl))
One-cases fault = inr (inr refl)

pub Translating-cases :
    (t : Translating)
    → ((u : Translated) × (t ≡ translated u))
      ⊎ ((qs : List RpcReq) × (e : ForwardError) × (t ≡ stopped qs e))
      ⊎ (t ≡ lost)
Translating-cases (translated u) = inl (u, refl)
Translating-cases (stopped qs e) = inr (inl (qs, e, refl))
Translating-cases lost = inr (inr refl)
