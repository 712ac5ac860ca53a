-- ===== src/Server/Classified.antt =====
-- What becomes of one request in `handleBatchRPC`: whatever answers it has the id expected.
use bsc_builder_proxyd.Base.{
  ◌≡◌, refl, inl, inr, Bool, true, false, ◌&&◌, String, Option, none, some, arith, Bool-cases,
  Option-cases, eqb, string_eq, lookup, if◌then◌else◌,
}
use bsc_builder_proxyd.Json.{Json}
use bsc_builder_proxyd.Server.{SenderError}
use bsc_builder_proxyd.Rpc.{RpcReq, AnyErr, new_rpc_error_res, rpc, validate_rpc_req, new_rpc_res}
use bsc_builder_proxyd.Server.Batch.{
  Service, Outcome, respond, healthy, queue, classify, classify_req, classify_valid,
  classify_routed, classify_sender, sender_outcome, group_of,
}
use bsc_builder_proxyd.Server.Distinct.{new_rpc_error_res-id}

-- The id under which a request is answered: its own, or none if it cannot be parsed or is invalid.
abbrev pub expected_of : Bool → RpcReq → String
expected_of single req =
    if single && eqb req.method "proxyd_healthz"
    then req.id
    else elim (validate_rpc_req req) [ some e ↦ "" | none ↦ req.id ]

abbrev pub expected_id : {L C W : Type 0} → Service L C W → Bool → String → String
expected_id s single raw = elim (s.parse raw) [ none ↦ "" | some req ↦ expected_of single req ]

unfoldable pub OutcomeHas : Bool → String → Outcome → Type 0
OutcomeHas single id (respond r) = r.id ≡ id
OutcomeHas single id (healthy r) = (single ≡ true) × (r.id ≡ id)
OutcomeHas single id (queue g q) = q.id ≡ id

new_rpc_res-id : (id : String) (j : Json) → (new_rpc_res id j).id ≡ id
unfolding new_rpc_res
new_rpc_res-id id j = refl

module _ (single : Bool) where
  error-Has : (id : String) (e : AnyErr) → OutcomeHas single id (respond (new_rpc_error_res id e))
  unfolding OutcomeHas
  error-Has id e = new_rpc_error_res-id id e

  result-Has : (id : String) (j : Json) → OutcomeHas single id (respond (new_rpc_res id j))
  unfolding OutcomeHas
  result-Has id j = new_rpc_res-id id j

  queue-Has : (group : String) (req : RpcReq) → OutcomeHas single req.id (queue group req)
  unfolding OutcomeHas
  queue-Has group req = refl

  sender_outcome-Has :
      (group : String) (req : RpcReq) (e : Option SenderError)
      → OutcomeHas single req.id (sender_outcome group req e)
  sender_outcome-Has group req none = queue-Has group req
  sender_outcome-Has group req (some e) = error-Has req.id _

  branch :
      {L : Type 0} (id : String) (b : Bool) (x y : L × Outcome)
      → OutcomeHas single id x.1
      → OutcomeHas single id y.1
      → OutcomeHas single id (if b then x else y).1
  branch id true x y h k = h
  branch id false x y h k = k

module _ {L C W : Type 0} (s : Service L C W) (single : Bool) where
  classify_sender-Has :
      (l : L) (group : String) (req : RpcReq)
      → OutcomeHas single req.id (classify_sender s l group req).1
  unfolding classify_sender
  classify_sender-Has l group req = elim (Option-cases s.limit_sender) [
    | inl y ↦
        rw (y, classify_sender)
          (branch single req.id _ _ _ (queue-Has single group req) (queue-Has single group req))
    | inr (f, y) ↦
        rw (y, classify_sender)
          (branch single req.id _ _ _ (sender_outcome-Has single group req (f l req).1)
            (queue-Has single group req))
  ]

  classify_routed-Has :
      (l : L) (req : RpcReq) → OutcomeHas single req.id (classify_routed s l req).1
  unfolding classify_routed
  classify_routed-Has l req =
      let group = group_of (lookup req.method s.rpc_method_mappings) in
      elim (Bool-cases (eqb group "")) [
        | inl x ↦ rw (x, classify_routed) (error-Has single req.id _)
        | inr x ↦ elim (Bool-cases (s.is_limited l req.method).1) [
          | inl y ↦ rw (x, classify_routed) (rw (y, classify_routed) (error-Has single req.id _))
          | inr y ↦
              rw (x, classify_routed)
                (rw (y, classify_routed)
                  (classify_sender-Has (s.is_limited l req.method).0 group req))
        ]
      ]

  classify_valid-Has : (l : L) (req : RpcReq) → OutcomeHas single req.id (classify_valid s l req).1
  unfolding classify_valid
  classify_valid-Has l req = elim (Bool-cases (eqb req.method "eth_accounts")) [
    | inl x ↦ rw (x, classify_valid) (result-Has single req.id _)
    | inr x ↦ elim (Bool-cases (eqb req.method "eth_call")) [
      | inl c ↦ elim (Option-cases (s.override_call req)) [
        | inl y ↦ rw (x, c, classify_valid) (rw (y, classify_valid) (classify_routed-Has l req))
        | inr (j, y) ↦
            rw (x, c, classify_valid) (rw (y, classify_valid) (result-Has single req.id j))
      ]
      | inr c ↦ rw (x, c, classify_valid) (classify_routed-Has l req)
    ]
  ]

  classify_req-Has :
      (l : L) (req : RpcReq)
      → OutcomeHas single (expected_of single req) (classify_req s single l req).1
  unfolding classify_req OutcomeHas
  classify_req-Has l req = elim (Bool-cases (single && eqb req.method "proxyd_healthz")) [
    | inl x ↦ rw (x, classify_req) (ground (arith, x), new_rpc_res-id req.id _)
    | inr x ↦ elim (Option-cases (validate_rpc_req req)) [
      | inl y ↦ rw (x, classify_req) (rw (y, classify_req) (classify_valid-Has l req))
      | inr (e, y) ↦ rw (x, classify_req) (rw (y, classify_req) (new_rpc_error_res-id "" (rpc e)))
    ]
  ]

  pub classify-Has :
      (l : L) (raw : String)
      → OutcomeHas single (expected_id s single raw) (classify s single l raw).1
  unfolding classify
  classify-Has l raw = elim (Option-cases (s.parse raw)) [
    | inl x ↦ rw (x, classify, expected_id) (error-Has single "" _)
    | inr (req, x) ↦ rw (x, classify, expected_id) (classify_req-Has l req)
  ]
