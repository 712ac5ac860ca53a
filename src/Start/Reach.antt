-- ===== src/Start/Reach.antt =====
-- proxyd.go with server.go: the groups that the requests of a started proxy are queued for.
use bsc_builder_proxyd.Base.{
  ◌≡◌, refl, sym, ap, ◌∙◌, subst, inl, inr, Bool, true, ◌&&◌, List, [], ◌∷◌, String, Option, none,
  some, eqb, string_eq, is_some, lookup, Bool-cases, Option-cases,
}
use bsc_builder_proxyd.Rpc.{RpcReq, validate_rpc_req}
use bsc_builder_proxyd.Server.{get_rpc_method_mappings, SenderError}
use bsc_builder_proxyd.Server.Batch.{
  Service, Outcome, respond, healthy, queue, sender_outcome, classify_sender, classify_routed,
  classify_valid, classify_req, classify,
}
use bsc_builder_proxyd.Config.{Config}
use bsc_builder_proxyd.Start.{ok, Env}
use bsc_builder_proxyd.Start.Groups.{StartedGroup}
use bsc_builder_proxyd.Start.Run.{start, Started, Regroup}
use bsc_builder_proxyd.Start.Routable.{Known, start-IsRoutable}

-- What is queued is queued for a group that some method is mapped to.
unfoldable Mapped : List (String × String) → Outcome → Type 0
Mapped ms (respond r) = Unit
Mapped ms (healthy r) = Unit
Mapped ms (queue g q) = (method : String) × (lookup method ms ≡ some g)

module _ {L C W : Type 0} (s : Service L C W) where
  sender_outcome-Mapped :
      (ms : List (String × String)) (g : String) (req : RpcReq) (e : Option SenderError)
      → (method : String) × (lookup method ms ≡ some g)
      → Mapped ms (sender_outcome g req e)
  unfolding Mapped
  sender_outcome-Mapped ms g req none h = h
  sender_outcome-Mapped ms g req (some e) h = tt

  classify_sender-Mapped :
      (ms : List (String × String)) (l : L) (g : String) (req : RpcReq)
      → (method : String) × (lookup method ms ≡ some g)
      → Mapped ms (classify_sender s l g req).1
  unfolding classify_sender Mapped
  classify_sender-Mapped ms l g req h =
      elim (Bool-cases (eqb req.method "eth_sendRawTransaction")) [
        | inr x ↦ rw (x, classify_sender) h
        | inl x ↦ elim (Option-cases s.limit_sender) [
          | inl y ↦ rw (x, classify_sender) (rw (y, classify_sender) h)
          | inr (f, y) ↦
              rw (x, classify_sender)
                (rw (y, classify_sender) (sender_outcome-Mapped ms g req (f l req).1 h))
        ]
      ]

  classify_routed-Mapped :
      (l : L) (req : RpcReq) → Mapped s.rpc_method_mappings (classify_routed s l req).1
  unfolding classify_routed
  classify_routed-Mapped l req = elim (Option-cases (lookup req.method s.rpc_method_mappings)) [
    | inl x ↦ rw (x, classify_routed) (unfold Mapped in tt)
    | inr (g, x) ↦ elim (Bool-cases (eqb g "")) [
      | inl e ↦ rw (x, classify_routed) (rw (e, classify_routed) (unfold Mapped in tt))
      | inr e ↦ elim (Bool-cases (s.is_limited l req.method).1) [
        | inl y ↦
            rw (x, classify_routed)
              (rw (e, classify_routed) (rw (y, classify_routed) (unfold Mapped in tt)))
        | inr y ↦
            rw (x, classify_routed)
              (rw (e, classify_routed)
                (rw (y, classify_routed)
                  (classify_sender-Mapped s.rpc_method_mappings _ g req (req.method, x))))
      ]
    ]
  ]

  classify_valid-Mapped :
      (l : L) (req : RpcReq) → Mapped s.rpc_method_mappings (classify_valid s l req).1
  unfolding classify_valid
  classify_valid-Mapped l req = elim (Bool-cases (eqb req.method "eth_accounts")) [
    | inl x ↦ rw (x, classify_valid) (unfold Mapped in tt)
    | inr x ↦ elim (Bool-cases (eqb req.method "eth_call")) [
      | inr c ↦ rw (x, c, classify_valid) (classify_routed-Mapped l req)
      | inl c ↦ elim (Option-cases (s.override_call req)) [
        | inl y ↦ rw (x, c, classify_valid) (rw (y, classify_valid) (classify_routed-Mapped l req))
        | inr (j, y) ↦ rw (x, c, classify_valid) (rw (y, classify_valid) (unfold Mapped in tt))
      ]
    ]
  ]

  classify_req-Mapped :
      (single : Bool) (l : L) (req : RpcReq)
      → Mapped s.rpc_method_mappings (classify_req s single l req).1
  unfolding classify_req
  classify_req-Mapped single l req = elim (Bool-cases (single && eqb req.method "proxyd_healthz")) [
    | inl x ↦ rw (x, classify_req) (unfold Mapped in tt)
    | inr x ↦ elim (Option-cases (validate_rpc_req req)) [
      | inl y ↦ rw (x, classify_req) (rw (y, classify_req) (classify_valid-Mapped l req))
      | inr (e, y) ↦ rw (x, classify_req) (rw (y, classify_req) (unfold Mapped in tt))
    ]
  ]

  classify-Mapped :
      (single : Bool) (l : L) (raw : String)
      → Mapped s.rpc_method_mappings (classify s single l raw).1
  unfolding classify
  classify-Mapped single l raw = elim (Option-cases (s.parse raw)) [
    | inl x ↦ rw (x, classify) (unfold Mapped in tt)
    | inr (req, x) ↦ rw (x, classify) (classify_req-Mapped single l req)
  ]

Known-lookup :
    (gs : List (String × StartedGroup)) (ms : List (String × String)) (method g : String)
    → Known gs ms
    → lookup method ms ≡ some g
    → is_some (lookup g gs) ≡ true
unfolding lookup
Known-lookup gs [] method g h e = absurd (cc)
Known-lookup gs ((m, n) ∷ ms) method g (h, hs) e = elim (Bool-cases (eqb m method)) [
  | inl x ↦ let same : n ≡ g = cc (rw x at e) in subst (λ k. is_some (lookup k gs) ≡ true) same h
  | inr x ↦ Known-lookup gs ms method g hs (rw x at e)
]

own_mappings :
    {M : Type 0} (domains : List (String × M)) (ms : M) (origin : String)
    → lookup origin domains ≡ none
    → get_rpc_method_mappings domains ms origin ≡ ms
unfolding get_rpc_method_mappings
own_mappings domains ms origin h = elim (Bool-cases (eqb origin "")) [
  | inl x ↦ rw x refl
  | inr x ↦ rw (x, h) refl
]

-- Once the proxy has started: whatever text a request consists of, if it comes from an origin without
-- mappings of its own and is queued for a backend group, then the server has that group, so
-- that no call of Forward goes to a nil group.
pub classify_queue :
    {L C W : Type 0} (env : Env) (range : Regroup) (cfg : Config) (s : Started)
    (service : Service L C W) (origin : String) (single : Bool) (l : L) (raw group : String)
    (req : RpcReq)
    → start env range cfg ≡ ok s
    → service.rpc_method_mappings
      ≡ get_rpc_method_mappings s.server.domain_rpc_method_mappings s.server.rpc_method_mappings
          origin
    → lookup origin s.server.domain_rpc_method_mappings ≡ none
    → (classify service single l raw).1 ≡ queue group req
    → is_some (lookup group s.server.backend_groups) ≡ true
unfolding Mapped
classify_queue env range cfg s service origin single l raw group req started mapped own queued =
    let known = (start-IsRoutable env range cfg s started).0 in
    let ms =
      mapped
      ∙ own_mappings s.server.domain_rpc_method_mappings s.server.rpc_method_mappings origin own in
    let (method, e) =
      subst (Mapped service.rpc_method_mappings) queued (classify-Mapped service single l raw) in
    Known-lookup s.server.backend_groups s.server.rpc_method_mappings method group known
      (ap (lookup method) (sym ms) ∙ e)
