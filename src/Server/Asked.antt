-- ===== src/Server/Asked.antt =====
-- The first loop of `handleBatchRPC`: the requests in the batches are those that the texts of the call
-- are parsed to.
use bsc_builder_proxyd.Base.{
  ℕ, suc, ◌≡◌, inl, inr, Bool, true, false, ◌&&◌, List, [], ◌∷◌, String, none, some, All, All-snoc,
  Any, Option, Bool-cases, Option-cases, eqb, string_eq, lookup, ◌==◌, if◌then◌else◌,
}
use bsc_builder_proxyd.Rpc.{RpcReq, RpcRes, validate_rpc_req}
use bsc_builder_proxyd.Server.{SenderError}
use bsc_builder_proxyd.Server.Batch.{
  Service, BatchElem, Batch, Outcome, respond, healthy, queue, sender_outcome, classify_sender,
  classify_routed, classify_valid, classify_req, classify, group_of, add_elem, Collected,
  Collecting, collected, health_reply, collect_from, enqueue, answer_here,
}

abbrev pub AskedBy : {L C W : Type 0} → Service L C W → List String → RpcReq → Type 0
AskedBy s raws req = Any (λ raw. s.parse raw ≡ some req) raws

-- A request that is queued is this one.
unfoldable Queues : (RpcReq → Type 0) → Outcome → Type 0
Queues asked (respond r) = Unit
Queues asked (healthy r) = Unit
Queues asked (queue group req) = asked req

abbrev pub AllAsked : (RpcReq → Type 0) → List Batch → Type 0
AllAsked asked = All (λ b. All (λ e. asked e.req) b.elems)

module _ (asked : RpcReq → Type 0) where
  respond-Queues : (r : RpcRes) → Queues asked (respond r)
  unfolding Queues
  respond-Queues r = tt

  healthy-Queues : (r : RpcRes) → Queues asked (healthy r)
  unfolding Queues
  healthy-Queues r = tt

  queue-Queues : (group : String) (req : RpcReq) → asked req → Queues asked (queue group req)
  unfolding Queues
  queue-Queues group req a = a

  sender_outcome-Queues :
      (group : String) (req : RpcReq) (e : Option SenderError)
      → asked req
      → Queues asked (sender_outcome group req e)
  unfolding Queues
  sender_outcome-Queues group req none a = a
  sender_outcome-Queues group req (some e) a = tt

  branch :
      {L : Type 0} (b : Bool) (x y : L × Outcome)
      → Queues asked x.1
      → Queues asked y.1
      → Queues asked (if b then x else y).1
  branch true x y h k = h
  branch false x y h k = k

  add_elem-AllAsked :
      (n : ℕ) (group : String) (e : BatchElem) (bs : List Batch)
      → asked e.req
      → AllAsked asked bs
      → AllAsked asked (add_elem n group e bs)
  unfolding add_elem
  add_elem-AllAsked n group e [] a h = ((a, tt), tt)
  add_elem-AllAsked n group e (b ∷ bs) a h =
      elim (Bool-cases (b.group_id == n && eqb b.backend_group group)) [
        | inl x ↦ rw (x, add_elem) (All-snoc _ b.elems e h.0 a, h.1)
        | inr x ↦ rw (x, add_elem) (h.0, add_elem-AllAsked n group e bs a h.1)
      ]

  abbrev pub Collects : {L : Type 0} → Collecting L → Type 0
  Collects (collected k) = AllAsked asked k.batches
  Collects (health_reply l r) = Unit

module _ {L C W : Type 0} (s : Service L C W) (single : Bool) (asked : RpcReq → Type 0) where
  classify_sender-Queues :
      (l : L) (group : String) (req : RpcReq)
      → asked req
      → Queues asked (classify_sender s l group req).1
  unfolding classify_sender
  classify_sender-Queues l group req a = elim (Option-cases s.limit_sender) [
    | inl y ↦
        rw (y, classify_sender)
          (branch asked _ _ _ (queue-Queues asked group req a) (queue-Queues asked group req a))
    | inr (f, y) ↦
        rw (y, classify_sender)
          (branch asked _ _ _ (sender_outcome-Queues asked group req (f l req).1 a)
            (queue-Queues asked group req a))
  ]

  classify_routed-Queues :
      (l : L) (req : RpcReq) → asked req → Queues asked (classify_routed s l req).1
  unfolding classify_routed
  classify_routed-Queues l req a =
      let group = group_of (lookup req.method s.rpc_method_mappings) in
      elim (Bool-cases (eqb group "")) [
        | inl x ↦ rw (x, classify_routed) (respond-Queues asked _)
        | inr x ↦ elim (Bool-cases (s.is_limited l req.method).1) [
          | inl y ↦ rw (x, classify_routed) (rw (y, classify_routed) (respond-Queues asked _))
          | inr y ↦
              rw (x, classify_routed)
                (rw (y, classify_routed)
                  (classify_sender-Queues (s.is_limited l req.method).0 group req a))
        ]
      ]

  classify_valid-Queues :
      (l : L) (req : RpcReq) → asked req → Queues asked (classify_valid s l req).1
  unfolding classify_valid
  classify_valid-Queues l req a = elim (Bool-cases (eqb req.method "eth_accounts")) [
    | inl x ↦ rw (x, classify_valid) (respond-Queues asked _)
    | inr x ↦ elim (Bool-cases (eqb req.method "eth_call")) [
      | inl c ↦ elim (Option-cases (s.override_call req)) [
        | inl y ↦
            rw (x, c, classify_valid) (rw (y, classify_valid) (classify_routed-Queues l req a))
        | inr (j, y) ↦ rw (x, c, classify_valid) (rw (y, classify_valid) (respond-Queues asked _))
      ]
      | inr c ↦ rw (x, c, classify_valid) (classify_routed-Queues l req a)
    ]
  ]

  classify_req-Queues :
      (l : L) (req : RpcReq) → asked req → Queues asked (classify_req s single l req).1
  unfolding classify_req
  classify_req-Queues l req a = elim (Bool-cases (single && eqb req.method "proxyd_healthz")) [
    | inl x ↦ rw (x, classify_req) (healthy-Queues asked _)
    | inr x ↦ elim (Option-cases (validate_rpc_req req)) [
      | inl y ↦ rw (x, classify_req) (rw (y, classify_req) (classify_valid-Queues l req a))
      | inr (e, y) ↦ rw (x, classify_req) (rw (y, classify_req) (respond-Queues asked _))
    ]
  ]

  classify-Queues :
      (l : L) (raw : String)
      → ((req : RpcReq) → s.parse raw ≡ some req → asked req)
      → Queues asked (classify s single l raw).1
  unfolding classify
  classify-Queues l raw a = elim (Option-cases (s.parse raw)) [
    | inl x ↦ rw (x, classify) (respond-Queues asked _)
    | inr (req, x) ↦ rw (x, classify) (classify_req-Queues l req (a req x))
  ]

  after_outcome :
      (i : ℕ) (raws : List String) (k : Collected L) (l : L) (o : Outcome)
      → Queues asked o
      → AllAsked asked k.batches
      → ((k' : Collected L)
          → AllAsked asked k'.batches
          → Collects asked (collect_from s single (suc i) raws k'))
      → Collects asked (elim o [
        | respond res ↦
            collect_from s single (suc i) raws (answer_here i res (record k { limits = l }))
        | healthy res ↦ health_reply l res
        | queue group req ↦
            collect_from s single (suc i) raws (enqueue i group req (record k { limits = l }))
      ])
  unfolding enqueue answer_here Queues
  after_outcome i raws k l (respond res) q h rest = rest _ h
  after_outcome i raws k l (healthy res) q h rest = tt
  after_outcome i raws k l (queue group req) q h rest =
      rest _ (add_elem-AllAsked asked _ group _ k.batches q h)

  pub collect_from-AllAsked :
      (i : ℕ) (raws : List String) (k : Collected L)
      → All (λ raw. (req : RpcReq) → s.parse raw ≡ some req → asked req) raws
      → AllAsked asked k.batches
      → Collects asked (collect_from s single i raws k)
  unfolding collect_from
  collect_from-AllAsked i [] k a h = h
  collect_from-AllAsked i (raw ∷ raws) k a h =
      after_outcome i raws k _ _ (classify-Queues k.limits raw a.0) h
        (λ k' h'. collect_from-AllAsked (suc i) raws k' a.1 h')

AskedBy-next :
    {L C W : Type 0} (s : Service L C W) (raw : String) (raws rest : List String)
    → All (λ r. (req : RpcReq) → s.parse r ≡ some req → AskedBy s raws req) rest
    → All (λ r. (req : RpcReq) → s.parse r ≡ some req → AskedBy s (raw ∷ raws) req) rest
AskedBy-next s raw raws [] h = tt
AskedBy-next s raw raws (r ∷ rest) h = (λ req e. inr (h.0 req e), AskedBy-next s raw raws rest h.1)

pub AskedBy-all :
    {L C W : Type 0} (s : Service L C W) (raws : List String)
    → All (λ raw. (req : RpcReq) → s.parse raw ≡ some req → AskedBy s raws req) raws
AskedBy-all s [] = tt
AskedBy-all s (raw ∷ raws) = (λ req e. inl e, AskedBy-next s raw raws raws (AskedBy-all s raws))
