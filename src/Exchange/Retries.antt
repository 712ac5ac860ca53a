-- ===== src/Exchange/Retries.antt =====
-- What an exchange leaves for the next attempt: the windows of the backend and the requests.
use bsc_builder_proxyd.Base.{
  ℕ, ◌≡◌, ◌≢◌, refl, sym, ◌∙◌, subst, ◌⊎◌, inl, inr, Bool, true, false, ◌||◌, List, [], ◌∷◌, String,
  Option, none, some, arith, eqb, string_eq, Bool-cases, Option-cases, ◌==◌, length,
}
use bsc_builder_proxyd.Rpc.{RpcReq, RpcRes}
use bsc_builder_proxyd.Window.{incr, AvgSlidingWindow}
use bsc_builder_proxyd.Backend.{Backend}
use bsc_builder_proxyd.Routing.{ForwardError}
use bsc_builder_proxyd.Exchange.Translation.{
  Translating-cases, One-cases, Wire, BlockRef, Translated, translated, One, one, wrong, fault,
  with_params, translate_blocks, translate_one, translate, prepare, is_text_target, text_params,
  object_params,
}
use bsc_builder_proxyd.Exchange.{
  BodyRead, whole, over_limit, read_error, Sent, not_created, no_answer, answered, failed,
  Exchanged, Decoded, decoded, counted, uncounted, decode, accept, receive, read_answer, answer_to,
  do_forward,
}

-- The error window stays, or counts one error of a call that fails.
abbrev pub ErrorsFrom : AvgSlidingWindow → ℕ → Exchanged → Type 0
ErrorsFrom before later x =
    (x.backend.intermittent_errors_sliding_window ≡ before)
    ⊎ ((x.backend.intermittent_errors_sliding_window ≡ incr before later)
        × ((e : ForwardError) × (x.outcome ≡ failed e)))

-- The requests are those sent, and only the windows of errors and latencies change.
abbrev Leaves : Backend → Translated → ℕ → Exchanged → Type 0
Leaves b t later x =
    (x.requests ≡ t.requests)
    × (x.backend.network_requests_sliding_window ≡ b.network_requests_sliding_window)
    × ErrorsFrom b.intermittent_errors_sliding_window later x

module _ (wire : Wire) (send : List RpcReq → Sent) (now later : ℕ) (b : Backend)
    (t : Translated) where
  accept-Leaves :
      (status : ℕ) (rs : List (Option RpcRes))
      → Leaves b t later (accept wire send now later b t status rs)
  unfolding accept
  accept-Leaves status rs = elim (Bool-cases (length t.requests == length rs)) [
    | inl x ↦ rw (x, accept) (refl, refl, inl refl)
    | inr x ↦ rw (x, accept) (refl, refl, inr (refl, (_, refl)))
  ]

  receive-Leaves :
      (status : ℕ) (body : String) (d : Decoded)
      → decode wire (length t.requests == 1) body ≡ d
      → Leaves b t later (receive wire send now later b t status body)
  unfolding receive
  receive-Leaves status body (decoded rs) x = rw (x, receive) (accept-Leaves status rs)
  receive-Leaves status body (counted k) x = rw (x, receive) (refl, refl, inr (refl, (_, refl)))
  receive-Leaves status body (uncounted k) x = rw (x, receive) (refl, refl, inl refl)

  read_answer-Leaves :
      (status : ℕ) (body : BodyRead)
      → Leaves b t later (read_answer wire send now later b t status body)
  unfolding read_answer
  read_answer-Leaves status (whole body) = receive-Leaves status body _ refl
  read_answer-Leaves status over_limit = (refl, refl, inl refl)
  read_answer-Leaves status read_error = (refl, refl, inr (refl, (_, refl)))

  answer_to-Leaves : (a : Sent) → Leaves b t later (answer_to wire send now later b t a)
  unfolding answer_to
  answer_to-Leaves not_created = (refl, refl, inr (refl, (_, refl)))
  answer_to-Leaves no_answer = (refl, refl, inr (refl, (_, refl)))
  answer_to-Leaves (answered status body) = elim (Bool-cases (length t.requests == 0)) [
    | inl n ↦ rw (n, answer_to) (refl, refl, inl refl)
    | inr n ↦ elim (Bool-cases (status == 200 || status == 400)) [
      | inl x ↦ rw (n, answer_to) (rw (x, answer_to) (read_answer-Leaves status body))
      | inr x ↦ rw (n, answer_to) (rw (x, answer_to) (refl, refl, inr (refl, (_, refl))))
    ]
  ]

-- An exchange counts as one request of its backend, however many requests it carries and however it
-- ends; and as at most one error, and then only when it fails.
do_forward_counts :
    (wire : Wire) (send : List RpcReq → Sent) (now later : ℕ) (b : Backend) (reqs : List RpcReq)
    (is_batch : Bool)
    → let x = do_forward wire send now later b reqs is_batch in
      (x.backend.network_requests_sliding_window ≡ incr b.network_requests_sliding_window now)
      × ErrorsFrom b.intermittent_errors_sliding_window later x
unfolding do_forward
do_forward_counts wire send now later b reqs is_batch =
    elim (Translating-cases (prepare wire b.receipts_target is_batch reqs)) [
      | inl (t, x) ↦
          rw (x, do_forward)
            (let (same, net, errors) = answer_to-Leaves wire send now later _ t (send t.requests) in
              (net, errors))
      | inr (inl (qs, e, x)) ↦ rw (x, do_forward) (refl, inl refl)
      | inr (inr x) ↦ rw (x, do_forward) (refl, inl refl)
    ]

Targets : String → One → Type 0
Targets target (one q) = q.method ≡ target
Targets target (wrong q e) = q.method ≡ target
Targets target fault = Unit

with_params-Targets : (q : RpcReq) (o : Option String) → Targets q.method (with_params q o)
unfolding Targets
with_params-Targets q none = tt
with_params-Targets q (some p) = refl

translate_blocks-Targets :
    (wire : Wire) (q : RpcReq) (bs : List BlockRef) → Targets q.method (translate_blocks wire q bs)
unfolding translate_blocks
translate_blocks-Targets wire q bs = elim (Bool-cases (is_text_target q.method)) [
  | inl x ↦ rw (x, translate_blocks) (with_params-Targets q (text_params wire bs))
  | inr x ↦ elim (Bool-cases (eqb q.method "alchemy_getTransactionReceipts")) [
    | inl y ↦
        rw (x, translate_blocks)
          (rw (y, translate_blocks) (with_params-Targets q (object_params wire bs)))
    | inr y ↦ rw (x, translate_blocks) (rw (y, translate_blocks) (unfold Targets in refl))
  ]
]

translate_one-Targets :
    (wire : Wire) (target : String) (q : RpcReq) → Targets target (translate_one wire target q)
unfolding translate_one Targets
translate_one-Targets wire target q = elim (Option-cases (wire.unmarshal_blocks q.params)) [
  | inl x ↦ rw (x, translate_one) refl
  | inr (bs, x) ↦
      rw (x, translate_one) (translate_blocks-Targets wire (record q { method = target }) bs)
]

-- A request with a method of its own is not translated.
translate_other :
    (wire : Wire) (target : String) (q : RpcReq)
    → q.method ≢ "consensus_getReceipts"
    → translate wire target (q ∷ []) ≡ translated (record { requests = q ∷ []; methods = [] })
unfolding translate
translate_other wire target q n =
    let x : eqb q.method "consensus_getReceipts" ≡ false =
      ground (arith, string_eq.beq_iff q.method "consensus_getReceipts") in
    rw (x, translate) refl

-- One exchange of a request, and what any later attempt makes of the requests that it left.
abbrev pub LeftStale : Wire → Backend → Exchanged → Type 0
LeftStale wire b x =
    (q' : RpcReq) × (x.requests ≡ q' ∷ [])
    × (q'.method ≡ b.receipts_target)
    × ((target : String)
        → prepare wire target false x.requests
          ≡ translated (record { requests = x.requests; methods = [] }))

stale :
    (wire : Wire) (b : Backend) (x : Exchanged) (q' : RpcReq)
    → b.receipts_target ≢ "consensus_getReceipts"
    → x.requests ≡ q' ∷ []
    → q'.method ≡ b.receipts_target
    → LeftStale wire b x
unfolding prepare
stale wire b x q' n e m =
    (q', e, m, λ target. rw e (translate_other wire target q' (λ h. n (sym m ∙ h))))

-- The exchange of a lone `consensus_getReceipts` request, whose translation does not panic, leaves it
-- with the method of that backend's target, also when it fails. So the next attempt, at this
-- backend or at one with another target, translates nothing, not even params that the first
-- attempt refused, and will not wrap the result.
pub do_forward-LeftStale :
    (wire : Wire) (send : List RpcReq → Sent) (now later : ℕ) (b : Backend) (q : RpcReq)
    → q.method ≡ "consensus_getReceipts"
    → b.receipts_target ≢ "consensus_getReceipts"
    → translate_one wire b.receipts_target q ≢ fault
    → LeftStale wire b (do_forward wire send now later b (q ∷ []) false)
unfolding do_forward prepare translate
do_forward-LeftStale wire send now later b q m n found =
    let asks : eqb q.method "consensus_getReceipts" ≡ true =
      ground (arith, string_eq.beq_iff q.method "consensus_getReceipts") in
    let keeps = translate_one-Targets wire b.receipts_target q in
    let x₁ = do_forward wire send now later b (q ∷ []) false in
    elim (One-cases (translate_one wire b.receipts_target q)) [
      | inl (q', x) ↦
          stale wire b x₁ q' n
            (rw (asks, do_forward)
              (rw (x, do_forward) (answer_to-Leaves wire send now later _ _ _).0))
            (unfold Targets in subst (Targets b.receipts_target) x keeps)
      | inr (inl (q', e, x)) ↦
          stale wire b x₁ q' n (rw (asks, do_forward) (rw (x, do_forward) refl))
            (unfold Targets in subst (Targets b.receipts_target) x keeps)
      | inr (inr x) ↦ absurd (found x)
    ]
