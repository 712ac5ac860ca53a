-- ===== src/Server/Outcomes.antt =====
-- What `HandleRPC` writes: the responses of the call, or one error.
use mathlib.Core.List.{Permᴰ}
use bsc_builder_proxyd.Base.{
  ◌≤ℤ◌, pos, ltb_ℤ, ◌≡◌, refl, ◌∙◌, ap, ◌⊎◌, inl, inr, true, false, List, [], ◌∷◌, String, none,
  some, arith, length, Option-cases, Bool-cases, is_empty, eqb, string_eq, some_inj,
}
use bsc_builder_proxyd.Rpc.{RpcErr, rpc, new_rpc_error_res, is_batch, codes}
use bsc_builder_proxyd.Server.Batch.{Service, Batch}
use bsc_builder_proxyd.Server.Access.{HttpRequest, RequestContext, Client, populate_context}
use bsc_builder_proxyd.Server.Minibatches.{Handled, replied, timed_out, refused, panicked}
use bsc_builder_proxyd.Server.Distinct.{IsExact, Panics}
use bsc_builder_proxyd.Server.Classified.{expected_id}
use bsc_builder_proxyd.Server.Asked.{AskedBy}
use bsc_builder_proxyd.Server.Replies.{Answers, IsAnswered, handle_batch_rpc-IsAnswered}
use bsc_builder_proxyd.Server.Handle.{
  Server, Body, whole, too_large, broken, HttpReply, HttpBody, nothing, one, many, Served, served,
  crashed, unauthorized, write_rpc_res, write_rpc_error, write_batch_rpc_res, service_for,
  client_of, reply_batch, reply_single, handle_batch, handle_whole, handle_body, handle_rpc,
}

-- A list has a response for each request of a batch within the limit; a single response is that of
-- the single request, or an error without an id; a reply with nothing has the status 401.
abbrev pub Proper :
    {L C W : Type 0} → Server L C W → Service L C W → Body → HttpReply → HttpBody → Type 0
Proper s service b reply nothing = reply.status ≡ 401
Proper s service b reply (many slots) =
    (text : String) × (reqs : List String) × (b ≡ whole text)
    × (is_batch (codes text) ≡ true)
    × (s.parse_batch text ≡ some reqs)
    × (pos (length reqs) ≤ℤ s.max_batch_size)
    × (reply.status ≡ 200)
    × Answers service reqs slots
Proper s service b reply (one r) =
    ((e : RpcErr) × (r ≡ new_rpc_error_res "" (rpc e)))
    ⊎ ((text : String) × (b ≡ whole text)
        × (is_batch (codes text) ≡ false)
        × (r.id ≡ expected_id service true text))

-- The handler panics only in the Forward of a group, on requests that a text of the body, or a text
-- of its batch, is parsed to.
abbrev pub PanicsOn : {L C W : Type 0} → Server L C W → Service L C W → Body → Type 0
PanicsOn s service b =
    (text : String) × (raws : List String) × (b ≡ whole text)
    × ((s.parse_batch text ≡ some raws) ⊎ (raws ≡ text ∷ []))
    × Panics service (AskedBy service raws)

abbrev pub IsProper : {L C W : Type 0} → Server L C W → Service L C W → Body → Served L C W → Type 0
IsProper s service b (served l c w reply) = Proper s service b reply reply.body
IsProper s service b crashed = PanicsOn s service b

module _ {L C W : Type 0} (s : Server L C W) (service : Service L C W) where
  error-Proper :
      (b : Body) (e : RpcErr) → Proper s service b (write_rpc_error e) (write_rpc_error e).body
  unfolding write_rpc_error write_rpc_res
  error-Proper b e = inl (e, refl)

  reply_batch-IsProper :
      (text : String) (reqs : List String) (h : Handled L C W)
      → is_batch (codes text) ≡ true
      → s.parse_batch text ≡ some reqs
      → pos (length reqs) ≤ℤ s.max_batch_size
      → IsAnswered service reqs h
      → IsProper s service (whole text) (reply_batch s h)
  unfolding reply_batch write_batch_rpc_res
  reply_batch-IsProper text reqs (replied l c w res hit by) x y z a =
      (text, reqs, refl, x, y, z, refl, a)
  reply_batch-IsProper text reqs (timed_out l c w) x y z a = error-Proper _ _
  reply_batch-IsProper text reqs (refused l c w e) x y z a = error-Proper _ _
  reply_batch-IsProper text reqs panicked x y z a = (text, reqs, refl, inl y, a)

  reply_single-IsProper :
      (text : String) (h : Handled L C W)
      → is_batch (codes text) ≡ false
      → IsAnswered service (text ∷ []) h
      → IsProper s service (whole text) (reply_single s h)
  unfolding reply_single write_rpc_res
  reply_single-IsProper text (replied l c w [] hit by) x a = absurd (omega (arith, a.0))
  reply_single-IsProper text (replied l c w (none ∷ res) hit by) x a =
      let (r, e, i) = a.1 0 text refl in absurd (cc)
  reply_single-IsProper text (replied l c w (some r ∷ res) hit by) x a =
      let (r', e, i) = a.1 0 text refl in
      inr (text, refl, x, ap (λ q. q.id) (some_inj (some_inj e)) ∙ i)
  reply_single-IsProper text (timed_out l c w) x a = error-Proper _ _
  reply_single-IsProper text (refused l c w e) x a = error-Proper _ _
  reply_single-IsProper text panicked x a = (text, text ∷ [], refl, inr refl, a)

  module _ (exact : IsExact service) (perm : (bs : List Batch) → Permᴰ bs (s.order bs)) (l : L)
      (c : C) (w : W) where
    handle_batch-IsProper :
        (text : String) (reqs : List String)
        → is_batch (codes text) ≡ true
        → s.parse_batch text ≡ some reqs
        → IsProper s service (whole text) (handle_batch s service l c w reqs)
    unfolding handle_batch
    handle_batch-IsProper text reqs x y =
        elim (Bool-cases (ltb_ℤ s.max_batch_size (pos (length reqs)))) [
          | inl h ↦ rw (h, handle_batch) (error-Proper _ _)
          | inr h ↦ elim (Bool-cases (is_empty reqs)) [
            | inl k ↦ rw (h, handle_batch) (rw (k, handle_batch) (error-Proper _ _))
            | inr k ↦
                rw (h, handle_batch)
                  (rw (k, handle_batch)
                    (reply_batch-IsProper text reqs _ x y (ground arith)
                      (handle_batch_rpc-IsAnswered service reqs exact s.order true l c w perm)))
          ]
        ]

    handle_body-IsProper : (b : Body) → IsProper s service b (handle_body s service l c w b)
    unfolding handle_body handle_whole
    handle_body-IsProper too_large = error-Proper _ _
    handle_body-IsProper broken = error-Proper _ _
    handle_body-IsProper (whole text) = elim (Bool-cases (is_batch (codes text))) [
      | inl x ↦ elim (Option-cases (s.parse_batch text)) [
        | inl y ↦ rw (x, handle_whole) (rw (y, handle_whole) (error-Proper _ _))
        | inr (reqs, y) ↦
            rw (x, handle_whole) (rw (y, handle_whole) (handle_batch-IsProper text reqs x y))
      ]
      | inr x ↦
          rw (x, handle_whole)
            (reply_single-IsProper text _ x
              (handle_batch_rpc-IsAnswered service (text ∷ []) exact s.order false l c w perm))
    ]

-- The status 401, with nothing changed; or, for a request that may enter, a proper reply.
abbrev pub Replied : {L C W : Type 0} → Server L C W → L → C → W → HttpRequest → Body → Type 0
Replied s l c w r body =
    ((populate_context s.limits.rate_limit_header s.authenticated_paths r ≡ none)
      × (handle_rpc s l c w r body ≡ served l c w unauthorized))
    ⊎ ((ctx : RequestContext) × (populate_context s.limits.rate_limit_header s.authenticated_paths r
          ≡ some ctx)
        × IsProper s (service_for s ctx (client_of s r ctx)) body (handle_rpc s l c w r body))

-- Where the backend groups and the cache keep the promise of `IsExact`, the handler panics only in
-- the Forward of a group, on requests that the body is parsed to. A request that is not authorized gets the status 401 and changes nothing. Any other gets
-- one error without an id, or, with the status 200, a list of responses to the requests of a batch
-- that is within the limit, each in its place and under its id, or the one response to a request
-- that is no batch, under its id.
pub handle_rpc-IsProper :
    {L C W : Type 0} (s : Server L C W) (l : L) (c : C) (w : W) (r : HttpRequest) (body : Body)
    → ((ctx : RequestContext) (client : Client) → IsExact (service_for s ctx client))
    → ((bs : List Batch) → Permᴰ bs (s.order bs))
    → Replied s l c w r body
unfolding handle_rpc
handle_rpc-IsProper s l c w r body exact perm =
    elim (Option-cases (populate_context s.limits.rate_limit_header s.authenticated_paths r)) [
      | inl x ↦ inl (x, rw (x, handle_rpc) refl)
      | inr (ctx, x) ↦
          let client = client_of s r ctx in
          inr (
            ctx,
            x,
            elim (Bool-cases (eqb client.xff "")) [
              | inl y ↦
                  rw (x, handle_rpc)
                    (rw (y, handle_rpc) (error-Proper s (service_for s ctx client) body _))
              | inr y ↦
                  rw (x, handle_rpc)
                    (rw (y, handle_rpc)
                      (handle_body-IsProper s (service_for s ctx client) (exact ctx client) perm l c
                        w body))
            ],
          )
    ]
