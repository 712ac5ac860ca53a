-- ===== src/Exchange/Answered.antt =====
-- What an exchange with a backend gives: a response for each request in the requests' order, or an
-- error; and which of the backend's windows it adds to.
use mathlib.Core.Path.{ap₂}
use mathlib.Core.List.{Permᴰ}
use bsc_builder_proxyd.Base.{
  ℕ, ◌<◌, ◌≡◌, ◌≢◌, refl, sym, ◌∙◌, subst, ◌⊎◌, inl, inr, Bool, true, false, ◌||◌, List, [], ◌∷◌,
  String, Option, none, some, arith, map, string_eq, All, Bool-cases, ◌==◌, length,
}
use bsc_builder_proxyd.Rpc.{RpcReq, RpcRes, RpcErr}
use bsc_builder_proxyd.Backend.{Backend}
use bsc_builder_proxyd.Exchange.Translation.{
  Translating-cases, Wire, Translated, lost, asks_for_receipts, prepare,
}
use bsc_builder_proxyd.Exchange.{
  BodyRead, whole, over_limit, read_error, Sent, not_created, no_answer, answered, Outcome, got,
  failed, panicked, Exchanged, Decoded, decoded, counted, uncounted, decode, finish_responses,
  capture, enrich, accept, receive, read_answer, answer_to, do_forward, of_finished,
}
use bsc_builder_proxyd.Exchange.Order.{DistinctIds, sort_batch_rpc_response-order}
use bsc_builder_proxyd.Exchange.Ids.{ids_of, KeepsIds, translate-KeepsIds}

abbrev pub slot_id : Option RpcRes → String
slot_id none = ""
slot_id (some r) = r.id

-- No `null`, and with a status other than 200 an error in each response.
abbrev pub SoundSlot : ℕ → Option RpcRes → Type 0
SoundSlot status none = ⊥
SoundSlot status (some r) = (status ≡ 200) ⊎ ((e : RpcErr) × (r.error ≡ some e))

-- The backend answers each request once, in any order, and names an error when the status says so.
abbrev pub IsHonest : Wire → (List RpcReq → Sent) → Type 0
IsHonest wire send =
    (reqs : List RpcReq) (status : ℕ) (body : String) (rs : List (Option RpcRes))
    → send reqs ≡ answered status (whole body)
    → decode wire (length reqs == 1) body ≡ decoded rs
    → length reqs ≡ length rs
    → Permᴰ (ids_of reqs) (map slot_id rs) × All (SoundSlot status) rs

abbrev pub InOrder : List RpcReq → Outcome → Type 0
InOrder reqs (got res) = map (λ r. r.id) res ≡ ids_of reqs
InOrder reqs (failed e) = Unit {0}
InOrder reqs panicked = ⊥

enrich-id : (methods : List (String × String)) (r : RpcRes) → (enrich methods r).id ≡ r.id
enrich-id methods r = ground arith

capture_sound :
    (status : ℕ) (r : RpcRes)
    → SoundSlot status (some r)
    → (r' : RpcRes) × (capture status r ≡ some r') × (r'.id ≡ r.id)
capture_sound status r (inl e) = (r, ground (arith, e), refl)
capture_sound status r (inr (e, x)) = elim (Bool-cases (status == 200)) [
  | inl y ↦ (r, rw y refl, refl)
  | inr y ↦
      (record r { error = some (record e { http_error_code = status }) }, rw (y, x) refl, refl)
]

finish_responses_sound :
    (status : ℕ) (methods : List (String × String)) (rs : List (Option RpcRes))
    → All (SoundSlot status) rs
    → (out : List RpcRes) × (finish_responses status methods rs ≡ some out)
      × (map (λ r. r.id) out ≡ map slot_id rs)
unfolding finish_responses
finish_responses_sound status methods [] h = ([], refl, refl)
finish_responses_sound status methods (none ∷ rs) h = absurd h.0
finish_responses_sound status methods (some r ∷ rs) h =
    let (r', x, i) = capture_sound status r h.0 in
    let (out, y, j) = finish_responses_sound status methods rs h.1 in
    (
      enrich methods r' ∷ out,
      rw (x, finish_responses) (rw y refl),
      ap₂ ◌∷◌ (enrich-id methods r' ∙ i) j,
    )

prepare-KeepsIds :
    (wire : Wire) (target : String) (is_batch : Bool) (reqs : List RpcReq)
    → KeepsIds reqs (prepare wire target is_batch reqs)
unfolding prepare
prepare-KeepsIds wire target false reqs = translate-KeepsIds wire target reqs
prepare-KeepsIds wire target true reqs = elim (Bool-cases (asks_for_receipts reqs)) [
  | inl x ↦ rw (x, prepare) (unfold KeepsIds in refl)
  | inr x ↦ rw (x, prepare) (unfold KeepsIds in refl)
]

-- The requests keep their ids, and the responses come in their order.
abbrev pub Kept : List RpcReq → Exchanged → Type 0
Kept reqs x = (ids_of x.requests ≡ ids_of reqs) × InOrder reqs x.outcome

module _ (wire : Wire) (send : List RpcReq → Sent) (honest : IsHonest wire send) (now later : ℕ)
    (b : Backend) (reqs : List RpcReq) (t : Translated) (keeps : ids_of t.requests ≡ ids_of reqs)
    (distinct : DistinctIds (ids_of reqs)) where
  of_finished-InOrder :
      (status : ℕ) (rs : List (Option RpcRes))
      → Permᴰ (ids_of t.requests) (map slot_id rs)
      → All (SoundSlot status) rs
      → InOrder reqs (of_finished t.requests (finish_responses status t.methods rs))
  of_finished-InOrder status rs perm sound =
      let (out, x, i) = finish_responses_sound status t.methods rs sound in
      let (sorted, y, j) =
        sort_batch_rpc_response-order t.requests out (subst DistinctIds (sym keeps) distinct)
          (subst (Permᴰ (ids_of t.requests)) (sym i) perm) in
      rw x (rw y (j ∙ keeps))

  accept-Kept :
      (status : ℕ) (body : String) (rs : List (Option RpcRes))
      → send t.requests ≡ answered status (whole body)
      → decode wire (length t.requests == 1) body ≡ decoded rs
      → Kept reqs (accept wire send now later b t status rs)
  unfolding accept
  accept-Kept status body rs x y = elim (Bool-cases (length t.requests == length rs)) [
    | inr n ↦ rw (n, accept) (keeps, tt)
    | inl n ↦
        let (perm, sound) = honest t.requests status body rs x y (ground arith) in
        rw (n, accept) (keeps, of_finished-InOrder status rs perm sound)
  ]

  Decoded-Kept :
      (status : ℕ) (body : String) (d : Decoded)
      → send t.requests ≡ answered status (whole body)
      → decode wire (length t.requests == 1) body ≡ d
      → Kept reqs (receive wire send now later b t status body)
  unfolding receive
  Decoded-Kept status body (decoded rs) x y = rw (y, receive) (accept-Kept status body rs x y)
  Decoded-Kept status body (counted k) x y = rw (y, receive) (keeps, tt)
  Decoded-Kept status body (uncounted k) x y = rw (y, receive) (keeps, tt)

  read_answer-Kept :
      (status : ℕ) (body : BodyRead)
      → send t.requests ≡ answered status body
      → Kept reqs (read_answer wire send now later b t status body)
  unfolding read_answer
  read_answer-Kept status (whole body) x = Decoded-Kept status body _ x refl
  read_answer-Kept status over_limit x = (keeps, tt)
  read_answer-Kept status read_error x = (keeps, tt)

  answer_to-Kept :
      (a : Sent)
      → (length t.requests == 0) ≡ false
      → send t.requests ≡ a
      → Kept reqs (answer_to wire send now later b t a)
  unfolding answer_to
  answer_to-Kept not_created n x = (keeps, tt)
  answer_to-Kept no_answer n x = (keeps, tt)
  answer_to-Kept (answered status body) n x = elim (Bool-cases (status == 200 || status == 400)) [
    | inl y ↦ rw (n, answer_to) (rw (y, answer_to) (read_answer-Kept status body x))
    | inr y ↦ rw (n, answer_to) (rw (y, answer_to) (keeps, tt))
  ]

same_length :
    (xs ys : List RpcReq) → ids_of xs ≡ ids_of ys → 0 < length ys → (length xs == 0) ≡ false
same_length [] [] h n = absurd (omega arith)
same_length [] (y ∷ ys) h n = absurd (cc)
same_length (x ∷ xs) ys h n = ground arith

-- Where the backend is honest, that is, answers each request that it is sent once, in any order, and
-- names an error when the status says so: the exchange for some requests with distinct ids, whose
-- translation does not panic, does not panic either; it leaves the ids of the requests; and it
-- fails, or returns the responses in the order of the requests, each under the id of its own.
pub do_forward-Kept :
    (wire : Wire) (send : List RpcReq → Sent) (now later : ℕ) (b : Backend) (reqs : List RpcReq)
    (is_batch : Bool)
    → IsHonest wire send
    → DistinctIds (ids_of reqs)
    → 0 < length reqs
    → prepare wire b.receipts_target is_batch reqs ≢ lost
    → Kept reqs (do_forward wire send now later b reqs is_batch)
unfolding do_forward
do_forward-Kept wire send now later b reqs is_batch honest distinct n found =
    let keeps = prepare-KeepsIds wire b.receipts_target is_batch reqs in
    elim (Translating-cases (prepare wire b.receipts_target is_batch reqs)) [
      | inl (t, x) ↦
          let k : ids_of t.requests ≡ ids_of reqs =
            unfold KeepsIds in subst (KeepsIds reqs) x keeps in
          rw (x, do_forward)
            (answer_to-Kept wire send honest now later _ reqs t k distinct (send t.requests)
              (same_length t.requests reqs k n) refl)
      | inr (inl (qs, e, x)) ↦
          rw (x, do_forward) (unfold KeepsIds in subst (KeepsIds reqs) x keeps, tt)
      | inr (inr x) ↦ absurd (found x)
    ]
