-- ===== src/Websocket/Whitelist.antt =====
-- Where the pump of a client's messages sends each of them.
use mathlib.Core.List.{append_assoc, append-nil}
use bsc_builder_proxyd.Base.{
  ℕ, suc, ◌≡◌, ◌≢◌, refl, sym, ◌∙◌, ap, ◌⊎◌, inl, inr, Bool, true, false, List, [], ◌∷◌, ◌++◌,
  String, Option, none, some, arith, Bool-cases, Option-cases, eqb, string_eq, length, All,
}
use bsc_builder_proxyd.Json.{array, nil}
use bsc_builder_proxyd.Rpc.{
  RpcReq, RpcRes, rpc, new_rpc_error_res, new_rpc_res, err_parse_err, err_method_not_whitelisted,
}
use bsc_builder_proxyd.StringSet.{StringSet, has}
use bsc_builder_proxyd.Websocket.{
  Incoming, message, read_failed, Side, client, backend, Wires, Turn, is_data, close_message,
  prepare_client_msg, client_request, client_message, client_turn, client_pump,
}

pub record Written : Type 0 where
  pub side : Side
  pub msg_type : ℕ
  pub msg : String

-- Both connections as the list of what was written; the n-th write succeeds if `ok n`.
abbrev pub logged :
    (String → Option RpcReq)
    → (String → Option RpcRes)
    → (RpcRes → String)
    → (ℕ → Bool)
    → Wires (List Written)
logged parse_req parse_res marshal_res ok = record {
  parse_req = parse_req;
  parse_res = parse_res;
  marshal_res = marshal_res;
  write = λ l side t m. (l ++ record { side = side; msg_type = t; msg = m } ∷ [], ok (length l));
}

module _ (parse_req : String → Option RpcReq) (parse_res : String → Option RpcRes)
    (marshal_res : RpcRes → String) (ok : ℕ → Bool) (whitelist : StringSet) where
  abbrev wires : Wires (List Written)
  wires = logged parse_req parse_res marshal_res ok

  -- A control message, or a request for a method of the whitelist that the proxy does not answer, goes
  -- to the backend as it is; the client gets a response, of the type of its message.
  abbrev pub Sent : ℕ → String → Written → Type 0
  Sent t m w =
      (w.msg_type ≡ t)
      × (((w.side ≡ backend)
            × (w.msg ≡ m)
            × ((is_data t ≡ false)
                ⊎ ((req : RpcReq) × (parse_req m ≡ some req)
                    × (has whitelist req.method ≡ true)
                    × (req.method ≢ "eth_accounts"))))
          ⊎ ((w.side ≡ client) × (is_data t ≡ true) × ((res : RpcRes) × (w.msg ≡ marshal_res res))))

  -- The close message that stands for a failed reading.
  abbrev pub closes : String → Written
  closes closing = record { side = backend; msg_type = close_message; msg = closing }

  -- What was read of a message before its reading failed gets its write, or nothing more is written.
  abbrev pub SentPart : ℕ → String → (List Written → Type 0) → List Written → Type 0
  SentPart t m rest [] = Unit
  SentPart t m rest (w ∷ ws) = Sent t m w × rest ws

  abbrev pub SentAll : List Incoming → List Written → Type 0
  SentAll xs [] = Unit
  SentAll [] (w ∷ ws) = ⊥
  SentAll (message t m ∷ xs) (w ∷ ws) = Sent t m w × SentAll xs ws
  SentAll (read_failed none closing ∷ xs) (w ∷ ws) = (w ≡ closes closing) × (ws ≡ [])
  SentAll (read_failed (some (t, m)) closing ∷ xs) (w ∷ ws) =
      (w ≡ closes closing) × SentPart t m (SentAll xs) ws

  -- One turn writes once.
  abbrev pub Once : List Written → ℕ → String → Turn (List Written) → Type 0
  Once l t m r = (w : Written) × (r ≡ (l ++ w ∷ [], ok (length l))) × Sent t m w

  client_request-Once :
      (l : List Written) (t : ℕ) (m : String)
      → is_data t ≡ true
      → Once l t m (client_request wires whitelist l t m)
  unfolding client_request prepare_client_msg
  client_request-Once l t m d = elim (Option-cases (parse_req m)) [
    | inl x ↦ (
      record {
        side = client;
        msg_type = t;
        msg = marshal_res (new_rpc_error_res "" (rpc err_parse_err));
      },
      rw (x, client_request) refl,
      (refl, inr (refl, d, (_, refl))),
    )
    | inr (req, x) ↦ elim (Bool-cases (has whitelist req.method)) [
      | inr y ↦ (
        record {
          side = client;
          msg_type = t;
          msg = marshal_res (new_rpc_error_res req.id (rpc err_method_not_whitelisted));
        },
        rw (x, client_request) (rw (y, client_request) refl),
        (refl, inr (refl, d, (_, refl))),
      )
      | inl y ↦ elim (Bool-cases (eqb req.method "eth_accounts")) [
        | inl z ↦ (
          record {
            side = client;
            msg_type = t;
            msg = marshal_res (new_rpc_res req.id (array nil));
          },
          rw (x, client_request) (rw (y, client_request) (rw (z, client_request) refl)),
          (refl, inr (refl, d, (_, refl))),
        )
        | inr z ↦ (
          record { side = backend; msg_type = t; msg = m },
          rw (x, client_request) (rw (y, client_request) (rw (z, client_request) refl)),
          (
            refl,
            inl (
              refl,
              refl,
              inr (
                req,
                x,
                y,
                λ e. absurd (ground (arith, z, string_eq.beq_iff req.method "eth_accounts")),
              ),
            ),
          ),
        )
      ]
    ]
  ]

  pub client_message-Once :
      (l : List Written) (t : ℕ) (m : String) → Once l t m (client_message wires whitelist l t m)
  unfolding client_message
  client_message-Once l t m = elim (Bool-cases (is_data t)) [
    | inl x ↦
        let (w, e, sent) = client_request-Once l t m x in
        let same : client_message wires whitelist l t m ≡ client_request wires whitelist l t m =
          rw (x, client_message) refl in
        (w, same ∙ e, sent)
    | inr x ↦ (
      record { side = backend; msg_type = t; msg = m },
      rw (x, client_message) refl,
      (refl, inl (refl, refl, inl x)),
    )
  ]

  abbrev pub IsMessage : Incoming → Type 0
  IsMessage (message t m) = Unit
  IsMessage (read_failed part closing) = ⊥

  abbrev after : Turn (List Written) → List Incoming → List Written
  after r xs = elim r.1 [ true ↦ client_pump wires whitelist r.0 xs | false ↦ r.0 ]

  -- What the pump comes to on these messages.
  abbrev Ran : List Written → List Incoming → List Written → Type 0
  Ran l xs out =
      (ws : List Written) × (out ≡ l ++ ws)
      × SentAll xs ws
      × (((n : ℕ) → ok n ≡ true) → All IsMessage xs → length ws ≡ length xs)

  client_message-SentAll :
      (l : List Written) (t : ℕ) (m : String) (xs : List Incoming)
      → ((l2 : List Written) → Ran l2 xs (client_pump wires whitelist l2 xs))
      → (w : Written) × (ws : List Written) × (after (client_message wires whitelist l t m) xs
          ≡ l ++ w ∷ ws)
        × Sent t m w
        × SentAll xs ws
        × (((n : ℕ) → ok n ≡ true) → All IsMessage xs → length ws ≡ length xs)
  client_message-SentAll l t m xs rest =
      let (w, e, sent) = client_message-Once l t m in
      elim (Bool-cases (ok (length l))) [
        | inr bad ↦ (
          w,
          [],
          ap (λ r. after r xs) e ∙ rw bad refl,
          sent,
          tt,
          λ all ms. absurd (ground (arith, all (length l), bad)),
        )
        | inl good ↦
            let (ws, f, p, full) = rest (l ++ w ∷ []) in
            let next : after (l ++ w ∷ [], ok (length l)) xs
                ≡ client_pump wires whitelist (l ++ w ∷ []) xs =
              rw good refl in
            (w, ws, ap (λ r. after r xs) e ∙ next ∙ f ∙ append_assoc l (w ∷ []) ws, sent, p, full)
      ]

  client_turn-SentAll :
      (l : List Written) (good : Bool) (part : Option (ℕ × String)) (closing : String)
      (xs : List Incoming)
      → ((l2 : List Written) → Ran l2 xs (client_pump wires whitelist l2 xs))
      → let l1 = l ++ closes closing ∷ [] in
        Ran l (read_failed part closing ∷ xs) (
          after
            (elim good as (λ b. Turn (List Written)) [
              | false ↦ (l1, false)
              | true ↦ elim part as (λ o. Turn (List Written)) [
                | none ↦ (l1, false)
                | some q ↦ client_message wires whitelist l1 q.0 q.1
              ]
            ])
            xs)
  client_turn-SentAll l false none closing xs rest =
      (closes closing ∷ [], refl, (refl, refl), λ all ms. absurd ms.0)
  client_turn-SentAll l true none closing xs rest =
      (closes closing ∷ [], refl, (refl, refl), λ all ms. absurd ms.0)
  client_turn-SentAll l false (some (t, m)) closing xs rest =
      (closes closing ∷ [], refl, (refl, tt), λ all ms. absurd ms.0)
  client_turn-SentAll l true (some (t, m)) closing xs rest =
      let (w, ws, f, sent, p, full) =
        client_message-SentAll (l ++ closes closing ∷ []) t m xs rest in
      (
        closes closing ∷ w ∷ ws,
        f ∙ append_assoc l (closes closing ∷ []) (w ∷ ws),
        (refl, (sent, p)),
        λ all ms. absurd ms.0,
      )

  -- Whichever writes fail: what the pump writes is, one write for each message of a beginning of those
  -- that arrive and in their order: to the backend only control messages and, as they arrived, requests
  -- for a method of the whitelist other than eth_accounts; to the client responses to text and binary
  -- messages. A failed reading gives a close message to the backend; if a part of a message was read
  -- before, that part gets its write as a message does and the pump goes on, and otherwise the pump ends.
  -- Where no reading and no write fails, every message gets its write.
  pub client_pump-SentAll :
      (l : List Written) (xs : List Incoming)
      → (ws : List Written) × (client_pump wires whitelist l xs ≡ l ++ ws)
        × SentAll xs ws
        × (((n : ℕ) → ok n ≡ true) → All IsMessage xs → length ws ≡ length xs)
  unfolding client_pump client_turn
  client_pump-SentAll l [] = ([], sym (append-nil l), tt, λ all ms. refl)
  client_pump-SentAll l (read_failed part closing ∷ xs) =
      client_turn-SentAll l (ok (length l)) part closing xs (λ l2. client_pump-SentAll l2 xs)
  client_pump-SentAll l (message t m ∷ xs) =
      let (w, ws, f, sent, p, full) =
        client_message-SentAll l t m xs (λ l2. client_pump-SentAll l2 xs) in
      (w ∷ ws, f, (sent, p), λ all ms. ap suc (full all ms.1))
