-- ===== src/Websocket.antt =====
-- backend.go: the two pumps of the `WSProxier`. A connection's messages come as a list of readings; the
-- writes go to a state `W` of both connections, and a write that fails ends the pump. The encoding
-- of a response, of an error's text and of a close message are parameters.
pub mod Whitelist
pub mod Dial
pub mod Dialed
pub mod Session
pub mod Guarded
use bsc_builder_proxyd.Base.{
  ℕ, Bool, true, false, not, ◌||◌, List, [], ◌∷◌, String, Option, none, some, if◌then◌else◌, ◌==◌,
  eqb, string_eq,
}
use bsc_builder_proxyd.Json.{array, nil}
use bsc_builder_proxyd.Rpc.{
  RpcReq, RpcRes, RpcErr, rpc, new_rpc_error_res, new_rpc_res, err_parse_err,
  err_method_not_whitelisted, err_backend_bad_response,
}
use bsc_builder_proxyd.StringSet.{StringSet, has}

-- A message with its type, or an error with the close message that stands for it. An error in the
-- middle of a message comes with the type of the message and what was read of it.
pub data Incoming : Type 0 where
  message : ℕ → String → Incoming
  read_failed : Option (ℕ × String) → String → Incoming

pub data Side : Type 0 where
  client : Side
  backend : Side

pub record Wires (W : Type 0) : Type 0 where
  pub parse_req : String → Option RpcReq
  pub parse_res : String → Option RpcRes
  pub marshal_res : RpcRes → String
  pub write : W → Side → ℕ → String → W × Bool

-- RFC 6455: text is 1, binary is 2, close is 8. Without a message the type is -1, which no write takes.
unfoldable pub is_data : ℕ → Bool
is_data msg_type = msg_type == 1 || msg_type == 2

abbrev pub close_message : ℕ
close_message = 8

-- What a request from the client comes to: the backend gets it, or the client an answer.
pub data Prepared : Type 0 where
  pass : RpcReq → Prepared
  reject : String → RpcErr → Prepared

unfoldable pub prepare_client_msg : (String → Option RpcReq) → StringSet → String → Prepared
prepare_client_msg parse whitelist msg = elim (parse msg) [
  | none ↦ reject "" err_parse_err
  | some req ↦
      if has whitelist req.method then pass req else reject req.id err_method_not_whitelisted
]

-- A write and whether the pump goes on.
abbrev pub Turn : Type 0 → Type 0
Turn W = W × Bool

module _ {W : Type 0} (wires : Wires W) (whitelist : StringSet) where
  unfoldable pub client_request : W → ℕ → String → Turn W
  client_request w msg_type msg = elim (prepare_client_msg wires.parse_req whitelist msg) [
    | reject id e ↦ wires.write w client msg_type (wires.marshal_res (new_rpc_error_res id (rpc e)))
    | pass req ↦
        if eqb req.method "eth_accounts"
        then wires.write w client msg_type (wires.marshal_res (new_rpc_res req.id (array nil)))
        else wires.write w backend msg_type msg
  ]

  unfoldable pub client_message : W → ℕ → String → Turn W
  client_message w msg_type msg =
      if is_data msg_type then client_request w msg_type msg else wires.write w backend msg_type msg

  -- After a failed reading the turn goes on with what was read, if the close message was written.
  unfoldable pub client_turn : W → Incoming → Turn W
  client_turn w (message msg_type msg) = client_message w msg_type msg
  client_turn w (read_failed part closing) =
      let (w', alive) = wires.write w backend close_message closing in
      elim alive [
        | false ↦ (w', false)
        | true ↦ elim part [ none ↦ (w', false) | some (t, m) ↦ client_message w' t m ]
      ]

  unfoldable pub client_pump : W → List Incoming → W
  client_pump w [] = w
  client_pump w (x ∷ xs) =
      let (w', alive) = client_turn w x in elim alive [ true ↦ client_pump w' xs | false ↦ w' ]

  -- A text that is no response is replaced by an error.
  unfoldable pub backend_reply : String → String
  backend_reply msg = elim (wires.parse_res msg) [
    | none ↦ wires.marshal_res (new_rpc_error_res "" (rpc err_backend_bad_response))
    | some res ↦ msg
  ]

  unfoldable pub backend_message : W → ℕ → String → Turn W
  backend_message w msg_type msg =
      wires.write w client msg_type (if is_data msg_type then backend_reply msg else msg)

  unfoldable pub backend_turn : W → Incoming → Turn W
  backend_turn w (message msg_type msg) = backend_message w msg_type msg
  backend_turn w (read_failed part closing) =
      let (w', alive) = wires.write w client close_message closing in
      elim alive [
        | false ↦ (w', false)
        | true ↦ elim part [ none ↦ (w', false) | some (t, m) ↦ backend_message w' t m ]
      ]

  unfoldable pub backend_pump : W → List Incoming → W
  backend_pump w [] = w
  backend_pump w (x ∷ xs) =
      let (w', alive) = backend_turn w x in elim alive [ true ↦ backend_pump w' xs | false ↦ w' ]
