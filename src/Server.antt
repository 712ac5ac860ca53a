-- ===== src/Server.antt =====
-- server.go: who is exempt from the limits and the limit on the senders of transactions. The decoding
-- of a transaction and of its sender, by go-ethereum, is the parameter `TxCodec`.
pub mod Senders
pub mod Batch
pub mod Access
pub mod Exempt
pub mod Minibatches
pub mod Slots
pub mod Distinct
pub mod Served
pub mod Classified
pub mod Separate
pub mod Gathered
pub mod Asked
pub mod Replies
pub mod Honest
pub mod Handle
pub mod Outcomes
use Prim.Native.String as Text
use bsc_builder_proxyd.Base.{
  ℕ, Bool, true, false, ◌||◌, List, [], ◌∷◌, String, Option, none, some, if◌then◌else◌, eqb,
  string_eq, ◌==◌, is_empty, lookup,
}
use bsc_builder_proxyd.Rpc.{
  RpcReq, RpcErr, err_parse_err, err_invalid_params, err_internal, err_over_sender_rate_limit,
}

pub record Tx : Type 0 where
  pub chain_id : ℕ
  pub nonce : ℕ
  pub payload : String

-- A result of go-ethereum, or the message of its error.
pub data Decoded (A : Type 0) : Type 0 where
  done : A → Decoded A
  bad : String → Decoded A

pub record TxCodec : Type 0 where
  pub unmarshal_params : String → Option (List String)
  pub unmarshal_text : String → Decoded String
  pub unmarshal_binary : String → Decoded Tx
  pub sender : Tx → Decoded String
  pub decimal : ℕ → String

-- An RPC error, or go-ethereum's `txpool.ErrInvalidSender`.
pub data SenderError : Type 0 where
  rpc_error : RpcErr → SenderError
  invalid_sender : SenderError

-- With no chain listed every chain is allowed.
unfoldable pub one_of_ids : ℕ → List ℕ → Bool
one_of_ids chain_id [] = false
one_of_ids chain_id (i ∷ ids) = chain_id == i || one_of_ids chain_id ids

unfoldable pub is_allowed_chain_id : List ℕ → ℕ → Bool
is_allowed_chain_id allowed chain_id =
    if is_empty allowed then true else one_of_ids chain_id allowed

abbrev pub invalid : String → Option SenderError
invalid message = some (rpc_error (err_invalid_params message))

abbrev pub of_take : Option Bool → Option SenderError
of_take none = some (rpc_error err_internal)
of_take (some true) = none
of_take (some false) = some (rpc_error err_over_sender_rate_limit)

unfoldable pub sender_key : TxCodec → String → Tx → String
sender_key codec from tx = Text.◌++◌ from (Text.◌++◌ ":" (codec.decimal tx.nonce))

module _ {L : Type 0} (codec : TxCodec) (take : L → String → L × Option Bool)
    (allowed : List ℕ) where
  unfoldable pub limit_tx : L → Tx → L × Option SenderError
  limit_tx l tx =
      if is_allowed_chain_id allowed tx.chain_id
      then elim (codec.sender tx) [
        | bad message ↦ (l, invalid message)
        | done from ↦ let (l', answer) = take l (sender_key codec from tx) in (l', of_take answer)
      ]
      else (l, some invalid_sender)

  abbrev pub limit_decoded : L → Decoded Tx → L × Option SenderError
  limit_decoded l (bad message) = (l, invalid message)
  limit_decoded l (done tx) = limit_tx l tx

  abbrev pub limit_text : L → Decoded String → L × Option SenderError
  limit_text l (bad message) = (l, invalid message)
  limit_text l (done bytes) = limit_decoded l (codec.unmarshal_binary bytes)

  abbrev pub limit_params : L → Option (List String) → L × Option SenderError
  limit_params l none = (l, some (rpc_error err_parse_err))
  limit_params l (some []) = (l, invalid "missing value for required argument 0")
  limit_params l (some (p ∷ [])) = limit_text l (codec.unmarshal_text p)
  limit_params l (some (p ∷ q ∷ ps)) = (l, invalid "missing value for required argument 0")

  -- `none` lets the request through.
  unfoldable pub rate_limit_sender : L → RpcReq → L × Option SenderError
  rate_limit_sender l req = limit_params l (codec.unmarshal_params req.params)

-- The mapping of an origin, or the server's own.
unfoldable pub get_rpc_method_mappings : {M : Type 0} → List (String × M) → M → String → M
get_rpc_method_mappings domains mappings origin =
    if eqb origin ""
    then mappings
    else elim (lookup origin domains) [ none ↦ mappings | some m ↦ m ]

-- A pattern is what its `MatchString` says.
unfoldable pub matches_some : List (String → Bool) → String → Bool
matches_some [] s = false
matches_some (pat ∷ pats) s = if pat s then true else matches_some pats s

unfoldable pub first_non_empty : List String → String
first_non_empty [] = ""
first_non_empty (v ∷ vs) = if eqb v "" then first_non_empty vs else v
