-- ===== src/Tests/Senders.antt =====
-- A raw transaction for chain 56 against a limiter that lets one through for each key.
use bsc_builder_proxyd.Base.{
  ◌≡◌, refl, ◌⊎◌, Bool, [], ◌∷◌, String, Option, some, if◌then◌else◌, eqb, string_eq,
}
use bsc_builder_proxyd.Rpc.{RpcReq}
use bsc_builder_proxyd.Limiter.{
  MemoryFrontendRateLimiter, new_memory_frontend_rate_limit, memory_take,
}
use bsc_builder_proxyd.Server.{
  Tx, done, bad, TxCodec, rate_limit_sender, limit_tx, is_allowed_chain_id, one_of_ids,
  invalid_sender,
}
use bsc_builder_proxyd.Server.Senders.{Refused, Counted, rate_limit_sender_cases}

abbrev tx : Tx
tx = record { chain_id = 56; nonce = 3; payload = "" }

abbrev tx_codec : TxCodec
tx_codec = record {
  unmarshal_params = λ s. some (s ∷ []);
  unmarshal_text = λ s. if eqb s "0xf8" then done "f8" else bad "no hex";
  unmarshal_binary = λ s. done tx;
  sender = λ t. done "0xab";
  decimal = λ n. "3";
}

abbrev take_one : MemoryFrontendRateLimiter → String → MemoryFrontendRateLimiter × Option Bool
take_one m key = let (m', b) = memory_take m 60 key in (m', some b)

abbrev send_raw : RpcReq
send_raw = record { jsonrpc = "2.0"; method = "eth_sendRawTransaction"; params = "0xf8"; id = "1" }

other_chain :
    (rate_limit_sender tx_codec take_one (97 ∷ []) (new_memory_frontend_rate_limit 1) send_raw).1
    ≡ some invalid_sender
unfolding rate_limit_sender limit_tx is_allowed_chain_id one_of_ids
other_chain = refl

rate_limit_sender_cases_example :
    Refused tx_codec take_one
      (56 ∷ [])
      (new_memory_frontend_rate_limit 1)
      (rate_limit_sender tx_codec take_one (56 ∷ []) (new_memory_frontend_rate_limit 1) send_raw)
    ⊎ Counted tx_codec take_one
        (56 ∷ [])
        (new_memory_frontend_rate_limit 1)
        send_raw
        (rate_limit_sender tx_codec take_one (56 ∷ []) (new_memory_frontend_rate_limit 1) send_raw)
rate_limit_sender_cases_example =
    rate_limit_sender_cases tx_codec take_one (56 ∷ []) (new_memory_frontend_rate_limit 1) send_raw
