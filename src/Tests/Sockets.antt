-- ===== src/Tests/Sockets.antt =====
-- A client that sends a request of the whitelist and one that is not in it.
use bsc_builder_proxyd.Base.{
  ℕ, ◌≡◌, refl, true, List, [], ◌∷◌, ◌++◌, String, Option, none, some, string_eq, All, length,
}
use bsc_builder_proxyd.Rpc.{RpcReq, RpcRes}
use bsc_builder_proxyd.StringSet.{
  StringSet, new_string_set_from_strings, new_string_set, add, add_entry, has, has_entry,
}
use bsc_builder_proxyd.Websocket.{
  Incoming, message, client, backend, client_pump, client_turn, client_message, client_request,
  prepare_client_msg, is_data,
}
use bsc_builder_proxyd.Websocket.Whitelist.{
  Written, logged, SentAll, IsMessage, client_pump-SentAll,
}

abbrev whitelist : StringSet
unfolding new_string_set_from_strings new_string_set add add_entry
whitelist = new_string_set_from_strings ("m" ∷ "n" ∷ "m" ∷ [])

-- The text of a request is its method.
abbrev parse : String → Option RpcReq
parse s = some (record { jsonrpc = "2.0"; method = s; params = "[]"; id = "1" })

abbrev marshal : RpcRes → String
marshal r = "response"

abbrev sent : List Incoming
sent = message 1 "m" ∷ message 1 "x" ∷ message 9 "ping" ∷ []

both_ways :
    client_pump (logged parse (λ s. none) marshal (λ n. true)) whitelist [] sent
    ≡ record { side = backend; msg_type = 1; msg = "m" }
      ∷ record { side = client; msg_type = 1; msg = "response" }
      ∷ record { side = backend; msg_type = 9; msg = "ping" }
      ∷ []
unfolding client_pump client_turn client_message client_request prepare_client_msg is_data has
    has_entry whitelist
both_ways = refl

client_pump-SentAll_example :
    (ws : List Written) × (client_pump
        (logged parse (λ s. none) marshal (λ n. true))
        whitelist
        []
        sent
      ≡ [] ++ ws)
    × SentAll parse (λ s. none) marshal (λ n. true) whitelist sent ws
    × (((n : ℕ) → true ≡ true)
        → All (IsMessage parse (λ s. none) marshal (λ n. true) whitelist) sent
        → length ws ≡ length sent)
client_pump-SentAll_example =
    client_pump-SentAll parse (λ s. none) marshal (λ n. true) whitelist [] sent
