-- ===== src/Tests/Connections.antt =====
-- A websocket connection to a started proxy, with one request that it passes on and one that it answers.
use bsc_builder_proxyd.Base.{
  ℤ, ℕ, ◌≡◌, refl, Bool, true, false, List, [], ◌∷◌, String, Option, none, some, string_eq, All,
  lookup, insert,
}
use bsc_builder_proxyd.Rpc.{RpcReq, RpcRes}
use bsc_builder_proxyd.Server.{first_non_empty}
use bsc_builder_proxyd.Server.Access.{RequestContext, populate_context, forwarded_for, split}
use bsc_builder_proxyd.Config.{read_from_env_or_config, validate_routing_strategy, known_strategy}
use bsc_builder_proxyd.Start.{
  from_env, check_config, check_sender_limit, connect_redis, connect_redis_read,
}
use bsc_builder_proxyd.Start.Backends.{
  make_backends, make_backend, validate_receipts_target, basic_auth, read_headers,
  configure_backend_tls,
}
use bsc_builder_proxyd.Start.Groups.{
  make_groups, make_group, add_members, mark, times_listed, find_ws_group, check_mappings,
}
use bsc_builder_proxyd.Start.Serving.{new_server, resolve_auth, compile_limits}
use bsc_builder_proxyd.Start.Pollers.{
  start_groups, start_group, make_poller, check_fallbacks, share_tracker,
}
use bsc_builder_proxyd.Start.Run.{start, connect, lay_out, serve}
use bsc_builder_proxyd.Websocket.{message}
use bsc_builder_proxyd.Websocket.Dial.{
  WsProxier, WsOutcome, unauthorized, not_upgraded, panicked, closed, proxying, handle_ws,
  group_proxy_ws, backend_proxy_ws,
}
use bsc_builder_proxyd.Websocket.Dialed.{Handled, handle_ws-Handled}
use bsc_builder_proxyd.Websocket.Whitelist.{Written, logged}
use bsc_builder_proxyd.Websocket.Session.{
  Session, Proxied, proxy, then_turn, from_client, proxy_start,
}
use bsc_builder_proxyd.Websocket.Guarded.{Guarded, handle_ws-Guarded}
use bsc_builder_proxyd.Tests.Starts.{env, config, backwards, started, start_runs, visitor, no_truth}

abbrev answers : ℕ → String → Bool
answers i url = true

listens : started.serves_ws ≡ true
unfolding start check_config connect connect_redis connect_redis_read check_sender_limit lay_out
    make_backends make_backend from_env read_from_env_or_config basic_auth read_headers
    configure_backend_tls validate_receipts_target make_groups make_group add_members mark
    times_listed find_ws_group check_mappings serve resolve_auth new_server compile_limits
    start_groups start_group validate_routing_strategy known_strategy make_poller check_fallbacks
    share_tracker lookup insert
listens = refl

handle_ws-Handled_example :
    Handled config true answers started.server visitor
      (handle_ws true answers started.server visitor)
handle_ws-Handled_example =
    handle_ws-Handled env backwards config started true answers visitor start_runs listens

abbrev is_proxying : WsOutcome → Bool
is_proxying unauthorized = false
is_proxying not_upgraded = false
is_proxying panicked = false
is_proxying closed = false
is_proxying (proxying ctx limit p) = true

abbrev proxied_by :
    (o : WsOutcome)
    → is_proxying o ≡ true
    → (ctx : RequestContext) × (limit : ℤ) × (p : WsProxier) × (o ≡ proxying ctx limit p)
proxied_by unauthorized h = absurd (no_truth h)
proxied_by not_upgraded h = absurd (no_truth h)
proxied_by panicked h = absurd (no_truth h)
proxied_by closed h = absurd (no_truth h)
proxied_by (proxying ctx limit p) h = (ctx, limit, p, refl)

passes : is_proxying (handle_ws true answers started.server visitor) ≡ true
unfolding start check_config connect connect_redis connect_redis_read check_sender_limit lay_out
    make_backends make_backend from_env read_from_env_or_config basic_auth read_headers
    configure_backend_tls validate_receipts_target make_groups make_group add_members mark
    times_listed find_ws_group check_mappings serve resolve_auth new_server compile_limits
    start_groups start_group validate_routing_strategy known_strategy make_poller check_fallbacks
    share_tracker lookup insert handle_ws populate_context forwarded_for split first_non_empty
    group_proxy_ws backend_proxy_ws
passes = refl

abbrev passed :
    (ctx : RequestContext) × (limit : ℤ) × (p : WsProxier) × (handle_ws true answers started.server
        visitor
      ≡ proxying ctx limit p)
passed = proxied_by (handle_ws true answers started.server visitor) passes

-- The text of a request is its method; no text is a response.
abbrev parse : String → Option RpcReq
parse s = some (record { jsonrpc = "2.0"; method = s; params = "[]"; id = "1" })

abbrev no_response : String → Option RpcRes
no_response s = none

abbrev marshal : RpcRes → String
marshal r = "response"

abbrev takes : ℕ → Bool
takes n = true

one_message :
    (t : Session (List Written)) × Proxied
      (logged parse no_response marshal takes)
      passed.2.method_whitelist
      []
      t
unfolding proxy_start
one_message = (_, then_turn proxy (from_client (message 1 "eth_call") refl))

handle_ws-Guarded_example :
    All (Guarded parse no_response marshal takes ("eth_call" ∷ [])) one_message.0.conns
handle_ws-Guarded_example =
    handle_ws-Guarded parse no_response marshal takes env backwards config started true answers
      visitor passed.0 passed.1 passed.2 start_runs listens passed.3 one_message.1
