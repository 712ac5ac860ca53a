-- ===== src/Websocket/Dial.antt =====
-- server.go, `HandleWS`, and backend.go, `ProxyWS` of a group and of a backend. Upgrading a connection and
-- dialing a backend, by gorilla/websocket, are parameters: whether the upgrade succeeds, and whether the
-- i-th attempt at an address does.
use bsc_builder_proxyd.Base.{
  ℤ, ℕ, suc, ◌*◌, Bool, not, List, [], ◌∷◌, String, Option, none, some, if◌then◌else◌,
}
use bsc_builder_proxyd.Window.{second}
use bsc_builder_proxyd.Backend.{Backend}
use bsc_builder_proxyd.StringSet.{StringSet}
use bsc_builder_proxyd.Server.Access.{HttpRequest, RequestContext, populate_context}
use bsc_builder_proxyd.Start.Serving.{ProxyServer}

-- `WSProxier` without its two connections.
pub record WsProxier : Type 0 where
  pub backend : Backend
  pub method_whitelist : StringSet
  pub read_timeout : ℕ
  pub write_timeout : ℕ

unfoldable pub new_ws_proxier : Backend → StringSet → WsProxier
new_ws_proxier backend method_whitelist = record {
  backend = backend;
  method_whitelist = method_whitelist;
  read_timeout = 120 * second;
  write_timeout = 10 * second;
}

-- `none` is the wrapped error of the dialer.
unfoldable pub backend_proxy_ws : Bool → Backend → StringSet → Option WsProxier
backend_proxy_ws dialed b method_whitelist =
    if dialed then some (new_ws_proxier b method_whitelist) else none

-- The loop goes on after every error; `none` is ErrNoBackends.
unfoldable pub group_proxy_ws :
    (ℕ → String → Bool) → ℕ → List Backend → StringSet → Option WsProxier
group_proxy_ws dial i [] method_whitelist = none
group_proxy_ws dial i (b ∷ bs) method_whitelist =
    elim (backend_proxy_ws (dial i b.ws_url) b method_whitelist) [
      | none ↦ group_proxy_ws dial (suc i) bs method_whitelist
      | some p ↦ some p
    ]

-- What becomes of a connection: the status 401, no upgrade, a call through a nil group, a closed
-- connection, or a proxier in a goroutine, with the limit on what is read from the client.
pub data WsOutcome : Type 0 where
  unauthorized : WsOutcome
  not_upgraded : WsOutcome
  panicked : WsOutcome
  closed : WsOutcome
  proxying : RequestContext → ℤ → WsProxier → WsOutcome

unfoldable pub handle_ws : Bool → (ℕ → String → Bool) → ProxyServer → HttpRequest → WsOutcome
handle_ws upgrades dial s r =
    elim (populate_context s.limits.rate_limit_header s.authenticated_paths r) [
      | none ↦ unauthorized
      | some ctx ↦ if not upgrades then not_upgraded else elim s.ws_backend_group [
        | none ↦ panicked
        | some g ↦ elim (group_proxy_ws dial 0 g.group.backends s.ws_method_whitelist) [
          | none ↦ closed
          | some p ↦ proxying ctx s.max_body_size p
        ]
      ]
    ]
