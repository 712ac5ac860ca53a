-- ===== src/Websocket/Guarded.antt =====
-- backend.go with server.go and proxyd.go: what the two pumps of a proxied connection write, one beside the
-- other.
use bsc_builder_proxyd.Base.{
  ℤ, ℕ, Bool, true, false, Option, none, some, ◌++◌, ◌∷◌, length, All-snoc, if◌then◌else◌, ℕ, ◌≡◌,
  ◌≢◌, refl, sym, ap, ◌∙◌, subst, ◌⊎◌, inl, inr, Bool, true, false, List, [], String, Option, some,
  All, Any, string_eq, Bool-cases, Option-cases,
}
use bsc_builder_proxyd.Rpc.{RpcReq, RpcRes, rpc, new_rpc_error_res, err_backend_bad_response}
use bsc_builder_proxyd.StringSet.{new_string_set_from_strings}
use bsc_builder_proxyd.StringSet.Listed.{has-listed}
use bsc_builder_proxyd.Websocket.{
  client_message, backend_message, Turn, Side, close_message, Incoming, message, read_failed,
  client, backend, Wires, is_data, client_turn, backend_turn, backend_reply,
}
use bsc_builder_proxyd.Websocket.Whitelist.{Written, logged, Sent, client_message-Once}
use bsc_builder_proxyd.Websocket.Dial.{WsProxier, proxying, handle_ws}
use bsc_builder_proxyd.Websocket.Dialed.{Handled, handle_ws-Handled}
use bsc_builder_proxyd.Websocket.Session.{
  Session, PumpStep, from_client, from_backend, close, proxy_start, Proxied, proxy, then_turn,
}
use bsc_builder_proxyd.Server.Access.{HttpRequest, RequestContext}
use bsc_builder_proxyd.Config.{Config}
use bsc_builder_proxyd.Start
use bsc_builder_proxyd.Start.{Env}
use bsc_builder_proxyd.Start.Run.{start, Started, Regroup}

module _ (parse_req : String → Option RpcReq) (parse_res : String → Option RpcRes)
    (marshal_res : RpcRes → String) (ok : ℕ → Bool) where
  -- A control message; or a request for a method of the list, but for eth_accounts, to the backend; or a
  -- response to the client.
  abbrev pub Guarded : List String → Written → Type 0
  Guarded methods w =
      (is_data w.msg_type ≡ false)
      ⊎ ((w.side ≡ backend)
          × ((req : RpcReq) × (parse_req w.msg ≡ some req)
              × Any (λ m. m ≡ req.method) methods
              × (req.method ≢ "eth_accounts")))
      ⊎ ((w.side ≡ client)
          × (((res : RpcRes) × (parse_res w.msg ≡ some res))
              ⊎ ((res : RpcRes) × (w.msg ≡ marshal_res res))))

  abbrev wires : Wires (List Written)
  wires = logged parse_req parse_res marshal_res ok

  Sent-Guarded :
      (methods : List String) (t : ℕ) (m : String) (w : Written)
      → Sent parse_req parse_res marshal_res ok (new_string_set_from_strings methods) t m w
      → Guarded methods w
  Sent-Guarded methods t m w (e, inl (b, f, inl c)) = inl (ap is_data e ∙ c)
  Sent-Guarded methods t m w (e, inl (b, f, inr (req, p, h, n))) =
      inr (inl (b, (req, ap parse_req f ∙ p, has-listed methods req.method h, n)))
  Sent-Guarded methods t m w (e, inr (c, d, (res, f))) = inr (inr (c, inr (res, f)))

  client_message-Guarded :
      (methods : List String) (l : List Written) (t : ℕ) (m : String)
      → All (Guarded methods) l
      → All (Guarded methods) (client_message wires (new_string_set_from_strings methods) l t m).0
  client_message-Guarded methods l t m h =
      let (w, e, sent) =
        client_message-Once parse_req parse_res marshal_res ok (new_string_set_from_strings methods)
          l t m in
      subst (λ r. All (Guarded methods) r.0) (sym e)
        (All-snoc _ l w h (Sent-Guarded methods t m w sent))

  -- The close message for a failed reading, and what the turn goes on with.
  closed-Guarded :
      (methods : List String) (l : List Written) (side : Side) (closing : String) (good : Bool)
      (part : Option (ℕ × String)) (next : List Written → ℕ → String → Turn (List Written))
      → ((l2 : List Written) (t : ℕ) (m : String)
          → All (Guarded methods) l2
          → All (Guarded methods) (next l2 t m).0)
      → All (Guarded methods) l
      → let l1 = l ++ record { side = side; msg_type = close_message; msg = closing } ∷ [] in
        All
          (Guarded methods)
          (elim good as (λ b. Turn (List Written)) [
            | false ↦ (l1, false)
            | true ↦ elim part as (λ o. Turn (List Written)) [
              | none ↦ (l1, false)
              | some q ↦ next l1 q.0 q.1
            ]
          ]).0
  unfolding is_data
  closed-Guarded methods l side closing false part next keeps h = All-snoc _ l _ h (inl refl)
  closed-Guarded methods l side closing true none next keeps h = All-snoc _ l _ h (inl refl)
  closed-Guarded methods l side closing true (some q) next keeps h =
      keeps _ q.0 q.1 (All-snoc _ l _ h (inl refl))

  client_turn-Guarded :
      (methods : List String) (l : List Written) (x : Incoming)
      → All (Guarded methods) l
      → All (Guarded methods) (client_turn wires (new_string_set_from_strings methods) l x).0
  unfolding client_turn
  client_turn-Guarded methods l (message t m) h = client_message-Guarded methods l t m h
  client_turn-Guarded methods l (read_failed part closing) h =
      closed-Guarded methods l backend closing (ok (length l)) part
        (client_message wires (new_string_set_from_strings methods))
        (client_message-Guarded methods) h

  backend_reply-Guarded :
      (methods : List String) (t : ℕ) (m : String)
      → Guarded methods (record {
        side = client;
        msg_type = t;
        msg = if is_data t then backend_reply wires (new_string_set_from_strings methods) m else m;
      })
  unfolding backend_reply
  backend_reply-Guarded methods t m = elim (Bool-cases (is_data t)) [
    | inr x ↦ inl x
    | inl x ↦ elim (Option-cases (parse_res m)) [
      | inl y ↦ inr (
          inr (
            refl,
            inr (
              new_rpc_error_res "" (rpc err_backend_bad_response),
              rw x (rw (y, backend_reply) refl),
            ),
          ))
      | inr (res, y) ↦ inr (inr (refl, inl (res, rw x (rw (y, backend_reply) y))))
    ]
  ]

  backend_message-Guarded :
      (methods : List String) (l : List Written) (t : ℕ) (m : String)
      → All (Guarded methods) l
      → All (Guarded methods) (backend_message wires (new_string_set_from_strings methods) l t m).0
  unfolding backend_message
  backend_message-Guarded methods l t m h = All-snoc _ l _ h (backend_reply-Guarded methods t m)

  backend_turn-Guarded :
      (methods : List String) (l : List Written) (x : Incoming)
      → All (Guarded methods) l
      → All (Guarded methods) (backend_turn wires (new_string_set_from_strings methods) l x).0
  unfolding backend_turn
  backend_turn-Guarded methods l (message t m) h = backend_message-Guarded methods l t m h
  backend_turn-Guarded methods l (read_failed part closing) h =
      closed-Guarded methods l client closing (ok (length l)) part
        (backend_message wires (new_string_set_from_strings methods))
        (backend_message-Guarded methods) h

  PumpStep-Guarded :
      (methods : List String) {s t : Session (List Written)}
      → PumpStep wires (new_string_set_from_strings methods) s t
      → All (Guarded methods) s.conns
      → All (Guarded methods) t.conns
  PumpStep-Guarded methods (from_client {s} x runs) h = client_turn-Guarded methods s.conns x h
  PumpStep-Guarded methods (from_backend {s} x runs) h = backend_turn-Guarded methods s.conns x h
  PumpStep-Guarded methods (close {s} over unclosed) h = h

  Proxied-Guarded :
      (methods : List String) {s : Session (List Written)}
      → Proxied wires (new_string_set_from_strings methods) [] s
      → All (Guarded methods) s.conns
  unfolding proxy_start
  Proxied-Guarded methods proxy = tt
  Proxied-Guarded methods (then_turn p st) = PumpStep-Guarded methods st (Proxied-Guarded methods p)

  -- Whatever a started proxy that listens for websockets writes to the two connections of a client that it
  -- passes on, however the two pumps take turns and whichever writes fail, is a control message; or, to the
  -- backend, a request for a method that the configuration lists in ws_method_whitelist, eth_accounts
  -- excepted; or, to the client, a text that reads as a response or is made from one.
  pub handle_ws-Guarded :
      (env : Env) (range : Regroup) (cfg : Config) (s : Started) (upgrades : Bool)
      (dial : ℕ → String → Bool) (r : HttpRequest) (ctx : RequestContext) (limit : ℤ)
      (p : WsProxier) {t : Session (List Written)}
      → start env range cfg ≡ Start.ok s
      → s.serves_ws ≡ true
      → handle_ws upgrades dial s.server r ≡ proxying ctx limit p
      → Proxied wires p.method_whitelist [] t
      → All (Guarded cfg.ws_method_whitelist) t.conns
  handle_ws-Guarded env range cfg s upgrades dial r ctx limit p {t} started serves passed proxied =
      let h = handle_ws-Handled env range cfg s upgrades dial r started serves in
      let whitelist = (subst (Handled cfg upgrades dial s.server r) passed h).2 in
      Proxied-Guarded cfg.ws_method_whitelist (subst (λ w. Proxied wires w [] t) whitelist proxied)
