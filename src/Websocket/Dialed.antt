-- ===== src/Websocket/Dialed.antt =====
-- server.go with backend.go and proxyd.go: which connections a started proxy passes on, and where to.
use bsc_builder_proxyd.Base.{
  ℤ, ℕ, suc, ◌≡◌, refl, sym, ◌∙◌, subst, ◌⊎◌, inl, inr, Bool, true, false, List, [], ◌∷◌, String,
  Option, none, some, arith, is_some, Bool-cases, Option-cases,
}
use bsc_builder_proxyd.Backend.{Backend}
use bsc_builder_proxyd.StringSet.{StringSet, new_string_set_from_strings}
use bsc_builder_proxyd.Server.Access.{HttpRequest, RequestContext, populate_context}
use bsc_builder_proxyd.Config.{Config}
use bsc_builder_proxyd.Start.{ok, Env}
use bsc_builder_proxyd.Start.Groups.{StartedGroup}
use bsc_builder_proxyd.Start.Serving.{ProxyServer}
use bsc_builder_proxyd.Start.Run.{start, Started, Regroup}
use bsc_builder_proxyd.Start.Steps.{start-Steps}
use bsc_builder_proxyd.Start.Routable.{serve-Taken, start-IsRoutable}
use bsc_builder_proxyd.Websocket.Dial.{
  WsProxier, new_ws_proxier, backend_proxy_ws, group_proxy_ws, WsOutcome, unauthorized,
  not_upgraded, panicked, closed, proxying, handle_ws,
}

-- The backend is dialed after those before it have failed.
abbrev pub Dials : (ℕ → String → Bool) → ℕ → List Backend → Backend → Type 0
Dials dial i [] be = ⊥
Dials dial i (b ∷ bs) be =
    ((dial i b.ws_url ≡ true) × (b ≡ be)) ⊎ ((dial i b.ws_url ≡ false) × Dials dial (suc i) bs be)

abbrev pub AllFail : (ℕ → String → Bool) → ℕ → List Backend → Type 0
AllFail dial i [] = Unit
AllFail dial i (b ∷ bs) = (dial i b.ws_url ≡ false) × AllFail dial (suc i) bs

-- What an outcome says of the configuration, of the server and of the request.
abbrev pub Handled :
    Config → Bool → (ℕ → String → Bool) → ProxyServer → HttpRequest → WsOutcome → Type 0
Handled cfg upgrades dial s r unauthorized =
    populate_context s.limits.rate_limit_header s.authenticated_paths r ≡ none
Handled cfg upgrades dial s r not_upgraded = upgrades ≡ false
Handled cfg upgrades dial s r panicked = ⊥
Handled cfg upgrades dial s r closed =
    (g : StartedGroup) × (s.ws_backend_group ≡ some g) × AllFail dial 0 g.group.backends
Handled cfg upgrades dial s r (proxying ctx limit p) =
    (populate_context s.limits.rate_limit_header s.authenticated_paths r ≡ some ctx)
    × (limit ≡ s.max_body_size)
    × (p.method_whitelist ≡ new_string_set_from_strings cfg.ws_method_whitelist)
    × ((g : StartedGroup) × (s.ws_backend_group ≡ some g) × Dials dial 0 g.group.backends p.backend)

-- What comes of dialing the backends from the i-th attempt on.
Found : (ℕ → String → Bool) → ℕ → List Backend → StringSet → Option WsProxier → Type 0
Found dial i bs w none = AllFail dial i bs
Found dial i bs w (some p) = (p.method_whitelist ≡ w) × Dials dial i bs p.backend

Found-later :
    (dial : ℕ → String → Bool) (i : ℕ) (b : Backend) (bs : List Backend) (w : StringSet)
    (o : Option WsProxier)
    → dial i b.ws_url ≡ false
    → Found dial (suc i) bs w o
    → Found dial i (b ∷ bs) w o
unfolding Found
Found-later dial i b bs w none e h = (e, h)
Found-later dial i b bs w (some p) e (h, d) = (h, inr (e, d))

group_proxy_ws-Found :
    (dial : ℕ → String → Bool) (i : ℕ) (bs : List Backend) (w : StringSet)
    → Found dial i bs w (group_proxy_ws dial i bs w)
unfolding group_proxy_ws backend_proxy_ws new_ws_proxier
group_proxy_ws-Found dial i [] w = unfold Found in tt
group_proxy_ws-Found dial i (b ∷ bs) w = elim (Bool-cases (dial i b.ws_url)) [
  | inl x ↦ rw (x, group_proxy_ws) (unfold Found in (refl, inl (x, refl)))
  | inr x ↦
      rw (x, group_proxy_ws)
        (Found-later dial i b bs w _ x (group_proxy_ws-Found dial (suc i) bs w))
]

some_group : {A : Type 0} (o : Option A) → is_some o ≡ true → (a : A) × (o ≡ some a)
some_group none h = absurd (cc)
some_group (some a) h = (a, refl)

dialed_outcome : RequestContext → ℤ → Option WsProxier → WsOutcome
dialed_outcome ctx limit none = closed
dialed_outcome ctx limit (some p) = proxying ctx limit p

handle_ws_dials :
    (upgrades : Bool) (dial : ℕ → String → Bool) (s : ProxyServer) (r : HttpRequest)
    (ctx : RequestContext) (g : StartedGroup)
    → populate_context s.limits.rate_limit_header s.authenticated_paths r ≡ some ctx
    → upgrades ≡ true
    → s.ws_backend_group ≡ some g
    → handle_ws upgrades dial s r
      ≡ dialed_outcome ctx s.max_body_size
          (group_proxy_ws dial 0 g.group.backends s.ws_method_whitelist)
unfolding handle_ws dialed_outcome
handle_ws_dials upgrades dial s r ctx g c x e =
    elim (Option-cases (group_proxy_ws dial 0 g.group.backends s.ws_method_whitelist)) [
      | inl y ↦ ground (arith, c, x, e, y)
      | inr (p, y) ↦ ground (arith, c, x, e, y)
    ]

-- Once a proxy that listens for websockets has started: a connection is passed on only with the context of a
-- request that may enter, under the whitelist of the configuration and the limit on its size, to a
-- backend of the group for websockets that could be dialed after all those before it could not; it is closed only
-- if none of them could be dialed, refused only without a context or an upgrade, and no call goes through
-- a nil group.
pub handle_ws-Handled :
    (env : Env) (range : Regroup) (cfg : Config) (s : Started) (upgrades : Bool)
    (dial : ℕ → String → Bool) (r : HttpRequest)
    → start env range cfg ≡ ok s
    → s.serves_ws ≡ true
    → Handled cfg upgrades dial s.server r (handle_ws upgrades dial s.server r)
unfolding handle_ws Found dialed_outcome
handle_ws-Handled env range cfg s upgrades dial r started serves =
    let steps = start-Steps env range cfg s started in
    let taken = serve-Taken env cfg steps.clients steps.topology s.server steps.served in
    let grouped = (start-IsRoutable env range cfg s started).2 in
    let (g, e) = some_group s.server.ws_backend_group (ground (arith, grouped, serves)) in
    of_context g e taken.whitelist
      (populate_context s.server.limits.rate_limit_header s.server.authenticated_paths r) refl
  where
    of_dialed :
        (ctx : RequestContext) (g : StartedGroup) (o : Option WsProxier)
        → s.server.ws_backend_group ≡ some g
        → s.server.ws_method_whitelist ≡ new_string_set_from_strings cfg.ws_method_whitelist
        → populate_context s.server.limits.rate_limit_header s.server.authenticated_paths r
          ≡ some ctx
        → Found dial 0 g.group.backends s.server.ws_method_whitelist o
        → Handled cfg upgrades dial s.server r (dialed_outcome ctx s.server.max_body_size o)
    of_dialed ctx g none e w c f = (g, e, f)
    of_dialed ctx g (some p) e w c f = (c, refl, f.0 ∙ w, (g, e, f.1))

    of_context :
        (g : StartedGroup)
        → s.server.ws_backend_group ≡ some g
        → s.server.ws_method_whitelist ≡ new_string_set_from_strings cfg.ws_method_whitelist
        → (c : Option RequestContext)
        → populate_context s.server.limits.rate_limit_header s.server.authenticated_paths r ≡ c
        → Handled cfg upgrades dial s.server r (handle_ws upgrades dial s.server r)
    of_context g e w none c = rw (c, handle_ws) c
    of_context g e w (some ctx) c = elim (Bool-cases upgrades) [
      | inr x ↦ rw (c, handle_ws) (rw (x, handle_ws) refl)
      | inl x ↦
          subst (Handled cfg upgrades dial s.server r)
            (sym (handle_ws_dials upgrades dial s.server r ctx g c x e))
            (of_dialed ctx g _ e w c
              (group_proxy_ws-Found dial 0 g.group.backends s.server.ws_method_whitelist))
    ]
