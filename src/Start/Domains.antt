-- ===== src/Start/Domains.antt =====
-- proxyd.go: what `Start` makes of the mappings of the domains.
use bsc_builder_proxyd.Base.{◌≡◌, refl, ap, ◌∙◌, List, [], String}
use bsc_builder_proxyd.Config.{Config}
use bsc_builder_proxyd.Start.{
  Outcome, ok, err, exits, panics, ◌>>=◌, Env, check_config, check_sender_limit, auth_of,
  messages_of,
}
use bsc_builder_proxyd.Start.Serving.{ProxyServer, new_server, compile_limits, resolve_auth}
use bsc_builder_proxyd.Start.Pollers.{start_groups}
use bsc_builder_proxyd.Start.Run.{
  start, Started, Regroup, connect, lay_out, serve, Topology, Clients,
}

abbrev pub Domains : Type 0
Domains = List (String × List (String × String))

abbrev pub map_ok : {A B : Type 0} → (A → B) → Outcome A → Outcome B
map_ok f (ok a) = ok (f a)
map_ok f (err e) = err e
map_ok f (exits c) = exits c
map_ok f panics = panics

abbrev pub with_domains : Domains → Started → Started
with_domains ds s = record s { server = record s.server { domain_rpc_method_mappings = ds } }

>>=-map_ok :
    {A B C : Type 0} (m : Outcome A) (f : A → Outcome C) (g : A → Outcome B) (h : B → C)
    → ((a : A) → f a ≡ map_ok h (g a))
    → (m >>= f) ≡ map_ok h (m >>= g)
>>=-map_ok (ok a) f g h e = e a
>>=-map_ok (err x) f g h e = refl
>>=-map_ok (exits c) f g h e = refl
>>=-map_ok panics f g h e = refl

map_ok->>= :
    {A B C D : Type 0} (m : Outcome A) (f : A → B) (k : B → Outcome C) (g : A → Outcome D)
    (h : D → C)
    → ((a : A) → k (f a) ≡ map_ok h (g a))
    → (map_ok f m >>= k) ≡ map_ok h (m >>= g)
map_ok->>= (ok a) f k g h e = e a
map_ok->>= (err x) f k g h e = refl
map_ok->>= (exits c) f k g h e = refl
map_ok->>= panics f k g h e = refl

>>=-after :
    {A B C D : Type 0} (n : Outcome B) (m : Outcome A) (f : A → B) (k : B → Outcome C)
    (g : A → Outcome D) (h : D → C)
    → n ≡ map_ok f m
    → ((a : A) → k (f a) ≡ map_ok h (g a))
    → (n >>= k) ≡ map_ok h (m >>= g)
>>=-after n m f k g h e d = ap (λ x. x >>= k) e ∙ map_ok->>= m f k g h d

abbrev server_with : Domains → ProxyServer → ProxyServer
server_with ds s = record s { domain_rpc_method_mappings = ds }

serve_domains :
    (env : Env) (cfg : Config) (ds : Domains) (clients : Clients) (t : Topology)
    → serve env (record cfg { domain_rpc_method_mappings = ds }) clients t
      ≡ map_ok (server_with ds) (serve env cfg clients t)
unfolding serve new_server
serve_domains env cfg ds clients t =
    >>=-map_ok (resolve_auth env (auth_of cfg.authentication) []) _ _ _
      (λ auth. >>=-map_ok (compile_limits env cfg.rate_limit) _ _ _ (λ limits. refl))

-- The mappings of the domains are not checked: whatever they are, and whether or not the groups that
-- they name exist, the start goes as it goes without them, and ends with the same proxy but for them.
pub start_domains :
    (env : Env) (range : Regroup) (cfg : Config) (ds : Domains)
    → start env range (record cfg { domain_rpc_method_mappings = ds })
      ≡ map_ok (with_domains ds) (start env range cfg)
unfolding start connect lay_out check_config messages_of
start_domains env range cfg ds = >>=-map_ok (check_config cfg) _ _ _ (λ u.
    >>=-map_ok (connect env cfg) _ _ _ (λ clients.
      >>=-map_ok (check_sender_limit cfg.sender_rate_limit) _ _ _ (λ v.
        >>=-map_ok (lay_out env cfg) _ _ _ (λ t.
          >>=-after (serve env (record cfg { domain_rpc_method_mappings = ds }) clients t)
            (serve env cfg clients t) (server_with ds) _ _ _ (serve_domains env cfg ds clients t)
            (λ server.
              >>=-map_ok (start_groups env cfg.backend_groups (range t.groups)) _ _ _
                (λ ps. refl))))))
