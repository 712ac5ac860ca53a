-- ===== src/Start/Secrets.antt =====
-- proxyd.go with server.go: who gets past the authentication of a started proxy.
use bsc_builder_proxyd.Base.{
  Any, ◌≡◌, refl, sym, ap, ◌∙◌, ◌⊎◌, inl, inr, false, List, [], ◌∷◌, String, some, arith, eqb,
  string_eq, is_empty, lookup, insert, lookup-insert, Bool-cases, Option-cases, some_inj,
}
use bsc_builder_proxyd.Server.Access.{HttpRequest, RequestContext, populate_context}
use bsc_builder_proxyd.Config.{Config}
use bsc_builder_proxyd.Start.{ok, Env, from_env, auth_of, >>=-eq-ok, ok_inj}
use bsc_builder_proxyd.Start.Serving.{resolve_auth}
use bsc_builder_proxyd.Start.Run.{start, Started, Regroup}
use bsc_builder_proxyd.Start.Steps.{start-Steps}
use bsc_builder_proxyd.Start.Routable.{serve-Taken}

-- An entry of the configuration that resolves to the secret and has the alias.
abbrev pub Resolves : Env → String → String → String × String → Type 0
Resolves env secret alias p = (from_env env p.0 ≡ ok secret) × (p.1 ≡ alias)

resolve_auth-Resolves :
    (env : Env) (auth resolved out : List (String × String)) (secret alias : String)
    → resolve_auth env auth resolved ≡ ok out
    → lookup secret out ≡ some alias
    → (lookup secret resolved ≡ some alias) ⊎ Any (Resolves env secret alias) auth
unfolding resolve_auth
resolve_auth-Resolves env [] resolved out secret alias h e = inl (ap (lookup secret) (ok_inj h) ∙ e)
resolve_auth-Resolves env ((k, a) ∷ auth) resolved out secret alias h e =
    let (s, x, h1) = >>=-eq-ok (from_env env k) _ h in
    elim (resolve_auth-Resolves env auth (insert s a resolved) out secret alias h1 e) [
      | inr y ↦ inr (inr y)
      | inl y ↦ elim (Bool-cases (eqb s secret)) [
        | inl z ↦
            let same : s ≡ secret = (string_eq.beq_iff s secret).0 z in
            inr (
              inl
                (x ∙ ap ok same, some_inj (rw z at (sym (lookup-insert s secret a resolved) ∙ y))))
        | inr z ↦ inl (rw z at (sym (lookup-insert s secret a resolved) ∙ y))
      ]
    ]

insert_nonempty : (k v : String) (m : List (String × String)) → is_empty (insert k v m) ≡ false
unfolding insert
insert_nonempty k v [] = refl
insert_nonempty k v ((j, w) ∷ m) = elim (Bool-cases (eqb j k)) [
  | inl x ↦ rw x refl
  | inr x ↦ rw x refl
]

resolve_auth_nonempty :
    (env : Env) (auth resolved out : List (String × String))
    → resolve_auth env auth resolved ≡ ok out
    → is_empty resolved ≡ false
    → is_empty out ≡ false
unfolding resolve_auth
resolve_auth_nonempty env [] resolved out h n = ap is_empty (sym (ok_inj h)) ∙ n
resolve_auth_nonempty env ((k, a) ∷ auth) resolved out h n =
    let (s, x, h1) = >>=-eq-ok (from_env env k) _ h in
    resolve_auth_nonempty env auth (insert s a resolved) out h1 (insert_nonempty s a resolved)

resolve_auth_some :
    (env : Env) (auth out : List (String × String))
    → resolve_auth env auth [] ≡ ok out
    → is_empty auth ≡ false
    → is_empty out ≡ false
unfolding resolve_auth
resolve_auth_some env [] out h n = absurd (cc)
resolve_auth_some env ((k, a) ∷ auth) out h n =
    let (s, x, h1) = >>=-eq-ok (from_env env k) _ h in
    resolve_auth_nonempty env auth (insert s a []) out h1 (insert_nonempty s a [])

-- Only a known secret gets a context, and it gets its alias.
populate_context-known :
    (header : String) (paths : List (String × String)) (r : HttpRequest) (ctx : RequestContext)
    → is_empty paths ≡ false
    → populate_context header paths r ≡ some ctx
    → (alias : String) × (lookup r.authorization paths ≡ some alias) × (ctx.auth ≡ some alias)
unfolding populate_context
populate_context-known header paths r ctx n h = elim (Option-cases (lookup r.authorization paths)) [
  | inl x ↦ absurd (ground (arith, h, n, x))
  | inr (alias, x) ↦ (alias, x, ground (arith, h, n, x))
]

-- Where the configuration lists secrets: a request gets a context in the started proxy only if the last
-- part of its path is what one of these secrets resolves to, by the environment or as it
-- is written; and the context then bears the alias of that secret.
pub start-Authenticated :
    (env : Env) (range : Regroup) (cfg : Config) (s : Started) (r : HttpRequest)
    (ctx : RequestContext)
    → start env range cfg ≡ ok s
    → is_empty (auth_of cfg.authentication) ≡ false
    → populate_context s.server.limits.rate_limit_header s.server.authenticated_paths r ≡ some ctx
    → Any
        (λ p. (from_env env p.0 ≡ ok r.authorization) × (ctx.auth ≡ some p.1))
        (auth_of cfg.authentication)
start-Authenticated env range cfg s r ctx started some_auth h =
    let steps = start-Steps env range cfg s started in
    let taken = serve-Taken env cfg steps.clients steps.topology s.server steps.served in
    let (alias, x, y) =
      populate_context-known s.server.limits.rate_limit_header s.server.authenticated_paths r ctx
        (resolve_auth_some env (auth_of cfg.authentication) s.server.authenticated_paths
          taken.secrets some_auth)
        h in
    elim (resolve_auth-Resolves env (auth_of cfg.authentication) [] s.server.authenticated_paths
      r.authorization alias taken.secrets x) [
        | inl e ↦ absurd (unfold lookup in cc)
        | inr a ↦ with_alias (auth_of cfg.authentication) alias y a
      ]
  where
    with_alias :
        (ps : List (String × String)) (alias : String)
        → ctx.auth ≡ some alias
        → Any (Resolves env r.authorization alias) ps
        → Any (λ p. (from_env env p.0 ≡ ok r.authorization) × (ctx.auth ≡ some p.1)) ps
    with_alias [] alias y a = a
    with_alias (p ∷ ps) alias y (inl (e, f)) = inl (e, y ∙ ap some (sym f))
    with_alias (p ∷ ps) alias y (inr a) = inr (with_alias ps alias y a)
