-- ===== src/Server/Exempt.antt =====
-- The limiters of exempt origins, from the configuration to a request.
use bsc_builder_proxyd.Base.{
  ℕ, ◌<◌, ◌≡◌, ◌≢◌, inl, inr, refl, ◌∙◌, ap, Bool, true, false, List, [], ◌∷◌, String, Option, none,
  some, arith, eqb, string_eq, lookup, lookup-insert, Bool-cases, ltb,
}
use bsc_builder_proxyd.Server.{matches_some}
use bsc_builder_proxyd.Server.Access.{
  Pattern, Limiter, made, RateLimitConfig, Client, new_limits, exempt_lim, exempt_lims_of,
  global_methods, is_global_limit, matched_key, tests_of, charge, limit_exempt, is_exempt,
  is_limited,
}

-- The origin's first matching pattern has the limiter that the configuration gives its text.
exempt_lims_of-lookup :
    (cfg : RateLimitConfig) (pats : List Pattern) (s : String)
    → matches_some (tests_of pats) s ≡ true
    → lookup (matched_key pats s) (exempt_lims_of cfg pats)
      ≡ some (exempt_lim cfg (matched_key pats s))
unfolding matches_some matched_key exempt_lims_of
exempt_lims_of-lookup cfg [] s h = absurd (cc)
exempt_lims_of-lookup cfg (pat ∷ pats) s h = elim (Bool-cases (pat.matches s)) [
  | inl x ↦
      rw (x, matched_key)
        (lookup-insert pat.text pat.text (exempt_lim cfg pat.text) (exempt_lims_of cfg pats)
          ∙ ground (arith, string_eq.beq_iff pat.text pat.text))
  | inr x ↦
      rw (x, matched_key)
        (let key = matched_key pats s in
          lookup-insert pat.text key (exempt_lim cfg pat.text) (exempt_lims_of cfg pats)
          ∙ elim (Bool-cases (eqb pat.text key)) [
            | inl y ↦
                rw y (ap (λ k. some (exempt_lim cfg k)) ((string_eq.beq_iff pat.text key).0 y))
            | inr y ↦ rw y (exempt_lims_of-lookup cfg pats s (rw x at h))
          ])
]

exempt_lim_zero :
    (cfg : RateLimitConfig) (key : String)
    → cfg.exempt_base_rate ≡ 0
    → lookup key cfg.exempt_overrides ≡ none
    → exempt_lim cfg key ≡ made cfg.exempt_base_interval 0 key
unfolding exempt_lim
exempt_lim_zero cfg key zero plain =
    rw (plain, exempt_lim) (ap (λ n. made cfg.exempt_base_interval n key) zero)

module _ {L : Type 0} (take : L → Limiter → String → L × Option Bool) (cfg : RateLimitConfig)
    (client : Client) (l : L) (method : String) where
  -- With a base rate, an exempt base rate of 0 and no override for the pattern that an origin
  -- matches, every request from this origin for a method that is not globally limited is refused, if a
  -- limiter with the limit 0 lets nothing through.
  pub is_limited-exempt_zero :
      ((l : L) (interval : ℕ) (prefix key : String)
        → (take l (made interval 0 prefix) key).1 ≡ some false)
      → 0 < cfg.base_rate
      → cfg.exempt_base_rate ≡ 0
      → matches_some (tests_of cfg.exempt_origins) client.origin ≡ true
      → matched_key cfg.exempt_origins client.origin ≢ ""
      → lookup (matched_key cfg.exempt_origins client.origin) cfg.exempt_overrides ≡ none
      → is_global_limit (global_methods cfg.method_overrides) method ≡ false
      → (is_limited take (new_limits cfg) client l method).1 ≡ true
  unfolding is_limited is_exempt new_limits limit_exempt charge
  is_limited-exempt_zero refuse rate zero matches named plain local =
      let on : ltb 0 cfg.base_rate ≡ true = ground arith in
      let key = matched_key cfg.exempt_origins client.origin in
      let e : eqb key "" ≡ false = ground (arith, string_eq.beq_iff key "") in
      rw (on, is_limited)
        (rw (local, is_limited)
          (rw (matches, is_limited)
            (rw (e, is_limited)
              (rw (exempt_lims_of-lookup cfg cfg.exempt_origins client.origin matches, is_limited)
                (rw (exempt_lim_zero cfg key zero plain, is_limited)
                  (rw (refuse l cfg.exempt_base_interval key "exempt") refl))))))
