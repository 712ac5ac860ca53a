-- ===== src/Server/Access.antt =====
-- server.go: the context of a request (`populateContext`), the limiters that NewServer makes and the
-- closure `isLimited` of HandleRPC. A pattern is its text and what its `MatchString` says, by regexp;
-- a header is read by net/http. The state of all limiters is an `L`, and `take` is their `Take`, with
-- `none` for an error.
use Prim.Native.Char.{Char, code}
use bsc_builder_proxyd.Base.{
  ℕ, Bool, true, false, not, ◌&&◌, ◌||◌, List, [], ◌∷◌, String, Option, none, some, if◌then◌else◌,
  ◌==◌, leb, ltb, eqb, string_eq, lookup, insert, is_empty, map,
}
use bsc_builder_proxyd.Server.{matches_some, first_non_empty}

abbrev add_char : Char → List String → List String
add_char c [] = (String.◌∷◌ c "") ∷ []
add_char c (p ∷ ps) = (String.◌∷◌ c p) ∷ ps

-- `strings.Split` at a separator of one character.
unfoldable pub split : ℕ → String → List String
split sep String.[] = "" ∷ []
split sep (String.◌∷◌ c s) =
    let rest = split sep s in if code c == sep then "" ∷ rest else add_char c rest

-- `unicode.IsSpace`.
unfoldable pub is_white : ℕ → Bool
is_white c =
    (leb 0x09 c && leb c 0x0d)
    || (c == 0x20
        || (c == 0x85
            || (c == 0xa0
                || (c == 0x1680
                    || ((leb 0x2000 c && leb c 0x200a)
                        || (c == 0x2028
                            || (c == 0x2029 || (c == 0x202f || (c == 0x205f || c == 0x3000)))))))))

unfoldable pub trim_left : String → String
trim_left String.[] = ""
trim_left (String.◌∷◌ c s) =
    let rest = trim_left s in if is_white (code c) then rest else String.◌∷◌ c s

unfoldable pub trim_right : String → String
trim_right String.[] = ""
trim_right (String.◌∷◌ c s) =
    let rest = trim_right s in if is_white (code c) && eqb rest "" then "" else String.◌∷◌ c rest

abbrev pub first_part : List String → String
first_part [] = ""
first_part (p ∷ ps) = p

unfoldable pub strip_xff : String → String
strip_xff xff = trim_right (trim_left (first_part (split b',' xff)))

-- A request: its headers, and of its route the variable `authorization`.
pub record HttpRequest : Type 0 where
  pub header : String → String
  pub host : String
  pub remote_addr : String
  pub authorization : String

-- The values that `populateContext` puts into the context, without the random request id.
pub record RequestContext : Type 0 where
  pub x_forwarded_for : String
  pub op_tx_proxy_auth : Option String
  pub auth : Option String
  pub origin : String
  pub tx_source : String

abbrev remote_ip : List String → String
remote_ip [] = ""
remote_ip (ip ∷ []) = ""
remote_ip (ip ∷ port ∷ []) = ip
remote_ip (ip ∷ port ∷ p ∷ ps) = ""

unfoldable pub forwarded_for : String → HttpRequest → String
forwarded_for rate_limit_header r =
    let xff = r.header rate_limit_header in
    if eqb xff "" then remote_ip (split b':' r.remote_addr) else xff

abbrev non_empty : String → Option String
non_empty s = if eqb s "" then none else some s

abbrev context_with : String → HttpRequest → Option String → RequestContext
context_with rate_limit_header r auth = record {
  x_forwarded_for = forwarded_for rate_limit_header r;
  op_tx_proxy_auth = non_empty (r.header "X-Optimism-Signature");
  auth = auth;
  origin = r.header "X-Forwarded-Host";
  tx_source = first_non_empty (r.host ∷ r.header "X-Forwarded-Host" ∷ []);
}

abbrev named : Option String → Option String
named none = none
named (some name) = non_empty name

-- `none` is the status 401.
unfoldable pub populate_context :
    String → List (String × String) → HttpRequest → Option RequestContext
populate_context rate_limit_header authenticated_paths r =
    if is_empty authenticated_paths
    then some (context_with rate_limit_header r none)
    else if eqb r.authorization ""
    then none
    else elim (named (lookup r.authorization authenticated_paths)) [
      | none ↦ none
      | some name ↦ some (context_with rate_limit_header r (some name))
    ]

pub record Pattern : Type 0 where
  pub text : String
  pub matches : String → Bool

-- What `limiterFactory` was called with, or `NoopFrontendRateLimiter`.
pub data Limiter : Type 0 where
  noop : Limiter
  made : ℕ → ℕ → String → Limiter

pub record Override : Type 0 where
  pub limit : ℕ
  pub interval : ℕ
  pub global : Bool

-- `RateLimitConfig`, its patterns compiled.
pub record RateLimitConfig : Type 0 where
  pub base_rate : ℕ
  pub base_interval : ℕ
  pub exempt_origins : List Pattern
  pub exempt_user_agents : List Pattern
  pub exempt_base_rate : ℕ
  pub exempt_base_interval : ℕ
  pub exempt_overrides : List (String × Override)
  pub method_overrides : List (String × Override)
  pub ip_header_override : String

-- The fields of `Server` that limit requests.
pub record Limits : Type 0 where
  pub main_lim : Limiter
  pub lim_exempt_origins : List Pattern
  pub lim_exempt_user_agents : List Pattern
  pub exempt_lims : List (String × Limiter)
  pub override_lims : List (String × Limiter)
  pub globally_limited_methods : List String
  pub rate_limit_header : String

unfoldable pub exempt_lim : RateLimitConfig → String → Limiter
exempt_lim cfg origin = elim (lookup origin cfg.exempt_overrides) [
  | some o ↦ made o.interval o.limit origin
  | none ↦ made cfg.exempt_base_interval cfg.exempt_base_rate origin
]

unfoldable pub exempt_lims_of : RateLimitConfig → List Pattern → List (String × Limiter)
exempt_lims_of cfg [] = []
exempt_lims_of cfg (pat ∷ pats) =
    insert pat.text (exempt_lim cfg pat.text) (exempt_lims_of cfg pats)

unfoldable pub override_lims_of : List (String × Override) → List (String × Limiter)
override_lims_of [] = []
override_lims_of ((method, o) ∷ os) = (method, made o.interval o.limit method) ∷ override_lims_of os

unfoldable pub global_methods : List (String × Override) → List String
global_methods [] = []
global_methods ((method, o) ∷ os) =
    if o.global then method ∷ global_methods os else global_methods os

-- The limits of NewServer; without a base rate the lists of the exempt are not read.
unfoldable pub new_limits : RateLimitConfig → Limits
new_limits cfg =
    let on = ltb 0 cfg.base_rate in
    let origins = if on then cfg.exempt_origins else [] in
    record {
      main_lim = if on then made cfg.base_interval cfg.base_rate "main" else noop;
      lim_exempt_origins = origins;
      lim_exempt_user_agents = if on then cfg.exempt_user_agents else [];
      exempt_lims = exempt_lims_of cfg origins;
      override_lims = override_lims_of cfg.method_overrides;
      globally_limited_methods = global_methods cfg.method_overrides;
      rate_limit_header =
          if eqb cfg.ip_header_override "" then "X-Forwarded-For" else cfg.ip_header_override;
    }

unfoldable pub is_global_limit : List String → String → Bool
is_global_limit [] method = false
is_global_limit (m ∷ ms) method = if eqb m method then true else is_global_limit ms method

-- The text of the first pattern that matches.
unfoldable pub matched_key : List Pattern → String → String
matched_key [] s = ""
matched_key (pat ∷ pats) s = if pat.matches s then pat.text else matched_key pats s

abbrev pub tests_of : List Pattern → List (String → Bool)
tests_of = map (λ p. p.matches)

-- Of a request, what `isLimited` closes over.
pub record Client : Type 0 where
  pub xff : String
  pub origin : String
  pub user_agent : String

abbrev pub refuses : Option Bool → Bool
refuses none = true
refuses (some ok) = not ok

module _ {L : Type 0} (take : L → Limiter → String → L × Option Bool) (lims : Limits) where
  unfoldable pub charge : L → Limiter → String → L × Bool
  charge l lim key = let (l', answer) = take l lim key in (l', refuses answer)

  unfoldable pub limit_exempt : L → String → L × Bool
  limit_exempt l key = if eqb key "" then (l, false) else elim (lookup key lims.exempt_lims) [
    | none ↦ (l, false)
    | some lim ↦ charge l lim "exempt"
  ]

  unfoldable pub limiter_for : String → Limiter
  limiter_for method =
      if eqb method ""
      then lims.main_lim
      else elim (lookup method lims.override_lims) [ none ↦ lims.main_lim | some lim ↦ lim ]

  unfoldable pub is_exempt : Client → String → Bool
  is_exempt client method =
      not (is_global_limit lims.globally_limited_methods method)
      && (matches_some (tests_of lims.lim_exempt_origins) client.origin
          || matches_some (tests_of lims.lim_exempt_user_agents) client.user_agent)

  unfoldable pub is_limited : Client → L → String → L × Bool
  is_limited client l method =
      if is_exempt client method
      then limit_exempt l (
          if matches_some (tests_of lims.lim_exempt_origins) client.origin
          then matched_key lims.lim_exempt_origins client.origin
          else matched_key lims.lim_exempt_user_agents client.user_agent)
      else charge l (limiter_for method) client.xff
