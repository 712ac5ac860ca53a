-- ===== src/Exchange/Headers.antt =====
-- backend.go, `doForward`: the headers of the request that goes to the backend.
use Prim.Native.String as Text
use bsc_builder_proxyd.Base.{
  List, [], ◌∷◌, String, Option, none, some, if◌then◌else◌, eqb, string_eq, insert,
}
use bsc_builder_proxyd.Backend.{Backend}
use bsc_builder_proxyd.Server.Access.{RequestContext, strip_xff}

abbrev or_empty : Option String → String
or_empty none = ""
or_empty (some s) = s

unfoldable pub x_forwarded_for : Backend → String → String
x_forwarded_for b xff =
    if b.strip_trailing_xff
    then strip_xff xff
    else if eqb b.proxyd_ip ""
    then xff
    else Text.◌++◌ xff (Text.◌++◌ ", " b.proxyd_ip)

abbrev set_unless_empty : String → String → List (String × String) → List (String × String)
set_unless_empty name value hs = if eqb value "" then hs else insert name value hs

unfoldable pub set_all : List (String × String) → List (String × String) → List (String × String)
set_all [] hs = hs
set_all ((name, value) ∷ more) hs = set_all more (insert name value hs)

-- The names are in canonical form; `basic` is the value that `SetBasicAuth` sets.
unfoldable pub request_headers :
    (String → String → String) → Backend → RequestContext → List (String × String)
request_headers basic b ctx =
    let hs : List (String × String) =
      if eqb b.auth_password ""
      then []
      else insert "Authorization" (basic b.auth_username b.auth_password) [] in
    let hs' = set_unless_empty "X-Optimism-Signature" (or_empty ctx.op_tx_proxy_auth) hs in
    let hs'' =
      insert "X-Forwarded-For" (x_forwarded_for b ctx.x_forwarded_for)
        (insert "Content-Type" "application/json" hs') in
    set_unless_empty "X-Tx-Source" ctx.tx_source (set_all b.headers hs'')
