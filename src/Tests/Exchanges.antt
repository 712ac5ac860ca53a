-- ===== src/Tests/Exchanges.antt =====
-- An exchange of two requests whose answers come the other way round, the translation of a request
-- for receipts whose params do not decode, and an exempt origin without a rate.
use mathlib.Core.List.{Permᴰ}
use bsc_builder_proxyd.Base.{
  ℕ, ◌≡◌, ◌≢◌, refl, inl, inr, Bool, true, false, List, [], ◌∷◌, String, Option, none, some,
  if◌then◌else◌, eqb, string_eq, arith, lookup, All, map, sym, subst, Bool-cases,
}
use bsc_builder_proxyd.Json.{text}
use bsc_builder_proxyd.Rpc.{RpcReq, RpcRes}
use bsc_builder_proxyd.Backend.{
  Backend, new_backend, with_consensus_receipt_target, override, apply_opt,
}
use bsc_builder_proxyd.Limiter.{new_memory_frontend_rate_limit, memory_take, limited_keys_take}
use bsc_builder_proxyd.Exchange.Translation.{
  Wire, prepare, translate_one, fault, lost, asks_for_receipts,
}
use bsc_builder_proxyd.Exchange.{
  whole, Sent, answered, got, do_forward, decode, decoded, answer_to, read_answer, receive, accept,
  finish_responses,
}
use bsc_builder_proxyd.Exchange.Sorting.{
  sort_batch_rpc_response, sort_by, insert_by, position, position_key, has_duplicate, occurs,
}
use bsc_builder_proxyd.Exchange.Answered.{slot_id, SoundSlot, IsHonest, Kept, do_forward-Kept}
use bsc_builder_proxyd.Exchange.Retries.{LeftStale, do_forward-LeftStale}
use bsc_builder_proxyd.Server.{matches_some}
use bsc_builder_proxyd.Server.Access.{
  Limiter, noop, made, RateLimitConfig, Client, new_limits, is_limited, global_methods,
  is_global_limit, matched_key, tests_of,
}
use bsc_builder_proxyd.Server.Exempt.{is_limited-exempt_zero}

abbrev pub request : String → RpcReq
request id = record { jsonrpc = "2.0"; method = "m"; params = "[]"; id = id }

abbrev pub response : String → RpcRes
response id = record { jsonrpc = "2.0"; result = some (text id); error = none; id = id }

abbrev pub two : List RpcReq
two = request "1" ∷ request "2" ∷ []

abbrev pub wire : Wire
wire = record {
  unmarshal_blocks = λ s. none;
  params_of_text = λ s. s;
  params_of_object = λ r. "{}";
  unmarshal_res = λ s. none;
  unmarshal_batch = λ s. some (some (response "2") ∷ some (response "1") ∷ []);
}

-- Only the two requests get an answer.
abbrev pub send : List RpcReq → Sent
send [] = Sent.no_answer
send (a ∷ []) = Sent.no_answer
send (a ∷ b ∷ []) =
    if eqb a.id "1"
    then (if eqb b.id "2" then answered 200 (whole "two") else Sent.no_answer)
    else Sent.no_answer
send (a ∷ b ∷ c ∷ qs) = Sent.no_answer

abbrev pub backend : Backend
backend = new_backend 0 "b" "" "" (with_consensus_receipt_target "debug_getRawReceipts" ∷ [])

back_in_order :
    (do_forward wire send 0 5 backend two true).outcome ≡ got (response "1" ∷ response "2" ∷ [])
unfolding do_forward prepare asks_for_receipts answer_to read_answer receive decode accept
    finish_responses sort_batch_rpc_response sort_by insert_by position position_key has_duplicate
    occurs lookup
back_in_order = refl

abbrev answers : List (Option RpcRes)
answers = some (response "2") ∷ some (response "1") ∷ []

only_answers :
    (body : String) (rs : List (Option RpcRes)) → decode wire false body ≡ decoded rs → answers ≡ rs
unfolding decode
only_answers body rs h = cc

answered_status :
    (s status : ℕ) (t body : String)
    → answered s (whole t) ≡ answered status (whole body)
    → s ≡ status
answered_status s status t body h = cc

sound_answers :
    (a b : RpcReq) (status : ℕ) (rs : List (Option RpcRes))
    → a.id ≡ "1"
    → b.id ≡ "2"
    → answers ≡ rs
    → 200 ≡ status
    → Permᴰ (a.id ∷ b.id ∷ []) (map slot_id rs) × All (SoundSlot status) rs
sound_answers a b status rs x y e k =
    subst (λ r. Permᴰ (a.id ∷ b.id ∷ []) (map slot_id r) × All (SoundSlot status) r) e
      (Permᴰ.swap x y, (inl (sym k), (inl (sym k), tt)))

pub send-IsHonest : IsHonest wire send
send-IsHonest [] status body rs h d n = absurd (cc)
send-IsHonest (a ∷ []) status body rs h d n = absurd (cc)
send-IsHonest (a ∷ b ∷ []) status body rs h d n = elim (Bool-cases (eqb a.id "1")) [
  | inl x ↦ elim (Bool-cases (eqb b.id "2")) [
    | inl y ↦
        sound_answers a b status rs ((string_eq.beq_iff a.id "1").0 x)
          ((string_eq.beq_iff b.id "2").0 y) (only_answers body rs d)
          (answered_status 200 status "two" body (rw (x, y) at h))
    | inr y ↦ absurd (ground (arith, x, y, h))
  ]
  | inr x ↦ absurd (ground (arith, x, h))
]
send-IsHonest (a ∷ b ∷ c ∷ qs) status body rs h d n = absurd (cc)

no_truth : false ≡ true → ⊥
no_truth h = cc

one_two : ◌≢◌ {A = String} "1" "2"
one_two h = no_truth ((string_eq.beq_iff "1" "2").1 h)

found : (target : String) → prepare wire target true two ≢ lost
unfolding prepare asks_for_receipts
found target h = cc

do_forward-Kept_example : Kept two (do_forward wire send 0 5 backend two true)
do_forward-Kept_example =
    do_forward-Kept wire send 0 5 backend two true send-IsHonest ((one_two, tt), (tt, tt))
      (omega arith) (found backend.receipts_target)

abbrev receipts : RpcReq
receipts = record {
  jsonrpc = "2.0";
  method = "consensus_getReceipts";
  params = "no params";
  id = "1";
}

receipts_left : translate_one wire "debug_getRawReceipts" receipts ≢ fault
unfolding translate_one
receipts_left h = cc

target_of : backend.receipts_target ≡ "debug_getRawReceipts"
unfolding new_backend override apply_opt
target_of = refl

other_target : backend.receipts_target ≢ "consensus_getReceipts"
unfolding new_backend override apply_opt
other_target h = cc

do_forward-LeftStale_example :
    LeftStale wire backend (do_forward wire send 0 5 backend (receipts ∷ []) false)
do_forward-LeftStale_example =
    do_forward-LeftStale wire send 0 5 backend receipts refl other_target
      (subst (λ t. translate_one wire t receipts ≢ fault) (sym target_of) receipts_left)

abbrev exempt_config : RateLimitConfig
exempt_config = record {
  base_rate = 5;
  base_interval = 1;
  exempt_origins = record { text = "admin"; matches = λ s. eqb s "admin" } ∷ [];
  exempt_user_agents = [];
  exempt_base_rate = 0;
  exempt_base_interval = 1;
  exempt_overrides = [];
  method_overrides = [];
  ip_header_override = "";
}

abbrev admin : Client
admin = record { xff = "1.2.3.4"; origin = "admin"; user_agent = "" }

-- Each limiter counts alone; its state is that of the in-memory one with its limit.
abbrev memory : ℕ → Limiter → String → ℕ × Option Bool
memory l noop key = (l, some true)
memory l (made interval max prefix) key =
    (l, some (memory_take (new_memory_frontend_rate_limit max) 0 key).1)

memory_zero :
    (l interval : ℕ) (prefix key : String) → (memory l (made interval 0 prefix) key).1 ≡ some false
unfolding memory_take limited_keys_take new_memory_frontend_rate_limit
memory_zero l interval prefix key = ground arith

admin_matches : matches_some (tests_of exempt_config.exempt_origins) "admin" ≡ true
unfolding matches_some
admin_matches = refl

admin_named : matched_key exempt_config.exempt_origins "admin" ≢ ""
unfolding matched_key
admin_named h = cc

no_override :
    lookup (matched_key exempt_config.exempt_origins "admin") exempt_config.exempt_overrides ≡ none
unfolding lookup
no_override = refl

not_global : is_global_limit (global_methods exempt_config.method_overrides) "m" ≡ false
unfolding is_global_limit global_methods
not_global = refl

is_limited-exempt_zero_example : (is_limited memory (new_limits exempt_config) admin 0 "m").1 ≡ true
is_limited-exempt_zero_example =
    is_limited-exempt_zero memory exempt_config admin 0 "m" memory_zero (omega arith) refl
      admin_matches admin_named no_override not_global
