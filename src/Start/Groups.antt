-- ===== src/Start/Groups.antt =====
-- proxyd.go: the loop of `Start` that makes the backend groups, and the checks of the group for
-- websockets and of the groups that methods are mapped to.
use bsc_builder_proxyd.Base.{
  ℕ, ◌+◌, Bool, true, false, List, [], ◌∷◌, ◌++◌, String, Option, none, some, if◌then◌else◌, eqb,
  string_eq, ◌==◌, length, filter, lookup, insert, is_some,
}
use bsc_builder_proxyd.Backend.{Backend}
use bsc_builder_proxyd.Consensus.{BackendGroup}
use bsc_builder_proxyd.Config.{BackendGroupConfig}
use bsc_builder_proxyd.Start.{
  Outcome, ok, ◌>>=◌, ◌>>◌, guard, or_err, undefined_backend, undefined_group, no_ws_group,
  fallbacks_mismatch,
}

-- A group with the strategy that was configured for it.
pub record StartedGroup : Type 0 where
  pub group : BackendGroup
  pub routing_strategy : String

-- How often a backend is listed as a fallback.
unfoldable pub times_listed : String → List String → ℕ
times_listed name fallbacks = length (filter (λ fb. eqb name fb) fallbacks)

-- A backend is marked as a fallback, or as a primary if it is not marked yet.
unfoldable pub mark : String → ℕ → List (String × Bool) → List (String × Bool)
mark name times m =
    if times == 0
    then (if is_some (lookup name m) then m else insert name false m)
    else insert name true m

pub record Members : Type 0 where
  pub backends : List Backend
  pub fallback_backends : List (String × Bool)
  pub fallback_count : ℕ

abbrev pub add_member : List String → String → Backend → Members → Members
add_member fallbacks name b m = record {
  backends = m.backends ++ b ∷ [];
  fallback_backends = mark name (times_listed name fallbacks) m.fallback_backends;
  fallback_count = m.fallback_count + times_listed name fallbacks;
}

unfoldable pub add_members :
    List (String × Backend) → List String → List String → Members → Outcome Members
add_members backends_by_name fallbacks [] m = ok m
add_members backends_by_name fallbacks (name ∷ names) m = do
  b ← or_err (lookup name backends_by_name) (undefined_backend name)
  add_members backends_by_name fallbacks names (add_member fallbacks name b m)

abbrev pub no_members : Members
no_members = record { backends = []; fallback_backends = []; fallback_count = 0 }

unfoldable pub make_group :
    List (String × Backend) → String → BackendGroupConfig → Outcome StartedGroup
make_group backends_by_name name bg = do
  m ← add_members backends_by_name bg.fallbacks bg.backends no_members
  guard (m.fallback_count == length bg.fallbacks)
      (fallbacks_mismatch m.fallback_count (length bg.fallbacks) name)
  ok (record {
    group = record {
      name = name;
      backends = m.backends;
      weighted_routing = bg.weighted_routing;
      fallback_backends = m.fallback_backends;
      multicall_rpc_error_check = bg.multicall_rpc_error_check;
    };
    routing_strategy = bg.routing_strategy;
  })

unfoldable pub make_groups :
    List (String × Backend)
    → List (String × BackendGroupConfig)
    → Outcome (List (String × StartedGroup))
make_groups backends_by_name [] = ok []
make_groups backends_by_name ((name, bg) ∷ bgs) = do
  g ← make_group backends_by_name name bg
  rest ← make_groups backends_by_name bgs
  ok ((name, g) ∷ rest)

unfoldable pub find_ws_group : List (String × StartedGroup) → String → Outcome (Option StartedGroup)
find_ws_group groups name =
    if eqb name ""
    then ok none
    else do g ← or_err (lookup name groups) (no_ws_group name); ok (some g)

unfoldable pub check_mappings :
    List (String × StartedGroup) → List (String × String) → Outcome (Unit {0})
check_mappings groups [] = ok tt
check_mappings groups ((method, name) ∷ ms) = do
  guard (is_some (lookup name groups)) (undefined_group name)
  check_mappings groups ms
