-- ===== src/StringSet.antt =====
-- string_set.go: a set of strings. The entries stand in the order in which they were added first; Go's
-- map hands them out in any order.
pub mod Listed
use bsc_builder_proxyd.Base.{
  Bool, true, false, List, [], ◌∷◌, String, if◌then◌else◌, eqb, string_eq,
}

pub record StringSet : Type 0 where
  pub underlying : List String

unfoldable pub new_string_set : StringSet
new_string_set = record { underlying = [] }

unfoldable pub has_entry : List String → String → Bool
has_entry [] test = false
has_entry (x ∷ xs) test = if eqb x test then true else has_entry xs test

unfoldable pub has : StringSet → String → Bool
has s test = has_entry s.underlying test

unfoldable pub add_entry : List String → String → List String
add_entry [] str = str ∷ []
add_entry (x ∷ xs) str = if eqb x str then x ∷ xs else x ∷ add_entry xs str

unfoldable pub add : StringSet → String → StringSet
add s str = record { underlying = add_entry s.underlying str }

abbrev add_all : StringSet → List String → StringSet
add_all s [] = s
add_all s (x ∷ xs) = add_all (add s x) xs

unfoldable pub new_string_set_from_strings : List String → StringSet
new_string_set_from_strings strs = add_all new_string_set strs

unfoldable pub entries : StringSet → List String
entries s = s.underlying

-- The receiver stays as it is.
unfoldable pub extend : StringSet → List String → StringSet
extend s strs = add_all (new_string_set_from_strings strs) s.underlying
