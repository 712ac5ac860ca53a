-- ===== src/StringSet/Listed.antt =====
-- string_set.go: a set made from a list has what is in the list.
use bsc_builder_proxyd.Base.{
  ◌≡◌, ◌⊎◌, inl, inr, true, List, [], ◌∷◌, String, arith, Any, eqb, string_eq, Bool-cases, refl,
}
use bsc_builder_proxyd.StringSet.{
  StringSet, new_string_set_from_strings, new_string_set, has, has_entry, add, add_entry, add_all,
}

has_entry-add_entry :
    (xs : List String) (x m : String)
    → has_entry (add_entry xs x) m ≡ true
    → (has_entry xs m ≡ true) ⊎ (x ≡ m)
unfolding has_entry add_entry
has_entry-add_entry [] x m h = inr (ground (arith, h, string_eq.beq_iff x m))
has_entry-add_entry (y ∷ ys) x m h = elim (Bool-cases (eqb y x)) [
  | inl e ↦ inl (rw e at h)
  | inr e ↦ elim (Bool-cases (eqb y m)) [
    | inl f ↦ inl (rw f refl)
    | inr f ↦ elim (has_entry-add_entry ys x m (rw f at (rw e at h))) [
      | inl r ↦ inl (rw f r)
      | inr r ↦ inr r
    ]
  ]
]

-- What the set has, it has from the list or from before.
has-add_all :
    (s : StringSet) (xs : List String) (m : String)
    → has (add_all s xs) m ≡ true
    → (has s m ≡ true) ⊎ Any (λ x. x ≡ m) xs
unfolding has add
has-add_all s [] m h = inl h
has-add_all s (x ∷ xs) m h = elim (has-add_all (add s x) xs m h) [
  | inr r ↦ inr (inr r)
  | inl r ↦ elim (has_entry-add_entry s.underlying x m r) [ inl e ↦ inl e | inr e ↦ inr (inl e) ]
]

pub has-listed :
    (xs : List String) (m : String)
    → has (new_string_set_from_strings xs) m ≡ true
    → Any (λ x. x ≡ m) xs
unfolding new_string_set_from_strings new_string_set has has_entry
has-listed xs m h = elim (has-add_all new_string_set xs m h) [ inl e ↦ absurd (cc e) | inr r ↦ r ]
