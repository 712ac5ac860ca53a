-- ===== src/Start/Marks.antt =====
-- proxyd.go: the members of a backend group and its marks for fallbacks.
use bsc_builder_proxyd.Base.{
  ℕ, ◌+◌, ◌≤◌, ◌≡◌, ◌≢◌, refl, sym, ap, ◌∙◌, subst, inl, inr, Bool, true, false, ◌||◌, not, List,
  [], ◌∷◌, String, none, some, arith, if◌then◌else◌, eqb, string_eq, ◌==◌, All, lookup, length,
  Bool-cases, Option-cases, lookup-insert, some_inj, ==_iff,
}
use bsc_builder_proxyd.Backend.{Backend}
use bsc_builder_proxyd.Config.{BackendGroupConfig}
use bsc_builder_proxyd.Exchange.Order.{DistinctIds}
use bsc_builder_proxyd.Start.{
  ok, guard, or_err, >>=-eq-ok, guard-eq-ok, ok_inj, undefined_backend, fallbacks_mismatch,
}
use bsc_builder_proxyd.Start.Groups.{
  StartedGroup, Members, no_members, add_members, add_member, mark, times_listed, make_group,
}

-- Whether a name is in a list.
unfoldable pub listed : String → List String → Bool
listed name [] = false
listed name (x ∷ xs) = eqb x name || listed name xs

times-listed :
    (name : String) (fbs : List String) → (times_listed name fbs == 0) ≡ not (listed name fbs)
unfolding times_listed listed
times-listed name [] = refl
times-listed name (fb ∷ fbs) =
    ground (arith, times-listed name fbs, string_eq.beq_iff name fb, string_eq.beq_iff fb name)

-- Every mark says whether the backend is listed as a fallback.
abbrev IsRight : List String → List (String × Bool) → Type 0
IsRight fbs m = (j : String) (b : Bool) → lookup j m ≡ some b → b ≡ listed j fbs

lookup-mark :
    (fbs : List String) (name j : String) (m : List (String × Bool))
    → IsRight fbs m
    → lookup j (mark name (times_listed name fbs) m)
      ≡ (if eqb name j then some (listed name fbs) else lookup j m)
unfolding mark
lookup-mark fbs name j m right = elim (Bool-cases (times_listed name fbs == 0)) [
  | inr x ↦
      let t : listed name fbs ≡ true = ground (arith, times-listed name fbs, x) in
      rw (x, t, mark) (lookup-insert name j true m)
  | inl x ↦
      let f : listed name fbs ≡ false = ground (arith, times-listed name fbs, x) in
      elim (Option-cases (lookup name m)) [
        | inl y ↦ rw (x, f, mark) (rw (y, mark) (lookup-insert name j false m))
        | inr (b, y) ↦
            let r = right name b y in
            rw (x, f, mark)
              (rw (y, mark)
                (elim (Bool-cases (eqb name j)) [
                  | inl z ↦
                      let e : name ≡ j = (string_eq.beq_iff name j).0 z in
                      rw z (ap (λ k. lookup k m) (sym e) ∙ y ∙ ap some (r ∙ f))
                  | inr z ↦ rw z refl
                ]))
      ]
]

mark-IsRight :
    (fbs : List String) (name : String) (m : List (String × Bool))
    → IsRight fbs m
    → IsRight fbs (mark name (times_listed name fbs) m)
mark-IsRight fbs name m right = λ j b e. elim (Bool-cases (eqb name j)) [
  | inl z ↦
      let same : name ≡ j = (string_eq.beq_iff name j).0 z in
      let x = rw z at (sym (lookup-mark fbs name j m right) ∙ e) in
      some_inj (sym x) ∙ ap (λ k. listed k fbs) same
  | inr z ↦ right j b (rw z at (sym (lookup-mark fbs name j m right) ∙ e))
]

marked_next :
    (fbs : List String) (name j : String) (names : List String) (m : List (String × Bool))
    → IsRight fbs m
    → (if listed j names
        then some (listed j fbs)
        else lookup j (mark name (times_listed name fbs) m))
      ≡ (if eqb name j || listed j names then some (listed j fbs) else lookup j m)
marked_next fbs name j names m right =
    ground (arith, lookup-mark fbs name j m right, string_eq.beq_iff name j)

-- The sum of how often each of the names is listed.
total : List String → List String → ℕ
total [] fbs = 0
total (name ∷ names) fbs = times_listed name fbs + total names fbs

-- How the members that a loop has collected stand to those that it began with.
record Grown (fbs names : List String) (m n : Members) : Type 0 where
  pub marks :
      (j : String)
      → lookup j n.fallback_backends
        ≡ (if listed j names then some (listed j fbs) else lookup j m.fallback_backends)
  pub counted : n.fallback_count ≡ m.fallback_count + total names fbs

add_members-Grown :
    (by_name : List (String × Backend)) (fbs names : List String) (m n : Members)
    → IsRight fbs m.fallback_backends
    → add_members by_name fbs names m ≡ ok n
    → Grown fbs names m n
unfolding add_members listed total
add_members-Grown by_name fbs [] m n right h =
    let same = ok_inj h in
    record {
      marks = λ j. ap (λ x. lookup j x.fallback_backends) (sym same);
      counted = omega (arith, ap (λ x. x.fallback_count) same);
    }
add_members-Grown by_name fbs (name ∷ names) m n right h =
    let (b, a, h1) = >>=-eq-ok (or_err (lookup name by_name) (undefined_backend name)) _ h in
    let g =
      add_members-Grown by_name fbs names (add_member fbs name b m) n
        (mark-IsRight fbs name m.fallback_backends right) h1 in
    record {
      marks = λ j. g.marks j ∙ marked_next fbs name j names m.fallback_backends right;
      counted = omega (arith, g.counted);
    }

-- How many of the names are this one.
occurs : String → List String → ℕ
occurs fb [] = 0
occurs fb (name ∷ names) = (if eqb name fb then 1 else 0) + occurs fb names

total-nil : (names : List String) → total names [] ≡ 0
unfolding total times_listed
total-nil [] = refl
total-nil (name ∷ names) = omega (arith, total-nil names)

total-cons :
    (names : List String) (fb : String) (fbs : List String)
    → total names (fb ∷ fbs) ≡ occurs fb names + total names fbs
unfolding total occurs times_listed
total-cons [] fb fbs = refl
total-cons (name ∷ names) fb fbs = ground (arith, total-cons names fb fbs)

occurs-absent : (fb : String) (names : List String) → All (λ n. fb ≢ n) names → occurs fb names ≡ 0
unfolding occurs
occurs-absent fb [] h = refl
occurs-absent fb (name ∷ names) (h, hs) =
    ground (arith, occurs-absent fb names hs, string_eq.beq_iff name fb)

occurs-le : (fb : String) (names : List String) → DistinctIds names → occurs fb names ≤ 1
unfolding occurs
occurs-le fb [] h = omega arith
occurs-le fb (name ∷ names) (h, hs) = elim (Bool-cases (eqb name fb)) [
  | inl x ↦
      let same : name ≡ fb = (string_eq.beq_iff name fb).0 x in
      rw x (omega (arith, occurs-absent fb names (subst (λ k. All (λ n. k ≢ n) names) same h)))
  | inr x ↦ rw x (omega (arith, occurs-le fb names hs))
]

occurs-listed : (fb : String) (names : List String) → 1 ≤ occurs fb names → listed fb names ≡ true
unfolding occurs listed
occurs-listed fb [] h = absurd (omega arith)
occurs-listed fb (name ∷ names) h = elim (Bool-cases (eqb name fb)) [
  | inl x ↦ rw x refl
  | inr x ↦ rw x (occurs-listed fb names (omega (arith, rw x at h)))
]

total-le : (names fbs : List String) → DistinctIds names → total names fbs ≤ length fbs
total-le names [] d = omega (arith, total-nil names)
total-le names (fb ∷ fbs) d =
    omega (arith, total-cons names fb fbs, occurs-le fb names d, total-le names fbs d)

total-listed :
    (names fbs : List String)
    → DistinctIds names
    → total names fbs ≡ length fbs
    → All (λ fb. listed fb names ≡ true) fbs
total-listed names [] d h = tt
total-listed names (fb ∷ fbs) d h =
    let c = total-cons names fb fbs in
    let a = occurs-le fb names d in
    let b = total-le names fbs d in
    (
      occurs-listed fb names (omega (arith, c, a, b, h)),
      total-listed names fbs d (omega (arith, c, a, b, h)),
    )

-- Where a group is made and its list of backends names none twice: each of its backends is marked as a
-- fallback exactly if the list of fallbacks names it, no other name is marked, and every name in the
-- list of fallbacks is one of the group's backends.
pub make_group-Marked :
    (by_name : List (String × Backend)) (name : String) (cfg : BackendGroupConfig)
    (g : StartedGroup)
    → DistinctIds cfg.backends
    → make_group by_name name cfg ≡ ok g
    → ((j : String)
        → lookup j g.group.fallback_backends
          ≡ (if listed j cfg.backends then some (listed j cfg.fallbacks) else none))
      × All (λ fb. listed fb cfg.backends ≡ true) cfg.fallbacks
unfolding make_group lookup
make_group-Marked by_name name cfg g distinct h =
    let (m, a, h1) = >>=-eq-ok (add_members by_name cfg.fallbacks cfg.backends no_members) _ h in
    let (u, b, h2) =
      >>=-eq-ok
        (guard (m.fallback_count == length cfg.fallbacks)
          (fallbacks_mismatch m.fallback_count (length cfg.fallbacks) name))
        _ h1 in
    let grown =
      add_members-Grown by_name cfg.fallbacks cfg.backends no_members m (λ j k e. absurd (cc)) a in
    let c = guard-eq-ok _ _ u b in
    (
      λ j. ap (λ x. lookup j x.group.fallback_backends) (sym (ok_inj h2)) ∙ grown.marks j,
      total-listed cfg.backends cfg.fallbacks distinct
          (omega (arith, grown.counted, (==_iff _ _).0 c)),
    )
