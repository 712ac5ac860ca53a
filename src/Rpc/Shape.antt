-- ===== src/Rpc/Shape.antt =====
-- Which bodies are batches and which requests are valid.
use bsc_builder_proxyd.Base.{
  ℕ, ◌≡◌, refl, inl, inr, true, List, [], ◌∷◌, ◌++◌, All, ◌↔◌, Bool-cases, ap, ==_iff, string_eq,
}
use bsc_builder_proxyd.Rpc.{is_space, is_batch}

abbrev pub BatchBody : List ℕ → Type 0
BatchBody body =
    (spaces : List ℕ) × (rest : List ℕ) × All (λ c. is_space c ≡ true) spaces
    × (body ≡ spaces ++ b'[' ∷ rest)

is_batch_sound : (body : List ℕ) → is_batch body ≡ true → BatchBody body
unfolding is_batch
is_batch_sound [] h = absurd (cc)
is_batch_sound (c ∷ cs) h = elim (Bool-cases (is_space c)) [
  | inl e ↦
      let (s, r, a, q) = is_batch_sound cs (rw (e, is_batch) at h) in
      (c ∷ s, r, (e, a), ap (◌∷◌ c) q)
  | inr e ↦ ([], cs, tt, ap (λ d. d ∷ cs) ((==_iff c b'[').0 (rw (e, is_batch) at h)))
]

is_batch_complete : (body : List ℕ) → BatchBody body → is_batch body ≡ true
unfolding is_batch is_space
is_batch_complete body ([], r, a, q) = rw q
is_batch_complete body (c ∷ s, r, a, q) =
    rw (q, a.0) (is_batch_complete (s ++ b'[' ∷ r) (s, r, a.1, refl))

-- A body is taken for a batch exactly when its first character that is no JSON white space is `[`.
is_batch_iff : (body : List ℕ) → (is_batch body ≡ true) ↔ BatchBody body
is_batch_iff body = (is_batch_sound body, is_batch_complete body)
