-- ===== src/Rewriter/Weave.antt =====
-- Responses made here and responses of the backend, put together again.
use mathlib.Core.List.{append_assoc, append-nil}
use bsc_builder_proxyd.Base.{
  ℕ, suc, ◌≡◌, refl, sym, ap, ◌∙◌, Option, none, some, List, [], ◌∷◌, ◌++◌, arith, take, drop,
  length, length-append, Option-cases, inl, inr,
}
use mathlib.Core.Option
use bsc_builder_proxyd.Rpc.{RpcReq, RpcRes}
use bsc_builder_proxyd.Rewriter.{Codec, RewriteContext}
use bsc_builder_proxyd.Rewriter.Overrides.{
  Fate, forward, answer, rewrite_tags, IndexedReqRes, Overwritten, overwrite_from,
  overwrite_consensus_responses, override_one, override_responses,
}

-- What becomes of each request, in order; `none` is a panic at one of them.
unfoldable pub fates : Codec → RewriteContext → List RpcReq → Option (List Fate)
fates codec rctx [] = some []
fates codec rctx (req ∷ reqs) = elim (rewrite_tags codec rctx req) [
  | none ↦ none
  | some f ↦ Option.map (◌∷◌ f) (fates codec rctx reqs)
]

-- One response for each request: its own, or the backend's next.
unfoldable pub weave : List Fate → List RpcRes → List RpcRes
weave [] res = []
weave (answer r ∷ fs) res = r ∷ weave fs res
weave (forward q ∷ fs) [] = []
weave (forward q ∷ fs) (r ∷ res) = r ∷ weave fs res

unfoldable pub forwarded : List Fate → List RpcReq
forwarded [] = []
forwarded (answer r ∷ fs) = forwarded fs
forwarded (forward q ∷ fs) = q ∷ forwarded fs

-- The overridden responses with their indices.
indexed : ℕ → List RpcReq → List Fate → List IndexedReqRes
indexed i [] fs = []
indexed i (req ∷ reqs) [] = []
indexed i (req ∷ reqs) (answer r ∷ fs) =
    record { index = i; req = req; res = r } ∷ indexed (suc i) reqs fs
indexed i (req ∷ reqs) (forward q ∷ fs) = indexed (suc i) reqs fs

overwrite_from-fates :
    (codec : Codec) (rctx : RewriteContext) (i : ℕ) (reqs : List RpcReq) (o o' : Overwritten)
    → overwrite_from codec rctx i reqs o ≡ some o'
    → (fs : List Fate) × (fates codec rctx reqs ≡ some fs)
      × (o'.requests ≡ o.requests ++ forwarded fs)
      × (o'.overridden ≡ o.overridden ++ indexed i reqs fs)
unfolding overwrite_from fates forwarded indexed
overwrite_from-fates codec rctx i [] o o' e =
    ([], refl, ground (arith, e, append-nil o.requests), ground (arith, e, append-nil o.overridden))
overwrite_from-fates codec rctx i (req ∷ reqs) o o' e =
    elim (Option-cases (rewrite_tags codec rctx req)) [
      | inl x ↦ absurd (ground (arith, e, x))
      | inr (forward q, x) ↦
          let (fs, f, r, v) =
            overwrite_from-fates codec rctx (suc i) reqs _ o' (rw (x, overwrite_from) at e) in
          (
            forward q ∷ fs,
            rw (x, fates) (rw f),
            r ∙ append_assoc o.requests (q ∷ []) (forwarded fs),
            v,
          )
      | inr (answer a, x) ↦
          let (fs, f, r, v) =
            overwrite_from-fates codec rctx (suc i) reqs _ o' (rw (x, overwrite_from) at e) in
          (
            answer a ∷ fs,
            rw (x, fates) (rw f),
            r,
            v ∙ append_assoc o.overridden _ (indexed (suc i) reqs fs),
          )
    ]

-- What is forwarded when the requests of a call have been rewritten.
pub overwrite_consensus_responses-fates :
    (codec : Codec) (rctx : RewriteContext) (reqs : List RpcReq) (o : Overwritten)
    → overwrite_consensus_responses codec rctx reqs ≡ some o
    → (fs : List Fate) × (fates codec rctx reqs ≡ some fs) × (o.requests ≡ forwarded fs)
unfolding overwrite_consensus_responses
overwrite_consensus_responses-fates codec rctx reqs o e =
    let (fs, f, r, v) = overwrite_from-fates codec rctx 0 reqs _ o e in (fs, f, r)

take_prefix {ℓ} : {A : Type ℓ} (xs ys : List A) → take (length xs) (xs ++ ys) ≡ xs
take_prefix [] ys = refl
take_prefix (x ∷ xs) ys = ap (◌∷◌ x) (take_prefix xs ys)

drop_prefix {ℓ} : {A : Type ℓ} (xs ys : List A) → drop (length xs) (xs ++ ys) ≡ ys
drop_prefix [] ys = refl
drop_prefix (x ∷ xs) ys = drop_prefix xs ys

override_one_at :
    (pre res : List RpcRes) (req : RpcReq) (r : RpcRes)
    → override_one (pre ++ res) (record { index = length pre; req = req; res = r })
      ≡ pre ++ (r ∷ res)
unfolding override_one
override_one_at [] [] req r = refl
override_one_at [] (x ∷ res) req r = refl
override_one_at (p ∷ pre) res req r = rw (take_prefix pre res, drop_prefix pre res)

length_snoc {ℓ} : {A : Type ℓ} (xs : List A) (x : A) → length (xs ++ x ∷ []) ≡ suc (length xs)
length_snoc xs x = omega (arith, length-append xs (x ∷ []))

-- A response that has been placed belongs to the finished part.
place :
    (pre res : List RpcRes) (a : RpcRes) (reqs : List RpcReq) (fs : List Fate)
    → override_responses ((pre ++ a ∷ []) ++ res) (indexed (length (pre ++ a ∷ [])) reqs fs)
      ≡ (pre ++ a ∷ []) ++ weave fs res
    → override_responses (pre ++ a ∷ res) (indexed (suc (length pre)) reqs fs)
      ≡ pre ++ a ∷ weave fs res
place pre res a reqs fs h =
    rw (append_assoc pre (a ∷ []) res, append_assoc pre (a ∷ []) (weave fs res), length_snoc pre a)
      at h

override_responses-weave :
    (pre : List RpcRes) (reqs : List RpcReq) (fs : List Fate) (res : List RpcRes)
    → length reqs ≡ length fs
    → length res ≡ length (forwarded fs)
    → override_responses (pre ++ res) (indexed (length pre) reqs fs) ≡ pre ++ weave fs res
unfolding override_responses indexed weave forwarded
override_responses-weave pre [] [] [] h k = refl
override_responses-weave pre [] [] (r ∷ res) h k = absurd (omega arith)
override_responses-weave pre [] (f ∷ fs) res h k = absurd (omega arith)
override_responses-weave pre (req ∷ reqs) [] res h k = absurd (omega arith)
override_responses-weave pre (req ∷ reqs) (answer a ∷ fs) res h k =
    ap (λ l. override_responses l (indexed (suc (length pre)) reqs fs))
      (override_one_at pre res req a)
    ∙ place pre res a reqs fs (override_responses-weave (pre ++ a ∷ []) reqs fs res (omega arith) k)
override_responses-weave pre (req ∷ reqs) (forward q ∷ fs) [] h k = absurd (omega arith)
override_responses-weave pre (req ∷ reqs) (forward q ∷ fs) (r ∷ res) h k =
    place pre res r reqs fs
      (override_responses-weave (pre ++ r ∷ []) reqs fs res (omega arith) (omega arith))

fates-length :
    (codec : Codec) (rctx : RewriteContext) (reqs : List RpcReq) (fs : List Fate)
    → fates codec rctx reqs ≡ some fs
    → length reqs ≡ length fs
unfolding fates
fates-length codec rctx [] fs e = ground (arith, e)
fates-length codec rctx (req ∷ reqs) fs e = elim (Option-cases (rewrite_tags codec rctx req)) [
  | inl x ↦ absurd (ground (arith, e, x))
  | inr (f, x) ↦ elim (Option-cases (fates codec rctx reqs)) [
    | inl y ↦ absurd (ground (arith, e, x, y))
    | inr (gs, y) ↦
        let ih = fates-length codec rctx reqs gs y in
        let q : fs ≡ f ∷ gs = ground (arith, e, x, y) in omega (arith, ih, ap length q)
  ]
]

-- When the requests of a call have been rewritten, and the backend has returned one response for
-- each request that was forwarded, putting the overridden responses back gives exactly one response
-- for each request of the call, in the call's order: its own for a request that was answered here,
-- and the backend's next for one that was forwarded.
pub override_responses_lem :
    (codec : Codec) (rctx : RewriteContext) (reqs : List RpcReq) (o : Overwritten)
    (res : List RpcRes)
    → overwrite_consensus_responses codec rctx reqs ≡ some o
    → length res ≡ length o.requests
    → (fs : List Fate) × (fates codec rctx reqs ≡ some fs)
      × (length fs ≡ length reqs)
      × (o.requests ≡ forwarded fs)
      × (override_responses res o.overridden ≡ weave fs res)
unfolding overwrite_consensus_responses
override_responses_lem codec rctx reqs o res e k =
    let (fs, f, r, v) = overwrite_from-fates codec rctx 0 reqs _ o e in
    let l = fates-length codec rctx reqs fs f in
    (
      fs,
      f,
      sym l,
      r,
      ap (override_responses res) v ∙ override_responses-weave [] reqs fs res l (k ∙ ap length r),
    )
