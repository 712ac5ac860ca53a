-- ===== src/Server/Senders.antt =====
-- Which transactions pass the limit on senders.
use bsc_builder_proxyd.Base.{
  ℕ, ◌≡◌, ◌≢◌, refl, ◌⊎◌, inl, inr, Bool, true, false, List, [], ◌∷◌, String, Option, none, some,
  Bool-cases,
}
use bsc_builder_proxyd.Rpc.{RpcReq}
use bsc_builder_proxyd.Server.{
  Tx, Decoded, done, bad, TxCodec, SenderError, is_allowed_chain_id, sender_key, limit_tx,
  limit_params, of_take, rate_limit_sender,
}

module _ {L : Type 0} (codec : TxCodec) (take : L → String → L × Option Bool)
    (allowed : List ℕ) where
  -- The request holds one transaction, for an allowed chain, and its sender and nonce were counted.
  abbrev pub Counted : L → RpcReq → L × Option SenderError → Type 0
  Counted l req r =
      (p : String) × (bytes : String) × (tx : Tx) × (from : String) × (codec.unmarshal_params
          req.params
        ≡ some (p ∷ []))
      × (codec.unmarshal_text p ≡ done bytes)
      × (codec.unmarshal_binary bytes ≡ done tx)
      × (is_allowed_chain_id allowed tx.chain_id ≡ true)
      × (codec.sender tx ≡ done from)
      × (r.0 ≡ (take l (sender_key codec from tx)).0)
      × ((r.1 ≡ none) → (take l (sender_key codec from tx)).1 ≡ some true)

  -- Refused before anything was counted.
  abbrev pub Refused : L → L × Option SenderError → Type 0
  Refused l r = (r.0 ≡ l) × (r.1 ≢ none)

  Option_text-cases :
      (o : Option (List String))
      → ((p : String) × (o ≡ some (p ∷ [])))
        ⊎ ((l : L) → Refused l (limit_params codec take allowed l o))
  Option_text-cases none = inr (λ l. (refl, λ e. cc))
  Option_text-cases (some []) = inr (λ l. (refl, λ e. cc))
  Option_text-cases (some (p ∷ [])) = inl (p, refl)
  Option_text-cases (some (p ∷ q ∷ ps)) = inr (λ l. (refl, λ e. cc))

  Decoded-cases :
      {A : Type 0} (d : Decoded A) → ((a : A) × (d ≡ done a)) ⊎ ((m : String) × (d ≡ bad m))
  Decoded-cases (done a) = inl (a, refl)
  Decoded-cases (bad m) = inr (m, refl)

  took : (answer : Option Bool) → of_take answer ≡ none → answer ≡ some true
  took none e = absurd (cc)
  took (some true) e = refl
  took (some false) e = absurd (cc)

  -- A raw transaction is either refused with an error while the limiter stays as it was, or it is
  -- the only parameter, decodes to a transaction for an allowed chain with a sender, and its sender
  -- and nonce are counted by one `Take`; it passes only if that `Take` says yes.
  pub rate_limit_sender_cases :
      (l : L) (req : RpcReq)
      → Refused l (rate_limit_sender codec take allowed l req)
        ⊎ Counted l req (rate_limit_sender codec take allowed l req)
  unfolding rate_limit_sender limit_tx
  rate_limit_sender_cases l req = elim (Option_text-cases (codec.unmarshal_params req.params)) [
    | inr refused ↦ inl (refused l)
    | inl (p, x) ↦ elim (Decoded-cases (codec.unmarshal_text p)) [
      | inr (m, y) ↦ inl (rw (x, y, rate_limit_sender) (refl, λ e. cc))
      | inl (bytes, y) ↦ elim (Decoded-cases (codec.unmarshal_binary bytes)) [
        | inr (m, z) ↦ inl (rw (x, y, z, rate_limit_sender) (refl, λ e. cc))
        | inl (tx, z) ↦ elim (Bool-cases (is_allowed_chain_id allowed tx.chain_id)) [
          | inr c ↦ inl (rw (x, y, z, c, rate_limit_sender, limit_tx) (refl, λ e. cc))
          | inl c ↦ elim (Decoded-cases (codec.sender tx)) [
            | inr (m, s) ↦ inl (rw (x, y, z, c, s, rate_limit_sender, limit_tx) (refl, λ e. cc))
            | inl (from, s) ↦ inr (
              p,
              bytes,
              tx,
              from,
              x,
              y,
              z,
              c,
              s,
              rw (x, y, z, c, s, rate_limit_sender, limit_tx),
              rw (x, y, z, c, s, rate_limit_sender, limit_tx)
                  (took (take l (sender_key codec from tx)).1),
            )
          ]
        ]
      ]
    ]
  ]
