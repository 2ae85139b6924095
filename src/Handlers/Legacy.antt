-- ===== src/Handlers/Legacy.antt =====
-- The schemas without a settlement expiry are never signed.
use st0x_oracle_server.Batch.{finish}
use st0x_oracle_server.World.{World, continue-eq-ok, lift, current}
use st0x_oracle_server.Base.{
  List, Result, ◌≡◌, String, [], All, ◌∷◌, Bool, is_ok, err, ok, true, false, subst, refl, map,
  arith, Option-cases, ℕ, inl, inr, Bool-cases, is_empty, ◌&&◌,
}
use st0x_oracle_server.Batch.{
  ContextResponse, item_of, strict, finish, all_ok, strict_abort, enveloped, is_error,
}
use st0x_oracle_server.Handlers.{
  refuse_all, unless_failed, finish_legacy, Abi, first_error, post_signed_context_v1_inner,
  decode_request_body, post_signed_context_pair_bound, resolve_pair_for_order, PairSlot,
  resolve_slot, serve_v1, serve,
}
use st0x_oracle_server.Validity.{legacy_signature_unavailable}
use st0x_oracle_server.Refusal.{AppError}
use st0x_oracle_server.Context.{OracleResponse}
use st0x_oracle_server.Wire.{External, Word, Bytes}
use st0x_oracle_server.Signer.{Attempt}
use st0x_oracle_server.Registry.{ResolvedPair}
use st0x_oracle_server.Response.{v4}

-- The reply holds no signature.
abbrev pub Unsigned : ContextResponse → Type 0
Unsigned (strict responses) = responses ≡ []
Unsigned (enveloped items) = All (λ i. is_error i ≡ true) items

abbrev AllErr : List (Result AppError OracleResponse) → Type 0
AllErr items = All (λ i. is_ok i ≡ false) items

refuse_all-AllErr :
    (A : Type 0) (endpoint : String) (symbol_of : A → String) (items : List (Result AppError A))
    (w : World)
    → AllErr (refuse_all endpoint symbol_of items w).0
unfolding refuse_all legacy_signature_unavailable
refuse_all-AllErr A endpoint symbol_of [] w = tt
refuse_all-AllErr A endpoint symbol_of (err e ∷ items) w =
    (refl, refuse_all-AllErr A endpoint symbol_of items w)
refuse_all-AllErr A endpoint symbol_of (ok a ∷ items) w =
    (refl, refuse_all-AllErr A endpoint symbol_of items _)

AllErr-enveloped :
    (items : List (Result AppError OracleResponse))
    → AllErr items
    → All (λ i. is_error i ≡ true) (map item_of items)
unfolding item_of
AllErr-enveloped [] h = tt
AllErr-enveloped (err e ∷ items) h = (refl, AllErr-enveloped items h.1)
AllErr-enveloped (ok r ∷ items) h = absurd (ground (arith, h.0))

finish-Unsigned :
    (endpoint : String) (items : List (Result AppError OracleResponse)) (envelope : Bool)
    (w w' : World) (r : ContextResponse)
    → AllErr items
    → finish endpoint items envelope w ≡ (ok r, w')
    → Unsigned r
unfolding finish all_ok strict_abort
finish-Unsigned endpoint items true w w' r h e =
    subst Unsigned {x = enveloped (map item_of items)} (ground arith) (AllErr-enveloped items h)
finish-Unsigned endpoint [] false w w' r h e = subst Unsigned {x = strict []} (ground arith) refl
finish-Unsigned endpoint (err e ∷ items) false w w' r h g = absurd (ground arith)
finish-Unsigned endpoint (ok a ∷ items) false w w' r h g = absurd (ground (arith, h.0))

legacy-Unsigned :
    (A : Type 0) (endpoint : String) (symbol_of : A → String) (items : List (Result AppError A))
    (envelope : Bool) (w w' : World) (r : ContextResponse)
    → unless_failed endpoint envelope items (finish_legacy endpoint symbol_of items envelope) w
      ≡ (ok r, w')
    → Unsigned r
unfolding strict_abort
legacy-Unsigned A endpoint symbol_of items true w w' r h =
    finish-Unsigned endpoint (refuse_all endpoint symbol_of items w).0 true
      (refuse_all endpoint symbol_of items w).1 w' r
      (refuse_all-AllErr A endpoint symbol_of items w) h
legacy-Unsigned A endpoint symbol_of items false w w' r h =
    elim (Option-cases (first_error items)) [
      | inl e ↦
          finish-Unsigned endpoint (refuse_all endpoint symbol_of items w).0 false
            (refuse_all endpoint symbol_of items w).1 w' r
            (refuse_all-AllErr A endpoint symbol_of items w) (ground (arith, e, h))
      | inr (f, e) ↦ absurd (ground (arith, e, h))
    ]

module _ (x : External) (abi : Abi) (sign : Word → ℕ → Attempt) (chain_id : ℕ)
    (allow_failure : Bool) (body : Bytes) (w w' : World) (r : ContextResponse) where
  -- `/context/v1` never returns a signature: an empty reply, or an envelope of errors.
  pub v1-Unsigned :
      post_signed_context_v1_inner x abi sign chain_id allow_failure body w ≡ (ok r, w')
      → Unsigned r
  unfolding post_signed_context_v1_inner
  v1-Unsigned h0 =
      let (d, w1, e1, h1) = continue-eq-ok (lift (decode_request_body abi body) w) _ h0 in
      elim (Bool-cases (is_empty d.items)) [
        | inl e ↦
            finish-Unsigned "v1" [] (allow_failure && d.is_batch) w1 w' r tt (ground (arith, e, h1))
        | inr e ↦
            let served : serve_v1 x abi sign chain_id d.items (allow_failure && d.is_batch) w1
                ≡ (ok r, w') =
              ground (arith, e, h1) in
            let (registry, w2, e2, h2) = continue-eq-ok (current sign w1) _ served in
            legacy-Unsigned ResolvedPair "v1" (λ p. p.symbol)
              (map (resolve_pair_for_order registry) d.items) (allow_failure && d.is_batch) w2 w' r
              h2
      ]

  -- `/context/v4` never returns a signature either.
  pub v4-Unsigned :
      post_signed_context_pair_bound x abi sign chain_id v4 allow_failure body w ≡ (ok r, w')
      → Unsigned r
  unfolding post_signed_context_pair_bound
  v4-Unsigned h0 =
      let (d, w1, e1, h1) = continue-eq-ok (lift (decode_request_body abi body) w) _ h0 in
      elim (Bool-cases (is_empty d.items)) [
        | inl e ↦
            finish-Unsigned "v4" [] (allow_failure && d.is_batch) w1 w' r tt (ground (arith, e, h1))
        | inr e ↦
            let served : serve x abi sign chain_id v4 d.items (allow_failure && d.is_batch) w1
                ≡ (ok r, w') =
              ground (arith, e, h1) in
            let (registry, w2, e2, h2) = continue-eq-ok (current sign w1) _ served in
            legacy-Unsigned PairSlot "v4" (λ p. p.pair.symbol) (map (resolve_slot registry) d.items)
              (allow_failure && d.is_batch) w2 w' r h2
      ]
