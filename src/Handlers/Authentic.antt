-- ===== src/Handlers/Authentic.antt =====
-- Every signature in a reply was made by the key.
use st0x_oracle_server.Base.HashMap
use st0x_oracle_server.World.{current, World, M, lift}
use st0x_oracle_server.World.Trusted.{Authentic, Trusted}
use st0x_oracle_server.World.Ensures.{
  Ensures, IfOk, Ensures-bind, current-Ensures, Ensures-lift-Any, Ensures-if, Ensures-refuse,
  snapshot-Ensures, Ensures-pure, now_unix_ms-Ensures,
}
use st0x_oracle_server.Batch.{ContextResponse}
use st0x_oracle_server.Batch.Authentic.{AuthenticReply, finish-Ensures}
use st0x_oracle_server.Handlers.{
  refuse_all, finish_legacy, unless_failed, first_error, Abi, OracleRequest,
  post_signed_context_v1_inner, serve_v1, PairSlot, sign_slots, build_one, snapshot, by_schema,
  serve, post_signed_context_pair_bound, tag, now_unix_ms,
}
use st0x_oracle_server.Wire.{External, Word, Bytes}
use st0x_oracle_server.Base.{
  ℕ, String, List, Bool, Result, All, Option-cases, ◌∷◌, inl, err, inr, ok, [], true, string_eq,
  ◌≡◌, ◌∙◌, refl,
}
use st0x_oracle_server.Signer.{Attempt}
use st0x_oracle_server.Validity.{legacy_signature_unavailable}
use st0x_oracle_server.Refusal.{AppError}
use st0x_oracle_server.Batch.Trusted.{strict_abort-Ensures, or_abort-Ensures, build_slots-Ensures}
use st0x_oracle_server.Batch.Revalidated.{AuthenticSlot, revalidate_batch-Ensures}
use mathlib.Core.Bool.{false}
use st0x_oracle_server.Response.{PairSchema, v4, v5, v6, v7, signs_expiry}
use st0x_oracle_server.Pricing.{QuoteSnapshot}
use st0x_oracle_server.Response.Authentic.{build_response-Ensures}

refuse_all-requests :
    (A : Type 0) (endpoint : String) (symbol_of : A → String) (items : List (Result AppError A))
    (w : World)
    → (refuse_all endpoint symbol_of items w).1.requests ≡ w.requests
unfolding refuse_all legacy_signature_unavailable
refuse_all-requests A endpoint symbol_of [] w = refl
refuse_all-requests A endpoint symbol_of (err e ∷ items) w =
    refuse_all-requests A endpoint symbol_of items w
refuse_all-requests A endpoint symbol_of (ok s ∷ items) w =
    refuse_all-requests A endpoint symbol_of items _

module _ {x : External} {sign : Word → ℕ → Attempt} where
  refuse_all-Trusted :
      (A : Type 0) (endpoint : String) (symbol_of : A → String) (items : List (Result AppError A))
      (w : World)
      → Trusted x sign w
      → Trusted x sign (refuse_all endpoint symbol_of items w).1
        × All (IfOk (Authentic x sign)) (refuse_all endpoint symbol_of items w).0
  unfolding refuse_all legacy_signature_unavailable
  refuse_all-Trusted A endpoint symbol_of [] w t = (t, tt)
  refuse_all-Trusted A endpoint symbol_of (err e ∷ items) w t =
      let (t', a) = refuse_all-Trusted A endpoint symbol_of items w t in (t', (tt, a))
  refuse_all-Trusted A endpoint symbol_of (ok s ∷ items) w t =
      let (t', a) =
        refuse_all-Trusted A endpoint symbol_of items _
          (record { signer = t.signer; reuse = t.reuse; others = t.others }) in
      (t', (tt, a))

  finish_legacy-Ensures :
      (A : Type 0) (endpoint : String) (symbol_of : A → String) (items : List (Result AppError A))
      (envelope : Bool)
      → Ensures x sign (AuthenticReply x sign) (finish_legacy endpoint symbol_of items envelope)
  finish_legacy-Ensures A endpoint symbol_of items envelope = record {
    at = λ w t.
        let (t', a) = refuse_all-Trusted A endpoint symbol_of items w t in
        (finish-Ensures endpoint _ envelope a).at _ t';
    requests = λ w t.
        let (t', a) = refuse_all-Trusted A endpoint symbol_of items w t in
        (finish-Ensures endpoint _ envelope a).requests _ t'
        ∙ refuse_all-requests A endpoint symbol_of items w;
  }

  unless_failed-Ensures :
      (A : Type 0) (endpoint : String) (envelope : Bool) (items : List (Result AppError A))
      (go : M ContextResponse)
      → Ensures x sign (AuthenticReply x sign) go
      → Ensures x sign (AuthenticReply x sign) (unless_failed endpoint envelope items go)
  unless_failed-Ensures A endpoint true items go g = g
  unless_failed-Ensures A endpoint false items go g = elim (Option-cases (first_error items)) [
    | inl e ↦ rw (unless_failed, e) g
    | inr (f, e) ↦ rw (unless_failed, e) (strict_abort-Ensures endpoint f)
  ]

module _ (x : External) (abi : Abi) (sign : Word → ℕ → Attempt) (chain_id : ℕ) where
  serve_v1-Ensures :
      (requests : List OracleRequest) (envelope : Bool)
      → Ensures x sign (AuthenticReply x sign) (serve_v1 x abi sign chain_id requests envelope)
  serve_v1-Ensures requests envelope = Ensures-bind (current sign) _ current-Ensures (λ registry p.
      unless_failed-Ensures _ "v1" envelope _ _ (finish_legacy-Ensures _ "v1" _ _ envelope))

  pub v1_inner-Ensures :
      (allow_failure : Bool) (body : Bytes)
      → Ensures x sign
          (AuthenticReply x sign)
          (post_signed_context_v1_inner x abi sign chain_id allow_failure body)
  unfolding post_signed_context_v1_inner
  v1_inner-Ensures allow_failure body = Ensures-bind (lift _) _ (Ensures-lift-Any _) (λ decoded p.
      Ensures-if _ _ _ (finish-Ensures "v1" [] _ tt) (serve_v1-Ensures decoded.items _))

  module _ (schema : PairSchema) where
    build_one-Ensures :
        (quotes : List (String × QuoteSnapshot)) (slot : PairSlot)
        → Ensures x sign (AuthenticSlot x sign) (build_one x abi sign chain_id schema quotes slot)
    build_one-Ensures quotes slot = elim (Option-cases (HashMap.get slot.pair.symbol quotes)) [
      | inl e ↦ rw (build_one, e) (search (Ensures-refuse))
      | inr (quote, e) ↦
          rw (build_one, e)
            (Ensures-bind _ _
              (build_response-Ensures x sign chain_id slot.pair quote schema slot.input_token
                slot.output_token)
              (λ b a. Ensures-pure _ a))
    ]

    sign_slots-Ensures :
        (resolved : List (Result AppError PairSlot)) (envelope : Bool)
        → Ensures x sign
            (AuthenticReply x sign)
            (sign_slots x abi sign chain_id schema resolved envelope)
    sign_slots-Ensures resolved envelope =
        Ensures-bind (snapshot sign chain_id _) _ (snapshot-Ensures chain_id _) (λ quotes p.
          Ensures-bind _ _
            (or_abort-Ensures (tag schema) _ (
              build_slots-Ensures (build_one x abi sign chain_id schema quotes)
                (build_one-Ensures quotes) resolved envelope))
            (λ built a.
              Ensures-bind (snapshot sign chain_id _) _ (snapshot-Ensures chain_id _)
                (λ now_quotes p. Ensures-bind (current sign) _ current-Ensures (λ registry p.
                  Ensures-bind (now_unix_ms sign) _ now_unix_ms-Ensures (λ checked_at p.
                    Ensures-bind _ _
                      (or_abort-Ensures (tag schema) _ (
                        revalidate_batch-Ensures x sign (tag schema) (signs_expiry schema)
                          checked_at now_quotes registry built envelope a))
                      (λ items b. finish-Ensures (tag schema) items envelope b))))))

  by_schema-Ensures :
      (schema : PairSchema) (resolved : List (Result AppError PairSlot)) (envelope : Bool)
      → Ensures x sign
          (AuthenticReply x sign)
          (by_schema x abi sign chain_id schema resolved envelope)
  by_schema-Ensures v4 resolved envelope = finish_legacy-Ensures _ "v4" _ resolved envelope
  by_schema-Ensures v5 resolved envelope = sign_slots-Ensures v5 resolved envelope
  by_schema-Ensures v6 resolved envelope = sign_slots-Ensures v6 resolved envelope
  by_schema-Ensures v7 resolved envelope = sign_slots-Ensures v7 resolved envelope

  module _ (schema : PairSchema) where
    serve-Ensures :
        (requests : List OracleRequest) (envelope : Bool)
        → Ensures x sign
            (AuthenticReply x sign)
            (serve x abi sign chain_id schema requests envelope)
    serve-Ensures requests envelope = Ensures-bind (current sign) _ current-Ensures (λ registry p.
        unless_failed-Ensures _ (tag schema) envelope _ _ (by_schema-Ensures schema _ envelope))

    pub pair_bound-Ensures :
        (allow_failure : Bool) (body : Bytes)
        → Ensures x sign
            (AuthenticReply x sign)
            (post_signed_context_pair_bound x abi sign chain_id schema allow_failure body)
    unfolding post_signed_context_pair_bound
    pair_bound-Ensures allow_failure body =
        Ensures-bind (lift _) _ (Ensures-lift-Any _) (λ decoded p.
          Ensures-if _ _ _ (finish-Ensures (tag schema) [] _ tt) (serve-Ensures decoded.items _))
