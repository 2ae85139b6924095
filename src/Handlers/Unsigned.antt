-- ===== src/Handlers/Unsigned.antt =====
-- The routes of the schemas without a settlement expiry, whatever the query says.
use st0x_oracle_server.Query
use st0x_oracle_server.Handlers.{
  post_signed_context_v1_inner, post_signed_context_pair_bound, Result, Abi,
}
use st0x_oracle_server.Handlers.Endpoints.{post_signed_context_v1, post_signed_context_v4}
use st0x_oracle_server.Handlers.Legacy.{Unsigned, v1-Unsigned, v4-Unsigned}
use st0x_oracle_server.Wire.{External, Word, Bytes}
use st0x_oracle_server.Refusal.{AppError}
use st0x_oracle_server.Batch.{ContextResponse}
use st0x_oracle_server.Base.{err, ℕ, ok, ◌≡◌, refl, Option}
use st0x_oracle_server.World.{World}
use st0x_oracle_server.Signer.{Attempt}
use st0x_oracle_server.Response.{v4}

-- An error, an empty reply, or an envelope of errors.
abbrev pub UnsignedReply : Result AppError ContextResponse → Type 0
UnsignedReply (err e) = Unit
UnsignedReply (ok r) = Unsigned r

reply-Unsigned :
    (m : Result AppError ContextResponse × World)
    → ((r : ContextResponse) → m ≡ (ok r, m.1) → Unsigned r)
    → UnsignedReply m.0
reply-Unsigned (err e, w) h = tt
reply-Unsigned (ok r, w) h = h r refl

module _ (x : External) (abi : Abi) (sign : Word → ℕ → Attempt) (chain_id : ℕ) where
  -- The routes `/context/v1` and `/context/v4` never return a signature, whatever the query, the
  -- body and the state, and whatever others do meanwhile: the reply is an error, empty, or an
  -- envelope of errors.
  pub legacy_routes-Unsigned :
      (query : Option Bytes) (body : Bytes) (w : World)
      → UnsignedReply (post_signed_context_v1 x abi sign chain_id query body w).0
        × UnsignedReply (post_signed_context_v4 x abi sign chain_id query body w).0
  unfolding post_signed_context_v1 post_signed_context_v4
  legacy_routes-Unsigned query body w =
      let allow_failure = Query.parse query in
      let v1_inner = post_signed_context_v1_inner x abi sign chain_id allow_failure body w in
      let v4_inner = post_signed_context_pair_bound x abi sign chain_id v4 allow_failure body w in
      (
        reply-Unsigned v1_inner
            (λ r e. v1-Unsigned x abi sign chain_id allow_failure body w v1_inner.1 r e),
        reply-Unsigned v4_inner
            (λ r e. v4-Unsigned x abi sign chain_id allow_failure body w v4_inner.1 r e),
      )
