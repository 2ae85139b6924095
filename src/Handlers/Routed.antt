-- ===== src/Handlers/Routed.antt =====
-- The routes keep a trusted state, and reply with signatures of the key only.
use st0x_oracle_server.Query
use st0x_oracle_server.World.{World, M}
use st0x_oracle_server.World.Trusted.{Trusted}
use st0x_oracle_server.World.Ensures.{Ensures, IfOk}
use st0x_oracle_server.Batch.{ContextResponse, record_request_outcome, outcome}
use st0x_oracle_server.Batch.Authentic.{AuthenticReply}
use st0x_oracle_server.Handlers.{Abi}
use st0x_oracle_server.Handlers.Authentic.{v1_inner-Ensures, pair_bound-Ensures}
use st0x_oracle_server.Handlers.Endpoints.{
  counted, post_signed_context_v1, post_signed_context_v4, post_signed_context_v5,
  post_signed_context_v6, post_signed_context_v7,
}
use st0x_oracle_server.Wire.{External, Word, Bytes}
use st0x_oracle_server.Base.{ℕ, Result, String, Option, ok, err, ◌≡◌, ◌∙◌, ◌∷◌, ap, refl}
use st0x_oracle_server.Signer.{Attempt}
use st0x_oracle_server.Refusal.{AppError}
use st0x_oracle_server.Response.{v4, v5, v6, v7}

-- `ok`, `empty`, `failed` or `partial` for a reply, and `error` for an error.
abbrev pub outcome_of : Result AppError ContextResponse → String
outcome_of (ok response) = outcome response
outcome_of (err e) = "error"

-- The state after a request is trusted again, every response in its reply is signed by the key, and
-- one request was counted, with its outcome.
abbrev pub ServedAuthentic :
    External
    → (Word → ℕ → Attempt)
    → String
    → World
    → Result AppError ContextResponse × World
    → Type 0
ServedAuthentic x sign endpoint w (reply, v) =
    Trusted x sign v
    × IfOk (AuthenticReply x sign) reply
    × (v.requests ≡ (endpoint, outcome_of reply) ∷ w.requests)

recorded-requests :
    (endpoint : String) (reply : Result AppError ContextResponse) (w : World)
    → (record_request_outcome endpoint reply w).requests ≡ (endpoint, outcome_of reply) ∷ w.requests
unfolding record_request_outcome
recorded-requests endpoint (ok r) w = refl
recorded-requests endpoint (err e) w = refl

recorded-Trusted :
    (x : External) (sign : Word → ℕ → Attempt) (endpoint : String)
    (reply : Result AppError ContextResponse) (w : World)
    → Trusted x sign w
    → Trusted x sign (record_request_outcome endpoint reply w)
unfolding record_request_outcome
recorded-Trusted x sign endpoint (ok r) w t = record {
  signer = t.signer;
  reuse = t.reuse;
  others = t.others;
}
recorded-Trusted x sign endpoint (err e) w t = record {
  signer = t.signer;
  reuse = t.reuse;
  others = t.others;
}

counted-Authentic :
    (x : External) (sign : Word → ℕ → Attempt) (endpoint : String) (m : M ContextResponse)
    (w : World)
    → Trusted x sign w
    → Ensures x sign (AuthenticReply x sign) m
    → ServedAuthentic x sign endpoint w (counted endpoint m w)
counted-Authentic x sign endpoint m w t e =
    let (t', a) = e.at w t in
    (
      recorded-Trusted x sign endpoint (m w).0 (m w).1 t',
      a,
      recorded-requests endpoint (m w).0 (m w).1
          ∙ ap (λ r. (endpoint, outcome_of (m w).0) ∷ r) (e.requests w t),
    )

module _ (x : External) (abi : Abi) (sign : Word → ℕ → Attempt) (chain_id : ℕ) where
  -- In a state whose caches hold only what the key signed, while others do anything but store a
  -- response that the key did not sign, every route replies with an error or with responses each of
  -- which carries a signature that the key made of that response's own context, and names the key's
  -- address; it leaves such a state behind, and it counts one request, under its own schema and with
  -- the outcome of its reply.
  pub routes-Authentic :
      (query : Option Bytes) (body : Bytes) (w : World)
      → Trusted x sign w
      → ServedAuthentic x sign "v1" w (post_signed_context_v1 x abi sign chain_id query body w)
        × ServedAuthentic x sign "v4" w (post_signed_context_v4 x abi sign chain_id query body w)
        × ServedAuthentic x sign "v5" w (post_signed_context_v5 x abi sign chain_id query body w)
        × ServedAuthentic x sign "v6" w (post_signed_context_v6 x abi sign chain_id query body w)
        × ServedAuthentic x sign "v7" w (post_signed_context_v7 x abi sign chain_id query body w)
  unfolding post_signed_context_v1 post_signed_context_v4 post_signed_context_v5
      post_signed_context_v6 post_signed_context_v7
  routes-Authentic query body w t =
      let flag = Query.parse query in
      (
        counted-Authentic x sign "v1" _ w t (v1_inner-Ensures x abi sign chain_id flag body),
        counted-Authentic x sign "v4" _ w t (pair_bound-Ensures x abi sign chain_id v4 flag body),
        counted-Authentic x sign "v5" _ w t (pair_bound-Ensures x abi sign chain_id v5 flag body),
        counted-Authentic x sign "v6" _ w t (pair_bound-Ensures x abi sign chain_id v6 flag body),
        counted-Authentic x sign "v7" _ w t (pair_bound-Ensures x abi sign chain_id v7 flag body),
      )
