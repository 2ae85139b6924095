-- ===== src/Batch/Authentic.antt =====
-- The reply of a batch, of items that are signed by the key.
use st0x_oracle_server.World.{World}
use st0x_oracle_server.World.Trusted.{Authentic, Trusted}
use st0x_oracle_server.World.Ensures.{Ensures, IfOk}
use st0x_oracle_server.Batch.{
  ContextResponse, BatchItemResponse, finish, record_items, all_ok, strict, enveloped, signed_item,
  error_item, item_of,
}
use st0x_oracle_server.Batch.Trusted.{record_item-Trusted, strict_abort-Ensures}
use st0x_oracle_server.Wire.{External, Word}
use st0x_oracle_server.Base.{
  ℕ, All, String, List, Result, ◌∷◌, map, Bool, [], ok, err, inl, inr, true, and_then, subst,
}
use st0x_oracle_server.Signer.{Attempt}
use st0x_oracle_server.Refusal.{AppError}
use st0x_oracle_server.Context.{OracleResponse}
use st0x_oracle_server.Base.Errors.{Result-cases}
use mathlib.Core.Bool.{false}
use st0x_oracle_server.Batch.Requests.{record_items-requests, record_item_outcome-requests}

module _ (x : External) (sign : Word → ℕ → Attempt) where
  abbrev pub AuthenticItem : BatchItemResponse → Type 0
  AuthenticItem (signed_item r) = Authentic x sign r
  AuthenticItem (error_item e) = Unit

  -- Every response in the reply was signed by the key.
  abbrev pub AuthenticReply : ContextResponse → Type 0
  AuthenticReply (strict responses) = All (Authentic x sign) responses
  AuthenticReply (enveloped items) = All AuthenticItem items

  enveloped-Authentic :
      (items : List (Result AppError OracleResponse))
      → All (IfOk (Authentic x sign)) items
      → All AuthenticItem (map item_of items)
  unfolding item_of
  enveloped-Authentic [] a = tt
  enveloped-Authentic (ok r ∷ items) a = (a.0, enveloped-Authentic items a.1)
  enveloped-Authentic (err e ∷ items) a = (tt, enveloped-Authentic items a.1)

module _ {A : Type 0} (P : A → Type 0) where
  prepended :
      (a : A) (r : Result AppError (List A))
      → P a
      → IfOk (All P) r
      → IfOk (All P) (and_then r (λ rest. ok (a ∷ rest)))
  prepended a (ok rest) p q = (p, q)
  prepended a (err e) p q = tt

  all_ok-IfOk :
      (items : List (Result AppError A)) → All (IfOk P) items → IfOk (All P) (all_ok items)
  unfolding all_ok
  all_ok-IfOk [] h = tt
  all_ok-IfOk (err e ∷ items) h = tt
  all_ok-IfOk (ok a ∷ items) h = prepended a (all_ok items) h.0 (all_ok-IfOk items h.1)

module _ {x : External} {sign : Word → ℕ → Attempt} where
  record_items-Trusted :
      (endpoint : String) (items : List (Result AppError OracleResponse)) (w : World)
      → Trusted x sign w
      → Trusted x sign (record_items endpoint items w)
  unfolding record_items
  record_items-Trusted endpoint [] w t = t
  record_items-Trusted endpoint (item ∷ items) w t =
      record_items-Trusted endpoint items _ (record_item-Trusted endpoint _ 1 w t)

  pub finish-Ensures :
      (endpoint : String) (items : List (Result AppError OracleResponse)) (envelope : Bool)
      → All (IfOk (Authentic x sign)) items
      → Ensures x sign (AuthenticReply x sign) (finish endpoint items envelope)
  unfolding finish
  finish-Ensures endpoint items true a = record {
    at = λ w t. (record_items-Trusted endpoint items w t, enveloped-Authentic x sign items a);
    requests = λ w t. record_items-requests endpoint items w;
  }
  finish-Ensures endpoint items false a = elim (Result-cases (all_ok items)) [
    | inl (responses, e) ↦
        rw (finish, e)
          (record {
            at = λ w t. (
              record_item-Trusted endpoint "ok" _ w t,
              subst (IfOk (All (Authentic x sign))) e (all_ok-IfOk (Authentic x sign) items a),
            );
            requests = λ w t. record_item_outcome-requests endpoint "ok" _ w;
          })
    | inr (why, e) ↦ rw (finish, e) (strict_abort-Ensures endpoint why)
  ]
