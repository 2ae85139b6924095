-- ===== src/Batch/Trusted.antt =====
-- The slots of a batch that is built in a trusted state.
use st0x_oracle_server.World.{World, M}
use st0x_oracle_server.World.Trusted.{Trusted}
use st0x_oracle_server.World.Ensures.{Ensures, IfOk, Any, Ensures-pure, Ensures-bind}
use st0x_oracle_server.Batch.{
  next, build_slot, build_slots, or_abort, aborting, strict_abort, record_item_outcome,
}
use st0x_oracle_server.Wire.{External, Word}
use st0x_oracle_server.Base.{
  ℕ, String, Bool, Result, List, Bool-cases, nat_beq, ok, All, inl, err, ◌∷◌, inr, true, [],
  string_eq, ◌≡◌, ◌∙◌, refl,
}
use st0x_oracle_server.Signer.{Attempt}
use st0x_oracle_server.Refusal.{AppError, code}
use mathlib.Core.Bool.{false}
use st0x_oracle_server.Batch.Requests.{record_item_outcome-requests, aborting-requests}

module _ {x : External} {sign : Word → ℕ → Attempt} where
  pub record_item-Trusted :
      (endpoint what : String) (count : ℕ) (w : World)
      → Trusted x sign w
      → Trusted x sign (record_item_outcome endpoint what count w)
  unfolding record_item_outcome
  record_item-Trusted endpoint what count w t = elim (Bool-cases (nat_beq count 0)) [
    | inl e ↦ rw e t
    | inr e ↦ rw e (record { signer = t.signer; reuse = t.reuse; others = t.others })
  ]

  pub strict_abort-Ensures :
      {A : Type 0} {P : A → Type 0} (endpoint : String) (e : AppError)
      → Ensures x sign P (strict_abort endpoint e)
  unfolding strict_abort
  strict_abort-Ensures endpoint e = record {
    at = λ w t. (record_item-Trusted endpoint (code e) 1 w t, tt);
    requests = λ w t. record_item_outcome-requests endpoint (code e) 1 w;
  }

  module _ {A : Type 0} where
    aborted :
        (P : A → Type 0) (endpoint : String) (r : Result AppError A × World)
        → Trusted x sign r.1
        → IfOk P r.0
        → Trusted x sign (aborting endpoint r).1 × IfOk P (aborting endpoint r).0
    aborted P endpoint (ok a, v) t p = (t, p)
    aborted P endpoint (err e, v) t p = (strict_abort-Ensures endpoint e).at v t

  module _ {A : Type 0} {P : A → Type 0} where
    pub or_abort-Ensures :
        (endpoint : String) (m : M A) → Ensures x sign P m → Ensures x sign P (or_abort endpoint m)
    unfolding or_abort
    or_abort-Ensures endpoint m p = record {
      at = λ w t. let (t', q) = p.at w t in aborted P endpoint (m w) t' q;
      requests = λ w t. aborting-requests endpoint (m w) ∙ p.requests w t;
    }

    -- Of a slot and the others.
    pub next-Trusted :
        (envelope : Bool) (r : Result AppError A × World) (rest : M (List (Result AppError A)))
        → Trusted x sign r.1
        → IfOk P r.0
        → Ensures x sign (All (IfOk P)) rest
        → Trusted x sign (next envelope r rest).1 × IfOk (All (IfOk P)) (next envelope r rest).0
    next-Trusted envelope (ok a, v) rest t p q =
        (Ensures-bind rest _ q (λ ts ps. Ensures-pure (ok a ∷ ts) (p, ps))).at v t
    next-Trusted true (err e, v) rest t p q =
        (Ensures-bind rest _ q (λ ts ps. Ensures-pure (err e ∷ ts) (tt, ps))).at v t
    next-Trusted false (err e, v) rest t p q = (t, tt)

    pub next-requests :
        (envelope : Bool) (r : Result AppError A × World) (rest : M (List (Result AppError A)))
        → Trusted x sign r.1
        → Ensures x sign (All (IfOk P)) rest
        → (next envelope r rest).1.requests ≡ r.1.requests
    next-requests envelope (ok a, v) rest t q =
        (Ensures-bind rest _ q (λ ts ps. Ensures-pure {P = Any} (ok a ∷ ts) tt)).requests v t
    next-requests true (err e, v) rest t q =
        (Ensures-bind rest _ q (λ ts ps. Ensures-pure {P = Any} (err e ∷ ts) tt)).requests v t
    next-requests false (err e, v) rest t q = refl

  module _ {S T : Type 0} {P : T → Type 0} (build_one : S → M T)
      (builds : (s : S) → Ensures x sign P (build_one s)) where
    build_slot-Trusted :
        (slot : Result AppError S) (w : World)
        → Trusted x sign w
        → Trusted x sign (build_slot build_one slot w).1 × IfOk P (build_slot build_one slot w).0
    build_slot-Trusted (ok s) w t = (builds s).at w t
    build_slot-Trusted (err e) w t = (t, tt)

    build_slot-requests :
        (slot : Result AppError S) (w : World)
        → Trusted x sign w
        → (build_slot build_one slot w).1.requests ≡ w.requests
    build_slot-requests (ok s) w t = (builds s).requests w t
    build_slot-requests (err e) w t = refl

    pub build_slots-Ensures :
        (slots : List (Result AppError S)) (envelope : Bool)
        → Ensures x sign (All (IfOk P)) (build_slots build_one slots envelope)
    unfolding build_slots
    build_slots-Ensures [] envelope = record { at = λ w t. (t, tt); requests = λ w t. refl }
    build_slots-Ensures (slot ∷ slots) envelope = record {
      at = λ w t.
          let (t', p) = build_slot-Trusted slot w t in
          next-Trusted envelope (build_slot build_one slot w) (build_slots build_one slots envelope)
            t' p (build_slots-Ensures slots envelope);
      requests = λ w t.
          next-requests envelope (build_slot build_one slot w)
            (build_slots build_one slots envelope) (build_slot-Trusted slot w t).0
            (build_slots-Ensures slots envelope)
          ∙ build_slot-requests slot w t;
    }
