-- ===== src/Validity/Expiry.antt =====
-- The expiry that is signed is never later than the quote's own bounds.
use st0x_oracle_server.Base.Int.{ℤ, ◌<ℤ◌, pos, div_euclid, min_ℤ, ◌≤ℤ◌, negsuc}
use st0x_oracle_server.Wire.{Quote}
use st0x_oracle_server.Base.{
  Bool, ◌≡◌, ℕ, some, true, ok, ◌↔◌, arith, ◌*◌, ◌/◌, err, ◌⊎◌, inl, Option-cases, inr, ◌+◌,
  and_then-eq-ok, Nat-cases, suc,
}
use st0x_oracle_server.Validity.{
  quote_is_live, effective_expiry_unix_ms, expiry_from_quote, whole_seconds,
}
use st0x_oracle_server.Refusal.{
  Fault, unavailable, expired_quote, deadline_missing, quote_expiry_out_of_range,
}
use mathlib.Core.Bool.{false}

-- The binding bound of the quote: its expiry or its deadline, whichever is sooner.
abbrev pub Binds : Quote → ℤ → Type 0
Binds q e =
    (d : ℤ) × (q.execution_deadline_unix_ms ≡ some d)
    × (pos 0 <ℤ d)
    × (e ≡ min_ℤ q.expiry_unix_ms d)

-- Not expired at this time, and for an expiry that is signed in seconds, not in seconds either.
abbrev pub Unexpired : ℤ → ℤ → Bool → Type 0
Unexpired expiry now signs =
    (now <ℤ expiry) × (signs ≡ true → div_euclid now 1000 <ℤ div_euclid expiry 1000)

pub quote_is_live_iff :
    (expiry now : ℤ) (signs : Bool)
    → (quote_is_live expiry now signs ≡ true) ↔ Unexpired expiry now signs
unfolding quote_is_live
quote_is_live_iff expiry now true = ground arith
quote_is_live_iff expiry now false = ground arith

-- A quote has an effective expiry exactly when it carries a positive execution deadline; it is then
-- the sooner of the two bounds. Any other quote is refused as expired.
pub effective_expiry_unix_ms_iff :
    (q : Quote) (e : ℤ)
    → ((effective_expiry_unix_ms q ≡ ok e) ↔ Binds q e)
      × (((d : ℤ) → q.execution_deadline_unix_ms ≡ some d → d ≤ℤ pos 0)
          → effective_expiry_unix_ms q ≡ err (unavailable expired_quote deadline_missing))
unfolding effective_expiry_unix_ms
effective_expiry_unix_ms_iff q e = ((to, from), refused)
  where
    to : effective_expiry_unix_ms q ≡ ok e → Binds q e
    to h = elim (Option-cases q.execution_deadline_unix_ms) [
      | inl n ↦ absurd (ground arith)
      | inr (d, s) ↦
          let w : (pos 0 <ℤ d) × (e ≡ min_ℤ q.expiry_unix_ms d) = ground arith in (d, s, w.0, w.1)
    ]

    from : Binds q e → effective_expiry_unix_ms q ≡ ok e
    from (d, s, p, same) = ground arith

    refused :
        ((d : ℤ) → q.execution_deadline_unix_ms ≡ some d → d ≤ℤ pos 0)
        → effective_expiry_unix_ms q ≡ err (unavailable expired_quote deadline_missing)
    refused h = elim (Option-cases q.execution_deadline_unix_ms) [
      | inl n ↦ ground arith
      | inr (d, s) ↦ ground (arith, h d s)
    ]

-- Whole seconds of a time in milliseconds: rounded down, but up to zero in the last second of 1969.
abbrev pub Seconds : ℕ → ℤ → Type 0
Seconds n e =
    ((pos (n * 1000) ≤ℤ e) × (e <ℤ pos (n * 1000 + 1000)))
    ⊎ ((n ≡ 0) × (e <ℤ pos 0) × (negsuc 999 <ℤ e))

pub whole_seconds-Seconds :
    (fault : Fault) (e : ℤ) (n : ℕ) → whole_seconds fault e ≡ ok n → Seconds n e
whole_seconds-Seconds fault (pos m) n h = inl (ground arith)
whole_seconds-Seconds fault (negsuc m) n h = elim (Nat-cases (suc m / 1000)) [
  | inl z ↦ inr (ground arith, omega arith, omega (arith, z))
  | inr (k, z) ↦ absurd (ground arith)
]

-- The expiry in seconds that v5, v6 and v7 sign is that of the binding bound rounded down, so it is
-- never later than the model's expiry or the execution deadline; except that a bound less than one
-- second before 1970 is not refused but becomes 0.
pub expiry_from_quote-Seconds :
    (q : Quote) (n : ℕ) → expiry_from_quote q ≡ ok n → (e : ℤ) × Binds q e × Seconds n e
unfolding expiry_from_quote
expiry_from_quote-Seconds q n h =
    let (e, is, secs) =
      and_then-eq-ok (effective_expiry_unix_ms q) (whole_seconds quote_expiry_out_of_range) h in
    (
      e,
      (effective_expiry_unix_ms_iff q e).0.0 is,
      whole_seconds-Seconds quote_expiry_out_of_range e n secs,
    )
