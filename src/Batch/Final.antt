-- ===== src/Batch/Final.antt =====
-- What every response of a batch was checked for at the end, at one common time.
use st0x_oracle_server.World.{World, continue-eq-ok, pure, lift, M}
use st0x_oracle_server.Base.Int.{ℤ, ◌≤ℤ◌, ltb_ℤ}
use st0x_oracle_server.Base.{
  some, ℕ, String, Bool, List, ◌≡◌, true, ok, Bool-cases, Option-cases, inl, inr, arith, string_eq,
  subst, Result, [], ◌∷◌, err, sym, refl,
}
use st0x_oracle_server.Base.HashMap
use st0x_oracle_server.Base.{if◌then◌else◌}
use st0x_oracle_server.Wire.{Word, Quote}
use st0x_oracle_server.Signer.{Attempt}
use st0x_oracle_server.Pricing.{QuoteSnapshot}
use st0x_oracle_server.Registry.{TokenRegistry}
use st0x_oracle_server.Batch.{
  BuiltSlot, revalidate, same_mapping, mapped, current_quote, within_bound, revalidate_batch,
  revalidate_slot, next,
}
use st0x_oracle_server.Context.{OracleResponse}
use st0x_oracle_server.Validity.Expiry.{Binds, Unexpired, effective_expiry_unix_ms_iff}
use st0x_oracle_server.Validity.{
  validate_quote_liveness, validate_expiry_deadline, validate_quote_address, validate_quote_expiry,
  effective_expiry_unix_ms,
}
use st0x_oracle_server.Refusal.{batch_final, AppError}
use st0x_oracle_server.Validity.Checks.{
  validate_expiry_deadline-ok, validate_quote_address-ok, validate_quote_expiry-ok,
}
use mathlib.Core.Bool.{false}

module _ (sign : Word → ℕ → Attempt) (endpoint : String) (signs : Bool) (checked_at : ℤ)
    (current : List (String × QuoteSnapshot)) (registry : TokenRegistry) where
  -- The slot's token is still registered under its symbol, its expiry is ahead of the common time,
  -- and so is that of the current quote, which is for the same tokens and does not expire sooner
  -- than a signed expiry.
  pub record Holds (slot : BuiltSlot) : Type 0 where
    pub mapping : same_mapping sign endpoint signs checked_at current registry slot.pair ≡ true
    pub ahead : Unexpired slot.response.validity_expiry_unix_ms checked_at signs
    pub now : QuoteSnapshot
    pub found : HashMap.get slot.pair.symbol current ≡ some now
    pub base : now.quote.base ≡ slot.pair.token
    pub settlement : now.quote.quote ≡ registry.quote_token
    pub bound : ℤ
    pub binds : Binds now.quote bound
    pub bound_ahead : Unexpired bound checked_at signs
    pub within : signs ≡ true → slot.response.validity_expiry_unix_ms ≤ℤ bound

  mapped-ok :
      (slot : BuiltSlot) (w v : World) (u : Unit {0})
      → mapped sign endpoint signs checked_at current registry slot.pair w ≡ (ok u, v)
      → same_mapping sign endpoint signs checked_at current registry slot.pair ≡ true
  mapped-ok slot w v u h =
      elim (Bool-cases (same_mapping sign endpoint signs checked_at current registry slot.pair)) [
        | inl e ↦ e
        | inr e ↦ absurd (ground (arith, e, h))
      ]

  current_quote-ok :
      (symbol : String) (w v : World) (s : QuoteSnapshot)
      → current_quote sign endpoint signs checked_at current registry symbol w ≡ (ok s, v)
      → HashMap.get symbol current ≡ some s
  current_quote-ok symbol w v s h = elim (Option-cases (HashMap.get symbol current)) [
    | inl e ↦ absurd (ground (arith, e, h))
    | inr (t, e) ↦ ground (arith, e, h)
  ]

  within-ok :
      (slot : BuiltSlot) (q : Quote) (bound : ℤ) (w v : World) (u : Unit {0}) (b : Bool)
      → Binds q bound
      → (if b then within_bound sign endpoint b checked_at current registry slot q else pure tt) w
        ≡ (ok u, v)
      → b ≡ true
      → slot.response.validity_expiry_unix_ms ≤ℤ bound
  within-ok slot q bound w v u true binds h t =
      let eff : effective_expiry_unix_ms q ≡ ok bound =
        (effective_expiry_unix_ms_iff q bound).0.1 binds in
      let (b, w1, e, g) = continue-eq-ok (lift (effective_expiry_unix_ms q) w) _ h in
      let same : b ≡ bound = ground (arith, eff, e) in
      elim (Bool-cases (ltb_ℤ b slot.response.validity_expiry_unix_ms)) [
        | inl over ↦ absurd (ground (arith, over, g))
        | inr under ↦
            subst (λ i. slot.response.validity_expiry_unix_ms ≤ℤ i) same (ground (arith, under))
      ]
  within-ok slot q bound w v u false binds h t = absurd (ground arith)

  -- A slot that passes the last check holds its own response, unchanged.
  pub revalidate-Holds :
      (slot : BuiltSlot) (w v : World) (r : OracleResponse)
      → revalidate sign endpoint signs checked_at current registry slot w ≡ (ok r, v)
      → (r ≡ slot.response.response) × Holds slot
  unfolding revalidate
  revalidate-Holds slot w v r h0 =
      let (u1, w1, e1, h1) =
        continue-eq-ok (mapped sign endpoint signs checked_at current registry slot.pair w) _ h0 in
      let (u2, w2, e2, h2) =
        continue-eq-ok
          (validate_quote_liveness sign endpoint slot.pair.symbol batch_final slot.quote w1) _ h1 in
      let (u3, w3, e3, h3) =
        continue-eq-ok
          (validate_expiry_deadline endpoint slot.pair.symbol batch_final
            slot.response.validity_expiry_unix_ms checked_at signs w2)
          _ h2 in
      let (s, w4, e4, h4) =
        continue-eq-ok
          (current_quote sign endpoint signs checked_at current registry slot.pair.symbol w3) _
          h3 in
      let (u5, w5, e5, h5) =
        continue-eq-ok (validate_quote_liveness sign endpoint slot.pair.symbol batch_final s w4) _
          h4 in
      let (u6, w6, e6, h6) =
        continue-eq-ok
          (validate_quote_address s.quote slot.pair registry.quote_token endpoint batch_final w5) _
          h5 in
      let (u7, w7, e7, h7) =
        continue-eq-ok
          (validate_quote_expiry endpoint slot.pair.symbol batch_final s.quote checked_at signs w6)
          _ h6 in
      let (u8, w8, e8, h8) =
        continue-eq-ok
          ((if signs
              then within_bound sign endpoint signs checked_at current registry slot s.quote
              else pure tt)
            w7)
          _ h7 in
      let (ahead, same3) =
        validate_expiry_deadline-ok sign endpoint slot.pair.symbol batch_final
          slot.response.validity_expiry_unix_ms checked_at signs w2 w3 e3 in
      let (base, settlement, same6) =
        validate_quote_address-ok sign s.quote slot.pair registry.quote_token endpoint batch_final
          w5 w6 e6 in
      let (bound, binds, bound_ahead, same7) =
        validate_quote_expiry-ok sign endpoint slot.pair.symbol batch_final s.quote checked_at signs
          w6 w7 e7 in
      (
        ground (arith, h8),
        record {
          mapping = mapped-ok slot w w1 u1 e1;
          ahead = ahead;
          now = s;
          found = current_quote-ok slot.pair.symbol w3 w4 s e4;
          base = base;
          settlement = settlement;
          bound = bound;
          binds = binds;
          bound_ahead = bound_ahead;
          within = within-ok slot s.quote bound w7 w8 u8 signs binds e8;
        },
      )

  -- Item by item: an earlier error stands unchanged in its place, and a slot that was built is
  -- answered with its own response, which passed the last check, or with an error.
  pub data Answers
      : List (Result AppError BuiltSlot) → List (Result AppError OracleResponse) → Type 0 where
    no_more : Answers [] []
    still_failed :
        {slots : List (Result AppError BuiltSlot)} {items : List (Result AppError OracleResponse)}
        → (e : AppError) → Answers slots items
        → Answers (err e ∷ slots) (err e ∷ items)
    now_refused :
        {slots : List (Result AppError BuiltSlot)} {items : List (Result AppError OracleResponse)}
        → (slot : BuiltSlot) → (e : AppError) → Answers slots items
        → Answers (ok slot ∷ slots) (err e ∷ items)
    passed :
        {slots : List (Result AppError BuiltSlot)} {items : List (Result AppError OracleResponse)}
        → (slot : BuiltSlot) → Holds slot
        → Answers slots items
        → Answers (ok slot ∷ slots) (ok slot.response.response ∷ items)

  -- The item that the last check makes of a slot.
  abbrev ItemOf : Result AppError BuiltSlot → Result AppError OracleResponse → Type 0
  ItemOf slot item =
      (slots : List (Result AppError BuiltSlot)) (items : List (Result AppError OracleResponse))
      → Answers slots items
      → Answers (slot ∷ slots) (item ∷ items)

  revalidate_slot-ItemOf :
      (slot : Result AppError BuiltSlot) (w v : World) (item : Result AppError OracleResponse)
      → revalidate_slot sign endpoint signs checked_at current registry slot w ≡ (item, v)
      → ItemOf slot item
  revalidate_slot-ItemOf (err e) w v item h slots items a =
      subst (λ i. Answers (err e ∷ slots) (i ∷ items)) (ground arith) (still_failed e a)
  revalidate_slot-ItemOf (ok slot) w v (err e) h slots items a = now_refused slot e a
  revalidate_slot-ItemOf (ok slot) w v (ok r) h slots items a =
      let (same, holds) = revalidate-Holds slot w v r h in
      subst (λ i. Answers (ok slot ∷ slots) (ok i ∷ items)) (sym same) (passed slot holds a)

  next-Answers :
      (slot : Result AppError BuiltSlot) (slots : List (Result AppError BuiltSlot))
      (envelope : Bool) (p : Result AppError OracleResponse × World)
      (rest : M (List (Result AppError OracleResponse))) (w' : World)
      (items : List (Result AppError OracleResponse))
      → ItemOf slot p.0
      → ((v u : World) (more : List (Result AppError OracleResponse))
          → rest v ≡ (ok more, u)
          → Answers slots more)
      → next envelope p rest ≡ (ok items, w')
      → Answers (slot ∷ slots) items
  next-Answers slot slots envelope (ok r, v) rest w' items one more h =
      let (tail, u, e, g) = continue-eq-ok (rest v) _ h in
      subst (Answers (slot ∷ slots)) (ground arith) (one slots tail (more v u tail e))
  next-Answers slot slots true (err f, v) rest w' items one more h =
      let (tail, u, e, g) = continue-eq-ok (rest v) _ h in
      subst (Answers (slot ∷ slots)) (ground arith) (one slots tail (more v u tail e))
  next-Answers slot slots false (err f, v) rest w' items one more h = absurd (ground arith)

  -- The last check of a batch answers every slot in its place: an earlier error stays, and a
  -- response is passed on, unchanged, only when its token is still registered under its symbol,
  -- its expiry and that of the current quote for the same tokens are ahead of the one common time,
  -- and a signed expiry is not later than the current bound.
  pub revalidate_batch-Answers :
      (slots : List (Result AppError BuiltSlot)) (envelope : Bool) (w w' : World)
      (items : List (Result AppError OracleResponse))
      → revalidate_batch sign endpoint signs checked_at current registry slots envelope w
        ≡ (ok items, w')
      → Answers slots items
  unfolding revalidate_batch
  revalidate_batch-Answers [] envelope w w' items h =
      subst (Answers []) {x = []} (ground arith) no_more
  revalidate_batch-Answers (slot ∷ slots) envelope w w' items h =
      let p = revalidate_slot sign endpoint signs checked_at current registry slot w in
      next-Answers slot slots envelope p
        (revalidate_batch sign endpoint signs checked_at current registry slots envelope) w' items
        (revalidate_slot-ItemOf slot w p.1 p.0 refl)
        (λ v u more e. revalidate_batch-Answers slots envelope v u more e) h
