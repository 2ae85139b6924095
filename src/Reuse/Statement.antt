-- ===== src/Reuse/Statement.antt =====
-- Two contexts are one statement when they agree outside the two time slots.
use st0x_oracle_server.Base.{
  ℕ, List, ◌+◌, length, ◌≡◌, ◌≢◌, true, ◌↔◌, get_elem?, arith, [], ◌∷◌, bytes_beq_iff, suc, refl,
  zero,
}
use st0x_oracle_server.Reuse.{same_statement, same_from, publish_time_slot, expiry_slot}
use st0x_oracle_server.Wire.{Word}

-- Every slot but the publish time and the expiry is the same.
abbrev pub AgreeFrom : ℕ → List Word → List Word → Type 0
AgreeFrom n a b =
    (i : ℕ) → n + i ≢ publish_time_slot → n + i ≢ expiry_slot → get_elem? a i ≡ get_elem? b i

same_from-Agree :
    (n : ℕ) (a b : List Word) → length a ≡ length b → same_from n a b ≡ true → AgreeFrom n a b
unfolding same_from
same_from-Agree n [] [] l h i p q = refl
same_from-Agree n [] (y ∷ b) l h i p q = absurd (omega arith)
same_from-Agree n (x ∷ a) [] l h i p q = absurd (omega arith)
same_from-Agree n (x ∷ a) (y ∷ b) l h zero p q = ground (arith, bytes_beq_iff x y)
same_from-Agree n (x ∷ a) (y ∷ b) l h (suc i) p q =
    same_from-Agree (suc n) a b (omega arith) (ground arith) i (omega arith) (omega arith)

Agree-same_from :
    (n : ℕ) (a b : List Word) → length a ≡ length b → AgreeFrom n a b → same_from n a b ≡ true
unfolding same_from
Agree-same_from n [] [] l h = refl
Agree-same_from n [] (y ∷ b) l h = refl
Agree-same_from n (x ∷ a) [] l h = refl
Agree-same_from n (x ∷ a) (y ∷ b) l h = ground (
  arith,
  bytes_beq_iff x y,
  h 0,
  Agree-same_from (suc n) a b (omega arith) (λ i p q. h (suc i) (omega arith) (omega arith)),
)

-- `same_statement` holds exactly when the contexts have one length and agree in every slot but the
-- publish time and the expiry.
pub same_statement_iff :
    (a b : List Word)
    → (same_statement a b ≡ true) ↔ (
        (length a ≡ length b)
        × ((i : ℕ) → i ≢ publish_time_slot → i ≢ expiry_slot → get_elem? a i ≡ get_elem? b i))
unfolding same_statement
same_statement_iff a b = (to, from)
  where
    to :
        same_statement a b ≡ true
        → (length a ≡ length b)
          × ((i : ℕ) → i ≢ publish_time_slot → i ≢ expiry_slot → get_elem? a i ≡ get_elem? b i)
    to h =
        let l : length a ≡ length b = ground arith in
        (l, λ i p q. same_from-Agree 0 a b l (ground arith) i (omega arith) (omega arith))

    from :
        (length a ≡ length b)
          × ((i : ℕ) → i ≢ publish_time_slot → i ≢ expiry_slot → get_elem? a i ≡ get_elem? b i)
        → same_statement a b ≡ true
    from h = ground (arith, Agree-same_from 0 a b h.0 (λ i p q. h.1 i (omega arith) (omega arith)))
