-- ===== src/Query/Last.antt =====
-- The last occurrence of the flag decides.
use st0x_oracle_server.Base.{
  some, ℕ, List, ◌≡◌, ◌++◌, All, ◌∷◌, nat_beq, Bool-cases, refl, arith, false, inl, nat_beq_iff, [],
  inr, ap, ◌∙◌,
}
use st0x_oracle_server.Query.{last_value, parse, flag_name, is_set, key_value, set_in}
use st0x_oracle_server.Base.Text.{split, onto_first}
use st0x_oracle_server.Wire.{Bytes}

split-some : (s : ℕ) (a : Bytes) → (p : Bytes) × (ps : List Bytes) × (split s a ≡ p ∷ ps)
unfolding split
split-some s [] = ([], [], refl)
split-some s (c ∷ a) =
    let (p, ps, e) = split-some s a in
    elim (Bool-cases (nat_beq c s)) [
      | inl t ↦ ([], split s a, ground (arith, t))
      | inr t ↦ (c ∷ p, ps, rw (t, e) refl)
    ]

onto_first-append :
    (c : ℕ) (a b : List Bytes)
    → (p : Bytes) × (ps : List Bytes) × (a ≡ p ∷ ps)
    → onto_first c (a ++ b) ≡ onto_first c a ++ b
onto_first-append c a b (p, ps, e) = rw e refl

split_of_append : (s : ℕ) (a b : Bytes) → split s (a ++ s ∷ b) ≡ split s a ++ split s b
unfolding split
split_of_append s [] b = ground (arith, nat_beq_iff s s)
split_of_append s (c ∷ a) b = elim (Bool-cases (nat_beq c s)) [
  | inl e ↦ rw (e, split_of_append s a b) refl
  | inr e ↦
      rw (e, split_of_append s a b) (onto_first-append c (split s a) (split s b) (split-some s a))
]

last_value-append :
    (ps pairs : List Bytes) (v : Bytes)
    → last_value pairs ≡ some v
    → last_value (ps ++ pairs) ≡ some v
unfolding last_value
last_value-append [] pairs v h = h
last_value-append (p ∷ ps) pairs v h = ground (arith, last_value-append ps pairs v h)

split-whole : (s : ℕ) (v : Bytes) → All (λ c. nat_beq c s ≡ false) v → split s v ≡ v ∷ []
unfolding split
split-whole s [] h = refl
split-whole s (c ∷ v) h = rw (h.0, split-whole s v h.1) refl

flag-whole :
    (value : Bytes)
    → All (λ c. nat_beq c 38 ≡ false) value
    → All (λ c. nat_beq c 38 ≡ false) (flag_name ++ 61 ∷ value)
flag-whole value h = (
  refl,
  (refl, (refl, (refl, (refl, (refl, (refl, (refl, (refl, (refl, (refl, (refl, (refl, h)))))))))))),
)

own : (value : Bytes) → last_value ((flag_name ++ 61 ∷ value) ∷ []) ≡ some value
unfolding last_value key_value
own value = refl

-- Whatever stands before it, a last pair `allowFailure=value` decides: the flag is set exactly when
-- the value is `1` or, in any case, `true`.
pub parse-last :
    (before value : Bytes)
    → All (λ c. nat_beq c 38 ≡ false) value
    → parse (some (before ++ 38 ∷ (flag_name ++ 61 ∷ value))) ≡ is_set value
unfolding parse
parse-last before value h =
    let pair : Bytes = flag_name ++ 61 ∷ value in
    ap set_in (
      ap last_value (split_of_append 38 before pair)
      ∙ last_value-append (split 38 before) (split 38 pair) value
          (ap last_value (split-whole 38 pair (flag-whole value h)) ∙ own value))
