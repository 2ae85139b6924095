-- ===== src/Signer/Preimage.antt =====
-- The bytes that are hashed and signed tell the whole statement, the schema included.
use st0x_oracle_server.Signer.{packed}
use st0x_oracle_server.Context.{ContextError, from_be_bytes}
use st0x_oracle_server.Context.Layout.{
  Signed, context_v5, context_v6, context_v7, context_v5-NineSlots, context_v6-NineSlots,
  context_v7-NineSlots, NineSlots,
}
use st0x_oracle_server.Context.Words.{
  PacksWords, IsSized, IsWord, context_v5-WordsOf, context_v6-WordsOf, context_v7-WordsOf,
}
use st0x_oracle_server.Context.Binding.{
  ParsesExactly, InRange, NineSlots-injective, same_number, IsSome-get_elem?,
}
use st0x_oracle_server.Base.Int.{u64_max}
use st0x_oracle_server.Wire.{Bytes, External, Word}
use st0x_oracle_server.Base.{
  ℕ, length, List, Result, to_option, ◌≤◌, ◌≡◌, All, ◌++◌, [], ok, ◌∷◌, arith, ◌<◌, sym, refl, ◌∙◌,
  subst,
}

append-cancel_both : (p q a b : Bytes) → length p ≡ length q → p ++ a ≡ q ++ b → (p ≡ q) × (a ≡ b)
append-cancel_both [] [] a b n h = (refl, h)
append-cancel_both [] (y ∷ q) a b n h = absurd (omega arith)
append-cancel_both (x ∷ p) [] a b n h = absurd (omega arith)
append-cancel_both (x ∷ p) (y ∷ q) a b n h = ground (arith, append-cancel_both p q a b)

packed-injective :
    (x : External) (c d : List Word) → All IsWord c → All IsWord d → packed x c ≡ packed x d → c ≡ d
packed-injective x [] [] hc hd h = refl
packed-injective x [] ([] ∷ d) hc hd h = absurd (omega (arith, hd.0))
packed-injective x [] ((n ∷ w) ∷ d) hc hd h = absurd cc
packed-injective x ([] ∷ c) [] hc hd h = absurd (omega (arith, hc.0))
packed-injective x ((n ∷ w) ∷ c) [] hc hd h = absurd cc
packed-injective x (v ∷ c) (w ∷ d) hc hd h =
    let (e, r) = append-cancel_both v w (packed x c) (packed x d) (hc.0 ∙ sym hd.0) h in
    let e' = packed-injective x c d hc.1 hd.1 r in cc

-- The schemas that sign an expiry, with what each signs beyond the shared values.
pub data Beyond : Type 0 where
  of_v5 : Beyond
  of_v6 : (nav_ratio : Word) → Beyond
  of_v7 : (chain_id : ℕ) → Beyond

abbrev pub version : Beyond → ℕ
version of_v5 = 5
version (of_v6 nav_ratio) = 6
version (of_v7 chain_id) = 7

module _ (x : External) where
  abbrev pub statement : Signed → Beyond → Result ContextError (List Word)
  statement a of_v5 = context_v5 x a
  statement a (of_v6 nav_ratio) = context_v6 x a nav_ratio
  statement a (of_v7 chain_id) = context_v7 x a chain_id

  -- The same schema and chain; the NAV ratios pack to the same float.
  abbrev pub Same : Beyond → Beyond → Type 0
  Same of_v5 of_v5 = Unit
  Same (of_v6 r) (of_v6 s) =
      to_option (x.float_from_fixed_decimal (from_be_bytes r) 18)
      ≡ to_option (x.float_from_fixed_decimal (from_be_bytes s) 18)
  Same (of_v7 m) (of_v7 n) = m ≡ n
  Same _ _ = ⊥

  abbrev Fits : Beyond → Type 0
  Fits (of_v7 chain_id) = chain_id ≤ u64_max
  Fits _ = Unit

  module _ (packs : PacksWords x) (exact : ParsesExactly x) where
    laid_out :
        (a : Signed) (e : Beyond) (c : List Word)
        → IsSized a
        → statement a e ≡ ok c
        → NineSlots x (version e) a c × All IsWord c × (8 < length c)
    laid_out a of_v5 c s h =
        let (n, l) = context_v5-NineSlots x a c h in
        (n, (context_v5-WordsOf x packs a s c h).0, omega arith)
    laid_out a (of_v6 r) c s h =
        let (n, e, l) = context_v6-NineSlots x a c r h in
        (n, (context_v6-WordsOf x packs a s c r h).0, omega arith)
    laid_out a (of_v7 i) c s h =
        let (n, e, l) = context_v7-NineSlots x a c i h in
        (n, (context_v7-WordsOf x packs a s c i h).0, omega arith)

    Same-Beyond :
        (a b : Signed) (e f : Beyond) (c : List Word)
        → version e ≡ version f
        → Fits e
        → Fits f
        → statement a e ≡ ok c
        → statement b f ≡ ok c
        → Same e f
    Same-Beyond a b of_v5 of_v5 c n he hf p q = tt
    Same-Beyond a b (of_v6 r) (of_v6 s) c n he hf p q =
        sym (context_v6-NineSlots x a c r p).1 ∙ (context_v6-NineSlots x b c s q).1
    Same-Beyond a b (of_v7 i) (of_v7 j) c n he hf p q =
        let (sa, na, la) = context_v7-NineSlots x a c i p in
        let (sb, nb, lb) = context_v7-NineSlots x b c j q in
        same_number x exact c 9 i j he hf (IsSome-get_elem? x exact c 9 (omega arith)) na nb
    Same-Beyond a b of_v5 (of_v6 s) c n he hf p q = absurd (omega arith)
    Same-Beyond a b of_v5 (of_v7 j) c n he hf p q = absurd (omega arith)
    Same-Beyond a b (of_v6 r) of_v5 c n he hf p q = absurd (omega arith)
    Same-Beyond a b (of_v6 r) (of_v7 j) c n he hf p q = absurd (omega arith)
    Same-Beyond a b (of_v7 i) of_v5 c n he hf p q = absurd (omega arith)
    Same-Beyond a b (of_v7 i) (of_v6 s) c n he hf p q = absurd (omega arith)

    version_small : (e : Beyond) → version e ≤ u64_max
    version_small of_v5 = omega arith
    version_small (of_v6 r) = omega arith
    version_small (of_v7 i) = omega arith

    statement-injective :
        (a b : Signed) (e f : Beyond) (c : List Word)
        → InRange a
        → InRange b
        → IsSized a
        → IsSized b
        → Fits e
        → Fits f
        → statement a e ≡ ok c
        → statement b f ≡ ok c
        → (a ≡ b) × Same e f
    statement-injective a b e f c ra rb sa sb he hf p q =
        let (na, wa, la) = laid_out a e c sa p in
        let (nb, wb, lb) = laid_out b f c sb q in
        let v =
          same_number x exact c 0 (version e) (version f) (version_small e) (version_small f)
            (IsSome-get_elem? x exact c 0 (omega (arith, la))) na.schema nb.schema in
        (
          NineSlots-injective x exact (version f) a b c la ra rb
              (subst (λ n. NineSlots x n a c) v na) nb,
          Same-Beyond a b e f c v he hf p q,
        )

    -- Two statements of v5, v6 or v7 whose hashed bytes are the same are of one schema and agree in
    -- the price, the times, the session, both tokens, the expiry and the chain, and in the packed NAV
    -- ratio; where packed floats are words that hold every `u64` exactly, the numbers are of that
    -- type, tokens have 20 bytes, and the price and the session tag are words.
    pub packed-statement :
        (a b : Signed) (e f : Beyond) (c d : List Word)
        → InRange a
        → InRange b
        → IsSized a
        → IsSized b
        → Fits e
        → Fits f
        → statement a e ≡ ok c
        → statement b f ≡ ok d
        → packed x c ≡ packed x d
        → (a ≡ b) × Same e f
    packed-statement a b e f c d ra rb sa sb he hf p q h =
        let same = packed-injective x c d (laid_out a e c sa p).1 (laid_out b f d sb q).1 h in
        statement-injective a b e f c ra rb sa sb he hf p
          (subst (λ t. statement b f ≡ ok t) (sym same) q)
