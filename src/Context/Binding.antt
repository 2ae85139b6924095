-- ===== src/Context/Binding.antt =====
-- A signed context fixes everything that it was built from.
use st0x_oracle_server.Wire.{External, Address, Word}
use st0x_oracle_server.Context.Layout.{
  Signed, NumberAt, context_v7, context_v5, NineSlots, context_v7-NineSlots, context_v5-NineSlots,
}
use st0x_oracle_server.Base.{
  List, ℕ, ◌≤◌, ◌++◌, length, ◌≡◌, get_elem?, ok, replicate, arith, ◌∷◌, sym, ◌<◌, ◌∙◌, [], refl,
  Option-cases, inl, suc, inr, zero,
}
use st0x_oracle_server.Context.{left_padding_from}
use st0x_oracle_server.Base.Int.{u64_max}
use st0x_oracle_server.Base.Decimal.{to_string}
use mathlib.Core.Option.{IsSome}

-- Rain floats hold every `u64` exactly: two numbers whose texts parse to one word are one number.
abbrev pub ParsesExactly : External → Type 0
ParsesExactly x =
    (m n : ℕ) (w : Word)
    → m ≤ u64_max
    → n ≤ u64_max
    → x.float_parse (to_string m) ≡ ok w
    → x.float_parse (to_string n) ≡ ok w
    → m ≡ n

-- The machine types of the arguments.
pub record InRange (a : Signed) : Type 0 where
  pub publish_time : a.publish_time ≤ u64_max
  pub session_start : a.session_start ≤ u64_max
  pub session_end : a.session_end ≤ u64_max
  pub quote_expiry : a.quote_expiry ≤ u64_max
  pub input_token : length a.input_token ≡ 20
  pub output_token : length a.output_token ≡ 20

append-cancel : (p a b : List ℕ) → p ++ a ≡ p ++ b → a ≡ b
append-cancel [] a b h = h
append-cancel (y ∷ p) a b h = append-cancel p a b (cc)

left_padding_from_20 : (a : Address) → length a ≡ 20 → left_padding_from a ≡ replicate 12 0 ++ a
unfolding left_padding_from
left_padding_from_20 a h = rw h refl

-- Padding loses nothing of an address.
left_padding_from-injective :
    (a b : Address)
    → length a ≡ 20
    → length b ≡ 20
    → left_padding_from a ≡ left_padding_from b
    → a ≡ b
left_padding_from-injective a b ha hb h =
    append-cancel (replicate 12 0) a b
      (sym (left_padding_from_20 a ha) ∙ (h ∙ left_padding_from_20 b hb))

module _ (x : External) (exact : ParsesExactly x) where
  pub same_number :
      (c : List Word) (i m n : ℕ)
      → m ≤ u64_max
      → n ≤ u64_max
      → IsSome (get_elem? c i)
      → NumberAt x c i m
      → NumberAt x c i n
      → m ≡ n
  same_number c i m n hm hn h p q = elim (Option-cases (get_elem? c i)) [
    | inl e ↦ absurd (ground arith)
    | inr (w, e) ↦ exact m n w hm hn (ground arith) (ground arith)
  ]

  pub IsSome-get_elem? : (c : List Word) (i : ℕ) → i < length c → IsSome (get_elem? c i)
  IsSome-get_elem? [] i h = absurd (omega arith)
  IsSome-get_elem? (w ∷ c) zero h = tt
  IsSome-get_elem? (w ∷ c) (suc i) h = IsSome-get_elem? c i (omega arith)

  pub NineSlots-injective :
      (version : ℕ) (a b : Signed) (c : List Word)
      → 8 < length c
      → InRange a
      → InRange b
      → NineSlots x version a c
      → NineSlots x version b c
      → a ≡ b
  NineSlots-injective version a b c h ra rb p q = ground (
    arith,
    same_number c 2 a.publish_time b.publish_time ra.publish_time rb.publish_time
        (IsSome-get_elem? c 2 (omega arith)) p.publish q.publish,
    same_number c 4 a.session_start b.session_start ra.session_start rb.session_start
        (IsSome-get_elem? c 4 (omega arith)) p.start q.start,
    same_number c 5 a.session_end b.session_end ra.session_end rb.session_end
        (IsSome-get_elem? c 5 (omega arith)) p.end q.end,
    same_number c 8 a.quote_expiry b.quote_expiry ra.quote_expiry rb.quote_expiry
        (IsSome-get_elem? c 8 (omega arith)) p.expiry q.expiry,
    left_padding_from-injective a.input_token b.input_token ra.input_token rb.input_token,
    left_padding_from-injective a.output_token b.output_token ra.output_token rb.output_token,
  )

  -- A v7 context determines every value that it was built from: the price, the times, the session,
  -- both token addresses, the expiry and the chain.
  pub context_v7-injective :
      (a b : Signed) (chain_a chain_b : ℕ) (c : List Word)
      → InRange a
      → InRange b
      → chain_a ≤ u64_max
      → chain_b ≤ u64_max
      → context_v7 x a chain_a ≡ ok c
      → context_v7 x b chain_b ≡ ok c
      → (a ≡ b) × (chain_a ≡ chain_b)
  context_v7-injective a b chain_a chain_b c ra rb ha hb p q =
      let (sa, na, la) = context_v7-NineSlots x a c chain_a p in
      let (sb, nb, lb) = context_v7-NineSlots x b c chain_b q in
      (
        NineSlots-injective 7 a b c (omega arith) ra rb sa sb,
        same_number c 9 chain_a chain_b ha hb (IsSome-get_elem? c 9 (omega arith)) na nb,
      )

  -- So does a v5 context; frames of one schema for two pairs, or two expiries, never coincide.
  pub context_v5-injective :
      (a b : Signed) (c : List Word)
      → InRange a
      → InRange b
      → context_v5 x a ≡ ok c
      → context_v5 x b ≡ ok c
      → a ≡ b
  context_v5-injective a b c ra rb p q =
      let (sa, la) = context_v5-NineSlots x a c p in
      let (sb, lb) = context_v5-NineSlots x b c q in
      NineSlots-injective 5 a b c (omega arith) ra rb sa sb
