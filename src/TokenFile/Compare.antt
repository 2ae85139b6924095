-- ===== src/TokenFile/Compare.antt =====
-- What the comparison of two projections says of their rows.
use st0x_oracle_server.Base.HashMap
use st0x_oracle_server.Base.Ordered.{
  text_ord, pair_ord, contains-collect, IsSorted, collect-IsSorted, SameMembers, IsSorted-unique,
}
use st0x_oracle_server.Base.{
  none, list_eq, option_eq, pair_eq, string_eq, String, List, Bool, map, contains, Option, filter,
  ◌≡◌, ◌&&◌, false, true, arith, ◌∷◌, ◌↔◌, not, [], ◌≢◌, option_beq_iff, filter_map, some,
  list_beq_iff, sym, ◌∙◌, ap, pair_beq_iff, subst,
}
use st0x_oracle_server.TokenFile.{
  Projection, Change, Row, change, syms, rows, moved, same_as, row_of,
}
use text.Mathlib.TextEquality.{eq_iff}
use st0x_oracle_server.Base.Text.{eq_ignore_ascii_case, eq_ignore_ascii_case_sym}

-- Lists tested for what holds of them.
contains-filter :
    (p : String → Bool) (s : String) (xs : List String)
    → contains s (filter p xs) ≡ (p s && contains s xs)
contains-filter p s [] = ground arith
contains-filter p s (x ∷ xs) = ground (arith, eq_iff x s, contains-filter p s xs)

abbrev pub names : List Row → List String
names a = map (λ (r : Row). r.0) a

pub contains-names :
    (s : String) (a : List Row) → (contains s (names a) ≡ false) ↔ (HashMap.get s a ≡ none)
unfolding HashMap.get
contains-names s [] = ground arith
contains-names s (r ∷ a) = ground (arith, contains-names s a)

syms-get : (s : String) (a : List Row) → (contains s (syms a) ≡ false) ↔ (HashMap.get s a ≡ none)
syms-get s a = ground (arith, contains-names s a, contains-collect s (names a))

pub get-contains :
    (s a : String) (m : List Row) → HashMap.get s m ≡ some a → contains (s, a) m ≡ true
unfolding HashMap.get
get-contains s a [] h = cc
get-contains s a ((t, b) ∷ m) h =
    ground (arith, pair_beq_iff (t, b) (s, a), eq_iff t s, get-contains s a m)

abbrev pub unchanged_rows : Change
unchanged_rows = record { added = []; removed = []; readdressed = []; quote_token_changed = false }

module _ (to_lowercase : String → String) where
  -- The address of a symbol's row, if the projection has one.
  abbrev pub address_in : Projection → String → Option String
  address_in p s = HashMap.get s (rows to_lowercase p)

  -- What a change says of one symbol.
  abbrev pub Tells : Projection → Projection → Change → String → Type 0
  Tells live fresh ch s =
      ((contains s ch.added ≡ true) ↔ ((address_in live s ≡ none) × (address_in fresh s ≢ none)))
      × ((contains s ch.removed ≡ true)
          ↔ ((address_in live s ≢ none) × (address_in fresh s ≡ none)))
      × ((contains s ch.readdressed ≡ true) ↔ (
          (address_in live s ≢ none)
          × (address_in fresh s ≢ none)
          × (address_in live s ≢ address_in fresh s)))

  pub change-Tells :
      (live fresh : Projection) (s : String) → Tells live fresh (change to_lowercase live fresh) s
  unfolding change
  change-Tells live fresh s =
      let a = rows to_lowercase live in
      let b = rows to_lowercase fresh in
      let sa = syms a in
      let sb = syms b in
      (
        ground (arith, contains-filter (λ t. not (contains t sa)) s sb, syms-get s a, syms-get s b),
        ground (arith, contains-filter (λ t. not (contains t sb)) s sa, syms-get s a, syms-get s b),
        ground (
          arith,
          contains-filter (moved a b) s (filter (λ t. contains t sb) sa),
          contains-filter (λ t. contains t sb) s sa,
          option_beq_iff (HashMap.get s a) (HashMap.get s b),
          syms-get s a,
          syms-get s b,
        ),
      )

  pub rows-IsSorted : (p : Projection) → IsSorted (rows to_lowercase p)
  unfolding rows
  rows-IsSorted p = collect-IsSorted (filter_map (row_of to_lowercase) p.tokens)

  abbrev found : Projection → List Row
  found p = filter_map (row_of to_lowercase) p.tokens

  pub contains-rows :
      (r : Row) (p : Projection) → contains r (rows to_lowercase p) ≡ contains r (found p)
  unfolding rows
  contains-rows r p = contains-collect r (found p)

  -- The comparison forgets the order of the rows, their repetition and the case of the addresses:
  -- two projections are the same exactly when they have the same rows and the same settlement
  -- token, letter case aside.
  pub same_as_iff :
      (p q : Projection)
      → (same_as to_lowercase p q ≡ true) ↔ (
          SameMembers (found p) (found q)
          × (eq_ignore_ascii_case p.quote_token q.quote_token ≡ true))
  unfolding same_as
  same_as_iff p q =
      let a = rows to_lowercase p in
      let b = rows to_lowercase q in
      (
        λ h.
            let same : a ≡ b = ground (arith, list_beq_iff a b) in
            (
              λ r.
                  sym (contains-rows r p)
                  ∙ (ap (λ (t : List Row). contains r t) same ∙ contains-rows r q),
              ground arith,
            ),
        λ h.
            let same : a ≡ b =
              IsSorted-unique a b (rows-IsSorted p) (rows-IsSorted q)
                (λ r. contains-rows r p ∙ (h.0 r ∙ sym (contains-rows r q))) in
            ground (arith, list_beq_iff a b),
      )

  -- Each symbol has one row.
  abbrev pub IsUnique : Projection → Type 0
  IsUnique p =
      (s a : String) → contains (s, a) (rows to_lowercase p) ≡ true → address_in p s ≡ some a

  rows-kept :
      (p q : Projection)
      → IsUnique p
      → ((s : String) → address_in p s ≡ address_in q s)
      → (r : Row) → contains r (rows to_lowercase p) ≡ true
      → contains r (rows to_lowercase q) ≡ true
  rows-kept p q u h (s, a) e = get-contains s a (rows to_lowercase q) (sym (h s) ∙ u s a e)

  address_in-same :
      (p q : Projection) (s : String)
      → change to_lowercase p q ≡ unchanged_rows
      → address_in p s ≡ address_in q s
  address_in-same p q s h =
      let t : Tells p q unchanged_rows s = subst (λ c. Tells p q c s) h (change-Tells p q s) in
      ground (arith, t, option_beq_iff (address_in p s) (address_in q s))

  same_quote_token :
      (p q : Projection)
      → change to_lowercase p q ≡ unchanged_rows
      → eq_ignore_ascii_case p.quote_token q.quote_token ≡ true
  unfolding change
  same_quote_token p q h =
      let flag : not (eq_ignore_ascii_case p.quote_token q.quote_token) ≡ false =
        ap (λ (c : Change). c.quote_token_changed) h in
      ground (arith, flag)

  -- Where each symbol has one row, a change that names no symbol and keeps the settlement token is
  -- no change: the projections are the same.
  pub change-None :
      (p q : Projection)
      → IsUnique p
      → IsUnique q
      → change to_lowercase p q ≡ unchanged_rows
      → same_as to_lowercase q p ≡ true
  change-None p q u v h =
      let at : (s : String) → address_in p s ≡ address_in q s = λ s. address_in-same p q s h in
      let back : (s : String) → address_in q s ≡ address_in p s = λ s. sym (at s) in
      (same_as_iff q p).1 (
        λ r. ground (
          arith,
          rows-kept p q u at r,
          rows-kept q p v back r,
          contains-rows r p,
          contains-rows r q,
        ),
        eq_ignore_ascii_case_sym q.quote_token p.quote_token ∙ same_quote_token p q h,
      )

  pub same_as-rows :
      (p q : Projection)
      → same_as to_lowercase p q ≡ true
      → rows to_lowercase p ≡ rows to_lowercase q
  unfolding same_as
  same_as-rows p q h = ground (arith, list_beq_iff (rows to_lowercase p) (rows to_lowercase q))
