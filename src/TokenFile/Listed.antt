-- ===== src/TokenFile/Listed.antt =====
-- The symbols that a candidate lists are those of its projection's rows.
use st0x_oracle_server.Base.{
  none, pair_eq, string_eq, String, List, contains, ◌≡◌, ◌==◌, ◌∷◌, filter_map, map, ◌||◌, arith,
  pair_beq_iff, [], refl, false, sym, ◌∙◌, ap,
}
use st0x_oracle_server.Base.Ordered.{insert, collect, text_ord, pair_ord}
use st0x_oracle_server.TokenFile.{Row, Projection, rows, row_of}
use st0x_oracle_server.TokenFile.Compare.{names, contains-names, address_in}
use st0x_oracle_server.TokenFile.Rows.{row_of_pair}
use st0x_oracle_server.TokenFile.Slots.{row_of-row}

names-insert :
    (s : String) (r : Row) (xs : List Row)
    → contains s (names (insert r xs)) ≡ ((r.0 == s) || contains s (names xs))
unfolding insert
names-insert s r [] = refl
names-insert s r (x ∷ xs) = ground (arith, pair_beq_iff r x, names-insert s r xs)

names-collect :
    (s : String) (xs : List Row) → contains s (names (collect xs)) ≡ contains s (names xs)
unfolding collect
names-collect s [] = refl
names-collect s (x ∷ xs) = ground (arith, names-insert s x (collect xs), names-collect s xs)

module _ (to_lowercase : String → String) where
  names-rows :
      (s : String) (pairs : List (String × String))
      → contains s (names (filter_map (row_of to_lowercase) (map row_of_pair pairs)))
        ≡ contains s (map (λ (p : String × String). p.1) pairs)
  names-rows s [] = refl
  names-rows s ((a, t) ∷ pairs) = ground (arith, row_of-row to_lowercase a t, names-rows s pairs)

  -- A projection has a row for the symbol exactly when its pairs name it.
  pub address_in-pairs :
      (p : Projection) (pairs : List (String × String)) (s : String)
      → p.tokens ≡ map row_of_pair pairs
      → address_in to_lowercase p s ≡ none
      → contains s (map (λ (q : String × String). q.1) pairs) ≡ false
  unfolding rows
  address_in-pairs p pairs s e h =
      let found = filter_map (row_of to_lowercase) p.tokens in
      let none_named : contains s (names found) ≡ false =
        sym (names-collect s found) ∙ (contains-names s (rows to_lowercase p)).1 h in
      sym (names-rows s pairs)
      ∙ (ap (λ vs. contains s (names (filter_map (row_of to_lowercase) vs))) (sym e) ∙ none_named)
