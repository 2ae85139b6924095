-- ===== src/Config/Validated.antt =====
-- What a validated configuration guarantees.
use st0x_oracle_server.Base.HashMap
use st0x_oracle_server.Base.{
  String, Result, List, ◌≡◌, ok, some, contains, bytes_eq, false, ◌∷◌, ◌≢◌, inl, arith,
  bytes_beq_iff, inr, ◌↔◌, none, map, All, and_then-eq-ok, [], subst, refl, Bool, ◌&&◌, is_empty,
  true, ◌⊎◌, ap, ◌∙◌, Bool-cases, ◌==◌,
}
use st0x_oracle_server.Wire.{Address}
use st0x_oracle_server.Config.{
  TokenEntry, check_entry, is_blank, is_placeholder_address, check_entries, pair_of, validate_inner,
  Config, validate,
}
use st0x_oracle_server.Base.Errors.{Result-cases}
use st0x_oracle_server.Registry.{insert_all, TokenRegistry, from_config}

module _ (from_str : String → Result String Address) where
  -- The row reads as the address, which is neither reserved nor the settlement token.
  abbrev pub Usable : Address → TokenEntry → Address → Type 0
  Usable quote t a =
      (from_str t.address ≡ ok a)
      × (is_blank t.symbol ≡ false)
      × (is_placeholder_address a ≡ false)
      × (a ≢ quote)

  check_entry-eq-ok :
      (quote : Address) (seen seen' : List Address) (t : TokenEntry)
      → check_entry from_str quote seen t ≡ ok seen'
      → (a : Address) × Usable quote t a × (contains a seen ≡ false) × (seen' ≡ a ∷ seen)
  unfolding check_entry
  check_entry-eq-ok quote seen seen' t h = elim (Result-cases (from_str t.address)) [
    | inl (a, e) ↦ (
      a,
      (e, ground arith, ground arith, ground (arith, bytes_beq_iff a quote)),
      ground arith,
      ground arith,
    )
    | inr (why, e) ↦ absurd (ground arith)
  ]

  -- Every row is found in the map under its own address, with its own symbol.
  abbrev pub Mapped : Address → List (Address × String) → TokenEntry → Type 0
  Mapped quote m t = (a : Address) × Usable quote t a × (HashMap.get a m ≡ some t.symbol)

  -- The map holds exactly the addresses that were seen.
  abbrev Agrees : List Address → List (Address × String) → Type 0
  Agrees seen m = (a : Address) → (contains a seen ≡ false) ↔ (HashMap.get a m ≡ none)

  Agrees-insert :
      (seen : List Address) (m : List (Address × String)) (a : Address) (s : String)
      → Agrees seen m
      → Agrees (a ∷ seen) (HashMap.insert a s m)
  Agrees-insert seen m a s h b = ground (arith, HashMap.get-insert b a s m, h b)

  -- An address that no row may have.
  abbrev pub Barred : Address → Address → Type 0
  Barred quote a = (is_placeholder_address a ≡ true) ⊎ (a ≡ quote)

  -- One of the rows reads as the address and has the symbol.
  abbrev pub Listed : Address → String → List TokenEntry → Type 0
  Listed a s [] = ⊥
  Listed a s (t ∷ ts) = ((from_str t.address ≡ ok a) × (t.symbol ≡ s)) ⊎ Listed a s ts

  Barred-other :
      (quote b : Address) (t : TokenEntry) (a : Address) → Usable quote t a → Barred quote b → a ≢ b
  Barred-other quote b t a u (inl reserved) e =
      absurd (ground (arith, u.2, reserved, ap is_placeholder_address e))
  Barred-other quote b t a u (inr is) e = u.3 (e ∙ is)

  Listed-insert :
      (a b : Address) (s : String) (t : TokenEntry) (ts : List TokenEntry)
      (m : List (Address × String))
      → from_str t.address ≡ ok a
      → (HashMap.get b (HashMap.insert a t.symbol m) ≡ some s) ⊎ Listed b s ts
      → (HashMap.get b m ≡ some s) ⊎ Listed b s (t ∷ ts)
  Listed-insert a b s t ts m e (inr l) = inr (inr l)
  Listed-insert a b s t ts m e (inl h) = elim (Bool-cases (a == b)) [
    | inl same ↦
        let is : a ≡ b = (bytes_beq_iff a b).0 same in
        inr (inl (e ∙ ap ok is, ground (arith, HashMap.get-insert b a t.symbol m, h, same)))
    | inr other ↦ inl (ground (arith, HashMap.get-insert b a t.symbol m, h, other))
  ]

  -- Inserting the rows in order keeps every entry that was there, and maps every row.
  check_entries-Mapped :
      (quote : Address) (seen seen' : List Address) (ts : List TokenEntry)
      (m : List (Address × String))
      → Agrees seen m
      → check_entries from_str quote seen ts ≡ ok seen'
      → (m' : List (Address × String)) × (insert_all from_str (map pair_of ts) m ≡ ok m')
        × All (Mapped quote m') ts
        × ((a : Address) (s : String) → HashMap.get a m ≡ some s → HashMap.get a m' ≡ some s)
        × ((b : Address) → Barred quote b → HashMap.get b m ≡ none → HashMap.get b m' ≡ none)
        × ((b : Address) (s : String)
            → HashMap.get b m' ≡ some s
            → (HashMap.get b m ≡ some s) ⊎ Listed b s ts)
  unfolding check_entries
  check_entries-Mapped quote seen seen' [] m g h =
      (m, refl, tt, (λ a s e. e), (λ b d e. e), (λ b s e. inl e))
  check_entries-Mapped quote seen seen' (t ∷ ts) m g h =
      let (seen₁, e, rest) =
        and_then-eq-ok (check_entry from_str quote seen t) (λ s. check_entries from_str quote s ts)
          h in
      let (a, u, fresh, same) = check_entry-eq-ok quote seen seen₁ t e in
      let (m', inserted, mapped, kept, free, only) =
        check_entries-Mapped quote (a ∷ seen) seen' ts (HashMap.insert a t.symbol m)
          (Agrees-insert seen m a t.symbol g)
          (subst (λ s. check_entries from_str quote s ts ≡ ok seen') same rest) in
      (
        m',
        rw u.0 inserted,
        ((a, u, kept a t.symbol (HashMap.get-here a t.symbol m)), mapped),
        (λ b s e.
            kept b s (ground (arith, HashMap.get-insert b a t.symbol m, g a, bytes_beq_iff a b))),
        (λ b d e. free b d (
            ground (
              arith,
              HashMap.get-insert b a t.symbol m,
              bytes_beq_iff a b,
              Barred-other quote b t a u d,
            ))),
        (λ b s e. Listed-insert a b s t ts m u.0 (only b s e)),
      )

  -- A registry that serves the configured rows and nothing else: each row's address has the row's
  -- symbol, an address that has a symbol is that of a row with it, and the settlement token and the
  -- reserved addresses have none.
  abbrev pub Registers : TokenRegistry → List TokenEntry → Type 0
  Registers r entries =
      All (Mapped r.quote_token r.tokens) entries
      × ((a : Address) (s : String) → HashMap.get a r.tokens ≡ some s → Listed a s entries)
      × ((a : Address) → Barred r.quote_token a → HashMap.get a r.tokens ≡ none)

  only_rows :
      (a : Address) (s : String) (ts : List TokenEntry)
      → (none ≡ some s) ⊎ Listed a s ts
      → Listed a s ts
  only_rows a s ts (inl e) = absurd (ground arith)
  only_rows a s ts (inr l) = l

  -- Validation succeeds only where every check passed.
  abbrev pub Passed : Bool → Config → Address → List Address → Type 0
  Passed require_tokens cfg quote seen =
      (from_str cfg.quote_token ≡ ok quote)
      × (is_placeholder_address quote ≡ false)
      × (check_entries from_str quote [] cfg.tokens ≡ ok seen)
      × ((require_tokens && is_empty cfg.tokens) ≡ false)
      × (is_blank cfg.pricing.ws_url ≡ false)
      × (is_blank cfg.pricing.consumer ≡ false)

  pub validate_inner-Passed :
      (require_tokens : Bool) (cfg : Config)
      → validate_inner from_str require_tokens cfg ≡ ok tt
      → (quote : Address) × (seen : List Address) × Passed require_tokens cfg quote seen
  unfolding validate_inner
  validate_inner-Passed b cfg h = elim (Result-cases (from_str cfg.quote_token)) [
    | inr (why, e) ↦ absurd (ground arith)
    | inl (quote, e) ↦ elim (Result-cases (check_entries from_str quote [] cfg.tokens)) [
      | inr (why, e') ↦ absurd (ground arith)
      | inl (seen, e') ↦
          (quote, seen, (e, ground arith, e', ground arith, ground arith, ground arith))
    ]
  ]

  -- From a valid configuration the registry is built, every row reads as an address
  -- that the registry maps to the row's symbol, and neither the settlement token nor a reserved
  -- address is among them. The settlement token is not reserved, and there is a row.
  pub validate-Registers :
      (cfg : Config)
      → validate from_str cfg ≡ ok tt
      → (r : TokenRegistry) × (from_config from_str cfg.tokens cfg.quote_token ≡ ok r)
        × Registers r cfg.tokens
        × (is_placeholder_address r.quote_token ≡ false)
        × (is_empty cfg.tokens ≡ false)
  unfolding from_config HashMap.get
  validate-Registers cfg h =
      let (quote, seen, (e, real, walked, listed, url, consumer)) =
        validate_inner-Passed true cfg h in
      let (m, inserted, mapped, kept, free, only) =
        check_entries-Mapped quote [] seen cfg.tokens [] (λ a. ground arith) walked in
      (
        record { tokens = m; quote_token = quote },
        rw (e, inserted) refl,
        (mapped, (λ a s e. only_rows a s cfg.tokens (only a s e)), (λ a d. free a d refl)),
        real,
        ground arith,
      )
