-- ===== src/TokenFile/Unique.antt =====
-- Each symbol of a projection has one row, since each key of a TOML table has one value.
use st0x_oracle_server.Base.HashMap
use st0x_oracle_server.Base.{
  none, some, pair_eq, string_eq, List, String, ◌∷◌, filter_map, ◌≡◌, contains, [], arith, false,
  true, Option-cases, inl, inr, refl, ℕ, ok, sym, ◌∙◌, ap,
}
use st0x_oracle_server.Toml.{Value, Table, table, string, integer, float, boolean, datetime, array}
use st0x_oracle_server.TokenFile.{Row, Projection, rows}
use st0x_oracle_server.TokenFile.Project.{wt, project}
use st0x_oracle_server.TokenFile.Slots.{slot_row}
use text.Mathlib.TextEquality.{eq_iff}
use st0x_oracle_server.TokenFile.Projected.{IsChain, project-Projects}
use st0x_oracle_server.TokenFile.Compare.{IsUnique, contains-rows, address_in, get-contains}

-- No key stands twice.
abbrev pub Distinct : List (String × Value) → Type 0
Distinct [] = Unit
Distinct ((k, v) ∷ m) = (HashMap.get k m ≡ none) × Distinct m

wt-injective : (s t : String) → wt s ≡ wt t → s ≡ t
wt-injective s t h = cc

get-none : (s a : String) (m : List Row) → HashMap.get s m ≡ none → contains (s, a) m ≡ false
unfolding HashMap.get
get-none s a [] h = refl
get-none s a ((t, b) ∷ m) h = ground (arith, get-none s a m)

module _ (to_lowercase : String → String) where
  abbrev rows_of : List (String × Value) → List Row
  rows_of slots = filter_map (slot_row to_lowercase) slots

  slot_row-key :
      (k : String) (v : Value) (s a : String)
      → slot_row to_lowercase (k, v) ≡ some (s, a)
      → s ≡ wt k
  slot_row-key k (table t) s a h = ground arith
  slot_row-key k (string t) s a h = cc
  slot_row-key k (integer t) s a h = cc
  slot_row-key k (float t) s a h = cc
  slot_row-key k (boolean t) s a h = cc
  slot_row-key k (datetime t) s a h = cc
  slot_row-key k (array t) s a h = cc

  -- A row comes from a slot.
  rows_of-get :
      (k a : String) (slots : List (String × Value))
      → HashMap.get k slots ≡ none
      → contains (wt k, a) (rows_of slots) ≡ false
  unfolding HashMap.get
  rows_of-get k a [] h = refl
  rows_of-get k a ((j, v) ∷ slots) h = elim (Option-cases (slot_row to_lowercase (j, v))) [
    | inl e ↦ ground (arith, rows_of-get k a slots)
    | inr ((s, b), e) ↦ ground (
      arith,
      rows_of-get k a slots,
      slot_row-key j v s b e,
      wt-injective j k,
      eq_iff s (wt k),
      eq_iff j k,
    )
  ]

  rows_of_unique :
      (s a b : String) (slots : List (String × Value))
      → Distinct slots
      → contains (s, a) (rows_of slots) ≡ true
      → contains (s, b) (rows_of slots) ≡ true
      → a ≡ b
  rows_of_unique s a b [] d h k = cc
  rows_of_unique s a b ((j, v) ∷ slots) d h k = elim (Option-cases (slot_row to_lowercase (j, v))) [
    | inl e ↦ ground (arith, rows_of_unique s a b slots d.1)
    | inr ((t, c), e) ↦ ground (
      arith,
      rows_of_unique s a b slots d.1,
      slot_row-key j v t c e,
      rows_of-get j a slots d.0,
      rows_of-get j b slots d.0,
      eq_iff t s,
      eq_iff c a,
      eq_iff c b,
    )
  ]

  -- Where no two slots of the chain have the same name, each symbol of the projection has one row.
  pub project-IsUnique :
      (file : Table) (chain_id : ℕ) (p : Projection)
      → ((name : String) (chain : Table) (slots : List (String × Value))
          → IsChain to_lowercase file chain_id name chain slots
          → Distinct slots)
      → project file chain_id ≡ ok p
      → IsUnique to_lowercase p
  project-IsUnique file chain_id p distinct h s a e =
      let (name, chain, slots, isChain, projects) =
        project-Projects to_lowercase file chain_id p h in
      let listed : (b : String)
          → contains (s, b) (rows to_lowercase p) ≡ true
          → contains (s, b) (rows_of slots) ≡ true =
        λ b m. sym (contains-rows to_lowercase (s, b) p ∙ projects.3 (s, b)) ∙ m in
      elim (Option-cases (address_in to_lowercase p s)) [
        | inl f ↦ absurd (ground (arith, get-none s a (rows to_lowercase p) f))
        | inr (b, f) ↦
            f
            ∙ ap some (
                rows_of_unique s b a slots (distinct name chain slots isChain)
                  (listed b (get-contains s b (rows to_lowercase p) f)) (listed a e))
      ]
