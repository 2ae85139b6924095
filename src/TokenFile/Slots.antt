-- ===== src/TokenFile/Slots.antt =====
-- Which rows the slots of a chain give.
use st0x_oracle_server.Base.Ordered.{text_ord, pair_ord}
use st0x_oracle_server.Base.{
  none, some, option_eq, pair_eq, string_eq, Bool, String, ◌==◌, Option, ◌&&◌, if◌then◌else◌, ◌≡◌,
  false, refl, ok, true, arith, inr, Option-cases, inl, Bool-cases, List, filter_map, ◌∷◌, [],
}
use st0x_oracle_server.Toml
use st0x_oracle_server.Toml.{Value, Table, table, string, integer, float, boolean, datetime, array}
use st0x_oracle_server.TokenFile.{Row, row_of}
use st0x_oracle_server.TokenFile.Project.{
  row, project_slot, wt, lists_raindex, is_enabled, priced, project_slots,
}
use st0x_oracle_server.Base.Errors.{Result-cases}

-- A slot that is priced and sold on raindex.
abbrev pub is_wanted : Table → Bool
is_wanted slot =
    (Toml.read Toml.as_str (Toml.get "pricing" slot) == some "enabled")
    && elim (Toml.read Toml.as_array (Toml.get "venues" slot)) [
      | none ↦ false
      | some venues ↦ lists_raindex venues
    ]

pub is_enabled-eq-ok :
    (name sym : String) (v : Option Value) (b : Bool)
    → is_enabled name sym v ≡ ok b
    → (Toml.read Toml.as_str v == some "enabled") ≡ b
is_enabled-eq-ok name sym none b h = absurd (ground arith)
is_enabled-eq-ok name sym (some (string s)) b h = ground arith
is_enabled-eq-ok name sym (some (integer s)) b h = absurd (ground arith)
is_enabled-eq-ok name sym (some (float s)) b h = absurd (ground arith)
is_enabled-eq-ok name sym (some (boolean s)) b h = absurd (ground arith)
is_enabled-eq-ok name sym (some (datetime s)) b h = absurd (ground arith)
is_enabled-eq-ok name sym (some (array s)) b h = absurd (ground arith)
is_enabled-eq-ok name sym (some (table s)) b h = absurd (ground arith)

module _ (to_lowercase : String → String) where
  abbrev named : String → Option String → Option Row
  named sym none = none
  named sym (some address) = some (wt sym, to_lowercase address)

  abbrev wanted_row : String → Table → Option Row
  wanted_row sym slot =
      if is_wanted slot
      then named sym (Toml.read Toml.as_str (Toml.get "tokenized_equity_derivative" slot))
      else none

  -- The row that a slot stands for.
  abbrev pub slot_row : String × Value → Option Row
  slot_row (sym, table slot) = wanted_row sym slot
  slot_row (sym, v) = none

  pub row_of-row : (a s : String) → row_of to_lowercase (row a s) ≡ some (s, to_lowercase a)
  unfolding row_of Toml.get Toml.insert
  row_of-row a s = refl

  abbrev row_of? : Option Value → Option Row
  row_of? none = none
  row_of? (some v) = row_of to_lowercase v

  priced-lem :
      (name sym : String) (slot : Table) (o : Option Value)
      → (Toml.read Toml.as_str (Toml.get "pricing" slot) == some "enabled") ≡ true
      → priced name sym slot ≡ ok o
      → row_of? o ≡ wanted_row sym slot
  priced-lem name sym slot o e h =
      elim (Option-cases (Toml.read Toml.as_array (Toml.get "venues" slot))) [
        | inl f ↦ absurd (ground arith)
        | inr (venues, f) ↦ elim (Bool-cases (lists_raindex venues)) [
          | inr g ↦ ground arith
          | inl g ↦
              elim (Option-cases
                (Toml.read Toml.as_str (Toml.get "tokenized_equity_derivative" slot))) [
                  | inl k ↦ absurd (ground arith)
                  | inr (a, k) ↦ ground (arith, row_of-row a (wt sym))
                ]
        ]
      ]

  project_slot-table :
      (name sym : String) (slot : Table) (o : Option Value)
      → project_slot name (sym, table slot) ≡ ok o
      → row_of? o ≡ slot_row (sym, table slot)
  unfolding project_slot
  project_slot-table name sym slot o h =
      elim (Result-cases (is_enabled name sym (Toml.get "pricing" slot))) [
        | inr (w, e) ↦ absurd (ground arith)
        | inl (true, e) ↦
            priced-lem name sym slot o (is_enabled-eq-ok name sym (Toml.get "pricing" slot) true e)
              (ground arith)
        | inl (false, e) ↦
            ground (arith, is_enabled-eq-ok name sym (Toml.get "pricing" slot) false e)
      ]

  pub project_slot-lem :
      (name : String) (s : String × Value) (o : Option Value)
      → project_slot name s ≡ ok o
      → row_of? o ≡ slot_row s
  unfolding project_slot
  project_slot-lem name (sym, v) o h =
      elim v as (λ w. project_slot name (sym, w) ≡ ok o → row_of? o ≡ slot_row (sym, w)) [
        | table slot ↦ project_slot-table name sym slot o
        | string s ↦ λ k. absurd (ground arith)
        | integer s ↦ λ k. absurd (ground arith)
        | float s ↦ λ k. absurd (ground arith)
        | boolean s ↦ λ k. absurd (ground arith)
        | datetime s ↦ λ k. absurd (ground arith)
        | array s ↦ λ k. absurd (ground arith)
      ]
        h

  pub project_slots-lem :
      (name : String) (slots : List (String × Value)) (vs : List Value)
      → project_slots name slots ≡ ok vs
      → filter_map (row_of to_lowercase) vs ≡ filter_map slot_row slots
  unfolding project_slots
  project_slots-lem name [] vs h = cc
  project_slots-lem name (s ∷ slots) vs h = elim (Result-cases (project_slot name s)) [
    | inr (w, e) ↦ absurd (ground arith)
    | inl (o, e) ↦ elim (Result-cases (project_slots name slots)) [
      | inr (w, f) ↦ absurd (ground arith)
      | inl (rest, f) ↦
          ground (arith, project_slot-lem name s o e, project_slots-lem name slots rest f)
    ]
  ]
