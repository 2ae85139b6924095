-- ===== src/TokenFile/Rows.antt =====
-- A projection's rows are written as the configuration reads them.
use st0x_oracle_server.Toml
use st0x_oracle_server.Toml.{Value, Table, table, string, integer, float, boolean, datetime, array}
use st0x_oracle_server.TokenFile.Project.{
  row, project_slot, project_slots, sort_insert, sort_by_symbol, project_chain, project, priced,
  push, key_lt, expect_table, symbol_of, lists_raindex, is_enabled, equities, only_chain, wt,
  serves,
}
use st0x_oracle_server.Base.{
  true, false, String, List, Option, ◌≡◌, All, ℕ, map, ok, ◌∷◌, [], subst, Bool-cases, refl, some,
  arith, Option-cases, inr, none, inl, filter,
}
use st0x_oracle_server.TokenFile.{Projection}
use st0x_oracle_server.Base.Errors.{Result-cases}

abbrev pub IsRow : Value → Type 0
IsRow v = (a : String) × (s : String) × (v ≡ row a s)

abbrev pub row_of_pair : String × String → Value
row_of_pair (a, s) = row a s

pub All-pairs :
    (vs : List Value)
    → All IsRow vs
    → (pairs : List (String × String)) × (vs ≡ map row_of_pair pairs)
All-pairs [] h = ([], refl)
All-pairs (v ∷ vs) ((a, s, e), h) = let (pairs, f) = All-pairs vs h in ((a, s) ∷ pairs, cc (e, f))

priced-IsRow :
    (name sym : String) (slot : Table) (o : Option Value)
    → priced name sym slot ≡ ok o
    → All IsRow (push o [])
priced-IsRow name sym slot none h = tt
priced-IsRow name sym slot (some v) h =
    elim (Option-cases (Toml.read Toml.as_array (Toml.get "venues" slot))) [
      | inl f ↦ absurd (ground arith)
      | inr (venues, f) ↦ elim (Bool-cases (lists_raindex venues)) [
        | inr g ↦ absurd (ground arith)
        | inl g ↦
            elim (Option-cases
              (Toml.read Toml.as_str (Toml.get "tokenized_equity_derivative" slot))) [
                | inl k ↦ absurd (ground arith)
                | inr (a, k) ↦ ((a, wt sym, ground arith), tt)
              ]
      ]
    ]

project_slot-IsRow :
    (name sym : String) (v : Value) (o : Option Value)
    → project_slot name (sym, v) ≡ ok o
    → All IsRow (push o [])
unfolding project_slot
project_slot-IsRow name sym v none h = tt
project_slot-IsRow name sym v (some w) h =
    elim (Result-cases
      (expect_table (some v) ("chains" ∷ name ∷ "assets" ∷ "equities" ∷ sym ∷ []))) [
        | inr (e, f) ↦ absurd (ground arith)
        | inl (slot, f) ↦ elim (Result-cases (is_enabled name sym (Toml.get "pricing" slot))) [
          | inr (e, g) ↦ absurd (ground arith)
          | inl (true, g) ↦ priced-IsRow name sym slot (some w) (ground arith)
          | inl (false, g) ↦ absurd (ground arith)
        ]
      ]

All-push :
    (o : Option Value) (vs : List Value)
    → All IsRow (push o [])
    → All IsRow vs
    → All IsRow (push o vs)
All-push none vs h k = k
All-push (some v) vs h k = (h.0, k)

project_slots-IsRow :
    (name : String) (slots : List (String × Value)) (vs : List Value)
    → project_slots name slots ≡ ok vs
    → All IsRow vs
unfolding project_slots
project_slots-IsRow name [] vs h = subst (All IsRow) {x = []} (ground arith) tt
project_slots-IsRow name ((sym, v) ∷ slots) vs h =
    elim (Result-cases (project_slot name (sym, v))) [
      | inr (w, e) ↦ absurd (ground arith)
      | inl (o, e) ↦ elim (Result-cases (project_slots name slots)) [
        | inr (w, f) ↦ absurd (ground arith)
        | inl (rest, f) ↦ subst (All IsRow) {x = push o rest} (ground arith) (
            All-push o rest (project_slot-IsRow name sym v o e)
              (project_slots-IsRow name slots rest f))
      ]
    ]

sort_insert-IsRow :
    (v : Value) (ws : List Value) → IsRow v → All IsRow ws → All IsRow (sort_insert v ws)
unfolding sort_insert
sort_insert-IsRow v [] h k = (h, tt)
sort_insert-IsRow v (w ∷ ws) h k = elim (Bool-cases (key_lt (symbol_of w) (symbol_of v))) [
  | inl e ↦ rw e (k.0, sort_insert-IsRow v ws h k.1)
  | inr e ↦ rw e (h, k)
]

sort_by_symbol-IsRow : (vs : List Value) → All IsRow vs → All IsRow (sort_by_symbol vs)
unfolding sort_by_symbol
sort_by_symbol-IsRow [] h = tt
sort_by_symbol-IsRow (v ∷ vs) h =
    sort_insert-IsRow v (sort_by_symbol vs) h.0 (sort_by_symbol-IsRow vs h.1)

project_chain-IsRow :
    (chain_id : ℕ) (c : String × Value) (p : Projection)
    → project_chain chain_id c ≡ ok p
    → All IsRow p.tokens
unfolding project_chain
project_chain-IsRow chain_id (name, c) p h =
    elim (Result-cases (expect_table (some c) ("chains" ∷ name ∷ []))) [
      | inr (w, e) ↦ absurd (ground arith)
      | inl (chain, e) ↦
          elim (Option-cases (Toml.read Toml.as_str (Toml.get "quote_token" chain))) [
            | inl f ↦ absurd (ground arith)
            | inr (q, f) ↦ elim (Result-cases (equities name chain)) [
              | inr (w, g) ↦ absurd (ground arith)
              | inl (slots, g) ↦ elim (Result-cases (project_slots name slots)) [
                | inr (w, k) ↦ absurd (ground arith)
                | inl (tokens, k) ↦
                    subst (All IsRow) {x = sort_by_symbol tokens} (ground arith)
                      (sort_by_symbol-IsRow tokens (project_slots-IsRow name slots tokens k))
              ]
            ]
          ]
    ]

pub project-IsRow :
    (file : Table) (chain_id : ℕ) (p : Projection)
    → project file chain_id ≡ ok p
    → All IsRow p.tokens
unfolding project
project-IsRow file chain_id p h =
    elim (Result-cases (expect_table (Toml.get "chains" file) ("chains" ∷ []))) [
      | inr (w, e) ↦ absurd (ground arith)
      | inl (chains, e) ↦
          elim (Result-cases (only_chain chain_id (filter (serves chain_id) (Toml.iter chains)))) [
            | inr (w, f) ↦ absurd (ground arith)
            | inl (c, f) ↦ project_chain-IsRow chain_id c p (ground arith)
          ]
    ]
