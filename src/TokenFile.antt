-- ===== src/TokenFile.antt =====
-- src/token_file.rs: the rows that the token file gives for one chain, how they are compared, and
-- what changed between two copies.
pub mod Project
pub mod Bucket
pub mod Source
pub mod Candidate
pub mod Boot
pub mod Describe
pub mod Compare
pub mod Slots
pub mod Projected
pub mod Unique
pub mod Url
pub mod Reading
pub mod Bearer
pub mod Booted
pub mod Rows
pub mod Served
pub mod Listed
use st0x_oracle_server.Base.HashMap
use st0x_oracle_server.Base.Ordered.{collect, text_ord, pair_ord}
use st0x_oracle_server.Base.{none, some, list_eq, option_eq, pair_eq, string_eq}
use st0x_oracle_server.Base.Text.{eq_ignore_ascii_case}
use st0x_oracle_server.Toml
use st0x_oracle_server.Toml.{Value}
use st0x_oracle_server.Base.{
  ℕ, List, String, Bool, Option, filter_map, map, filter, ◌==◌, not, ◌&&◌, contains, string_eq,
}

pub record Projection : Type 0 where
  pub chain_id : ℕ
  pub quote_token : String
  pub tokens : List Value

pub record Change : Type 0 where
  pub added : List String
  pub removed : List String
  pub readdressed : List String
  pub quote_token_changed : Bool

abbrev pub Row : Type 0
Row = String × String

abbrev pub syms : List Row → List String
syms s = collect (map (λ (r : Row). r.0) s)

-- The first row of the symbol in each set has another address, or only one set has one.
abbrev pub moved : List Row → List Row → String → Bool
moved a b s = not (HashMap.get s a == HashMap.get s b)

-- The Unicode tables behind `to_lowercase` are not in the repository.
module _ (to_lowercase : String → String) where
  -- The symbol and the address of a row, where it has both as texts.
  unfoldable pub row_of : Value → Option Row
  row_of t = elim (Toml.read Toml.as_str (Toml.member "symbol" t)) [
    | none ↦ none
    | some symbol ↦ elim (Toml.read Toml.as_str (Toml.member "address" t)) [
      | none ↦ none
      | some address ↦ some (symbol, to_lowercase address)
    ]
  ]

  unfoldable pub rows : Projection → List Row
  rows p = collect (filter_map row_of p.tokens)

  unfoldable pub same_as : Projection → Projection → Bool
  same_as p q = rows p == rows q && eq_ignore_ascii_case p.quote_token q.quote_token

  unfoldable pub change : Projection → Projection → Change
  change live fresh =
      let a = rows live in
      let b = rows fresh in
      let sa = syms a in
      let sb = syms b in
      record {
        added = filter (λ s. not (contains s sa)) sb;
        removed = filter (λ s. not (contains s sb)) sa;
        readdressed = filter (moved a b) (filter (λ s. contains s sb) sa);
        quote_token_changed = not (eq_ignore_ascii_case live.quote_token fresh.quote_token);
      }
