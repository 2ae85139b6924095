-- ===== src/Tokens.antt =====
-- src/tokens.rs: the token set that an instance runs.
use st0x_oracle_server.Registry.{TokenRegistry}
use st0x_oracle_server.Base.{List, String, Option, none}
use st0x_oracle_server.TokenFile.{Projection}
use st0x_oracle_server.Base.Int.{ℤ}

pub record TokenSet : Type 0 where
  pub registry : TokenRegistry
  pub symbols : List String
  pub projection : Option Projection
  pub generation : Option ℤ

-- `TokenSet::new`.
unfoldable pub inline_set : TokenRegistry → List String → TokenSet
inline_set registry symbols = record {
  registry = registry;
  symbols = symbols;
  projection = none;
  generation = none;
}

-- The shared handle: `current` reads it, `replace` swaps and gives back the set before.
pub record Tokens : Type 0 where
  pub running : TokenSet

abbrev pub current : Tokens → TokenSet
current t = t.running

unfoldable pub replace : Tokens → TokenSet → Tokens × TokenSet
replace t next = (record { running = next }, t.running)
