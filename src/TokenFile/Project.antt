-- ===== src/TokenFile/Project.antt =====
-- src/token_file.rs: from the file to the rows of one chain, and from the rows to the
-- configuration.
use st0x_oracle_server.Base.Errors.{◌>>=◌, ◌>>◌, map_ok}
use st0x_oracle_server.Base.Ordered.{text_lt}
use st0x_oracle_server.Base.Int.{ℤ, u64_try_from, pos, int_eq}
use st0x_oracle_server.Toml
use st0x_oracle_server.Toml.{Value, Table, string, array, table, integer}
use st0x_oracle_server.Config.{usdc_base}
use st0x_oracle_server.TokenFile.{Projection}
use st0x_oracle_server.Base.{
  none, some, option_eq, string_eq, nat_eq, String, Option, Result, ℕ, List, ok, ok_or,
  if◌then◌else◌, Bool, err, ◌∷◌, ◌==◌, [], any, false, map_err, true, filter, is_empty,
}
use st0x_oracle_server.Wire.{Bytes}

pub data FileError : Type 0 where
  not_toml : (why : String) → FileError
  wrong_schema_version : Option Value → FileError
  not_a_table : (path : List String) → FileError
  no_chain : ℕ → FileError
  two_chains : ℕ → FileError
  quote_token_missing : (name : String) → FileError
  bad_pricing : (name sym : String) → Option Value → FileError
  no_venues : (name sym : String) → FileError
  no_derivative : (name sym : String) → FileError
  empty_universe : (name : String) → FileError
  inline_tokens : FileError
  other_quote_token : (chain_id : ℕ) (theirs ours : String) → FileError
  bad_chain_id : FileError

abbrev pub schema_version : ℤ
schema_version = pos 1

-- `as_integer` and then `u64::try_from`.
abbrev pub u64_of : Value → Option ℕ
u64_of (integer i) = u64_try_from i
u64_of _ = none

unfoldable pub chain_id_of : Table → Result FileError ℕ
chain_id_of config = elim (Toml.get "chain_id" config) [
  | none ↦ ok 8453
  | some v ↦ ok_or (u64_of v) bad_chain_id
]

-- `table` of the source.
abbrev pub expect_table : Option Value → List String → Result FileError Table
expect_table v path = ok_or (Toml.read Toml.as_table v) (not_a_table path)

abbrev pub check_schema : Option Value → Result FileError (Unit {0})
check_schema (some (integer v)) =
    if v == schema_version then ok tt else err (wrong_schema_version (some (integer v)))
check_schema other = err (wrong_schema_version other)

abbrev pub serves : ℕ → String × Value → Bool
serves chain_id (name, c) = Toml.read u64_of (Toml.member "chain_id" c) == some chain_id

abbrev pub only_chain : ℕ → List (String × Value) → Result FileError (String × Value)
only_chain chain_id [] = err (no_chain chain_id)
only_chain chain_id (c ∷ []) = ok c
only_chain chain_id (c ∷ d ∷ matched) = err (two_chains chain_id)

abbrev pub is_enabled : String → String → Option Value → Result FileError Bool
is_enabled name sym (some (string v)) =
    if v == "enabled"
    then ok true
    else if v == "disabled"
    then ok false
    else err (bad_pricing name sym (some (string v)))
is_enabled name sym other = err (bad_pricing name sym other)

abbrev pub lists_raindex : List Value → Bool
lists_raindex venues = any (λ v. Toml.as_str v == some "raindex") venues

-- `format!("wt{sym}")`.
abbrev pub wt : String → String
wt sym = String.◌∷◌ "w" (String.◌∷◌ "t" sym)

abbrev pub row : String → String → Value
row address symbol =
    table (Toml.insert "symbol" (string symbol) (Toml.insert "address" (string address) Toml.end))

-- What an enabled slot that lists raindex adds.
abbrev pub priced : String → String → Table → Result FileError (Option Value)
priced name sym slot = do
  venues ← ok_or (Toml.read Toml.as_array (Toml.get "venues" slot)) (no_venues name sym)
  if lists_raindex venues
      then (do
        address ←
            ok_or (Toml.read Toml.as_str (Toml.get "tokenized_equity_derivative" slot))
              (no_derivative name sym)
        ok (some (row address (wt sym))))
      else ok none

-- One round of the loop over the slots.
unfoldable pub project_slot : String → String × Value → Result FileError (Option Value)
project_slot name (sym, v) = do
  slot ← expect_table (some v) ("chains" ∷ name ∷ "assets" ∷ "equities" ∷ sym ∷ [])
  enabled ← is_enabled name sym (Toml.get "pricing" slot)
  if enabled then priced name sym slot else ok none

abbrev pub push : Option Value → List Value → List Value
push none rest = rest
push (some v) rest = v ∷ rest

unfoldable pub project_slots : String → List (String × Value) → Result FileError (List Value)
project_slots name [] = ok []
project_slots name (s ∷ slots) = do
  found ← project_slot name s
  rest ← project_slots name slots
  ok (push found rest)

abbrev pub symbol_of : Value → Option String
symbol_of t = Toml.read Toml.as_str (Toml.member "symbol" t)

-- The order of `Option<String>`.
abbrev pub key_lt : Option String → Option String → Bool
key_lt none none = false
key_lt none (some t) = true
key_lt (some s) none = false
key_lt (some s) (some t) = text_lt s t

-- `sort_by_key` is stable: a value stays ahead of those whose key is not smaller.
unfoldable pub sort_insert : Value → List Value → List Value
sort_insert v [] = v ∷ []
sort_insert v (w ∷ ws) =
    if key_lt (symbol_of w) (symbol_of v) then w ∷ sort_insert v ws else v ∷ w ∷ ws

unfoldable pub sort_by_symbol : List Value → List Value
sort_by_symbol [] = []
sort_by_symbol (v ∷ vs) = sort_insert v (sort_by_symbol vs)

-- The slots of the chain, if it has any.
unfoldable pub equities : String → Table → Result FileError (List (String × Value))
equities name chain = elim (Toml.read (Toml.member "equities") (Toml.get "assets" chain)) [
  | none ↦ ok []
  | some slots ↦
      map_ok Toml.iter (expect_table (some slots) ("chains" ∷ name ∷ "assets" ∷ "equities" ∷ []))
]

-- What the chain gives.
unfoldable pub project_chain : ℕ → String × Value → Result FileError Projection
project_chain chain_id (name, c) = do
  chain ← expect_table (some c) ("chains" ∷ name ∷ [])
  quote_token ←
      ok_or (Toml.read Toml.as_str (Toml.get "quote_token" chain)) (quote_token_missing name)
  slots ← equities name chain
  tokens ← project_slots name slots
  if is_empty tokens
      then err (empty_universe name)
      else ok (record {
        chain_id = chain_id;
        quote_token = quote_token;
        tokens = sort_by_symbol tokens;
      })

unfoldable pub project : Table → ℕ → Result FileError Projection
unfolding project_chain
project file chain_id = do
  check_schema (Toml.get "schema_version" file)
  chains ← expect_table (Toml.get "chains" file) ("chains" ∷ [])
  matched ← only_chain chain_id (filter (serves chain_id) (Toml.iter chains))
  project_chain chain_id matched

module _ (to_lowercase : String → String) where
  abbrev pub declared_quote_token : Table → String
  declared_quote_token config = elim (Toml.read Toml.as_str (Toml.get "quote_token" config)) [
    | none ↦ usdc_base
    | some q ↦ q
  ]

  unfoldable pub merge : Table → Projection → Result FileError Table
  merge config p =
      if Toml.contains_key "tokens" config
      then err inline_tokens
      else (let declared = declared_quote_token config in
          if to_lowercase declared == to_lowercase p.quote_token
          then ok (Toml.insert "tokens" (array (Toml.from_list p.tokens)) config)
          else err (other_quote_token p.chain_id p.quote_token declared))

  module _ (parse : Bytes → Result String Table) where
    unfoldable pub merge_bytes : Table → Bytes → Result FileError (Table × Projection)
    merge_bytes config bytes = do
      file ← map_err not_toml (parse bytes)
      chain_id ← chain_id_of config
      p ← project file chain_id
      merged ← merge config p
      ok (merged, p)
