-- ===== src/Tests/Files.antt =====
-- Two copies of a token file, and the reading of them by a small stand-in for the libraries.
use st0x_oracle_server.Base.{
  none, some, ok, err, String, Option, List, Result, codes, ◌∷◌, [], filter_map, ◌≡◌, refl,
  if◌then◌else◌, ◌==◌, map, arith, ap, sym, ◌∙◌,
}
use st0x_oracle_server.Base.Int.{pos}
use st0x_oracle_server.Base.HashMap
use st0x_oracle_server.Base.{bytes_eq}
use st0x_oracle_server.Registry.{new, from_config}
use st0x_oracle_server.Toml
use st0x_oracle_server.Toml.{Value, Table, string, integer, array, table, end, entry}
use st0x_oracle_server.Config.{
  Config, TokenEntry, validate_inner, check_entries, check_entry, is_placeholder_address,
}
use st0x_oracle_server.TokenFile.Project.{
  row, merge_bytes, chain_id_of, project, project_chain, project_slot, project_slots, equities,
  sort_by_symbol, sort_insert, merge,
}
use st0x_oracle_server.TokenFile.Candidate.{Library, Candidate, candidate}
use st0x_oracle_server.Wire.{Bytes}
use st0x_oracle_server.Config.Load.{from_table}
use st0x_oracle_server.Base.Text.{trim_start, trim_end}
use st0x_oracle_server.TokenFile.Served.{ReadsRows, entry_of}
use st0x_oracle_server.TokenFile.Rows.{row_of_pair}

abbrev venues : Value
venues = array (Toml.cons (string "raindex") Toml.nil)

abbrev slot : String → String → Value
slot pricing address = table (
    entry "pricing" (string pricing)
      (entry "tokenized_equity_derivative" (string address) (entry "venues" venues end)))

abbrev file_with : Table → Table
file_with slots =
    let chain =
      entry "assets" (table (entry "equities" (table slots) end))
        (entry "chain_id" (integer (pos 8453)) (entry "quote_token" (string "Q") end)) in
    entry "chains" (table (entry "base" (table chain) end))
      (entry "schema_version" (integer (pos 1)) end)

-- AAPL moves from one copy to the other, TSLA goes, and NVDA comes.
abbrev pub first_file : Table
first_file = file_with (
    entry "AAPL" (slot "enabled" "A")
      (entry "IBM" (slot "disabled" "I") (entry "TSLA" (slot "enabled" "T") end)))

abbrev pub second_file : Table
second_file = file_with (entry "AAPL" (slot "enabled" "B") (entry "NVDA" (slot "enabled" "N") end))

abbrev pub static_config : Table
static_config = entry "quote_token" (string "Q") end

abbrev pub small_parse : Bytes → Result String Table
small_parse bytes =
    if bytes == 1 ∷ []
    then ok first_file
    else if bytes == 2 ∷ []
    then ok second_file
    else err "not TOML"

abbrev entry_at : Value → Option TokenEntry
entry_at v = elim (Toml.read Toml.as_str (Toml.member "address" v)) [
  | none ↦ none
  | some a ↦ elim (Toml.read Toml.as_str (Toml.member "symbol" v)) [
    | none ↦ none
    | some s ↦ some (record { address = a; symbol = s })
  ]
]

abbrev entries_at : Option (List Value) → List TokenEntry
entries_at none = []
entries_at (some vs) = filter_map entry_at vs

abbrev pub config_with : List TokenEntry → Config
config_with entries = record {
  port = 3000;
  chain_id = 8453;
  quote_token = "Q";
  tokens = entries;
  registry = none;
  pricing = record { ws_url = "wss://pricing/ws"; consumer = "oracle" };
  signing = record { reuse_min_remaining_secs = 10 };
}

abbrev pub small_try_into : Table → Result String Config
small_try_into t = ok (config_with (entries_at (Toml.read Toml.as_array (Toml.get "tokens" t))))

abbrev pub small_library : Library
small_library = record {
  to_lowercase = λ s. s;
  parse = small_parse;
  try_into = small_try_into;
  from_str = λ s. ok (codes s);
}

abbrev pub small_entry : String → String → TokenEntry
small_entry a s = record { address = a; symbol = s }

abbrev pub first_candidate : Candidate
first_candidate = record {
  projection = record {
    chain_id = 8453;
    quote_token = "Q";
    tokens = row "A" "wtAAPL" ∷ row "T" "wtTSLA" ∷ [];
  };
  config = config_with (small_entry "A" "wtAAPL" ∷ small_entry "T" "wtTSLA" ∷ []);
  registry = record {
    tokens = (b'A' ∷ [], "wtAAPL") ∷ (b'T' ∷ [], "wtTSLA") ∷ [];
    quote_token = b'Q' ∷ [];
  };
}

abbrev pub second_candidate : Candidate
second_candidate = record {
  projection = record {
    chain_id = 8453;
    quote_token = "Q";
    tokens = row "B" "wtAAPL" ∷ row "N" "wtNVDA" ∷ [];
  };
  config = config_with (small_entry "B" "wtAAPL" ∷ small_entry "N" "wtNVDA" ∷ []);
  registry = record {
    tokens = (b'B' ∷ [], "wtAAPL") ∷ (b'N' ∷ [], "wtNVDA") ∷ [];
    quote_token = b'Q' ∷ [];
  };
}

pub first_candidate-built : candidate small_library static_config (1 ∷ []) ≡ ok first_candidate
unfolding candidate merge_bytes chain_id_of project project_chain project_slot project_slots
    equities sort_by_symbol sort_insert merge from_table validate_inner check_entries check_entry
    is_placeholder_address from_config new Toml.get Toml.insert trim_start trim_end HashMap.insert
first_candidate-built = refl

pub second_candidate-built : candidate small_library static_config (2 ∷ []) ≡ ok second_candidate
unfolding candidate merge_bytes chain_id_of project project_chain project_slot project_slots
    equities sort_by_symbol sort_insert merge from_table validate_inner check_entries check_entry
    is_placeholder_address from_config new Toml.get Toml.insert trim_start trim_end HashMap.insert
second_candidate-built = refl

small_entries-rows :
    (pairs : List (String × String))
    → filter_map entry_at (map row_of_pair pairs) ≡ map entry_of pairs
unfolding Toml.get Toml.insert
small_entries-rows [] = refl
small_entries-rows ((a, s) ∷ pairs) = ap (λ es. entry_of (a, s) ∷ es) (small_entries-rows pairs)

pub small_reads : ReadsRows small_try_into
small_reads t cfg pairs e h =
    let same : config_with (entries_at (Toml.read Toml.as_array (Toml.get "tokens" t))) ≡ cfg =
      ground arith in
    ap (λ (c : Config). c.tokens) (sym same)
    ∙ (ap (λ o. entries_at (Toml.read Toml.as_array o)) e
        ∙ (ap (λ vs. filter_map entry_at vs) (Toml.items-from_list (map row_of_pair pairs))
            ∙ small_entries-rows pairs))
