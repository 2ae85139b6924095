-- ===== src/Tests/Reloads.antt =====
-- A reload from the first copy to the second.
use st0x_oracle_server.Base.{
  none, some, ok, err, List, ◌∷◌, false, ◌≡◌, String, [], refl, ◌≢◌, arith, Result, if◌then◌else◌,
  ◌==◌, true,
}
use st0x_oracle_server.Base.HashMap
use st0x_oracle_server.Base.Ordered
use st0x_oracle_server.Tokens.{current}
use st0x_oracle_server.Base.{option_eq, string_eq, nat_eq}
use st0x_oracle_server.Base.Int.{int_eq}
use st0x_oracle_server.Base.Int.{ℤ, pos}
use st0x_oracle_server.Toml
use st0x_oracle_server.Toml.{Value}
use st0x_oracle_server.Pricing
use st0x_oracle_server.Pricing.{empty, Feed, apply_server_frame, latest, insert_quote}
use st0x_oracle_server.Pricing.Events.{run, arrives}
use st0x_oracle_server.Wire.{Quote, price, Bytes}
use st0x_oracle_server.TokenFile.Bucket.{Read, ReadError, copy, unchanged, fetch_failed}
use st0x_oracle_server.TokenFile.Candidate.{candidate, bad_file, set_of}
use st0x_oracle_server.TokenFile.Project.{not_toml, merge_bytes}
use st0x_oracle_server.Reload.{Reloader, Gauges, round, static_field_changed, unless}
use st0x_oracle_server.Tests.Files.{
  small_library, static_config, first_candidate, second_candidate, first_candidate-built,
  second_candidate-built, small_reads,
}
use st0x_oracle_server.TokenFile.Served.{Serves, candidate-Serves}
use st0x_oracle_server.Tests.{coin_quote}
use st0x_oracle_server.Pricing.Invariant.{IsValid}
use st0x_oracle_server.Reload.Decided.{Comparable}
use st0x_oracle_server.TokenFile.{same_as, rows, row_of}
use st0x_oracle_server.Reload.Settled.{Settled, round-Settled, Untouched, round-Refused}
use st0x_oracle_server.Pricing.Preserved.{run-IsValid, empty-IsValid}
use st0x_oracle_server.Base.Text.{eq_ignore_ascii_case}
use st0x_oracle_server.Reload.Applied.{keeps_row, round-removed, round-is_live}
use st0x_oracle_server.Pricing.Gone.{frames_under}
use st0x_oracle_server.Pricing.Liveness.{generation_at}
use st0x_oracle_server.Base.HashMap.{insert}
use st0x_oracle_server.TokenFile.Compare.{address_in}
use st0x_oracle_server.Reload.Running.{
  running_rows, Faithful, rounds, set_of-Faithful, accepts, rounds-accepts,
}

candidate-Serves_example :
    (pairs : List (String × String)) × Serves small_library first_candidate pairs
candidate-Serves_example =
    candidate-Serves small_library small_reads static_config (1 ∷ []) first_candidate
      first_candidate-built

abbrev stock_quote : Quote
stock_quote = record coin_quote { asset = "wtAAPL"; chain_id = 8453 }

abbrev stock_feed : Feed
stock_feed = run empty (arrives none (price stock_quote) ∷ [])

stock_feed-IsValid : IsValid stock_feed
stock_feed-IsValid = run-IsValid empty (arrives none (price stock_quote) ∷ []) empty-IsValid

stock-generation : generation_at stock_feed (8453, "wtAAPL") ≡ some 0
unfolding run apply_server_frame insert_quote HashMap.get HashMap.insert
stock-generation = refl

abbrev gauges : Gauges
gauges = record {
  registry_generation = some (pos 10);
  registry_tokens = 2;
  configured_symbols = 2;
  last_applied = pos 0;
  last_check = pos 0;
  registry_invalid = false;
  reload_total = [];
  fetch_errors = 0;
}

abbrev pub reloader : Reloader
reloader = record {
  tokens = record { running = set_of first_candidate (pos 10) };
  assets = "wtAAPL" ∷ "wtTSLA" ∷ [];
  pricing = stock_feed;
  rejected = none;
  gauges = gauges;
}

same_config : static_field_changed first_candidate.config second_candidate.config ≡ none
unfolding static_field_changed eq_ignore_ascii_case
same_config = refl

second_newer : (set_of first_candidate (pos 10)).generation ≢ some (pos 20)
second_newer e = absurd (ground arith)

pub second_is_newer :
    Comparable small_library static_config first_candidate.config
      (set_of first_candidate (pos 10))
      (pos 20)
      (2 ∷ [])
      second_candidate
      first_candidate.projection
second_is_newer = (second_newer, second_candidate-built, same_config, refl)

pub second_differs :
    same_as small_library.to_lowercase second_candidate.projection first_candidate.projection
    ≡ false
unfolding same_as rows row_of Ordered.collect Ordered.insert eq_ignore_ascii_case Toml.get
    Toml.insert
second_differs = refl

first_has : address_in small_library.to_lowercase first_candidate.projection "wtTSLA" ≢ none
unfolding rows row_of Ordered.collect Ordered.insert Toml.get Toml.insert HashMap.get
first_has e = absurd (cc e)

second_lacks : address_in small_library.to_lowercase second_candidate.projection "wtTSLA" ≡ none
unfolding rows row_of Ordered.collect Ordered.insert Toml.get Toml.insert HashMap.get
second_lacks = refl

abbrev swapped : Reloader
swapped =
    round small_library static_config first_candidate.config (pos 5) (ok (copy (2 ∷ []) (pos 20)))
      reloader

round-is_live_example :
    (Pricing.is_live swapped.pricing 0
      ≡ keeps_row small_library first_candidate.projection second_candidate.projection "wtAAPL")
    × (current swapped.tokens ≡ set_of second_candidate (pos 20))
round-is_live_example =
    round-is_live small_library static_config first_candidate.config reloader (pos 5) (pos 20)
      (2 ∷ []) second_candidate first_candidate.projection second_is_newer second_differs
      stock_feed-IsValid 8453 "wtAAPL" 0 stock-generation

round-removed_example :
    latest
      (run swapped.pricing (frames_under swapped.assets (price stock_quote ∷ [])))
      8453
      "wtTSLA"
    ≡ none
round-removed_example =
    round-removed small_library small_reads static_config first_candidate.config reloader (pos 5)
      (pos 20) (2 ∷ []) second_candidate first_candidate.projection second_is_newer second_differs
      8453 "wtTSLA" (price stock_quote ∷ []) first_has second_lacks

round-Settled_example :
    Settled small_library static_config first_candidate.config reloader
      (pos 5)
      (pos 20)
      (2 ∷ [])
      swapped
round-Settled_example =
    round-Settled small_library static_config first_candidate.config reloader (pos 5) (pos 20)
      (2 ∷ []) second_candidate first_candidate.projection second_is_newer

abbrev content : ℤ → Bytes
content g = if g == pos 20 then 2 ∷ [] else 1 ∷ []

abbrev history : List (ℤ × Result ReadError Read)
history =
    (pos 1, err (fetch_failed "no route"))
    ∷ (pos 2, ok (copy (2 ∷ []) (pos 20)))
    ∷ (pos 3, ok unchanged)
    ∷ []

boot_is_kept : static_field_changed first_candidate.config first_candidate.config ≡ none
unfolding static_field_changed eq_ignore_ascii_case
boot_is_kept = refl

first_set-Faithful :
    Faithful small_library static_config first_candidate.config content
      (set_of first_candidate (pos 10))
first_set-Faithful =
    set_of-Faithful small_library static_config first_candidate.config content reloader (pos 0)
      (pos 10) (1 ∷ []) first_candidate refl first_candidate-built boot_is_kept

rounds-accepts_example :
    running_rows small_library static_config first_candidate.config
      (current (rounds small_library static_config first_candidate.config history reloader).tokens)
    ≡ accepts small_library static_config first_candidate.config
        (running_rows small_library static_config first_candidate.config (current reloader.tokens))
        history
rounds-accepts_example =
    rounds-accepts small_library static_config first_candidate.config content history reloader
      (tt, (refl, (tt, tt))) first_set-Faithful

broken_copy : candidate small_library static_config (9 ∷ []) ≡ err (bad_file (not_toml "not TOML"))
unfolding candidate merge_bytes
broken_copy = refl

third_newer : (current reloader.tokens).generation ≢ some (pos 30)
third_newer e = absurd (ground arith)

abbrev refusing : Reloader
refusing =
    round small_library static_config first_candidate.config (pos 5) (ok (copy (9 ∷ []) (pos 30)))
      reloader

round-Refused_example :
    Untouched small_library static_config first_candidate.config reloader
      (pos 5)
      (pos 30)
      (9 ∷ [])
      reloader
      refusing
    × (refusing.rejected ≡ some (pos 30))
    × (unless refusing ≡ some (pos 30))
    × (refusing.gauges.registry_invalid ≡ true)
round-Refused_example =
    round-Refused small_library static_config first_candidate.config reloader (pos 5) (pos 30)
      (9 ∷ []) (bad_file (not_toml "not TOML")) third_newer broken_copy
