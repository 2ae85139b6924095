-- ===== src/Tests/Sources.antt =====
-- Reading, projecting and comparing the copies, and a session with the pricing service.
use st0x_oracle_server.Base.{
  none, some, ok, err, nat_eq, string_eq, String, ℕ, Result, codes, List, ◌∷◌, if◌then◌else◌, [],
  ◌≡◌, ◌==◌, true, ◌↔◌, filter_map, refl,
}
use st0x_oracle_server.Base.Ordered.{text_ord, pair_ord}
use st0x_oracle_server.Base.{pair_eq}
use st0x_oracle_server.Base.Int.{pos}
use st0x_oracle_server.Toml
use st0x_oracle_server.TokenFile.Bucket.{
  Read, ReadError, Outside, Response, copy, fetch_failed, metadata, read,
}
use st0x_oracle_server.TokenFile.Boot.{boot, boot_retry, BootError}
use st0x_oracle_server.Tests.Files.{
  small_library, static_config, first_file, first_candidate, second_candidate,
}
use st0x_oracle_server.Pricing.{empty}
use st0x_oracle_server.Pricing.Subscription
use st0x_oracle_server.Pricing.Followed.{session-InStep}
use st0x_oracle_server.Pricing.Requested.{InStep, GoesOn}
use st0x_oracle_server.TokenFile.Project.{
  project, project_chain, project_slot, project_slots, equities, sort_by_symbol, sort_insert,
}
use st0x_oracle_server.Config.{
  validate_inner, Config, check_entries, check_entry, is_placeholder_address, validate,
}
use st0x_oracle_server.TokenFile.Reading.{Sound, read-Sound}
use st0x_oracle_server.TokenFile.{same_as, row_of}
use st0x_oracle_server.TokenFile.Projected.{IsChain, Projects, project-Projects}
use st0x_oracle_server.Pricing.Pauses.{End}
use st0x_oracle_server.Tokens.{TokenSet}
use st0x_oracle_server.TokenFile.Booted.{Starts, boot-Starts}
use st0x_oracle_server.Base.Text.{trim_start, trim_end, eq_ignore_ascii_case}
use st0x_oracle_server.Base.Ordered.{SameMembers}
use st0x_oracle_server.TokenFile.Compare.{same_as_iff}

first_projected : project first_file 8453 ≡ ok first_candidate.projection
unfolding project project_chain project_slot project_slots equities sort_by_symbol sort_insert
    Toml.get Toml.insert
first_projected = refl

project-Projects_example :
    (name : String) × (chain : Toml.Table) × (slots : List (String × Toml.Value)) × IsChain
      small_library.to_lowercase first_file 8453 name chain slots
    × Projects small_library.to_lowercase 8453 chain slots first_candidate.projection
project-Projects_example =
    project-Projects small_library.to_lowercase first_file 8453 first_candidate.projection
      first_projected

-- The first try fails.
abbrev tries : ℕ → Result ReadError Read
tries n = if n == 1 then err (fetch_failed "no route") else ok (copy (1 ∷ []) (pos 10))

boot-Starts_example :
    (r : Result BootError (Config × TokenSet)) × (boot small_library static_config boot_retry tries
      ≡ some r)
    × Starts small_library static_config boot_retry tries r
boot-Starts_example = boot-Starts small_library static_config boot_retry tries

first_config-valid : validate small_library.from_str first_candidate.config ≡ ok tt
unfolding validate_inner check_entries check_entry is_placeholder_address trim_start trim_end
first_config-valid = refl

abbrev answer : Response
answer = record {
  status = 200;
  generation_header = some (codes "1770000000000000");
  content_length = none;
  chunks = ok (1 ∷ 2 ∷ []) ∷ ok (3 ∷ []) ∷ [];
}

abbrev outside : Outside
outside = record {
  now = 0;
  fetched = 1;
  metadata_token = ok (record { access_token = "secret"; expires_in = 3600 });
  send = λ url bearer. ok answer;
}

read-Sound_example :
    Sound
      (some (pos 10))
      (read
        (codes "https://storage")
        outside
        (metadata none)
        (codes "gs://tokens/a/tokens.toml")
        (some (pos 10))).1
read-Sound_example =
    read-Sound (codes "https://storage") outside (metadata none) (codes "gs://tokens/a/tokens.toml")
      (some (pos 10))

same_as_iff_example :
    (same_as small_library.to_lowercase first_candidate.projection second_candidate.projection
      ≡ true)
    ↔ (SameMembers
          (filter_map (row_of small_library.to_lowercase) first_candidate.projection.tokens)
          (filter_map (row_of small_library.to_lowercase) second_candidate.projection.tokens)
        × (eq_ignore_ascii_case first_candidate.projection.quote_token
              second_candidate.projection.quote_token
            ≡ true))
same_as_iff_example =
    same_as_iff small_library.to_lowercase first_candidate.projection second_candidate.projection

abbrev wakes : List Subscription.Wake
wakes =
    Subscription.publishes ("A" ∷ "C" ∷ [])
    ∷ Subscription.list_changed (ok tt) (ok tt)
    ∷ Subscription.message 100 Subscription.transport_ping (ok tt)
    ∷ []

session-InStep_example : GoesOn InStep (
    Subscription.run_session "oracle"
      (Subscription.start_session "oracle" 0 empty ("B" ∷ "A" ∷ []) (ok tt))
      wakes)
session-InStep_example = session-InStep "oracle" 0 empty ("B" ∷ "A" ∷ []) (ok tt) wakes

abbrev failures : List End
failures = err Subscription.no_frame ∷ err Subscription.no_frame ∷ err Subscription.no_frame ∷ []
