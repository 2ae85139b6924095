-- ===== src/Tests/Parts.antt =====
-- A status reply, a window of slots, a key name, and `validate` against boot.
use st0x_oracle_server.Batch.Window.{build_window, range}
use st0x_oracle_server.Batch.{build_slots}
use st0x_oracle_server.Tests.Requests.{world}
use st0x_oracle_server.Refusal.{AppError, bad_request, invalid_body}
use st0x_oracle_server.Batch.Filled.{build_window-map}
use st0x_oracle_server.Signer.KeyName.{
  KmsKeyName, parse_key_name, show_key_name, IsPlain, parse-show_key_name,
}
use st0x_oracle_server.Status.{StatusGauges, status}
use st0x_oracle_server.Status.Reported.{Tells, status-Tells}
use st0x_oracle_server.Serve.{with_copy, serve_source, validate_file}
use st0x_oracle_server.Serve.Validated.{ReadsFirst, validate_file-boot}
use st0x_oracle_server.TokenFile.Bucket.{split_gs_url, access_token, metadata, read, receive}
use st0x_oracle_server.TokenFile.Source.{source_of}
use st0x_oracle_server.Base.Text.{strip_prefix, split_once}
use st0x_oracle_server.Tests.{feed, token, registry}
use st0x_oracle_server.Tests.Files.{small_library, first_candidate}
use st0x_oracle_server.Toml
use st0x_oracle_server.Toml.{Value, Table, string, table, end, entry}
use st0x_oracle_server.Base.{
  ◌*◌, codes, ◌≡◌, none, Result, ℕ, ◌%◌, ok, String, ◌∷◌, some, [], map, refl, if◌then◌else◌, arith,
  ◌↔◌, ◌==◌, err, nat_eq, List, false, ◌+◌,
}
use st0x_oracle_server.Tokens.{TokenSet, inline_set}
use st0x_oracle_server.Config.{RegistrySource}
use st0x_oracle_server.TokenFile.Bucket.{ReadError, Read, fetch_failed, copy}
use st0x_oracle_server.TokenFile.Boot.{boot_retry, boot}
use st0x_oracle_server.Base.Int.{pos}
use st0x_oracle_server.World.{continue}
use st0x_oracle_server.Batch.Strict.{StopsAt, build_slots-StopsAt}
use st0x_oracle_server.TokenFile.Bearer.{Call, FreshFrom, after, access_token-Fresh}

-- Thirteen slots; which of the futures that run ends next goes round.
build_window-map_example :
    build_window (λ fuel. (fuel * 7) % 10) (λ n. n * n) 13 ≡ some (map (λ n. n * n) (range 0 13))
build_window-map_example = build_window-map (λ n. n * n) (λ fuel. (fuel * 7) % 10) 13

abbrev bad_item : AppError
bad_item = bad_request (invalid_body "")

-- The item 2 is refused.
abbrev squared : ℕ → Result AppError ℕ
squared n = if n == 2 then err bad_item else ok (n * n)

abbrev three_slots : List (Result AppError ℕ)
three_slots = ok 2 ∷ err bad_item ∷ ok 3 ∷ []

abbrev key_name : KmsKeyName
key_name = record {
  project = codes "st0x";
  location = codes "europe-west1";
  keyring = codes "oracle";
  key = codes "signer";
  version = 12;
}

key_name-IsPlain : IsPlain key_name
key_name-IsPlain = (refl, refl, refl, refl, omega arith)

parse-show_key_name_example : parse_key_name (show_key_name key_name) ≡ ok key_name
parse-show_key_name_example = parse-show_key_name key_name key_name-IsPlain

abbrev two_symbols : TokenSet
two_symbols = inline_set registry ("COIN" ∷ "TSLA" ∷ [])

abbrev no_gauges : StatusGauges
no_gauges = record { configured = 0; missing = 0; freshness_ms = none }

status-Tells_example :
    (let (reply, g) = status token 1 two_symbols feed feed (pos 6000) no_gauges in
      Tells 1 two_symbols feed feed (pos 6000) reply g none)
status-Tells_example = status-Tells token 1 two_symbols feed feed (pos 6000) no_gauges

abbrev bucket_source : RegistrySource
bucket_source = record { url = "gs://tokens/live.toml"; refresh_secs = 60 }

abbrev try_into_source : Value → Result String RegistrySource
try_into_source v = ok bucket_source

abbrev live_config : Table
live_config =
    entry "quote_token" (string "Q")
      (entry "registry" (table (entry "url" (string "gs://tokens/live.toml") end)) end)

live_config-source : source_of try_into_source live_config ≡ ok (some bucket_source)
unfolding source_of Toml.get split_gs_url strip_prefix split_once
live_config-source = refl

-- The first try fails, and the second reads a copy.
abbrev second_try : ℕ → Result ReadError Read
second_try n = if n == 1 then err (fetch_failed "no route") else ok (copy (1 ∷ []) (pos 10))

second_try-ReadsFirst : ReadsFirst boot_retry second_try 2 (1 ∷ []) (pos 10)
second_try-ReadsFirst =
    (omega arith, omega arith, λ m h k. (fetch_failed "no route", ground arith), refl)

validate_file-boot_example :
    (serve_source small_library try_into_source live_config ≡ ok bucket_source)
    × ((validate_file small_library try_into_source live_config (some (ok (1 ∷ [])))
          ≡ ok (with_copy first_candidate.config))
        ↔ ((set : TokenSet) × (boot small_library live_config boot_retry second_try
              ≡ some (ok (first_candidate.config, set)))
            × (set.generation ≡ some (pos 10))))
validate_file-boot_example =
    validate_file-boot boot_retry second_try small_library try_into_source live_config bucket_source
      (1 ∷ []) first_candidate.config 2 (pos 10) live_config-source second_try-ReadsFirst

stops_at_two :
    build_slots (λ n w. (squared n, w)) (ok 3 ∷ ok 2 ∷ ok 1 ∷ []) false world
    ≡ (err bad_item, world)
unfolding build_slots continue
stops_at_two = refl

build_slots-StopsAt_example :
    StopsAt (λ n w. (squared n, w)) (ok 3 ∷ ok 2 ∷ ok 1 ∷ []) world bad_item world
build_slots-StopsAt_example =
    build_slots-StopsAt (λ n w. (squared n, w)) (ok 3 ∷ ok 2 ∷ ok 1 ∷ []) world world bad_item
      stops_at_two

-- Two reads: the metadata server answers the first, and the second uses its token.
abbrev call_at : ℕ → Call
call_at now = record {
  outside = record {
    now = now;
    fetched = now + 5;
    metadata_token = ok (record { access_token = "t"; expires_in = 3600 });
    send = λ url bearer. err "no route";
  };
  gs_url = codes "gs://tokens/live.toml";
  unless = none;
}

abbrev first_calls : List Call
first_calls = call_at 1000 ∷ []

abbrev second_bearer : Result ReadError String
second_bearer = (access_token (call_at 2000).outside (after [] (metadata none) first_calls)).1

uses_token : second_bearer ≡ ok "t"
unfolding access_token after read split_gs_url strip_prefix split_once receive
uses_token = refl

access_token-Fresh_example :
    FreshFrom first_calls (call_at 2000) (after [] (metadata none) first_calls) "t"
access_token-Fresh_example =
    access_token-Fresh [] (metadata none) refl first_calls (call_at 2000) "t" uses_token
