-- ===== src/Tests/Feeds.antt =====
-- Histories of the price feed and of the reuse cache.
use st0x_oracle_server.Pricing.{empty, apply_server_frame, is_live, insert_quote}
use st0x_oracle_server.Pricing.Events.{run, Event, arrives}
use st0x_oracle_server.Base.{
  none, some, List, ◌≡◌, [], false, ◌∷◌, true, ◌↔◌, refl, arith, length, ℕ, ◌≢◌, get_elem?,
}
use st0x_oracle_server.Base.HashMap
use st0x_oracle_server.Tests.{feed, frames, settlement, token, coin, price, coin_quote}
use st0x_oracle_server.Pricing.Invariant.{IsValid}
use st0x_oracle_server.Reuse.{
  ReuseKey, same_statement, ReuseCache, Stored, new, store, lookup, key_eq, publish_time_slot,
  expiry_slot,
}
use st0x_oracle_server.Context.{OracleResponse}
use st0x_oracle_server.Pricing.Preserved.{run-IsValid, empty-IsValid}
use st0x_oracle_server.Wire.{Word, halt}
use st0x_oracle_server.Pricing.Liveness.{generation_at, run-is_live}
use st0x_oracle_server.Reuse.Offer.{lookup-store, Serves, served, lookup-eq-some}
use st0x_oracle_server.Reuse.Statement.{same_statement_iff}

run-IsValid_example : IsValid (run empty frames)
run-IsValid_example = run-IsValid empty frames empty-IsValid

feed-IsValid : IsValid feed
feed-IsValid = run-IsValid empty frames empty-IsValid

feed-generation : generation_at feed coin ≡ some 0
unfolding run apply_server_frame insert_quote HashMap.get HashMap.insert
feed-generation = refl

-- A second price keeps the snapshot live, and a halt ends it.
abbrev later_frames : List Event
later_frames = arrives none (price coin_quote) ∷ arrives none (halt 1 "COIN" true) ∷ []

run-is_live_example : is_live (run feed later_frames) 0 ≡ false
run-is_live_example = run-is_live feed coin 0 later_frames feed-IsValid feed-generation

abbrev reuse_key_ : ReuseKey
reuse_key_ = record {
  schema = "v5";
  symbol = "COIN";
  direction = "quote_to_base";
  input_token = settlement;
  output_token = token;
}

abbrev pub old_context : List Word
old_context = (5 ∷ []) ∷ (1 ∷ []) ∷ (2 ∷ []) ∷ []

abbrev pub new_context : List Word
new_context = (5 ∷ []) ∷ (1 ∷ []) ∷ (9 ∷ []) ∷ []

abbrev stored_response : OracleResponse
stored_response = record { signer = []; context = old_context; signature = [] }

same_statement_iff_example : (same_statement old_context new_context ≡ true) ↔ (
    (length old_context ≡ length new_context)
    × ((i : ℕ)
        → i ≢ publish_time_slot
        → i ≢ expiry_slot
        → get_elem? old_context i ≡ get_elem? new_context i))
same_statement_iff_example = same_statement_iff old_context new_context

one_statement : same_statement old_context new_context ≡ true
unfolding same_statement
one_statement = refl

abbrev cache : ReuseCache
cache = new 5

abbrev cache_after : ReuseCache
cache_after = (store cache empty reuse_key_ 100 stored_response 0).0

lookup-store_example :
    lookup cache_after empty reuse_key_ new_context 110 90 0
    ≡ some (record { expiry_unix_secs = 100; response = stored_response })
lookup-store_example =
    lookup-store cache empty empty reuse_key_ stored_response new_context 100 110 90 0 (omega arith)
      refl refl one_statement (omega arith) (omega arith)

lookup-eq-some_example :
    (s : Stored) × (HashMap.get reuse_key_ cache_after.entries ≡ some s)
    × Serves empty cache_after.min_remaining_secs new_context 110 90 0 s
    × (record { expiry_unix_secs = 100; response = stored_response } ≡ served s)
lookup-eq-some_example =
    lookup-eq-some cache_after empty reuse_key_ new_context 110 90 0
      (record { expiry_unix_secs = 100; response = stored_response }) lookup-store_example

abbrev disabled : ReuseCache
disabled = new 0
