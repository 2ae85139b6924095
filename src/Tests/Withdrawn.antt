-- ===== src/Tests/Withdrawn.antt =====
-- A request that holds a quote of a token that a reload removes.
use st0x_oracle_server.Tests.{plain, key, coin_quote, registry}
use st0x_oracle_server.Tests.Requests.{world, coin_pair, built}
use st0x_oracle_server.Tests.Reloads.{reloader, second_is_newer, second_differs}
use st0x_oracle_server.Tests.Files.{small_library, static_config, first_candidate, second_candidate}
use st0x_oracle_server.Base.Ordered
use st0x_oracle_server.Toml
use st0x_oracle_server.Reload.{Reloader, round}
use st0x_oracle_server.World.{act}
use st0x_oracle_server.Reload.Applied.{keeps_row}
use st0x_oracle_server.Reload.Withdrawn.{Refused, round-revalidate}
use st0x_oracle_server.Pricing.{Feed, QuoteSnapshot, empty, apply_server_frame, insert_quote}
use st0x_oracle_server.Pricing.Events.{run, arrives}
use st0x_oracle_server.Pricing.Invariant.{IsValid}
use st0x_oracle_server.Pricing.Preserved.{run-IsValid, empty-IsValid}
use st0x_oracle_server.Pricing.Liveness.{generation_at}
use st0x_oracle_server.World.{World, ticks}
use st0x_oracle_server.World.Later.{same_state, then_acts}
use st0x_oracle_server.Wire.{Quote, price}
use st0x_oracle_server.Base.HashMap
use st0x_oracle_server.Base.{none, ◌≡◌, ◌∷◌, some, ok, [], refl, true, false}
use st0x_oracle_server.TokenFile.{rows, row_of}
use st0x_oracle_server.Base.Int.{pos}
use st0x_oracle_server.Response.{build_response_from_quote_pair_bound, v5}
use st0x_oracle_server.TokenFile.Bucket.{copy}
use st0x_oracle_server.Batch.{revalidate}

abbrev removed_quote : Quote
removed_quote = record coin_quote { asset = "wtTSLA"; chain_id = 8453 }

abbrev full_feed : Feed
full_feed = run empty (arrives none (price removed_quote) ∷ [])

full_feed-IsValid : IsValid full_feed
full_feed-IsValid = run-IsValid empty (arrives none (price removed_quote) ∷ []) empty-IsValid

cached : generation_at full_feed (8453, "wtTSLA") ≡ some 0
unfolding run apply_server_frame insert_quote HashMap.get HashMap.insert
cached = refl

abbrev full_reloader : Reloader
full_reloader = record reloader { pricing = full_feed }

not_kept :
    keeps_row small_library first_candidate.projection second_candidate.projection "wtTSLA" ≡ false
unfolding rows row_of Ordered.collect Ordered.insert Toml.get Toml.insert HashMap.get
not_kept = refl

abbrev after_round : World
after_round = record world {
  feed =
      (round small_library static_config first_candidate.config (pos 5)
        (ok (copy (2 ∷ []) (pos 20))) full_reloader).pricing;
}

abbrev a_second_later : World
a_second_later = act key after_round (ticks (pos 7000))

abbrev removed_snapshot : QuoteSnapshot
removed_snapshot = record { quote = removed_quote; generation = 0 }

round-revalidate_example :
    Refused (
      build_response_from_quote_pair_bound plain key 8453 coin_pair removed_snapshot v5 [] []
        a_second_later)
    × Refused (
        revalidate key "v5" true
          (pos 7000)
          []
          registry
          (record { pair = coin_pair; quote = removed_snapshot; response = built })
          a_second_later)
round-revalidate_example =
    round-revalidate plain key small_library static_config first_candidate.config full_reloader
      (pos 5) (pos 20) (2 ∷ []) second_candidate first_candidate.projection second_is_newer
      second_differs full_feed-IsValid 8453 "wtTSLA" removed_snapshot cached not_kept after_round
      a_second_later refl (then_acts same_state (ticks (pos 7000))) coin_pair v5 [] [] "v5" true
      (pos 7000) [] registry built
