-- ===== src/Tests/Requests.antt =====
-- Requests served in a world where others act.
use st0x_oracle_server.Batch.{BuiltSlot, revalidate_batch, revalidate}
use st0x_oracle_server.Base.Int.{pos, ℤ}
use st0x_oracle_server.Base.{Result, List, ◌∷◌, [], ◌≡◌, ok, refl, String, err, true, ◌⊎◌}
use st0x_oracle_server.Base.HashMap
use st0x_oracle_server.Pricing.{empty, QuoteSnapshot}
use st0x_oracle_server.Tests.{plain, key, registry, token, coin_snapshot, settlement, coin_quote}
use st0x_oracle_server.Signer.History
use st0x_oracle_server.Registry.{ResolvedPair, quote_to_base, resolve}
use st0x_oracle_server.World.{World, continue, quote_live, yield, act_all, act, now_unix_ms, signs}
use st0x_oracle_server.Context.{OracleResponse, left_padding_from}
use st0x_oracle_server.Response.{BuiltResponse, build_response_from_quote_pair_bound, v5}
use st0x_oracle_server.Refusal.{
  AppError, bad_request, invalid_body, unavailable, admission, Detail, expired_quote,
}
use st0x_oracle_server.Wire.{Word, rth}
use st0x_oracle_server.Base.Decimal.{to_string}
use st0x_oracle_server.Session.{tag_bytes32_v3}
use st0x_oracle_server.Signer.{context_hash, signature_cache_idle_ttl, signature_cache_max_entries}
use st0x_oracle_server.Validity.{
  validate_quote_liveness, validate_quote_address, validate_quote_expiry, validate_expiry_deadline,
  quote_is_live, effective_expiry_unix_ms,
}
use st0x_oracle_server.Signer.History.{initial, settles, sends}
use st0x_oracle_server.Batch.Final.{Answers, revalidate_batch-Answers}
use st0x_oracle_server.Validity.Expiry.{Binds, Unexpired}
use st0x_oracle_server.Validity.Checks.{check, refused, validate_quote_expiry_lem}
use st0x_oracle_server.World.Passes.{Passes}

abbrev pub coin_pair : ResolvedPair
coin_pair = record { symbol = "COIN"; token = token; direction = quote_to_base }

-- At second 6, with the sign task of the first entry ending during the eighth wait.
abbrev pub world : World
world = record {
  feed = empty;
  tokens = registry;
  now_unix_ms = pos 6000;
  instant = 0;
  reuse = st0x_oracle_server.Reuse.new 0;
  signer =
      initial (st0x_oracle_server.Signer.new signature_cache_idle_ttl signature_cache_max_entries);
  refusals = [];
  mismatches = [];
  items = [];
  requests = [];
  schedule =
      []
      ∷ []
      ∷ []
      ∷ []
      ∷ []
      ∷ []
      ∷ []
      ∷ []
      ∷ []
      ∷ (signs (settles 0 0 0) ∷ signs (sends 0) ∷ [])
      ∷ [];
}

abbrev served_coin : Result AppError BuiltResponse × World
served_coin =
    build_response_from_quote_pair_bound plain key 1 coin_pair coin_snapshot v5 settlement token
      world

abbrev coin_context : List Word
coin_context =
    to_string 5
    ∷ (5 ∷ [])
    ∷ to_string 5
    ∷ tag_bytes32_v3 plain rth
    ∷ to_string 1
    ∷ to_string 90
    ∷ left_padding_from settlement
    ∷ left_padding_from token
    ∷ to_string 9
    ∷ []

abbrev pub coin_response : OracleResponse
coin_response = record {
  signer = 3 ∷ [];
  context = coin_context;
  signature = context_hash plain coin_context;
}

abbrev pub built : BuiltResponse
built = record { response = coin_response; validity_expiry_unix_ms = pos 9500 }

validate_quote_expiry_lem_example :
    ((e : ℤ) × Binds coin_quote e
      × Unexpired e (pos 9400) true
      × (check "v5" "COIN" admission coin_quote (pos 9400) true world ≡ (ok tt, world)))
    ⊎ (((e : ℤ) → Binds coin_quote e → ¬ Unexpired e (pos 9400) true)
        × (d : Detail) × (check "v5" "COIN" admission coin_quote (pos 9400) true world ≡ (
          err (unavailable expired_quote d),
          refused world expired_quote "v5" "COIN" admission,
        )))
validate_quote_expiry_lem_example =
    validate_quote_expiry_lem "v5" "COIN" admission coin_quote (pos 9400) true world

abbrev coin_slot : BuiltSlot
coin_slot = record { pair = coin_pair; quote = coin_snapshot; response = built }

abbrev coin_quotes : List (String × QuoteSnapshot)
coin_quotes = ("COIN", coin_snapshot) ∷ []

-- One slot that passes and one that was refused before.
abbrev slots : List (Result AppError BuiltSlot)
slots = ok coin_slot ∷ err (bad_request (invalid_body "")) ∷ []

abbrev answers : List (Result AppError OracleResponse)
answers = ok coin_response ∷ err (bad_request (invalid_body "")) ∷ []

abbrev last_check : Result AppError (List (Result AppError OracleResponse)) × World
last_check = revalidate_batch key "v5" true (pos 7000) coin_quotes registry slots true world

passes : last_check ≡ (ok answers, last_check.1)
unfolding revalidate_batch revalidate continue validate_quote_liveness quote_live yield act_all act
    validate_quote_address validate_quote_expiry validate_expiry_deadline quote_is_live
    effective_expiry_unix_ms HashMap.get resolve
passes = refl

revalidate_batch-Answers_example :
    Answers key "v5" true (pos 7000) coin_quotes registry slots answers
revalidate_batch-Answers_example =
    revalidate_batch-Answers key "v5" true (pos 7000) coin_quotes registry slots true world
      last_check.1 answers passes
