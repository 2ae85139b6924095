-- ===== src/Tests/Routes.antt =====
-- Bodies, queries and batches served in a world where others act.
use st0x_oracle_server.Tests.Requests.{coin_pair, world, coin_response}
use st0x_oracle_server.Batch.{
  finish, BuiltSlot, revalidate_batch, ContextResponse, enveloped, error_item, item_of, build_slots,
  BatchItemResponse, or_abort, strict, revalidate, record_request_outcome,
}
use st0x_oracle_server.Signer.History
use st0x_oracle_server.Response
use st0x_oracle_server.Pricing.Events.{run, step}
use st0x_oracle_server.Pricing.{apply_server_frame, insert_quote}
use st0x_oracle_server.Batch.{all_ok}
use st0x_oracle_server.Base.{
  Result, List, ◌∷◌, [], ◌≡◌, ok, refl, err, true, some, ◌++◌, Option, replicate, none, ℕ, All, suc,
  zero,
}
use st0x_oracle_server.Base.HashMap
use st0x_oracle_server.Pricing.{snapshot_many}
use st0x_oracle_server.Tests.{plain, key, token, settlement, feed}
use st0x_oracle_server.Registry.{resolve}
use st0x_oracle_server.World.{
  World, continue, quote_live, yield, act_all, act, current, now_unix_ms, look_up, sign_context,
  signs, keep,
}
use st0x_oracle_server.Response.{
  v5, v4, build_response_from_quote_pair_bound, admit, try_reuse, sign_fresh, context_of,
}
use st0x_oracle_server.Refusal.{
  AppError, bad_request, invalid_body, to_error_response, unavailable, legacy_schema, legacy,
  no_live_quote, no_live_quote_for,
}
use st0x_oracle_server.Wire.{Bytes}
use st0x_oracle_server.Validity.{
  legacy_signature_unavailable, validate_quote_liveness, validate_quote_address,
  validate_quote_expiry, validate_expiry_deadline, quote_is_live, effective_expiry_unix_ms,
  publish_time_from_quote, expiry_from_quote,
}
use st0x_oracle_server.Handlers.{
  OracleRequest, Abi, post_signed_context_v1_inner, post_signed_context_pair_bound,
  decode_request_body, resolve_pair_for_order, resolve_slot, refuse_all, PairSlot, build_one,
  sign_slots, io_tokens_for,
}
use st0x_oracle_server.Handlers.Served.{Served, sign_slots-Served}
use st0x_oracle_server.Query.{parse, flag_name}
use st0x_oracle_server.Handlers.Unsigned.{UnsignedReply, legacy_routes-Unsigned}
use st0x_oracle_server.Handlers.Endpoints.{
  post_signed_context_v1, post_signed_context_v4, post_signed_context_v5, post_signed_context_v6,
  post_signed_context_v7,
}
use st0x_oracle_server.World.Trusted.{Trusted, IsTrusted}
use st0x_oracle_server.Handlers.Routed.{ServedAuthentic, routes-Authentic}
use st0x_oracle_server.Signer.Answered.{initial-Faithful}
use st0x_oracle_server.Signer.History.{settles, sends}
use st0x_oracle_server.Signer.{
  signature_cache_idle_ttl, signature_cache_max_entries, context_hash, begin, start, settle, send,
  sign_hash_with_retry,
}
use st0x_oracle_server.Session.{from_quote}
use st0x_oracle_server.Rates.{pick_rate_bytes}
use st0x_oracle_server.Context.{build_context_v5, parse_u64}
use st0x_oracle_server.Reuse.{store}

-- A body of any bytes is a batch of one order between the two tokens.
abbrev order : OracleRequest
order = record {
  order = record { valid_inputs = settlement ∷ []; valid_outputs = token ∷ [] };
  input_io_index = 0;
  output_io_index = 0;
}

abbrev decoder : Abi
decoder = record { decode_batch = λ body. some (order ∷ []); decode_single = λ body. ok order }

abbrev v1_reply : Result AppError ContextResponse × World
v1_reply = post_signed_context_v1_inner plain decoder key 1 true [] world

abbrev v4_reply : Result AppError ContextResponse × World
v4_reply = post_signed_context_pair_bound plain decoder key 1 v4 true [] world

abbrev refused_item : ContextResponse
refused_item = enveloped (error_item (to_error_response (unavailable legacy_schema legacy)) ∷ [])

refuses_v1 : v1_reply ≡ (ok refused_item, v1_reply.1)
unfolding post_signed_context_v1_inner decode_request_body continue current yield
    resolve_pair_for_order resolve HashMap.get refuse_all legacy_signature_unavailable finish
    item_of act_all
refuses_v1 = refl

refuses_v4 : v4_reply ≡ (ok refused_item, v4_reply.1)
unfolding post_signed_context_pair_bound decode_request_body continue current yield resolve_slot
    resolve HashMap.get refuse_all legacy_signature_unavailable finish item_of act_all
refuses_v4 = refl

-- `allowFailure=1`.
abbrev asks_envelope : Option Bytes
asks_envelope = some (flag_name ++ 61 ∷ 49 ∷ [])

legacy_routes-Unsigned_example :
    UnsignedReply (post_signed_context_v1 plain decoder key 1 asks_envelope [] world).0
    × UnsignedReply (post_signed_context_v4 plain decoder key 1 asks_envelope [] world).0
legacy_routes-Unsigned_example = legacy_routes-Unsigned plain decoder key 1 asks_envelope [] world

abbrev resolved_slots : List (Result AppError PairSlot)
resolved_slots =
    err (bad_request (invalid_body ""))
    ∷ ok (record { input_token = settlement; output_token = token; pair = coin_pair })
    ∷ []

-- No quote is in the snapshot, so the second slot is refused in its place.
abbrev unpriced : List (Result AppError BuiltSlot)
unpriced =
    err (bad_request (invalid_body ""))
    ∷ err (unavailable no_live_quote (no_live_quote_for "COIN"))
    ∷ []

abbrev builds_none : Result AppError (List (Result AppError BuiltSlot)) × World
builds_none = build_slots (build_one plain decoder key 1 v5 []) resolved_slots true world

built_in_place : builds_none ≡ (ok unpriced, builds_none.1)
unfolding build_slots continue HashMap.get
built_in_place = refl

abbrev slots_reply : Result AppError ContextResponse × World
slots_reply = sign_slots plain decoder key 1 v5 resolved_slots true world

abbrev unpriced_items : List BatchItemResponse
unpriced_items =
    error_item (to_error_response (bad_request (invalid_body "")))
    ∷ error_item (to_error_response (unavailable no_live_quote (no_live_quote_for "COIN")))
    ∷ []

serves_slots : slots_reply ≡ (ok (enveloped unpriced_items), slots_reply.1)
unfolding st0x_oracle_server.World.snapshot snapshot_many build_slots revalidate_batch or_abort
    continue current yield act_all now_unix_ms finish item_of HashMap.get
serves_slots = refl

sign_slots-Served_example :
    Served plain decoder key 1 v5 world resolved_slots true (enveloped unpriced_items)
sign_slots-Served_example =
    sign_slots-Served plain decoder key 1 v5 resolved_slots true world slots_reply.1
      (enveloped unpriced_items) serves_slots

-- The quote is cached, and the sign task ends whenever others act.
abbrev coin_world : World
coin_world = record world {
  feed = feed;
  schedule = replicate 24 (signs (settles 0 0 0) ∷ signs (sends 0) ∷ []);
}

settles-IsTrusted :
    (n : ℕ)
    → All (All (IsTrusted plain key)) (replicate n (signs (settles 0 0 0) ∷ signs (sends 0) ∷ []))
settles-IsTrusted zero = tt
settles-IsTrusted (suc n) = ((tt, (tt, tt)), settles-IsTrusted n)

coin_world-Trusted : Trusted plain key coin_world
coin_world-Trusted = record {
  signer = initial-Faithful key signature_cache_idle_ttl signature_cache_max_entries;
  reuse = tt;
  others = settles-IsTrusted 24;
}

abbrev v5_reply : Result AppError ContextResponse × World
v5_reply = post_signed_context_v5 plain decoder key 1 none [] coin_world

signs_v5 : v5_reply.0 ≡ ok (strict (coin_response ∷ []))
unfolding post_signed_context_v5 post_signed_context_pair_bound continue decode_request_body current
    parse resolve_slot resolve yield act_all act HashMap.get HashMap.insert
    st0x_oracle_server.World.snapshot or_abort build_slots snapshot_many run step apply_server_frame
    insert_quote build_response_from_quote_pair_bound admit Response.candidate try_reuse sign_fresh
    validate_quote_liveness quote_live now_unix_ms validate_quote_address validate_quote_expiry
    validate_expiry_deadline quote_is_live effective_expiry_unix_ms publish_time_from_quote
    from_quote pick_rate_bytes expiry_from_quote context_of build_context_v5 parse_u64 look_up
    st0x_oracle_server.Reuse.lookup sign_context context_hash History.step History.task
    History.broadcast begin st0x_oracle_server.Signer.lookup start settle send sign_hash_with_retry
    st0x_oracle_server.Signer.finish keep store revalidate_batch revalidate finish
    record_request_outcome io_tokens_for all_ok
signs_v5 = refl

routes-Authentic_example :
    ServedAuthentic plain key "v1" coin_world
      (post_signed_context_v1 plain decoder key 1 none [] coin_world)
    × ServedAuthentic plain key "v4" coin_world
        (post_signed_context_v4 plain decoder key 1 none [] coin_world)
    × ServedAuthentic plain key "v5" coin_world v5_reply
    × ServedAuthentic plain key "v6" coin_world
        (post_signed_context_v6 plain decoder key 1 none [] coin_world)
    × ServedAuthentic plain key "v7" coin_world
        (post_signed_context_v7 plain decoder key 1 none [] coin_world)
routes-Authentic_example =
    routes-Authentic plain decoder key 1 none [] coin_world coin_world-Trusted
