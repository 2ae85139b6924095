-- ===== src/Handlers/Served.antt =====
-- The reply of the schemas that sign: built in place, checked once more at one time.
use st0x_oracle_server.Base.{◌∷◌, ◌∙◌}
use st0x_oracle_server.World.{M, World, continue-eq-ok, yield, snapshot, current, now_unix_ms}
use st0x_oracle_server.Pricing.{snapshot_many}
use st0x_oracle_server.Handlers.{slot_symbol, built_symbol, oks}
use st0x_oracle_server.Base.{sym, subst}
use st0x_oracle_server.Base.Int.{ℤ}
use st0x_oracle_server.Batch.{
  finish, all_ok, strict_abort, or_abort, aborting, ContextResponse, enveloped, item_of, strict,
  BuiltSlot, build_slots, revalidate_batch,
}
use st0x_oracle_server.Base.{
  Bool, List, String, Result, ℕ, ◌≡◌, ok, map, arith, err, and_then-eq-ok, inl, true, ap, inr, [],
}
use st0x_oracle_server.Wire.{External, Word}
use st0x_oracle_server.Handlers.{Abi, PairSlot, sign_slots, build_one, tag}
use st0x_oracle_server.Refusal.{AppError}
use st0x_oracle_server.Context.{OracleResponse}
use st0x_oracle_server.Signer.{Attempt}
use st0x_oracle_server.Response.{PairSchema, signs_expiry}
use st0x_oracle_server.Base.Errors.{Result-cases}
use st0x_oracle_server.Pricing.{QuoteSnapshot}
use st0x_oracle_server.Batch.Order.{Built, build_slots-Built}
use mathlib.Core.Bool.{false}
use st0x_oracle_server.Registry.{TokenRegistry}
use st0x_oracle_server.Batch.Final.{Answers, revalidate_batch-Answers}

-- An envelope holds every item in its place; a strict reply holds responses only, one for each item.
abbrev pub ReplyOf : Bool → List (Result AppError OracleResponse) → ContextResponse → Type 0
ReplyOf true items r = r ≡ enveloped (map item_of items)
ReplyOf false items r =
    (responses : List OracleResponse) × (items ≡ map ok responses) × (r ≡ strict responses)

all_ok-map :
    (items : List (Result AppError OracleResponse)) (responses : List OracleResponse)
    → all_ok items ≡ ok responses
    → items ≡ map ok responses
unfolding all_ok
all_ok-map [] responses h =
    let same : [] ≡ responses = ground arith in ap (λ (r : List OracleResponse). map ok r) same
all_ok-map (err e ∷ items) responses h = absurd (ground arith)
all_ok-map (ok a ∷ items) responses h =
    let (rest, is, g) = and_then-eq-ok (all_ok items) (λ (r : List OracleResponse). ok (a ∷ r)) h in
    let same : a ∷ rest ≡ responses = ground arith in
    ap (λ (i : List (Result AppError OracleResponse)). ok a ∷ i) (all_ok-map items rest is)
    ∙ ap (λ (r : List OracleResponse). map ok r) same

finish-ReplyOf :
    (endpoint : String) (items : List (Result AppError OracleResponse)) (envelope : Bool)
    (w w' : World) (r : ContextResponse)
    → finish endpoint items envelope w ≡ (ok r, w')
    → ReplyOf envelope items r
unfolding finish strict_abort
finish-ReplyOf endpoint items true w w' r h = ground arith
finish-ReplyOf endpoint items false w w' r h = elim (Result-cases (all_ok items)) [
  | inl (responses, e) ↦ (responses, all_ok-map items responses e, ground (arith, e, h))
  | inr (f, e) ↦ absurd (ground (arith, e, h))
]

aborting-ok :
    (A : Type 0) (endpoint : String) (p : Result AppError A × World) (a : A) (v : World)
    → aborting endpoint p ≡ (ok a, v)
    → p ≡ (ok a, v)
unfolding strict_abort
aborting-ok A endpoint (ok b, u) a v h = h
aborting-ok A endpoint (err e, u) a v h = absurd (ground arith)

or_abort-ok :
    (A : Type 0) (endpoint : String) (m : M A) (w : World) (a : A) (v : World)
    → or_abort endpoint m w ≡ (ok a, v)
    → m w ≡ (ok a, v)
unfolding or_abort
or_abort-ok A endpoint m w a v h = aborting-ok A endpoint (m w) a v h

module _ (x : External) (abi : Abi) (sign : Word → ℕ → Attempt) (chain_id : ℕ)
    (schema : PairSchema) where
  -- How a reply came about, from a request that finds this state.
  pub record Served (w : World) (resolved : List (Result AppError PairSlot)) (envelope : Bool)
      (r : ContextResponse) : Type 0 where
    -- The snapshot of the request is the cache after the request has first yielded.
    pub quotes : List (String × QuoteSnapshot)
    pub quotes_are :
        quotes
        ≡ snapshot_many
            (yield sign w).feed
            chain_id
            (map (slot_symbol x abi sign chain_id) (oks resolved))
    pub built : List (Result AppError BuiltSlot)
    -- The state that the builds leave.
    pub finished : World
    pub builds :
        build_slots (build_one x abi sign chain_id schema quotes) resolved envelope (yield sign w)
        ≡ (ok built, finished)
    pub in_place : Built (build_one x abi sign chain_id schema quotes) resolved built
    -- The second snapshot, the token set and the time of the last check are read after that, in
    -- this order, with others acting before each.
    pub now_quotes : List (String × QuoteSnapshot)
    pub now_quotes_are :
        now_quotes
        ≡ snapshot_many
            (yield sign finished).feed
            chain_id
            (map (built_symbol x abi sign chain_id schema) (oks built))
    pub registry : TokenRegistry
    pub registry_is : registry ≡ (yield sign (yield sign finished)).tokens
    pub checked_at : ℤ
    pub checked_at_is : checked_at ≡ (yield sign (yield sign (yield sign finished))).now_unix_ms
    pub items : List (Result AppError OracleResponse)
    pub answers :
        Answers sign (tag schema) (signs_expiry schema) checked_at now_quotes registry built items
    pub reply : ReplyOf envelope items r

  -- A reply of v5, v6 or v7 has every item of the request in its place: each resolved item was built
  -- for itself from the one snapshot that the request took first. After the builds a second snapshot,
  -- the running token set and the clock are read, once and in this order, and each item is answered
  -- with its own response only when that still holds by these; an envelope holds the errors of the
  -- others, and a strict reply has no others.
  pub sign_slots-Served :
      (resolved : List (Result AppError PairSlot)) (envelope : Bool) (w w' : World)
      (r : ContextResponse)
      → sign_slots x abi sign chain_id schema resolved envelope w ≡ (ok r, w')
      → Served w resolved envelope r
  unfolding snapshot current now_unix_ms
  sign_slots-Served resolved envelope w w' r h0 =
      let (quotes, w1, e1, h1) = continue-eq-ok _ _ h0 in
      let (built, w2, e2, h2) = continue-eq-ok _ _ h1 in
      let (now_quotes, w3, e3, h3) = continue-eq-ok _ _ h2 in
      let (registry, w4, e4, h4) = continue-eq-ok _ _ h3 in
      let (checked_at, w5, e5, h5) = continue-eq-ok _ _ h4 in
      let (items, w6, e6, h6) = continue-eq-ok _ _ h5 in
      let at1 : yield sign w ≡ w1 =
        ap (λ (p : Result AppError (List (String × QuoteSnapshot)) × World). p.1) e1 in
      let at3 : yield sign w2 ≡ w3 =
        ap (λ (p : Result AppError (List (String × QuoteSnapshot)) × World). p.1) e3 in
      let at4 : yield sign w3 ≡ w4 = ap (λ (p : Result AppError TokenRegistry × World). p.1) e4 in
      let here4 : yield sign (yield sign w2) ≡ w4 = ap (λ v. yield sign v) at3 ∙ at4 in
      let builds =
        or_abort-ok (List (Result AppError BuiltSlot)) (tag schema)
          (build_slots (build_one x abi sign chain_id schema quotes) resolved envelope) w1 built w2
          e2 in
      record {
        quotes = quotes;
        quotes_are = ground (arith, e1);
        built = built;
        finished = w2;
        builds =
            subst
              (λ v.
                build_slots (build_one x abi sign chain_id schema quotes) resolved envelope v
                ≡ (ok built, w2))
              (sym at1) builds;
        in_place =
            build_slots-Built (build_one x abi sign chain_id schema quotes) resolved envelope w1 w2
              built builds;
        now_quotes = now_quotes;
        now_quotes_are = ground (arith, e3);
        registry = registry;
        registry_is = ground (arith, e4, at3);
        checked_at = checked_at;
        checked_at_is = ground (arith, e5, here4);
        items = items;
        answers =
            revalidate_batch-Answers sign (tag schema) (signs_expiry schema) checked_at now_quotes
              registry built envelope w5 w6 items
              (or_abort-ok (List (Result AppError OracleResponse)) (tag schema)
                (revalidate_batch sign (tag schema) (signs_expiry schema) checked_at now_quotes
                  registry built envelope)
                w5 items w6 e6);
        reply = finish-ReplyOf (tag schema) items envelope w6 w' r h6;
      }
