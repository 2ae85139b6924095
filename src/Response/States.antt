-- ===== src/Response/States.antt =====
-- What a candidate states: the slots of its context, from the quote and the request's tokens.
use st0x_oracle_server.Wire.{External, Word, Address, Quote}
use st0x_oracle_server.Context.Layout.{
  NineSlots, NumberAt, WordAt, Signed, context_v5-NineSlots, context_v6-NineSlots,
  context_v7-NineSlots,
}
use st0x_oracle_server.Context.{
  left_padding_from, build_context_v4, build_session_context, parse_u64, from_be_bytes,
}
use st0x_oracle_server.Response.{
  PairSchema, v4, v5, v6, v7, Candidate, candidate, context_of, price_bytes, signed_values,
  session_of, expiry_of,
}
use st0x_oracle_server.Session.{SignedSession, from_quote, tag_bytes32_v3}
use st0x_oracle_server.World.{World, lift}
use st0x_oracle_server.Base.{
  length, get_elem?, to_option, ℕ, ◌≡◌, ok, Option, List, map_err-eq-ok, some, none, arith, inl,
  inr, refl,
}
use st0x_oracle_server.Base.Errors.{Result-cases}
use st0x_oracle_server.Signer.{Attempt}
use st0x_oracle_server.Registry.{TokenRegistry, ResolvedPair, resolve}
use st0x_oracle_server.Rates.Takers.{
  SharePrice, UnderlyingPrice, pick-SharePrice, pick-UnderlyingPrice,
}
use st0x_oracle_server.World.Ensures.{IfOk}
use st0x_oracle_server.Session.{missing, invalid}
use st0x_oracle_server.Pricing.{QuoteSnapshot}
use st0x_oracle_server.Validity.{publish_time_from_quote, expiry_from_quote, session_refused}
use st0x_oracle_server.World.Produces.{
  returned, Produces, Produces-bind, Produces-lift, Produces-pure,
}

abbrev pub version_of : PairSchema → ℕ
version_of v4 = 4
version_of v5 = 5
version_of v6 = 6
version_of v7 = 7

-- The first eight slots of the schemas that bind a pair.
pub record EightSlots (x : External) (version : ℕ) (price : Word) (publish_time : ℕ)
    (session : SignedSession) (input output : Address) (c : List Word) : Type 0 where
  pub schema : NumberAt x c 0 version
  pub price_at : WordAt x c 1 price
  pub publish : NumberAt x c 2 publish_time
  pub tag : WordAt x c 3 (tag_bytes32_v3 x session.tag)
  pub start : NumberAt x c 4 session.start
  pub end : NumberAt x c 5 session.end
  pub input_at : WordAt x c 6 (left_padding_from input)
  pub output_at : WordAt x c 7 (left_padding_from output)

module _ (x : External) (sign : Word → ℕ → Attempt) (chain_id : ℕ) (r : TokenRegistry)
    (input output : Address) (q : Quote) where
  -- The inverse of the share rate, and for v7 of the underlying rate, which is known not to be zero.
  abbrev pub PriceOf : PairSchema → Word → Type 0
  PriceOf v4 price = SharePrice x r input output q price
  PriceOf v5 price = SharePrice x r input output q price
  PriceOf v6 price = SharePrice x r input output q price
  PriceOf v7 price = UnderlyingPrice x r input output q price

  -- v4 has no expiry; the others have that of the quote, in their ninth slot.
  abbrev pub ExpiryOf : PairSchema → Candidate → Type 0
  ExpiryOf v4 c = c.expiry ≡ none
  ExpiryOf schema c =
      (e : ℕ) × (expiry_from_quote q ≡ ok e) × (c.expiry ≡ some e) × NumberAt x c.context 8 e

  -- How many slots there are, and the tenth: the NAV ratio for v6 and the chain id for v7.
  abbrev pub RestOf : PairSchema → List Word → Type 0
  RestOf v4 c = length c ≡ 8
  RestOf v5 c = length c ≡ 9
  RestOf v6 c =
      (get_elem? c 9 ≡ to_option (x.float_from_fixed_decimal (from_be_bytes q.nav_ratio) 18))
      × (length c ≡ 10)
  RestOf v7 c = NumberAt x c 9 chain_id × (length c ≡ 10)

  pub record States (schema : PairSchema) (c : Candidate) : Type 0 where
    pub price : Word
    pub publish_time : ℕ
    pub session : SignedSession
    pub price_is : PriceOf schema price
    pub publish_is : publish_time_from_quote q ≡ ok publish_time
    pub session_is : from_quote q ≡ ok session
    pub slots : EightSlots x (version_of schema) price publish_time session input output c.context
    pub expiry_is : ExpiryOf schema c
    pub rest : RestOf schema c.context

  module _ (price : Word) (publish : ℕ) (session : SignedSession) where
    abbrev values : ℕ → Signed
    values = signed_values x sign chain_id q price publish session input output

    of_nine :
        (version expiry : ℕ) (c : List Word)
        → NineSlots x version (values expiry) c
        → EightSlots x version price publish session input output c
    of_nine version expiry c n = record {
      schema = n.schema;
      price_at = n.price;
      publish = n.publish;
      tag = n.tag;
      start = n.start;
      end = n.end;
      input_at = n.input;
      output_at = n.output;
    }

    of_v4 :
        (c : List Word)
        → build_context_v4 x price publish
            (tag_bytes32_v3 x session.tag)
            session.start
            session.end
            input
            output
          ≡ ok c
        → EightSlots x 4 price publish session input output c × (length c ≡ 8)
    unfolding build_context_v4 build_session_context parse_u64
    of_v4 c h = ground arith

    -- The slots by the schema, and the ninth where the schema has one.
    context_of-EightSlots :
        (pair : ResolvedPair) (generation : ℕ) (schema : PairSchema) (expiry : Option ℕ)
        (c : List Word)
        → context_of x sign chain_id q price publish session input output schema expiry ≡ ok c
        → expiry_of x sign chain_id pair (record { quote = q; generation = generation }) schema
          ≡ ok expiry
        → EightSlots x (version_of schema) price publish session input output c
          × ExpiryOf schema (record { context = c; expiry = expiry })
          × RestOf schema c
    unfolding context_of
    context_of-EightSlots pair generation v4 expiry c h e =
        let (slots, l) = of_v4 c (map_err-eq-ok _ _ h) in (slots, cc, l)
    context_of-EightSlots pair generation v5 (some expiry) c h e =
        let (n, l) = context_v5-NineSlots x (values expiry) c (map_err-eq-ok _ _ h) in
        (of_nine 5 expiry c n, (expiry, ground arith, refl, n.expiry), l)
    context_of-EightSlots pair generation v6 (some expiry) c h e =
        let (n, nav, l) =
          context_v6-NineSlots x (values expiry) c q.nav_ratio (map_err-eq-ok _ _ h) in
        (of_nine 6 expiry c n, (expiry, ground arith, refl, n.expiry), (nav, l))
    context_of-EightSlots pair generation v7 (some expiry) c h e =
        let (n, i, l) = context_v7-NineSlots x (values expiry) c chain_id (map_err-eq-ok _ _ h) in
        (of_nine 7 expiry c n, (expiry, ground arith, refl, n.expiry), (i, l))
    context_of-EightSlots pair generation v5 none c h e = absurd cc
    context_of-EightSlots pair generation v6 none c h e = absurd cc
    context_of-EightSlots pair generation v7 none c h e = absurd cc

  module _ (pair : ResolvedPair) (h : resolve r input output ≡ ok pair) where
    price-PriceOf :
        (schema : PairSchema) (price : Word)
        → price_bytes x sign chain_id schema q pair.direction ≡ ok price
        → PriceOf schema price
    price-PriceOf v4 price e = pick-SharePrice x r input output q pair h price e
    price-PriceOf v5 price e = pick-SharePrice x r input output q pair h price e
    price-PriceOf v6 price e = pick-SharePrice x r input output q pair h price e
    price-PriceOf v7 price e = pick-UnderlyingPrice x r input output q pair h price e

  module _ (pair : ResolvedPair) (generation : ℕ) (schema : PairSchema) where
    session_is_read :
        (w : World)
        → IfOk
            (λ s. from_quote q ≡ ok s)
            (session_of x sign chain_id pair
              (record { quote = q; generation = generation })
              schema
              w).0
    unfolding session_refused
    session_is_read w = elim (Result-cases (from_quote q)) [
      | inl (s, e) ↦ rw (e, session_of) refl
      | inr (missing, e) ↦ rw (e, session_of) tt
      | inr (invalid why, e) ↦ rw (e, session_of) tt
    ]

    session_of-Produces :
        Produces
          (λ s. from_quote q ≡ ok s)
          (session_of x sign chain_id pair (record { quote = q; generation = generation }) schema)
    session_of-Produces = record { at = session_is_read }

  module _ (pair : ResolvedPair) (h : resolve r input output ≡ ok pair) (generation : ℕ)
      (schema : PairSchema) where
    abbrev snapshot : QuoteSnapshot
    snapshot = record { quote = q; generation = generation }

    candidate-Produces :
        Produces (States schema) (candidate x sign chain_id pair snapshot schema input output)
    unfolding candidate
    candidate-Produces = Produces-bind (lift _) _ (Produces-lift _) (λ publish p.
        Produces-bind (session_of x sign chain_id pair snapshot schema) _
          (session_of-Produces pair generation schema)
          (λ session s. Produces-bind (lift _) _ (Produces-lift _) (λ price e.
            Produces-bind (lift _) _ (Produces-lift _) (λ expiry b.
              Produces-bind (lift _) _ (Produces-lift _) (λ context l. Produces-pure _ (
                let (slots, ninth, others) =
                  context_of-EightSlots price publish session pair generation schema expiry context
                    l b in
                record {
                  price = price;
                  publish_time = publish;
                  session = session;
                  price_is = price-PriceOf pair h schema price e;
                  publish_is = p;
                  session_is = s;
                  slots = slots;
                  expiry_is = ninth;
                  rest = others;
                }))))))

    -- The context that is offered for the signature of a resolved pair holds, each in its slot, the
    -- version of the schema, the price, the publish time and the session of the quote, and the
    -- request's tokens, then from v5 on the expiry that is kept with it, and for v6 the NAV ratio, for
    -- v7 the chain id. The price is the inverse of the rate for takers who swap the settlement token
    -- for the base where the order takes the settlement token in, and of the rate back where it does
    -- not: the share rate, and for v7 the underlying rate, which is known not to be zero.
    pub candidate-States :
        (w v : World) (c : Candidate)
        → candidate x sign chain_id pair snapshot schema input output w ≡ (ok c, v)
        → States schema c
    candidate-States w v c o = returned _ w v c candidate-Produces o
