-- ===== src/Response/Words.antt =====
-- What the builder signs: so many words of 32 bytes, by the schema.
use st0x_oracle_server.Wire.{External, Word, Address, Quote}
use st0x_oracle_server.Context.Words.{
  PacksWords, IsWord, WordsOf, IsSized, context_v4-WordsOf, context_v5-WordsOf, context_v6-WordsOf,
  context_v7-WordsOf,
}
use st0x_oracle_server.Response.{
  PairSchema, v4, v5, v6, v7, Candidate, candidate, context_of, price_bytes, signed_values,
  session_of,
}
use st0x_oracle_server.Session.{SignedSession}
use st0x_oracle_server.Session.Tag.{length-tag_bytes32_v3}
use st0x_oracle_server.World.{World, lift}
use st0x_oracle_server.Base.{ℕ, length, ◌≡◌, ok, Option, List, map_err-eq-ok, some}
use st0x_oracle_server.Signer.{Attempt}
use st0x_oracle_server.Registry.{PriceDirection, ResolvedPair}
use st0x_oracle_server.Rates.Direction.{taker_underlying_rate, price_bytes-eq-ok_iff, taker_rate}
use mathlib.Core.Option.{none}
use st0x_oracle_server.Rates.{pick_rate_bytes}
use st0x_oracle_server.Pricing.{QuoteSnapshot}
use st0x_oracle_server.World.Produces.{
  returned, Produces, Produces-bind, Produces-Any, Produces-lift, Produces-pure,
}

abbrev pub slot_count : PairSchema → ℕ
slot_count v4 = 8
slot_count v5 = 9
slot_count v6 = 10
slot_count v7 = 10

module _ (x : External) (packs : PacksWords x) (sign : Word → ℕ → Attempt) (chain_id : ℕ) where
  rate-IsWord :
      (q : Quote) (d : PriceDirection) (w : Word) → pick_rate_bytes x q d ≡ ok w → IsWord w
  rate-IsWord q d w h = packs.inverted (taker_rate q d) w ((price_bytes-eq-ok_iff x q w d).0.0 h)

  price_bytes-IsWord :
      (schema : PairSchema) (q : Quote) (d : PriceDirection) (w : Word)
      → price_bytes x sign chain_id schema q d ≡ ok w
      → IsWord w
  price_bytes-IsWord v4 q d w h = rate-IsWord q d w h
  price_bytes-IsWord v5 q d w h = rate-IsWord q d w h
  price_bytes-IsWord v6 q d w h = rate-IsWord q d w h
  price_bytes-IsWord v7 q d w h =
      packs.inverted (taker_underlying_rate q d) w ((price_bytes-eq-ok_iff x q w d).1.0 h).1

  module _ (q : Quote) (price_word : Word) (publish_time : ℕ) (session : SignedSession)
      (input_token output_token : Address) (price : IsWord price_word)
      (input : length input_token ≡ 20) (output : length output_token ≡ 20) where
    sized :
        (expiry : ℕ)
        → IsSized (
            signed_values x sign chain_id q price_word publish_time session input_token output_token
              expiry)
    sized expiry = record {
      price_bytes = price;
      session_bytes = length-tag_bytes32_v3 x session.tag;
      input_token = input;
      output_token = output;
    }

    context_of-WordsOf :
        (schema : PairSchema) (expiry : Option ℕ) (c : List Word)
        → context_of x sign chain_id q price_word publish_time session input_token output_token
            schema expiry
          ≡ ok c
        → WordsOf (slot_count schema) c
    unfolding context_of
    context_of-WordsOf v4 expiry c h =
        context_v4-WordsOf x packs _ (sized 0) c (map_err-eq-ok _ _ h)
    context_of-WordsOf v5 (some expiry) c h =
        context_v5-WordsOf x packs _ (sized expiry) c (map_err-eq-ok _ _ h)
    context_of-WordsOf v6 (some expiry) c h =
        context_v6-WordsOf x packs _ (sized expiry) c q.nav_ratio (map_err-eq-ok _ _ h)
    context_of-WordsOf v7 (some expiry) c h =
        context_v7-WordsOf x packs _ (sized expiry) c chain_id (map_err-eq-ok _ _ h)
    context_of-WordsOf v5 none c h = absurd cc
    context_of-WordsOf v6 none c h = absurd cc
    context_of-WordsOf v7 none c h = absurd cc

  module _ (pair : ResolvedPair) (quote : QuoteSnapshot) (schema : PairSchema)
      (input_token output_token : Address) (input : length input_token ≡ 20)
      (output : length output_token ≡ 20) where
    abbrev SoManyWords : Candidate → Type 0
    SoManyWords c = WordsOf (slot_count schema) c.context

    candidate-Produces :
        Produces SoManyWords (candidate x sign chain_id pair quote schema input_token output_token)
    unfolding candidate
    candidate-Produces = Produces-bind (lift _) _ (Produces-Any _) (λ publish p.
        Produces-bind (session_of x sign chain_id pair quote schema) _ (Produces-Any _)
          (λ session p. Produces-bind (lift _) _ (Produces-lift _) (λ price e.
            Produces-bind (lift _) _ (Produces-Any _) (λ expiry p.
              Produces-bind (lift _) _ (Produces-lift _) (λ context h. Produces-pure _ (
                context_of-WordsOf quote.quote price publish session input_token output_token
                  (price_bytes-IsWord schema quote.quote pair.direction price e) input output schema
                  expiry context h))))))

    -- What is read off a quote and offered for the signature is words of 32 bytes: eight of them for
    -- v4, nine for v5, ten for v6 and v7; where packed floats are words and tokens have 20 bytes.
    pub candidate-WordsOf :
        (w v : World) (c : Candidate)
        → candidate x sign chain_id pair quote schema input_token output_token w ≡ (ok c, v)
        → WordsOf (slot_count schema) c.context
    candidate-WordsOf w v c h = returned _ w v c candidate-Produces h
