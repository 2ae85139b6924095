-- ===== src/Reuse/Offer.antt =====
-- When a stored response is offered again.
use st0x_oracle_server.Base.HashMap
use mathlib.Core.Option
use st0x_oracle_server.Pricing.{Feed, QuoteGeneration, is_live}
use st0x_oracle_server.Base.{
  ℕ, List, ◌≡◌, true, ◌≤◌, some, ◌<◌, arith, Option-cases, false, nat_beq_iff, inl, none, inr, refl,
}
use st0x_oracle_server.Wire.{Word}
use st0x_oracle_server.Reuse.{
  Stored, same_statement, ReusedResponse, ReuseCache, store, offer, ReuseKey, lookup, key_beq_iff,
  key_eq,
}
use st0x_oracle_server.Base.Int.{saturating_add}
use st0x_oracle_server.Context.{OracleResponse}

-- The stored response may stand in for the candidate.
pub record Serves (feed : Feed) (min : ℕ) (context : List Word) (expiry now : ℕ)
    (g : QuoteGeneration) (s : Stored) : Type 0 where
  pub generation : s.generation ≡ g
  pub live : is_live feed g ≡ true
  pub statement : same_statement s.response.context context ≡ true
  pub not_longer : s.expiry_unix_secs ≤ expiry
  pub margin : saturating_add now min ≤ s.expiry_unix_secs

abbrev pub served : Stored → ReusedResponse
served s = record { expiry_unix_secs = s.expiry_unix_secs; response = s.response }

module _ (feed : Feed) (min : ℕ) (context : List Word) (expiry now : ℕ) (g : QuoteGeneration)
    (s : Stored) (r : ReusedResponse) where
  offer-Serves :
      offer feed min context expiry now g s ≡ some r
      → Serves feed min context expiry now g s × (r ≡ served s)
  unfolding offer
  offer-Serves h = ground (arith, nat_beq_iff s.generation g)

  Serves-offer :
      Serves feed min context expiry now g s
      → offer feed min context expiry now g s ≡ some (served s)
  unfolding offer
  Serves-offer v = ground (arith, nat_beq_iff s.generation g)

module _ (c : ReuseCache) (feed : Feed) (key : ReuseKey) (context : List Word) (expiry now : ℕ)
    (g : QuoteGeneration) where
  -- A response is reused only from the entry of the very key, of the very generation of the
  -- candidate while that is live, for the same statement, with an expiry that is not later than the
  -- candidate's and leaves the margin; it is returned with its own expiry, unchanged.
  pub lookup-eq-some :
      (r : ReusedResponse)
      → lookup c feed key context expiry now g ≡ some r
      → (s : Stored) × (HashMap.get key c.entries ≡ some s)
        × Serves feed c.min_remaining_secs context expiry now g s
        × (r ≡ served s)
  unfolding lookup Option.bind
  lookup-eq-some r h = elim (Option-cases (HashMap.get key c.entries)) [
    | inl e ↦ absurd (ground arith)
    | inr (s, e) ↦
        let (v, same) =
          offer-Serves feed c.min_remaining_secs context expiry now g s r (ground arith) in
        (s, e, v, same)
  ]

  lookup-Serves :
      (s : Stored)
      → 0 < c.min_remaining_secs
      → HashMap.get key c.entries ≡ some s
      → Serves feed c.min_remaining_secs context expiry now g s
      → lookup c feed key context expiry now g ≡ some (served s)
  unfolding lookup Option.bind
  lookup-Serves s on e v =
      ground (arith, Serves-offer feed c.min_remaining_secs context expiry now g s (served s) v)

-- What `store` wrote while the generation was live is offered again by `lookup`, for a context that
-- is the same statement, as long as the generation stays live, the margin lasts and the candidate
-- does not expire sooner; the feed may have changed in between.
pub lookup-store :
    (c : ReuseCache) (feed later : Feed) (key : ReuseKey) (response : OracleResponse)
    (context : List Word) (old expiry now : ℕ) (g : QuoteGeneration)
    → 0 < c.min_remaining_secs
    → is_live feed g ≡ true
    → is_live later g ≡ true
    → same_statement response.context context ≡ true
    → old ≤ expiry
    → saturating_add now c.min_remaining_secs ≤ old
    → lookup (store c feed key old response g).0 later key context expiry now g
      ≡ some (record { expiry_unix_secs = old; response = response })
unfolding store
lookup-store c feed later key response context old expiry now g on live still same not_longer
      margin =
    let s : Stored = record { expiry_unix_secs = old; response = response; generation = g } in
    let kept : ReuseCache = record c { entries = HashMap.insert key s c.entries } in
    let written : store c feed key old response g ≡ (kept, true) = ground arith in
    rw written (
      lookup-Serves kept later key context expiry now g s on
        (ground (arith, HashMap.get-insert key key s c.entries, key_beq_iff key key))
        (record {
          generation = refl;
          live = still;
          statement = same;
          not_longer = not_longer;
          margin = margin;
        }))

-- A response of a revoked generation is never stored, and a cache with no margin stores nothing and
-- offers nothing.
pub store-refused :
    (c : ReuseCache) (feed : Feed) (key : ReuseKey) (response : OracleResponse)
    (context : List Word) (old expiry now : ℕ) (g : QuoteGeneration)
    → (is_live feed g ≡ false → store c feed key old response g ≡ (c, false))
      × (c.min_remaining_secs ≡ 0
          → (store c feed key old response g ≡ (c, false))
            × (lookup c feed key context expiry now g ≡ none))
unfolding store lookup Option.bind
store-refused c feed key response context old expiry now g = ground arith
