-- ===== src/Reload/Applied.antt =====
-- What applying a new token set does to the cached quotes.
use st0x_oracle_server.Base.{
  none, some, option_eq, string_eq, List, String, ℕ, ◌++◌, contains, Bool, ◌≡◌, ◌||◌, ◌==◌, not,
  false, ◌∷◌, arith, [], option_beq_iff, refl, ok, ◌≢◌, ap, ◌∙◌, true,
}
use st0x_oracle_server.Base.Int.{ℤ, int_eq}
use st0x_oracle_server.Toml.{Table}
use st0x_oracle_server.Config.{Config, symbols}
use st0x_oracle_server.Pricing
use st0x_oracle_server.Pricing.{Feed, latest}
use st0x_oracle_server.Pricing.Events.{forgets, run, step}
use st0x_oracle_server.Pricing.Invariant.{IsValid}
use st0x_oracle_server.Pricing.Liveness.{run-is_live, generation_at}
use st0x_oracle_server.TokenFile.{Projection, Change, same_as, change}
use st0x_oracle_server.TokenFile.Bucket.{copy}
use st0x_oracle_server.TokenFile.Candidate.{Library, Candidate, set_of}
use st0x_oracle_server.Reload.{Reloader, decide, compare, swap_to, apply, round, current, checked}
use st0x_oracle_server.Reload.Decided.{Comparable}
use st0x_oracle_server.Tokens.{TokenSet, replace}
use st0x_oracle_server.Wire.{Bytes, ServerFrame}
use st0x_oracle_server.TokenFile.Compare.{address_in, change-Tells}
use st0x_oracle_server.TokenFile.Served.{ReadsRows, candidate-Serves}
use st0x_oracle_server.Pricing.Gone.{frames_under, IsGone-latest, run-IsGone, forget-IsGone}
use st0x_oracle_server.TokenFile.Listed.{address_in-pairs}

-- The symbols that the change takes away or moves.
abbrev pub touched : Change → List String
touched ch = ch.removed ++ ch.readdressed

contains-concat :
    (s : String) (xs ys : List String) → contains s (xs ++ ys) ≡ (contains s xs || contains s ys)
contains-concat s [] ys = refl
contains-concat s (x ∷ xs) ys = ground (arith, contains-concat s xs ys)

module _ (L : Library) where
  -- The row of the symbol is the same in the running projection and the new one, or it was in
  -- neither.
  abbrev pub keeps_row : Projection → Projection → String → Bool
  keeps_row running fresh s =
      (address_in L.to_lowercase running s == none)
      || (address_in L.to_lowercase running s == address_in L.to_lowercase fresh s)

  touched-keeps_row :
      (running fresh : Projection) (s : String)
      → contains s (touched (change L.to_lowercase running fresh)) ≡ not (keeps_row running fresh s)
  touched-keeps_row running fresh s =
      let ch = change L.to_lowercase running fresh in
      let a = address_in L.to_lowercase running s in
      let b = address_in L.to_lowercase fresh s in
      let told = change-Tells L.to_lowercase running fresh s in
      ground (
        arith,
        contains-concat s ch.removed ch.readdressed,
        told,
        option_beq_iff a none,
        option_beq_iff a b,
      )

  pub decide-swap :
      (static_config : Table) (boot_config : Config) (current : TokenSet) (generation : ℤ)
      (bytes : Bytes) (c : Candidate) (running : Projection)
      → Comparable L static_config boot_config current generation bytes c running
      → same_as L.to_lowercase c.projection running ≡ false
      → decide L static_config boot_config current generation bytes
        ≡ swap_to c generation (change L.to_lowercase running c.projection)
  unfolding decide compare
  decide-swap static_config boot_config current generation bytes c running h other =
      ground (arith, h, option_beq_iff current.generation (some generation))

  -- A snapshot that a request still holds: it stays live through the swap exactly when the row of
  -- its symbol is kept.
  apply-is_live :
      (r : Reloader) (now generation : ℤ) (c : Candidate) (running : Projection)
      → IsValid r.pricing
      → (chain_id : ℕ) (s : String) (g : ℕ) → generation_at r.pricing (chain_id, s) ≡ some g
      → Pricing.is_live
          (apply now r (swap_to c generation (change L.to_lowercase running c.projection))).pricing
          g
        ≡ keeps_row running c.projection s
  unfolding apply run step
  apply-is_live r now generation c running v chain_id s g at =
      let symbols = touched (change L.to_lowercase running c.projection) in
      let lived = run-is_live r.pricing (chain_id, s) g (forgets symbols ∷ []) v at in
      ground (arith, lived, touched-keeps_row running c.projection s)

  -- One round with a valid newer copy whose rows differ, whatever the cache holds then: a cached
  -- quote stays usable exactly when the row of its symbol is kept, and the requests that come
  -- after resolve against the new set.
  pub round-is_live :
      (static_config : Table) (boot_config : Config) (r : Reloader) (now generation : ℤ)
      (bytes : Bytes) (c : Candidate) (running : Projection)
      → Comparable L static_config boot_config (current r.tokens) generation bytes c running
      → same_as L.to_lowercase c.projection running ≡ false
      → IsValid r.pricing
      → (chain_id : ℕ) (s : String) (g : ℕ) → generation_at r.pricing (chain_id, s) ≡ some g
      → (let r' = round L static_config boot_config now (ok (copy bytes generation)) r in
          (Pricing.is_live r'.pricing g ≡ keeps_row running c.projection s)
          × (current r'.tokens ≡ set_of c generation))
  unfolding round apply replace
  round-is_live static_config boot_config r now generation bytes c running h other v chain_id s g
        at =
      let r₀ = checked now r in
      let swapped =
        decide-swap static_config boot_config (current r.tokens) generation bytes c running h
          other in
      rw swapped (apply-is_live r₀ now generation c running v chain_id s g at, refl)

  -- A symbol that the new set does not have is gone for good: no frame that arrives under the new
  -- subscription brings a quote back, so it has none until a later set lists it.
  pub round-removed :
      ReadsRows L.try_into
      → (static_config : Table) (boot_config : Config) (r : Reloader) (now generation : ℤ)
        (bytes : Bytes) (c : Candidate) (running : Projection)
      → Comparable L static_config boot_config (current r.tokens) generation bytes c running
      → same_as L.to_lowercase c.projection running ≡ false
      → (chain_id : ℕ) (s : String) (frames : List ServerFrame)
      → address_in L.to_lowercase running s ≢ none
      → address_in L.to_lowercase c.projection s ≡ none
      → (let r' = round L static_config boot_config now (ok (copy bytes generation)) r in
          latest (run r'.pricing (frames_under r'.assets frames)) chain_id s ≡ none)
  unfolding round apply
  round-removed reads static_config boot_config r now generation bytes c running h other chain_id s
        frames was gone =
      let ch = change L.to_lowercase running c.projection in
      let swapped =
        decide-swap static_config boot_config (current r.tokens) generation bytes c running h
          other in
      let (pairs, serves) = candidate-Serves L reads static_config bytes c h.1 in
      let unlisted : contains s (symbols c.config) ≡ false =
        ap (contains s) serves.1
        ∙ address_in-pairs L.to_lowercase c.projection pairs s serves.0 gone in
      let forgotten : contains s (touched ch) ≡ true = ground (
        arith,
        contains-concat s ch.removed ch.readdressed,
        change-Tells L.to_lowercase running c.projection s,
      ) in
      rw swapped (
        IsGone-latest
          (run (Pricing.forget r.pricing (touched ch)).0 (frames_under (symbols c.config) frames))
          chain_id s
          (run-IsGone (Pricing.forget r.pricing (touched ch)).0 (symbols c.config) frames
            (chain_id, s) unlisted (forget-IsGone r.pricing (touched ch) (chain_id, s) forgotten)))
