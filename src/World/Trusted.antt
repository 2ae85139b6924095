-- ===== src/World/Trusted.antt =====
-- A state in which every signature that is kept is one that the key made, and the operations that
-- keep it so.
use st0x_oracle_server.World.{
  World, Action, act, act_all, release, yield, feeds, replaces, ticks, elapses, reuses, signs,
}
use st0x_oracle_server.Reuse.Offer.{lookup-eq-some}
use st0x_oracle_server.Base.HashMap
use st0x_oracle_server.Signer.Authentic.{Faithful, Owns, Signs}
use st0x_oracle_server.Context.{OracleResponse}
use st0x_oracle_server.Reuse.{
  ReuseKey, Stored, ReuseCache, store, key_eq, enabled, lookup, ReusedResponse,
}
use st0x_oracle_server.Wire.{External, Word}
use st0x_oracle_server.Base.{
  ℕ, All, List, ◌≡◌, ◌∷◌, Bool-cases, [], inr, inl, Option, some, none, Option-cases, subst, sym,
}
use st0x_oracle_server.Signer.{Attempt, context_hash, EntryId}
use st0x_oracle_server.Pricing.{Feed, QuoteGeneration, is_live}
use st0x_oracle_server.Signer.Answered.{step-Faithful, persists}

module _ (x : External) (sign : Word → ℕ → Attempt) where
  -- The key made the signature, of the hash of the response's own context.
  pub record Authentic (r : OracleResponse) : Type 0 where
    pub signature : Signs sign (context_hash x r.context) r.signature
    pub signer : r.signer ≡ x.signer_address

  abbrev pub AuthenticEntry : ReuseKey × Stored → Type 0
  AuthenticEntry (key, s) = Authentic s.response

  -- Other requests are served by the same code: what they store is authentic too.
  abbrev pub IsTrusted : Action → Type 0
  IsTrusted (reuses key expiry response generation) = Authentic response
  IsTrusted _ = Unit

  pub record Trusted (w : World) : Type 0 where
    pub signer : Faithful sign w.signer
    pub reuse : All AuthenticEntry w.reuse.entries
    pub others : All (All IsTrusted) w.schedule

  store-Authentic :
      (c : ReuseCache) (feed : Feed) (key : ReuseKey) (expiry : ℕ) (r : OracleResponse)
      (g : QuoteGeneration)
      → All AuthenticEntry c.entries
      → Authentic r
      → All AuthenticEntry (store c feed key expiry r g).0.entries
  unfolding store
  store-Authentic c feed key expiry r g h a = elim (Bool-cases (enabled c)) [
    | inr off ↦ rw off h
    | inl on ↦ elim (Bool-cases (is_live feed g)) [
      | inr dead ↦ rw (on, dead) h
      | inl live ↦
          rw (on, live)
            (HashMap.All-insert AuthenticEntry key
              (record { expiry_unix_secs = expiry; response = r; generation = g }) c.entries a h)
    ]
  ]

  pub act-Trusted : (w : World) (a : Action) → IsTrusted a → Trusted w → Trusted (act sign w a)
  unfolding act
  act-Trusted w (feeds ev) h t = record { signer = t.signer; reuse = t.reuse; others = t.others }
  act-Trusted w (replaces r) h t = record { signer = t.signer; reuse = t.reuse; others = t.others }
  act-Trusted w (ticks now) h t = record { signer = t.signer; reuse = t.reuse; others = t.others }
  act-Trusted w (elapses s) h t = record { signer = t.signer; reuse = t.reuse; others = t.others }
  act-Trusted w (reuses key expiry r g) h t = record {
    signer = t.signer;
    reuse = store-Authentic w.reuse w.feed key expiry r g t.reuse h;
    others = t.others;
  }
  act-Trusted w (signs o) h t = record {
    signer = step-Faithful sign w.signer o t.signer;
    reuse = t.reuse;
    others = t.others;
  }

  -- An entry keeps the hash that it was made for.
  abbrev pub OwnsAt : EntryId → Word → World → Type 0
  OwnsAt id hash w = Owns w.signer.owners id hash

  act-OwnsAt :
      (id : EntryId) (hash : Word) (w : World) (a : Action)
      → Trusted w
      → OwnsAt id hash w
      → OwnsAt id hash (act sign w a)
  unfolding act
  act-OwnsAt id hash w (feeds ev) t h = h
  act-OwnsAt id hash w (replaces r) t h = h
  act-OwnsAt id hash w (ticks now) t h = h
  act-OwnsAt id hash w (elapses s) t h = h
  act-OwnsAt id hash w (reuses key expiry r g) t h = h
  act-OwnsAt id hash w (signs o) t h = persists sign w.signer o id hash t.signer h

  act_all-Trusted :
      (w : World) (actions : List Action)
      → All IsTrusted actions
      → Trusted w
      → Trusted (act_all sign w actions)
        × ((id : EntryId) (hash : Word)
            → OwnsAt id hash w
            → OwnsAt id hash (act_all sign w actions))
  unfolding act_all
  act_all-Trusted w [] h t = (t, λ id hash o. o)
  act_all-Trusted w (a ∷ actions) h t =
      let (t', keeps) = act_all-Trusted (act sign w a) actions h.1 (act-Trusted w a h.0 t) in
      (t', λ id hash o. keeps id hash (act-OwnsAt id hash w a t o))

  release-Trusted :
      (s : List (List Action)) (w : World)
      → All (All IsTrusted) s
      → Trusted w
      → Trusted (release sign s w)
        × ((id : EntryId) (hash : Word) → OwnsAt id hash w → OwnsAt id hash (release sign s w))
  unfolding release
  release-Trusted [] w h t = (t, λ id hash o. o)
  release-Trusted (now ∷ later) w h t =
      act_all-Trusted (record w { schedule = later }) now h.0
        (record { signer = t.signer; reuse = t.reuse; others = h.1 })

  pub yield-Trusted :
      (w : World)
      → Trusted w
      → Trusted (yield sign w)
        × ((id : EntryId) (hash : Word) → OwnsAt id hash w → OwnsAt id hash (yield sign w))
  unfolding yield
  yield-Trusted w t = release-Trusted w.schedule w t.others t

  -- A response that is found was kept.
  abbrev pub AuthenticFound : Option ReusedResponse → Type 0
  AuthenticFound none = Unit
  AuthenticFound (some previous) = Authentic previous.response

  pub lookup-Authentic :
      (c : ReuseCache) (feed : Feed) (key : ReuseKey) (context : List Word) (expiry now : ℕ)
      (g : QuoteGeneration)
      → All AuthenticEntry c.entries
      → AuthenticFound (lookup c feed key context expiry now g)
  lookup-Authentic c feed key context expiry now g h =
      elim (Option-cases (lookup c feed key context expiry now g)) [
        | inl e ↦ rw e tt
        | inr (r, e) ↦
            let (s, at, serves, same) = lookup-eq-some c feed key context expiry now g r e in
            let a = HashMap.All-get AuthenticEntry key s c.entries at h in
            rw e (subst (λ (q : ReusedResponse). Authentic q.response) (sym same) a)
      ]
