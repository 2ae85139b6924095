-- ===== src/World/Later.antt =====
-- The states that a request passes through.
use st0x_oracle_server.World.{
  World, ◌≡◌, Action, act_all, yield, act, feeds, replaces, ticks, elapses, reuses, signs, release,
}
use st0x_oracle_server.Wire.{Word}
use st0x_oracle_server.Base.{ℕ, List, contains, ◌∷◌, true, [], nat_eq, refl}
use st0x_oracle_server.Signer.{Attempt}
use st0x_oracle_server.Pricing.{QuoteGeneration}
use st0x_oracle_server.Pricing.Revoked.{step_dead}

-- Nothing but counters and the schedule differs.
pub record Counts (w v : World) : Type 0 where
  pub feed : v.feed ≡ w.feed
  pub tokens : v.tokens ≡ w.tokens
  pub now_unix_ms : v.now_unix_ms ≡ w.now_unix_ms
  pub reuse : v.reuse ≡ w.reuse
  pub signer : v.signer ≡ w.signer

module _ (sign : Word → ℕ → Attempt) where
  -- The later state comes of the earlier one by acts of the request and of others.
  pub data Later : World → World → Type 0 where
    same_state : {w : World} → Later w w
    then_acts : {w v : World} → Later w v → (a : Action) → Later w (act sign v a)
    then_counts : {w v u : World} → Later w v → Counts v u → Later w u

  pub Later-trans : {w v u : World} → Later w v → Later v u → Later w u
  Later-trans l same_state = l
  Later-trans l (then_acts m a) = then_acts (Later-trans l m) a
  Later-trans l (then_counts m c) = then_counts (Later-trans l m) c

  act_all-Later :
      (w v : World) (actions : List Action) → Later w v → Later w (act_all sign v actions)
  unfolding act_all
  act_all-Later w v [] l = l
  act_all-Later w v (a ∷ actions) l = act_all-Later w (act sign v a) actions (then_acts l a)

  release-Later : (s : List (List Action)) (w : World) → Later w (release sign s w)
  unfolding release
  release-Later [] w = same_state
  release-Later (now ∷ later) w =
      act_all-Later w (record w { schedule = later }) now
        (then_counts same_state
          (record { feed = refl; tokens = refl; now_unix_ms = refl; reuse = refl; signer = refl }))

  pub yield-Later : (w : World) → Later w (yield sign w)
  unfolding yield
  yield-Later w = release-Later w.schedule w

  act-dead :
      (g : QuoteGeneration) (w : World) (a : Action)
      → contains g w.feed.revoked ≡ true
      → contains g (act sign w a).feed.revoked ≡ true
  unfolding act
  act-dead g w (feeds ev) h = step_dead g w.feed ev h
  act-dead g w (replaces r) h = h
  act-dead g w (ticks now) h = h
  act-dead g w (elapses s) h = h
  act-dead g w (reuses key expiry response generation) h = h
  act-dead g w (signs o) h = h

  -- A revoked generation stays revoked.
  pub Later-dead :
      (g : QuoteGeneration) {w v : World}
      → Later w v
      → contains g w.feed.revoked ≡ true
      → contains g v.feed.revoked ≡ true
  Later-dead g same_state h = h
  Later-dead g (then_acts {v = v} m a) h = act-dead g v a (Later-dead g m h)
  Later-dead g (then_counts m c) h = rw c.feed (Later-dead g m h)
