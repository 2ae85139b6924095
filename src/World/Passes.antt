-- ===== src/World/Passes.antt =====
-- The states that a run goes through: what others do is what the schedule says, at each yield.
use st0x_oracle_server.World.{
  ◌>>=◌, World, ◌≡◌, Action, yield, M, act, reuses, signs, quote_live, now_unix_ms, current,
  look_up, keep, sign_context, continue, refuse, continue-eq-ok,
}
use st0x_oracle_server.Signer.History
use st0x_oracle_server.Wire.{Word, External}
use st0x_oracle_server.Base.{ℕ, List, nat_eq, Result, String, subst, ok, err, refl}
use st0x_oracle_server.Signer.{Attempt, context_hash, entry_of, begin}
use st0x_oracle_server.Pricing.{QuoteGeneration}
use st0x_oracle_server.Refusal.{UnavailableReason, AppError, RefusalPhase, Detail}
use st0x_oracle_server.Reuse.{ReuseKey}
use st0x_oracle_server.Context.{OracleResponse}
use st0x_oracle_server.Signer.History.{begins, ends}
use st0x_oracle_server.World.Later.{
  Later, yield-Later, same_state, then_acts, then_counts as counts_later, Later-trans,
}

-- Nothing but counters differs.
pub record Counted (w v : World) : Type 0 where
  pub feed : v.feed ≡ w.feed
  pub tokens : v.tokens ≡ w.tokens
  pub now_unix_ms : v.now_unix_ms ≡ w.now_unix_ms
  pub reuse : v.reuse ≡ w.reuse
  pub signer : v.signer ≡ w.signer
  pub schedule : v.schedule ≡ w.schedule

-- What a request does itself: it stores a response, and begins or ends a wait for a signature.
abbrev pub IsOwn : Action → Type 0
IsOwn (reuses key expiry response generation) = Unit
IsOwn (signs (begins hash now)) = Unit
IsOwn (signs (ends hash id)) = Unit
IsOwn _ = ⊥

module _ (sign : Word → ℕ → Attempt) where
  -- The clock, the token set and the cache of quotes of each state are those that the schedule gives
  -- after some of its entries: a request changes none of them.
  pub data Passes : World → World → Type 0 where
    no_step : {w : World} → Passes w w
    then_yields : {w v : World} → Passes w v → Passes w (yield sign v)
    then_owns : {w v : World} → Passes w v → (a : Action) → IsOwn a → Passes w (act sign v a)
    then_counts : {w v u : World} → Passes w v → Counted v u → Passes w u

  pub Passes-trans : {w v u : World} → Passes w v → Passes v u → Passes w u
  Passes-trans l no_step = l
  Passes-trans l (then_yields m) = then_yields (Passes-trans l m)
  Passes-trans l (then_owns m a own) = then_owns (Passes-trans l m) a own
  Passes-trans l (then_counts m c) = then_counts (Passes-trans l m) c

  pub Passes-Later : {w v : World} → Passes w v → Later sign w v
  Passes-Later no_step = same_state
  Passes-Later (then_yields {v = v} m) = Later-trans sign (Passes-Later m) (yield-Later sign v)
  Passes-Later (then_owns m a own) = then_acts (Passes-Later m) a
  Passes-Later (then_counts m c) = counts_later (Passes-Later m) (record {
    feed = c.feed;
    tokens = c.tokens;
    now_unix_ms = c.now_unix_ms;
    reuse = c.reuse;
    signer = c.signer;
  })

  -- The operation only moves forward.
  abbrev pub Forward {ℓ} : {A : Type ℓ} → M A → Type 0
  Forward m = (w : World) → Passes w (m w).1

  module _ {ℓ κ} {A : Type ℓ} {B : Type κ} where
    continue-Passes :
        (w : World) (r : Result AppError A × World) (f : A → M B)
        → Passes w r.1
        → ((a : A) → Forward (f a))
        → Passes w (continue r f).1
    unfolding continue
    continue-Passes w (ok a, v) f l g = Passes-trans l (g a v)
    continue-Passes w (err e, v) f l g = l

    pub bind-Forward :
        (m : M A) (f : A → M B) → Forward m → ((a : A) → Forward (f a)) → Forward (m >>= f)
    bind-Forward m f l g w = continue-Passes w (m w) f (l w) g

  pub moves {ℓ} :
      {A : Type ℓ} (m : M A) {w v : World} {r : Result AppError A}
      → Forward m
      → m w ≡ (r, v)
      → Passes w v
  moves m {w} {v} l e = subst (λ (p : Result AppError _ × World). Passes w p.1) e (l w)

  pub counts : {w v : World} → Counted w v → Passes w v
  counts c = then_counts no_step c

  pub refuse-Forward :
      (A : Type 0) (reason : UnavailableReason) (endpoint symbol : String) (phase : RefusalPhase)
      (detail : Detail)
      → Forward (refuse {A = A} reason endpoint symbol phase detail)
  refuse-Forward A reason endpoint symbol phase detail w = counts (record {
    feed = refl;
    tokens = refl;
    now_unix_ms = refl;
    reuse = refl;
    signer = refl;
    schedule = refl;
  })

  pub quote_live-Forward : (g : QuoteGeneration) → Forward (quote_live sign g)
  unfolding quote_live
  quote_live-Forward g w = then_yields no_step

  pub now_unix_ms-Forward : Forward (now_unix_ms sign)
  unfolding now_unix_ms
  now_unix_ms-Forward w = then_yields no_step

  pub current-Forward : Forward (current sign)
  unfolding current
  current-Forward w = then_yields no_step

  pub look_up-Forward :
      (key : ReuseKey) (context : List Word) (expiry now : ℕ) (g : QuoteGeneration)
      → Forward (look_up sign key context expiry now g)
  unfolding look_up
  look_up-Forward key context expiry now g w = then_yields no_step

  pub keep-Forward :
      (key : ReuseKey) (expiry : ℕ) (response : OracleResponse) (g : QuoteGeneration)
      → Forward (keep sign key expiry response g)
  unfolding keep act
  keep-Forward key expiry response g w =
      then_owns (then_yields no_step) (reuses key expiry response g) tt

  pub sign_context-Forward :
      (x : External) (context : List Word) → Forward (sign_context sign x context)
  unfolding sign_context act History.step
  sign_context-Forward x context w0 =
      let w = yield sign w0 in
      let hash = context_hash x context in
      let id = entry_of (begin w.signer.cache hash w.instant).1 in
      let asked = act sign w (signs (begins hash w.instant)) in
      then_owns
        (Passes-trans
          (then_owns (then_yields (no_step {w = w0})) (signs (begins hash w.instant)) tt)
          (then_yields (no_step {w = asked})))
        (signs (ends hash id)) tt

  -- Inversion of a successful bind, with the state moved forward.
  pub bind-ok {ℓ κ} :
      {A : Type ℓ} {B : Type κ} (m : M A) (f : A → M B) (w : World) {b : B} {w' : World}
      → Forward m
      → (m >>= f) w ≡ (ok b, w')
      → (a : A) × (v : World) × (m w ≡ (ok a, v)) × Passes w v × (f a v ≡ (ok b, w'))
  bind-ok m f w l h = let (a, v, e, g) = continue-eq-ok (m w) f h in (a, v, e, moves m l e, g)
