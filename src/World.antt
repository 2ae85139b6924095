-- ===== src/World.antt =====
-- The state that the handlers of a request share with everything else that runs: the price feed,
-- the token set, the clock, the reuse cache, the signature cache and the counters. A handler is a
-- function of this state; before each of its reads of the state, others may act on it.
pub mod Later
pub mod Passes
pub mod Trusted
pub mod Requests
pub mod Ensures
pub mod Produces
use st0x_oracle_server.Base.Int.{ℤ}
use st0x_oracle_server.Signer.History
use st0x_oracle_server.Pricing.Events.{Event, step}
use st0x_oracle_server.Pricing.{Feed, QuoteGeneration, QuoteSnapshot, snapshot_many}
use st0x_oracle_server.Base.{
  Result, ok, ◌≡◌, err, String, ℕ, arith, List, ◌+◌, ◌∷◌, Bool, Option, refl, [], map_err,
}
use st0x_oracle_server.Refusal.{
  AppError, UnavailableReason, RefusalPhase, Detail, Refusal, unavailable, internal, sign_fault,
}
use st0x_oracle_server.Wire.{Word, External, Bytes, Address}
use st0x_oracle_server.Registry.{TokenRegistry}
use st0x_oracle_server.Reuse.{ReuseKey, ReuseCache, store, ReusedResponse}
use st0x_oracle_server.Signer.{Attempt, context_hash, entry_of, begin}
use st0x_oracle_server.Context.{OracleResponse}
use st0x_oracle_server.Signer.History.{State, Op, begins}
use st0x_oracle_server.Base.Errors.{map_ok}

-- What others do between two reads of a request.
pub data Action : Type 0 where
  feeds : Event → Action
  -- `Tokens::replace`.
  replaces : TokenRegistry → Action
  ticks : (now_unix_ms : ℤ) → Action
  elapses : (seconds : ℕ) → Action
  -- Another request stores a response.
  reuses : ReuseKey → (expiry_unix_secs : ℕ) → OracleResponse → QuoteGeneration → Action
  -- Another request, or a sign task.
  signs : Op → Action

pub record World : Type 0 where
  pub feed : Feed
  pub tokens : TokenRegistry
  pub now_unix_ms : ℤ
  -- The monotonic clock, in seconds.
  pub instant : ℕ
  pub reuse : ReuseCache
  pub signer : State
  -- The counters, as the list of their increments, the last first.
  pub refusals : List Refusal
  pub mismatches : List String
  pub items : List (String × String × ℕ)
  pub requests : List (String × String)
  -- What others do at each read that is still to come.
  pub schedule : List (List Action)

abbrev pub M {ℓ} : Type ℓ → Type ℓ
M A = World → Result AppError A × World

module _ {ℓ} {A : Type ℓ} where
  abbrev pub pure : A → M A
  pure a w = (ok a, w)

  abbrev pub fail : AppError → M A
  fail e w = (err e, w)

  abbrev pub lift : Result AppError A → M A
  lift r w = (r, w)

  abbrev pub refuse : UnavailableReason → String → String → RefusalPhase → Detail → M A
  refuse reason endpoint symbol phase detail w = (
    err (unavailable reason detail),
    record w {
      refusals =
          record { reason = reason; endpoint = endpoint; symbol = symbol; phase = phase }
          ∷ w.refusals;
    },
  )

unfoldable pub continue {ℓ κ} :
    {A : Type ℓ} {B : Type κ} → Result AppError A × World → (A → M B) → Result AppError B × World
continue (ok a, w) f = f a w
continue (err e, w) f = (err e, w)

infixl 5 ◌>>=◌
abbrev pub ◌>>=◌ {ℓ κ} : {A : Type ℓ} {B : Type κ} → M A → (A → M B) → M B
(m >>= f) w = continue (m w) f

-- Inversion of a successful bind.
pub continue-eq-ok {ℓ κ} :
    {A : Type ℓ} {B : Type κ} (r : Result AppError A × World) (f : A → M B) {b : B} {w' : World}
    → continue r f ≡ (ok b, w')
    → (a : A) × (v : World) × (r ≡ (ok a, v)) × (f a v ≡ (ok b, w'))
unfolding continue
continue-eq-ok (ok a, v) f h = (a, v, refl, h)
continue-eq-ok (err e, v) f h = absurd (ground arith)

-- The signing key, as the answer to the n-th call for a hash.
module _ (sign : Word → ℕ → Attempt) where
  unfoldable pub act : World → Action → World
  act w (feeds ev) = record w { feed = step w.feed ev }
  act w (replaces registry) = record w { tokens = registry }
  act w (ticks now) = record w { now_unix_ms = now }
  act w (elapses seconds) = record w { instant = w.instant + seconds }
  act w (reuses key expiry response generation) = record w {
    reuse = (store w.reuse w.feed key expiry response generation).0;
  }
  act w (signs o) = record w { signer = History.step sign w.signer o }

  unfoldable pub act_all : World → List Action → World
  act_all w [] = w
  act_all w (a ∷ actions) = act_all (act w a) actions

  release : List (List Action) → World → World
  release [] w = w
  release (now ∷ later) w = act_all (record w { schedule = later }) now

  -- Others act, then the request goes on.
  unfoldable pub yield : World → World
  unfolding release
  yield w = release w.schedule w

  unfoldable pub quote_live : QuoteGeneration → M Bool
  quote_live g w = let v = yield w in (ok (st0x_oracle_server.Pricing.is_live v.feed g), v)

  unfoldable pub now_unix_ms : M ℤ
  now_unix_ms w = let v = yield w in (ok v.now_unix_ms, v)

  unfoldable pub current : M TokenRegistry
  current w = let v = yield w in (ok v.tokens, v)

  unfoldable pub snapshot : ℕ → List String → M (List (String × QuoteSnapshot))
  snapshot chain_id symbols w = let v = yield w in (ok (snapshot_many v.feed chain_id symbols), v)

  unfoldable pub look_up :
      ReuseKey → List Word → ℕ → ℕ → QuoteGeneration → M (Option ReusedResponse)
  look_up key context expiry now_secs g w =
      let v = yield w in
      (ok (st0x_oracle_server.Reuse.lookup v.reuse v.feed key context expiry now_secs g), v)

  unfoldable pub keep : ReuseKey → ℕ → OracleResponse → QuoteGeneration → M {0} Unit
  keep key expiry response g w =
      let v = yield w in
      (ok tt, record v { reuse = (store v.reuse v.feed key expiry response g).0 })

  module _ (x : External) where
    -- `sign_context`: join or start the sign, wait while others act, read the entry.
    unfoldable pub sign_context : List Word → M (Bytes × Address)
    sign_context context w0 =
        let w = yield w0 in
        let hash = context_hash x context in
        let id = entry_of (begin w.signer.cache hash w.instant).1 in
        let waited =
          yield (record w { signer = History.step sign w.signer (begins hash w.instant) }) in
        let (cache, outcome) = st0x_oracle_server.Signer.finish waited.signer.cache hash id in
        (
          map_err (λ e. internal (sign_fault e)) (map_ok (λ s. (s, x.signer_address)) outcome),
          record waited { signer = record waited.signer { cache = cache } },
        )
