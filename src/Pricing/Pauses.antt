-- ===== src/Pricing/Pauses.antt =====
-- How long the client waits before it connects again.
use st0x_oracle_server.Base.{
  ◌∷◌, [], some, ok, err, zero, suc, ◌^◌, Result, ◌≡◌, ℕ, ◌*◌, arith, List, All, ◌<◌, length,
  get_elem?, ◌+◌, [], ◌∙◌, ap, sym, subst,
}
use st0x_oracle_server.Pricing.Subscription.{Backoff, ClientError, min, pauses, reconnect}
use native.Mathlib.Nat.{pow-suc, mul_assoc}

abbrev pub End : Type 0
End = Result ClientError (Unit {0})

abbrev pub Failed : End → Type 0
Failed end = (e : ClientError) × (end ≡ err e)

doubled : (a m : ℕ) → min (min a m * 2) m ≡ min (a * 2) m
doubled a m = ground arith

module _ (b : Backoff) where
  -- The backoff after `n` failures in a row.
  abbrev pub after_failures : ℕ → ℕ
  after_failures n = min (b.initial * 2 ^ n) b.max

  after_failures-suc : (n : ℕ) → min (after_failures n * 2) b.max ≡ after_failures (suc n)
  after_failures-suc n =
      doubled (b.initial * 2 ^ n) b.max
      ∙ ap (λ a. min a b.max)
          (mul_assoc b.initial (2 ^ n) 2 ∙ ap (λ a. b.initial * a) (sym (pow-suc 2 n)))

  pauses-nth :
      (n i m : ℕ) (ended : List End)
      → All Failed ended
      → i < length ended
      → m ≡ n + i
      → get_elem? (pauses b (after_failures n) ended) i ≡ some (after_failures m)
  unfolding pauses reconnect
  pauses-nth n i m [] h k e = absurd (omega (arith, k))
  pauses-nth n i m ((ok u) ∷ ended) ((w, f), h) k e = absurd (ground arith)
  pauses-nth n zero m ((err w) ∷ ended) h k e =
      let same : n ≡ m = omega (arith, e) in ap (λ x. some (after_failures x)) same
  pauses-nth n (suc i) m ((err w) ∷ ended) h k e =
      subst (λ c. get_elem? (pauses b c ended) i ≡ some (after_failures m))
        (sym (after_failures-suc n))
        (pauses-nth (suc n) i m ended h.1 (ground arith) (omega (arith, e)))

  -- However long the service stays away, the pauses double from the first one up to the longest:
  -- after `i` failures in a row, from the start or from a session that ended well, the client
  -- waits `initial * 2 ^ i`, or `max` where that is more.
  pub pauses-after_failures :
      (i : ℕ) (ended : List End)
      → b.initial < b.max
      → All Failed ended
      → i < length ended
      → get_elem? (pauses b b.initial ended) i ≡ some (after_failures i)
  pauses-after_failures i ended low h k =
      subst (λ c. get_elem? (pauses b c ended) i ≡ some (after_failures i)) {x = after_failures 0}
        (ground arith) (pauses-nth 0 i i ended h k (omega arith))
