-- ===== src/Session/Window.antt =====
-- What a signed session says about the quote that it was read from.
use mathlib.Core.Option.{IsSome}
use st0x_oracle_server.Base.{◌/◌, ◌≡◌, refl, ◌↔◌, some, ok, arith}
use st0x_oracle_server.Base.Int.{ℤ, pos, pos_part, ◌≤ℤ◌, ◌<ℤ◌}
use st0x_oracle_server.Wire.{SessionTag, premarket, rth, afterhours, closed, QuoteSession, Quote}
use st0x_oracle_server.Session.{SignedSession, from_quote}

-- The quote was read inside its session: the end counts only for a closed session.
abbrev pub Holds : SessionTag → ℤ → ℤ → ℤ → Type 0
Holds closed s e t = (s ≤ℤ t) × (t ≤ℤ e)
Holds premarket s e t = (s ≤ℤ t) × (t <ℤ e)
Holds rth s e t = (s ≤ℤ t) × (t <ℤ e)
Holds afterhours s e t = (s ≤ℤ t) × (t <ℤ e)

abbrev pub in_seconds : QuoteSession → SignedSession
in_seconds ses = record {
  tag = ses.tag;
  start = pos_part ses.start_unix_ms / 1000;
  end = pos_part ses.end_unix_ms / 1000;
}

-- The session can be signed, and this is what is signed of it.
abbrev pub Signs : QuoteSession → ℤ → SignedSession → Type 0
Signs ses t r =
    Holds ses.tag ses.start_unix_ms ses.end_unix_ms t
    × (pos 0 ≤ℤ ses.start_unix_ms)
    × (r ≡ in_seconds ses)

module _ (q : Quote) (s e t : ℤ) (ht : q.source_ts_unix_ms ≡ t) (r : SignedSession) where
  abbrev session_of : SessionTag → QuoteSession
  session_of tag = record { tag = tag; start_unix_ms = s; end_unix_ms = e }

  signs :
      (tag : SessionTag)
      → q.session ≡ some (session_of tag)
      → from_quote q ≡ ok r
      → Signs (session_of tag) t r
  unfolding from_quote
  signs closed hs h = ground arith
  signs premarket hs h = ground arith
  signs rth hs h = ground arith
  signs afterhours hs h = ground arith

  signed :
      (tag : SessionTag)
      → q.session ≡ some (session_of tag)
      → Signs (session_of tag) t r
      → from_quote q ≡ ok r
  unfolding from_quote
  signed closed hs h = ground arith
  signed premarket hs h = ground arith
  signed rth hs h = ground arith
  signed afterhours hs h = ground arith

-- A quote with a session is signed exactly when the session holds its source timestamp and does
-- not start before 1970; then the tag is kept and both bounds are floored to whole seconds.
pub from_quote-eq-ok_iff :
    (q : Quote) (ses : QuoteSession) (r : SignedSession)
    → q.session ≡ some ses
    → (from_quote q ≡ ok r) ↔ Signs ses q.source_ts_unix_ms r
from_quote-eq-ok_iff q ses r h = (
  signs q ses.start_unix_ms ses.end_unix_ms q.source_ts_unix_ms refl r ses.tag h,
  signed q ses.start_unix_ms ses.end_unix_ms q.source_ts_unix_ms refl r ses.tag h,
)

pub from_quote-IsSome : (q : Quote) (r : SignedSession) → from_quote q ≡ ok r → IsSome q.session
unfolding from_quote
from_quote-IsSome q r h = ground arith
