-- ===== src/Session.antt =====
-- src/session.rs: the market session that is signed into context slots 3 to 5.
pub mod Window
pub mod Tag
use st0x_oracle_server.Base.{
  ℕ, ◌+◌, ◌-◌, ◌≡◌, Bool, true, false, not, ◌&&◌, List, [], ◌∷◌, ◌++◌, Option, none, some, Result,
  ok, err, ok_or, length, replicate, if◌then◌else◌,
}
use st0x_oracle_server.Base.Errors.{◌>>=◌}
use st0x_oracle_server.Base.Int.{ℤ, leb_ℤ, ltb_ℤ, div_euclid, u64_try_from}
use st0x_oracle_server.Wire.{
  Bytes, Word, SessionTag, premarket, rth, afterhours, closed, Quote, External,
}

pub record SignedSession : Type 0 where
  pub tag : SessionTag
  pub start : ℕ
  pub end : ℕ

-- The texts of `SessionRefusal::Invalid`, by what they are made of.
pub data SessionFault : Type 0 where
  does_not_hold : SessionTag → (start end source_ts : ℤ) → SessionFault
  before_1970 : SessionTag → ℤ → SessionFault

pub data SessionRefusal : Type 0 where
  missing : SessionRefusal
  invalid : SessionFault → SessionRefusal

-- The end of an open session is exclusive, that of a closed one inclusive.
abbrev pub before_end : SessionTag → ℤ → ℤ → Bool
before_end closed read_at end_ms = leb_ℤ read_at end_ms
before_end premarket read_at end_ms = ltb_ℤ read_at end_ms
before_end rth read_at end_ms = ltb_ℤ read_at end_ms
before_end afterhours read_at end_ms = ltb_ℤ read_at end_ms

abbrev pub seconds : SessionTag → ℤ → Result SessionRefusal ℕ
seconds tag ms = ok_or (u64_try_from (div_euclid ms 1000)) (invalid (before_1970 tag ms))

unfoldable pub from_quote : Quote → Result SessionRefusal SignedSession
from_quote q = do
  session ← ok_or q.session missing
  let start_ms = session.start_unix_ms
  let end_ms = session.end_unix_ms
  let read_at = q.source_ts_unix_ms
  let ordered = leb_ℤ start_ms read_at && before_end session.tag read_at end_ms
  if not ordered then err (invalid (does_not_hold session.tag start_ms end_ms read_at)) else do
    start ← seconds session.tag start_ms
    end ← seconds session.tag end_ms
    ok (record { tag = session.tag; start = start; end = end })

-- The `assert!` on the length is the law `tag_name-short` of the names.
module _ (x : External) where
  unfoldable pub tag_bytes32_v3 : SessionTag → Word
  tag_bytes32_v3 tag =
      let bytes = x.tag_name tag in
      replicate (31 - length bytes) 0 ++ (bytes ++ (0xe0 + length bytes) ∷ [])
