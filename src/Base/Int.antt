-- ===== src/Base/Int.antt =====
-- Signed integers over the native numbers, under the library's name (its ℤ stands on the unary ℕ),
-- with the divisions and conversions that the server makes of an `i64`.
use Prim.Native.Nat.{ℕ, zero, suc, ◌+◌, ◌-◌, ◌*◌, ◌/◌, ◌≤◌, ◌<◌}
use mathlib.Core.Path.{◌≡◌}
use mathlib.Core.Logic.{◌↔◌}
use mathlib.Core.Bool.{Bool, true}
use mathlib.Core.Option.{Option, none, some}
use native.Mathlib.Omega.{arith}
use st0x_oracle_server.Base.Tests.{ltb, leb, nat_beq, if◌then◌else◌}
use st0x_oracle_server.Base.Equality.{Eq}

-- `negsuc n` is -(n + 1).
pub data ℤ : Type 0 where
  pos : ℕ → ℤ
  negsuc : ℕ → ℤ

abbrev pub pos_part : ℤ → ℕ
pos_part (pos n) = n
pos_part (negsuc n) = 0

abbrev pub neg_part : ℤ → ℕ
neg_part (pos n) = 0
neg_part (negsuc n) = suc n

infix 50 ◌≤ℤ◌ ◌<ℤ◌
abbrev pub ◌≤ℤ◌ : ℤ → ℤ → Type 0
a ≤ℤ b = pos_part a + neg_part b ≤ pos_part b + neg_part a

abbrev pub ◌<ℤ◌ : ℤ → ℤ → Type 0
a <ℤ b = pos_part a + neg_part b < pos_part b + neg_part a

abbrev pub leb_ℤ : ℤ → ℤ → Bool
leb_ℤ a b = leb (pos_part a + neg_part b) (pos_part b + neg_part a)

abbrev pub ltb_ℤ : ℤ → ℤ → Bool
ltb_ℤ a b = ltb (pos_part a + neg_part b) (pos_part b + neg_part a)

abbrev pub int_beq : ℤ → ℤ → Bool
int_beq a b = nat_beq (pos_part a + neg_part b) (pos_part b + neg_part a)

pub int_beq_iff : (a b : ℤ) → (int_beq a b ≡ true) ↔ (a ≡ b)
int_beq_iff (pos a) (pos b) = ground arith
int_beq_iff (pos a) (negsuc b) = ground arith
int_beq_iff (negsuc a) (pos b) = ground arith
int_beq_iff (negsuc a) (negsuc b) = ground arith

instance abbrev pub int_eq : Eq ℤ
int_eq = record { beq = int_beq; beq_iff = int_beq_iff }

-- `i64::min`.
abbrev pub min_ℤ : ℤ → ℤ → ℤ
min_ℤ a b = if leb_ℤ a b then a else b

-- `i64::div_euclid` by a positive number: the quotient is floored.
abbrev pub div_euclid : ℤ → ℕ → ℤ
div_euclid (pos n) d = pos (n / d)
div_euclid (negsuc n) d = negsuc (n / d)

abbrev pub neg_of : ℕ → ℤ
neg_of zero = pos 0
neg_of (suc n) = negsuc n

-- `/` on `i64`: the quotient is truncated towards zero.
abbrev pub div_trunc : ℤ → ℕ → ℤ
div_trunc (pos n) d = pos (n / d)
div_trunc (negsuc n) d = neg_of (suc n / d)

-- `u64::try_from` of an `i64`: every non-negative `i64` is a `u64`.
abbrev pub u64_try_from : ℤ → Option ℕ
u64_try_from (pos n) = some n
u64_try_from (negsuc n) = none

abbrev pub i64_max : ℕ
i64_max = 9223372036854775807

abbrev pub u64_max : ℕ
u64_max = 18446744073709551615

-- `i64::try_from` of a `u64`.
abbrev pub i64_try_from : ℕ → Option ℤ
i64_try_from n = if leb n i64_max then some (pos n) else none

-- `i64::checked_mul` of a non-negative number; a negative one is not multiplied anywhere.
abbrev pub checked_mul : ℕ → ℕ → Option ℤ
checked_mul n k = if leb (n * k) i64_max then some (pos (n * k)) else none

-- `u64::saturating_add`.
abbrev pub saturating_add : ℕ → ℕ → ℕ
saturating_add a b = if leb (a + b) u64_max then a + b else u64_max

abbrev sub_nat : ℕ → ℕ → ℤ
sub_nat a b = if leb b a then pos (a - b) else negsuc (b - suc a)

-- A difference of two `i64` as an `i64`: it wraps around at 2 ^ 64.
abbrev wrap_i64 : ℤ → ℤ
wrap_i64 (pos n) = if leb n i64_max then pos n else negsuc (u64_max - n)
wrap_i64 (negsuc n) = if leb n i64_max then negsuc n else pos (u64_max - n)

-- `-` on `i64`.
abbrev pub wrapping_sub : ℤ → ℤ → ℤ
wrapping_sub a b = wrap_i64 (sub_nat (pos_part a + neg_part b) (pos_part b + neg_part a))
