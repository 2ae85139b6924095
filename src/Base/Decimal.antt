-- ===== src/Base/Decimal.antt =====
-- `u64::to_string`: decimal digits as ASCII, most significant first.
use st0x_oracle_server.Base.Tests.{ltb, leb, if◌then◌else◌}
use st0x_oracle_server.Base.Lists.{all, is_empty, replicate}
use mathlib.Core.Bool.{Bool, true, false, not, ◌&&◌}
use mathlib.Core.Option.{Option, some, none}
use Prim.Native.Nat.{ℕ, zero, suc, ◌+◌, ◌-◌, ◌*◌, ◌/◌, ◌%◌, ◌^◌, ◌<◌}
use mathlib.Core.Path.{◌≡◌, refl, sym, ap, ◌∙◌}
use mathlib.Core.List.{List, [], ◌∷◌, ◌++◌}
use native.Mathlib.Omega.{arith}
use native.Mathlib.Nat.{pow-suc}

-- `fuel` bounds the number of digits.
digits_from : ℕ → ℕ → List ℕ
digits_from zero n = []
digits_from (suc fuel) n =
    let rest = digits_from fuel (n / 10) in
    if ltb n 10 then (48 + n) ∷ [] else rest ++ (48 + n % 10) ∷ []

-- A `u64` has at most 20 digits.
unfoldable pub to_string : ℕ → List ℕ
unfolding digits_from
to_string n = digits_from 20 n

read_from : ℕ → List ℕ → ℕ
read_from acc [] = acc
read_from acc (c ∷ cs) = read_from (10 * acc + (c - 48)) cs

unfoldable pub read_decimal : List ℕ → ℕ
unfolding read_from
read_decimal cs = read_from 0 cs

read_from-append :
    (acc : ℕ) (cs : List ℕ) (c : ℕ)
    → read_from acc (cs ++ c ∷ []) ≡ 10 * read_from acc cs + (c - 48)
unfolding read_from
read_from-append acc [] c = refl
read_from-append acc (d ∷ cs) c = read_from-append (10 * acc + (d - 48)) cs c

read_from-digits_from : (fuel n : ℕ) → n < 10 ^ fuel → read_from 0 (digits_from fuel n) ≡ n
unfolding read_from digits_from
read_from-digits_from zero n h = omega arith
read_from-digits_from (suc fuel) n h =
    let shorter : n / 10 < 10 ^ fuel = omega (arith, pow-suc 10 fuel, h) in
    ground (
      arith,
      read_from-digits_from fuel (n / 10) shorter,
      read_from-append 0 (digits_from fuel (n / 10)) (48 + n % 10),
    )

-- Printing a `u64` loses nothing.
pub read_decimal-to_string : (n : ℕ) → n < 10 ^ 20 → read_decimal (to_string n) ≡ n
unfolding read_decimal to_string
read_decimal-to_string n h = read_from-digits_from 20 n h

-- Leading zero bytes are not read.
pub read_decimal-replicate :
    (k : ℕ) (cs : List ℕ) → read_decimal (replicate k 0 ++ cs) ≡ read_decimal cs
unfolding read_decimal read_from
read_decimal-replicate zero cs = refl
read_decimal-replicate (suc k) cs = read_decimal-replicate k cs

pub to_string-injective : (m n : ℕ) → m < 10 ^ 20 → n < 10 ^ 20 → to_string m ≡ to_string n → m ≡ n
to_string-injective m n hm hn e =
    sym (read_decimal-to_string m hm) ∙ (ap read_decimal e ∙ read_decimal-to_string n hn)

abbrev pub is_digit : ℕ → Bool
is_digit c = leb 48 c && leb c 57

-- The value of a text of digits, of any length.
abbrev pub digits : List ℕ → Option ℕ
digits s = if not (is_empty s) && all is_digit s then some (read_decimal s) else none

all-append : (cs ds : List ℕ) → all is_digit (cs ++ ds) ≡ (all is_digit cs && all is_digit ds)
all-append [] ds = refl
all-append (c ∷ cs) ds = ground (arith, all-append cs ds)

is_empty-snoc : (cs : List ℕ) (c : ℕ) → is_empty (cs ++ c ∷ []) ≡ false
is_empty-snoc [] c = refl
is_empty-snoc (d ∷ cs) c = refl

digits_from-IsDigits :
    (fuel n : ℕ)
    → n < 10 ^ fuel
    → (all is_digit (digits_from fuel n) ≡ true)
      × (0 < fuel → is_empty (digits_from fuel n) ≡ false)
unfolding digits_from
digits_from-IsDigits zero n h = (refl, λ k. absurd (omega (arith, k)))
digits_from-IsDigits (suc fuel) n h =
    let shorter : n / 10 < 10 ^ fuel = omega (arith, pow-suc 10 fuel, h) in
    (
      ground (
        arith,
        all-append (digits_from fuel (n / 10)) ((48 + n % 10) ∷ []),
        digits_from-IsDigits fuel (n / 10) shorter,
      ),
      λ k. ground (arith, is_empty-snoc (digits_from fuel (n / 10)) (48 + n % 10)),
    )

-- What is printed is read again.
pub digits-to_string : (n : ℕ) → n < 10 ^ 20 → digits (to_string n) ≡ some n
unfolding to_string
digits-to_string n h = ground (arith, digits_from-IsDigits 20 n h, read_decimal-to_string n h)
