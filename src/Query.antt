-- ===== src/Query.antt =====
-- src/lib.rs: the options in the query string of a request, as ASCII codes.
pub mod Last
use st0x_oracle_server.Base.{
  none, some, ℕ, List, Option, ◌∷◌, if◌then◌else◌, Bool, [], nat_beq, leb, map, ◌==◌, false, ◌&&◌,
  ◌||◌, bytes_eq, ◌+◌,
}
use st0x_oracle_server.Base.Text.{split}
use st0x_oracle_server.Wire.{Bytes}

-- `split_once('=').unwrap_or((pair, ""))`.
unfoldable pub key_value : Bytes → Bytes × Bytes
key_value [] = ([], [])
key_value (c ∷ pair) =
    let (key, value) = key_value pair in if nat_beq c 61 then ([], pair) else (c ∷ key, value)

-- `allowFailure`.
abbrev pub flag_name : Bytes
flag_name = 97 ∷ 108 ∷ 108 ∷ 111 ∷ 119 ∷ 70 ∷ 97 ∷ 105 ∷ 108 ∷ 117 ∷ 114 ∷ 101 ∷ []

abbrev lower : ℕ → ℕ
lower c = if leb 65 c && leb c 90 then c + 32 else c

-- `true` in any case, or `1`.
unfoldable pub is_set : Bytes → Bool
is_set value = (map lower value == 116 ∷ 114 ∷ 117 ∷ 101 ∷ []) || (value == 49 ∷ [])

abbrev pub flag_value : Bytes → Option Bytes
flag_value pair = if (key_value pair).0 == flag_name then some (key_value pair).1 else none

-- The value of the last pair that has the key.
unfoldable pub last_value : List Bytes → Option Bytes
last_value [] = none
last_value (pair ∷ pairs) = elim (last_value pairs) [
  | some value ↦ some value
  | none ↦ flag_value pair
]

abbrev pub set_in : Option Bytes → Bool
set_in none = false
set_in (some value) = is_set value

unfoldable pub parse : Option Bytes → Bool
parse none = false
parse (some raw) = set_in (last_value (split 38 raw))
