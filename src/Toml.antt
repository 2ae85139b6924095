-- ===== src/Toml.antt =====
-- The values of the crate `toml`: a table is a map from keys to values, which the crate keeps in
-- the order of the keys.
use st0x_oracle_server.Base.Ordered.{text_lt}
use st0x_oracle_server.Base.Int.{ℤ}
use st0x_oracle_server.Base.{
  String, List, Option, Bool, none, if◌then◌else◌, [], ◌∷◌, some, ◌≡◌, ◌==◌, false, ap, true, refl,
  arith, string_eq,
}
use text.Mathlib.TextEquality.{eq_iff}

mutual
  -- Floats and datetimes are kept as their text: nothing here looks into them.
  pub data Value : Type 0 where
    string : String → Value
    integer : ℤ → Value
    float : String → Value
    boolean : Bool → Value
    datetime : String → Value
    array : Items → Value
    table : Table → Value

  pub data Items : Type 0 where
    nil : Items
    cons : Value → Items → Items

  pub data Table : Type 0 where
    end : Table
    entry : String → Value → Table → Table

unfoldable pub get : String → Table → Option Value
get k end = none
get k (entry j v t) = if j == k then some v else get k t

unfoldable pub insert : String → Value → Table → Table
insert k v end = entry k v end
insert k v (entry j w t) =
    if j == k
    then entry k v t
    else if text_lt k j
    then entry k v (entry j w t)
    else entry j w (insert k v t)

abbrev pub contains_key : String → Table → Bool
contains_key k t = elim (get k t) [ none ↦ false | some v ↦ true ]

abbrev pub iter : Table → List (String × Value)
iter end = []
iter (entry k v t) = (k, v) ∷ iter t

abbrev pub items : Items → List Value
items nil = []
items (cons v vs) = v ∷ items vs

abbrev pub from_list : List Value → Items
from_list [] = nil
from_list (v ∷ vs) = cons v (from_list vs)

abbrev pub as_str : Value → Option String
as_str (string s) = some s
as_str _ = none

abbrev pub as_integer : Value → Option ℤ
as_integer (integer i) = some i
as_integer _ = none

abbrev pub as_array : Value → Option (List Value)
as_array (array vs) = some (items vs)
as_array _ = none

abbrev pub as_table : Value → Option Table
as_table (table t) = some t
as_table _ = none

-- `Value::get` of a key: nothing in a value that is no table.
abbrev pub member : String → Value → Option Value
member k (table t) = get k t
member k _ = none

-- `and_then` of a lookup.
abbrev pub read {ℓ} : {A : Type ℓ} → (Value → Option A) → Option Value → Option A
read f none = none
read f (some v) = f v

pub items-from_list : (vs : List Value) → items (from_list vs) ≡ vs
items-from_list [] = refl
items-from_list (v ∷ vs) = ap (λ ws. v ∷ ws) (items-from_list vs)

pub get-insert :
    (j k : String) (v : Value) (t : Table)
    → get j (insert k v t) ≡ (if k == j then some v else get j t)
unfolding get insert
get-insert j k v end = refl
get-insert j k v (entry i w t) =
    ground (arith, eq_iff i k, eq_iff i j, eq_iff k j, get-insert j k v t)
