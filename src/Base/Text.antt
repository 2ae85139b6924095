-- ===== src/Base/Text.antt =====
-- What the standard library does on texts, as far as the server uses it.
use st0x_oracle_server.Base.Tests.{nat_beq, leb, if◌then◌else◌}
use st0x_oracle_server.Base.Lists.{codes, is_empty}
use st0x_oracle_server.Base.{
  some, none, ◌∷◌, [], inl, inr, true, false, ℕ, List, String, Bool, ◌∷◌, ◌&&◌, ◌||◌, [], ◌+◌, true,
  false, ◌≡◌, arith, nat_beq_iff, refl, Option, ◌++◌, contains, ◌==◌, Bool-cases, nat_eq,
  Option-cases,
}

-- A text that is walked is a list of code points.
abbrev pub Text : Type 0
Text = List ℕ

-- `str::strip_prefix`.
unfoldable pub strip_prefix : Text → Text → Option Text
strip_prefix [] s = some s
strip_prefix (c ∷ p) [] = none
strip_prefix (c ∷ p) (d ∷ s) = if c == d then strip_prefix p s else none

-- `str::split_once` at a character.
unfoldable pub split_once : ℕ → Text → Option (Text × Text)
split_once c [] = none
split_once c (d ∷ s) =
    let rest = split_once c s in
    if d == c
    then some ([], s)
    else elim rest [ none ↦ none | some (before, after) ↦ some (d ∷ before, after) ]

-- `str::split` at a character.
abbrev pub onto_first : ℕ → List Text → List Text
onto_first c [] = (c ∷ []) ∷ []
onto_first c (part ∷ parts) = (c ∷ part) ∷ parts

unfoldable pub split : ℕ → Text → List Text
split c [] = [] ∷ []
split c (d ∷ s) = let rest = split c s in if nat_beq d c then [] ∷ rest else onto_first d rest

pub strip_prefix-append : (p s : Text) → strip_prefix p (p ++ s) ≡ some s
unfolding strip_prefix
strip_prefix-append [] s = refl
strip_prefix-append (c ∷ p) s = ground (arith, strip_prefix-append p s)

pub strip_prefix-eq-some : (p s rest : Text) → strip_prefix p s ≡ some rest → s ≡ p ++ rest
unfolding strip_prefix
strip_prefix-eq-some [] s rest h = ground arith
strip_prefix-eq-some (c ∷ p) [] rest h = cc
strip_prefix-eq-some (c ∷ p) (d ∷ s) rest h = ground (arith, strip_prefix-eq-some p s rest)

pub split_once-append :
    (c : ℕ) (a b : Text) → contains c a ≡ false → split_once c (a ++ c ∷ b) ≡ some (a, b)
unfolding split_once
split_once-append c [] b h = ground arith
split_once-append c (d ∷ a) b h = ground (arith, split_once-append c a b)

pub split-append :
    (c : ℕ) (a b : Text) → contains c a ≡ false → split c (a ++ c ∷ b) ≡ a ∷ split c b
unfolding split
split-append c [] b h = ground arith
split-append c (d ∷ a) b h = ground (arith, split-append c a b)

pub split_whole : (c : ℕ) (a : Text) → contains c a ≡ false → split c a ≡ a ∷ []
unfolding split
split_whole c [] h = refl
split_whole c (d ∷ a) h = ground (arith, split_whole c a)

pub split_once-eq-some :
    (c : ℕ) (s a b : Text)
    → split_once c s ≡ some (a, b)
    → (s ≡ a ++ c ∷ b) × (contains c a ≡ false)
unfolding split_once
split_once-eq-some c [] a b h = absurd (ground arith)
split_once-eq-some c (d ∷ s) a b h = elim (Bool-cases (d == c)) [
  | inl e ↦ ground (arith, nat_beq_iff d c)
  | inr e ↦ elim (Option-cases (split_once c s)) [
    | inl f ↦ absurd (ground arith)
    | inr ((x, y), f) ↦ ground (arith, nat_beq_iff d c, split_once-eq-some c s x y f)
  ]
]

-- `char::is_whitespace`: the code points with the property White_Space.
abbrev pub is_whitespace : ℕ → Bool
is_whitespace c =
    (leb 9 c && leb c 13)
    || nat_beq c 32
    || nat_beq c 133
    || nat_beq c 160
    || nat_beq c 5760
    || (leb 8192 c && leb c 8202)
    || nat_beq c 8232
    || nat_beq c 8233
    || nat_beq c 8239
    || nat_beq c 8287
    || nat_beq c 12288

unfoldable pub trim_start : List ℕ → List ℕ
trim_start [] = []
trim_start (c ∷ s) = if is_whitespace c then trim_start s else c ∷ s

unfoldable pub trim_end : List ℕ → List ℕ
trim_end [] = []
trim_end (c ∷ s) =
    let rest = trim_end s in if is_empty rest && is_whitespace c then [] else c ∷ rest

-- `str::trim`.
abbrev pub trim : List ℕ → List ℕ
trim s = trim_end (trim_start s)

abbrev pub ascii_lower : ℕ → ℕ
ascii_lower c = if leb 65 c && leb c 90 then c + 32 else c

-- `str::eq_ignore_ascii_case`.
abbrev same_ascii : List ℕ → List ℕ → Bool
same_ascii [] [] = true
same_ascii (c ∷ s) (d ∷ t) = nat_beq (ascii_lower c) (ascii_lower d) && same_ascii s t
same_ascii _ _ = false

unfoldable pub eq_ignore_ascii_case : String → String → Bool
eq_ignore_ascii_case s t = same_ascii (codes s) (codes t)

same_ascii_sym : (s t : List ℕ) → same_ascii s t ≡ same_ascii t s
same_ascii_sym [] [] = refl
same_ascii_sym [] (d ∷ t) = refl
same_ascii_sym (c ∷ s) [] = refl
same_ascii_sym (c ∷ s) (d ∷ t) = ground (
  arith,
  nat_beq_iff (ascii_lower c) (ascii_lower d),
  nat_beq_iff (ascii_lower d) (ascii_lower c),
  same_ascii_sym s t,
)

pub eq_ignore_ascii_case_sym : (s t : String) → eq_ignore_ascii_case s t ≡ eq_ignore_ascii_case t s
unfolding eq_ignore_ascii_case
eq_ignore_ascii_case_sym s t = same_ascii_sym (codes s) (codes t)
