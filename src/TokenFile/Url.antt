-- ===== src/TokenFile/Url.antt =====
-- What the address of the object is taken from, and how it is sent.
use st0x_oracle_server.TokenFile.Bucket.{
  split_gs_url, hex_digit, percent, is_unreserved, both_named,
}
use st0x_oracle_server.Wire.{Bytes}
use st0x_oracle_server.Base.{
  ℕ, ◌++◌, ◌≡◌, contains, ◌∷◌, some, false, [], arith, refl, nat_eq, Bool-cases, ◌<◌, All, ◌==◌,
  ◌↔◌, ◌/◌, inl, codes, true, ◌%◌, ◌||◌, is_empty, inr, Option-cases,
}
use st0x_oracle_server.Base.Text.{
  Text, strip_prefix, split_once, strip_prefix-eq-some, split_once-eq-some, strip_prefix-append,
  split_once-append,
}

-- A URL names an object exactly when it is `gs://`, a bucket without `/`, `/` and an object, both
-- of them named; the first `/` divides them.
pub split_gs_url-eq-some_iff :
    (url bucket object : Text)
    → (split_gs_url url ≡ some (bucket, object)) ↔ (
        (url ≡ codes "gs://" ++ (bucket ++ b'/' ∷ object))
        × (contains b'/' bucket ≡ false)
        × (is_empty bucket ≡ false)
        × (is_empty object ≡ false))
unfolding split_gs_url
split_gs_url-eq-some_iff url bucket object = (
  λ h. elim (Option-cases (strip_prefix (codes "gs://") url)) [
    | inl e ↦ absurd (ground arith)
    | inr (rest, e) ↦ elim (Option-cases (split_once b'/' rest)) [
      | inl f ↦ absurd (ground arith)
      | inr ((x, y), f) ↦
          let named : both_named (x, y) ≡ some (bucket, object) = ground arith in
          ground (
            arith,
            strip_prefix-eq-some (codes "gs://") url rest e,
            split_once-eq-some b'/' rest x y f,
            named,
          )
    ]
  ],
  λ h. ground (
    arith,
    strip_prefix-append (codes "gs://") (bucket ++ b'/' ∷ object),
    split_once-append b'/' bucket object h.1,
  ),
)

hex_digit-injective : (d e : ℕ) → hex_digit d ≡ hex_digit e → d ≡ e
hex_digit-injective d e h = ground arith

hex_digit-is_unreserved : (d : ℕ) → d < 16 → is_unreserved (hex_digit d) ≡ true
hex_digit-is_unreserved d h = ground arith

-- Encoding loses nothing: two segments with the same encoding are the same.
pub percent-injective : (s t : Bytes) → percent s ≡ percent t → s ≡ t
unfolding percent
percent-injective [] [] h = refl
percent-injective [] (c ∷ t) h = absurd (ground arith)
percent-injective (b ∷ s) [] h = absurd (ground arith)
percent-injective (b ∷ s) (c ∷ t) h = ground (
  arith,
  percent-injective s t,
  hex_digit-injective (b / 16) (c / 16),
  hex_digit-injective (b % 16) (c % 16),
)

-- What may stand in one segment of a path: unreserved characters and escapes.
abbrev pub IsSegment : Text → Type 0
IsSegment s = All (λ c. (is_unreserved c || (c == b'%')) ≡ true) s

pub percent-IsSegment : (s : Bytes) → All (λ b. b < 256) s → IsSegment (percent s)
unfolding percent
percent-IsSegment [] h = tt
percent-IsSegment (b ∷ s) h = elim (Bool-cases (is_unreserved b)) [
  | inl e ↦ rw e (ground arith, percent-IsSegment s h.1)
  | inr e ↦ rw e (
    refl,
    (
      ground (arith, hex_digit-is_unreserved (b / 16)),
      (ground (arith, hex_digit-is_unreserved (b % 16)), percent-IsSegment s h.1),
    ),
  )
]
