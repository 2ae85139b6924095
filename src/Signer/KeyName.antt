-- ===== src/Signer/KeyName.antt =====
-- src/sign.rs: the resource name of a key version of the key management service.
use st0x_oracle_server.Base.{
  none, some, ok, err, ◌∷◌, [], true, false, ℕ, Option, Bool, List, Result, codes, all, contains,
  if◌then◌else◌, ◌==◌, ◌++◌, ◌≡◌, ◌≤◌, leb, ◌&&◌, arith, nat_eq, refl, ap, ◌∙◌,
}
use st0x_oracle_server.Base.{bytes_eq, nat_eq}
use st0x_oracle_server.Base.Int.{u64_max}
use st0x_oracle_server.Base.Text.{Text, split, split-append, split_whole}
use st0x_oracle_server.Base.Decimal.{digits, to_string, digits-to_string, is_digit}

-- `str::parse::<u64>`.
abbrev in_u64 : Option ℕ → Option ℕ
in_u64 none = none
in_u64 (some n) = if leb n u64_max then some n else none

unfoldable pub parse_u64 : Text → Option ℕ
parse_u64 [] = none
parse_u64 (c ∷ s) = if c == b'+' then in_u64 (digits s) else in_u64 (digits (c ∷ s))

pub record KmsKeyName : Type 0 where
  pub project : Text
  pub location : Text
  pub keyring : Text
  pub key : Text
  pub version : ℕ

pub data KeyNameError : Type 0 where
  version_not_a_number : Text → KeyNameError
  not_a_key_version : KeyNameError

abbrev numbered : Text → Option ℕ → (ℕ → KmsKeyName) → Result KeyNameError KmsKeyName
numbered v none name = err (version_not_a_number v)
numbered v (some n) name = ok (name n)

abbrev is_name : Text → Text → Text → Text → Text → Bool
is_name projects locations rings keys versions =
    projects == codes "projects"
    && locations == codes "locations"
    && rings == codes "keyRings"
    && keys == codes "cryptoKeys"
    && versions == codes "cryptoKeyVersions"

abbrev of_parts : List Text → Result KeyNameError KmsKeyName
of_parts (projects ∷ p ∷ locations ∷ l ∷ rings ∷ r ∷ keys ∷ k ∷ versions ∷ v ∷ []) =
    if is_name projects locations rings keys versions
    then numbered v (parse_u64 v)
        (λ n. record { project = p; location = l; keyring = r; key = k; version = n })
    else err not_a_key_version
of_parts _ = err not_a_key_version

unfoldable pub parse_key_name : Text → Result KeyNameError KmsKeyName
parse_key_name resource_name = of_parts (split b'/' resource_name)

-- The name that the documentation of the service gives a key version.
abbrev pub show_key_name : KmsKeyName → Text
show_key_name n =
    codes "projects/"
    ++ (n.project
        ++ (codes "/locations/"
            ++ (n.location
                ++ (codes "/keyRings/"
                    ++ (n.keyring
                        ++ (codes "/cryptoKeys/"
                            ++ (n.key ++ (codes "/cryptoKeyVersions/" ++ to_string n.version))))))))

digits-no_slash : (s : Text) → all is_digit s ≡ true → contains b'/' s ≡ false
digits-no_slash [] h = refl
digits-no_slash (c ∷ s) h = ground (arith, digits-no_slash s)

-- No part but the version has a `/`, and the version is a `u64`.
abbrev pub IsPlain : KmsKeyName → Type 0
IsPlain n =
    (contains b'/' n.project ≡ false)
    × (contains b'/' n.location ≡ false)
    × (contains b'/' n.keyring ≡ false)
    × (contains b'/' n.key ≡ false)
    × (n.version ≤ u64_max)

digits-IsDigits : (s : Text) (n : ℕ) → digits s ≡ some n → all is_digit s ≡ true
digits-IsDigits s n h = ground arith

parse_u64-digits : (s : Text) (n : ℕ) → n ≤ u64_max → digits s ≡ some n → parse_u64 s ≡ some n
unfolding parse_u64
parse_u64-digits [] n h e = absurd (ground arith)
parse_u64-digits (c ∷ s) n h e = ground (arith, digits-IsDigits (c ∷ s) n e)

to_string-digits : (n : ℕ) → n ≤ u64_max → digits (to_string n) ≡ some n
to_string-digits n h = digits-to_string n (omega (arith, h))

split-show :
    (n : KmsKeyName)
    → IsPlain n
    → split b'/' (show_key_name n)
      ≡ codes "projects"
        ∷ n.project
        ∷ codes "locations"
        ∷ n.location
        ∷ codes "keyRings"
        ∷ n.keyring
        ∷ codes "cryptoKeys"
        ∷ n.key
        ∷ codes "cryptoKeyVersions"
        ∷ to_string n.version
        ∷ []
split-show n h =
    let version = to_string n.version in
    let whole : split b'/' version ≡ version ∷ [] = split_whole b'/' version (
      digits-no_slash version
        (digits-IsDigits version n.version (to_string-digits n.version h.4))) in
    let k = codes "cryptoKeyVersions" ++ b'/' ∷ version in
    let r = codes "cryptoKeys" ++ b'/' ∷ (n.key ++ b'/' ∷ k) in
    let l = codes "keyRings" ++ b'/' ∷ (n.keyring ++ b'/' ∷ r) in
    let p = codes "locations" ++ b'/' ∷ (n.location ++ b'/' ∷ l) in
    ground (
      arith,
      split-append b'/' (codes "projects") (n.project ++ b'/' ∷ p),
      split-append b'/' n.project p h.0,
      split-append b'/' (codes "locations") (n.location ++ b'/' ∷ l),
      split-append b'/' n.location l h.1,
      split-append b'/' (codes "keyRings") (n.keyring ++ b'/' ∷ r),
      split-append b'/' n.keyring r h.2,
      split-append b'/' (codes "cryptoKeys") (n.key ++ b'/' ∷ k),
      split-append b'/' n.key k h.3,
      split-append b'/' (codes "cryptoKeyVersions") version,
      whole,
    )

-- A key version is read back from its name.
pub parse-show_key_name : (n : KmsKeyName) → IsPlain n → parse_key_name (show_key_name n) ≡ ok n
unfolding parse_key_name
parse-show_key_name n h =
    ap of_parts (split-show n h)
    ∙ (rw (parse_u64-digits (to_string n.version) n.version h.4 (to_string-digits n.version h.4))
        refl)
