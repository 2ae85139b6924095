-- ===== src/TokenFile/Bucket.antt =====
-- src/token_file.rs: one read of the token file's object, with its access token.
use st0x_oracle_server.Base.Errors.{◌>>=◌}
use st0x_oracle_server.Base.Int.{ℤ, pos, negsuc, neg_of, i64_max, ltb_ℤ}
use st0x_oracle_server.Base.Decimal.{to_string, digits}
use st0x_oracle_server.Base.Text.{trim, Text, strip_prefix, split_once}
use st0x_oracle_server.Wire.{Bytes}
use st0x_oracle_server.Base.{
  ℕ, List, Option, ◌∷◌, String, Result, ◌*◌, some, none, if◌then◌else◌, codes, ◌++◌, Bool, suc, ok,
  ok_or, err, ◌==◌, not, ltb, [], leb, ◌/◌, all, false, ◌+◌, is_empty, ◌%◌, ◌&&◌, ◌-◌, length,
  nat_eq, ◌||◌, true,
}

abbrev pub max_body_bytes : ℕ
max_body_bytes = 4 * 1024 * 1024

abbrev pub both_named : Text × Text → Option (Text × Text)
both_named (bucket, object) =
    if not (is_empty bucket) && not (is_empty object) then some (bucket, object) else none

unfoldable pub split_gs_url : Text → Option (Text × Text)
split_gs_url gs_url = elim (strip_prefix (codes "gs://") gs_url) [
  | none ↦ none
  | some rest ↦ elim (split_once b'/' rest) [ none ↦ none | some parts ↦ both_named parts ]
]

-- The UTF-8 bytes of a text.
abbrev utf8_char : ℕ → Bytes
utf8_char c =
    if ltb c 128
    then c ∷ []
    else if ltb c 2048
    then (192 + c / 64) ∷ (128 + c % 64) ∷ []
    else if ltb c 65536
    then (224 + c / 4096) ∷ (128 + c / 64 % 64) ∷ (128 + c % 64) ∷ []
    else (240 + c / 262144) ∷ (128 + c / 4096 % 64) ∷ (128 + c / 64 % 64) ∷ (128 + c % 64) ∷ []

unfoldable pub bytes_of : Text → Bytes
bytes_of [] = []
bytes_of (c ∷ s) = utf8_char c ++ bytes_of s

abbrev pub is_unreserved : ℕ → Bool
is_unreserved b =
    (leb b'A' b && leb b b'Z')
    || (leb b'a' b && leb b b'z')
    || (leb b'0' b && leb b b'9')
    || (b == b'-')
    || (b == b'_')
    || (b == b'.')
    || (b == b'~')

-- `{:X}` of a number below 16.
abbrev pub hex_digit : ℕ → ℕ
hex_digit d = if ltb d 10 then b'0' + d else b'A' + (d - 10)

-- Percent-encode the bytes of one path segment.
unfoldable pub percent : Bytes → Text
percent [] = []
percent (b ∷ segment) =
    let rest = percent segment in
    if is_unreserved b then b ∷ rest else b'%' ∷ hex_digit (b / 16) ∷ hex_digit (b % 16) ∷ rest

-- `str::parse::<i64>`.
abbrev positive_i64 : Text → Option ℤ
positive_i64 s = elim (digits s) [
  | none ↦ none
  | some n ↦ if leb n i64_max then some (pos n) else none
]

abbrev pub parse_i64 : Text → Option ℤ
parse_i64 [] = none
parse_i64 (c ∷ s) =
    if c == b'+'
    then positive_i64 s
    else if c == b'-'
    then elim (digits s) [
      | none ↦ none
      | some n ↦ if leb n (suc i64_max) then some (neg_of n) else none
    ]
    else positive_i64 (c ∷ s)

-- `HeaderValue::to_str`: visible ASCII, spaces and tabs.
abbrev is_visible : ℕ → Bool
is_visible b = (leb 32 b && leb b 126) || (b == 9)

abbrev pub to_str : Bytes → Option Text
to_str value = if all is_visible value then some value else none

-- The value of the header `x-goog-generation`, if the response has one.
unfoldable pub generation_of : Option Bytes → Option ℤ
generation_of none = none
generation_of (some value) = elim (to_str value) [
  | none ↦ none
  | some text ↦ elim (parse_i64 (trim text)) [
    | none ↦ none
    | some g ↦ if ltb_ℤ (pos 0) g then some g else none
  ]
]

-- `{generation}` in the query.
abbrev show_i64 : ℤ → Text
show_i64 (pos n) = to_string n
show_i64 (negsuc n) = b'-' ∷ to_string (suc n)

pub data Read : Type 0 where
  unchanged : Read
  copy : Bytes → ℤ → Read

pub data ReadError : Type 0 where
  bad_url : ReadError
  no_access_token : (why : String) → ReadError
  fetch_failed : (why : String) → ReadError
  bad_status : ℕ → ReadError
  no_generation : ReadError
  too_large : ReadError
  body_failed : (why : String) → ReadError

-- What the client of the crate `reqwest` gives for a request; each chunk is read on its own.
pub record Response : Type 0 where
  pub status : ℕ
  pub generation_header : Option Bytes
  pub content_length : Option ℕ
  pub chunks : List (Result String Bytes)

abbrev pub is_success : ℕ → Bool
is_success status = leb 200 status && ltb status 300

-- The loop over the body, with its running size.
unfoldable pub read_body : Bytes → List (Result String Bytes) → Result ReadError Bytes
read_body bytes [] = ok bytes
read_body bytes (err why ∷ chunks) = err (body_failed why)
read_body bytes (ok chunk ∷ chunks) =
    let rest = read_body (bytes ++ chunk) chunks in
    if ltb max_body_bytes (length bytes + length chunk) then err too_large else rest

abbrev pub over_size : Option ℕ → Bool
over_size none = false
over_size (some n) = ltb max_body_bytes n

-- What is done with a response of success.
unfoldable pub read_copy : Response → Result ReadError Read
read_copy response = do
  generation ← ok_or (generation_of response.generation_header) no_generation
  if over_size response.content_length
      then err too_large
      else (do bytes ← read_body [] response.chunks; ok (copy bytes generation))

pub record MetadataToken : Type 0 where
  pub access_token : String
  pub expires_in : ℕ

-- Where the access token comes from; a cached one has the moment, in milliseconds, at which it is
-- no longer used.
pub data TokenSource : Type 0 where
  fixed : String → TokenSource
  metadata : Option (String × ℕ) → TokenSource

-- What happens outside during a read: the two readings of the clock, the metadata server's answer
-- and the storage's answer to a URL and a bearer token.
pub record Outside : Type 0 where
  pub now : ℕ
  pub fetched : ℕ
  pub metadata_token : Result String MetadataToken
  pub send : Text → String → Result String Response

abbrev pub fetch_token :
    Outside
    → Option (String × ℕ)
    → Result String MetadataToken
    → TokenSource × Result ReadError String
fetch_token o cached (err why) = (metadata cached, err (no_access_token why))
fetch_token o cached (ok fresh) = (
  metadata (some (fresh.access_token, o.fetched + 1000 * (fresh.expires_in - 60))),
  ok fresh.access_token,
)

unfoldable pub access_token : Outside → TokenSource → TokenSource × Result ReadError String
access_token o (fixed token) = (fixed token, ok token)
access_token o (metadata none) = fetch_token o none o.metadata_token
access_token o (metadata (some (token, until))) =
    if ltb o.now until
    then (metadata (some (token, until)), ok token)
    else fetch_token o (some (token, until)) o.metadata_token

abbrev pub forget_access_token : TokenSource → TokenSource
forget_access_token (fixed token) = fixed token
forget_access_token (metadata cached) = metadata none

abbrev unless_query : Option ℤ → Text
unless_query none = []
unless_query (some generation) = codes "&ifGenerationNotMatch=" ++ show_i64 generation

unfoldable pub object_url : Text → Text → Text → Option ℤ → Text
object_url storage_url bucket object unless =
    storage_url
    ++ codes "/storage/v1/b/"
    ++ percent (bytes_of bucket)
    ++ codes "/o/"
    ++ percent (bytes_of object)
    ++ codes "?alt=media"
    ++ unless_query unless

abbrev pub is_some {ℓ} : {A : Type ℓ} → Option A → Bool
is_some none = false
is_some (some a) = true

-- What an answer of the storage means, and whether the access token is forgotten.
unfoldable pub receive :
    Option ℤ → TokenSource → Result String Response → TokenSource × Result ReadError Read
receive unless token (err why) = (token, err (fetch_failed why))
receive unless token (ok response) =
    if is_some unless && (response.status == 304)
    then (token, ok unchanged)
    else if is_success response.status
    then (token, read_copy response)
    else (
      if response.status == 401 then forget_access_token token else token,
      err (bad_status response.status),
    )

-- `Bucket::read`: the access token's source is the state that it keeps.
unfoldable pub read :
    Text → Outside → TokenSource → Text → Option ℤ → TokenSource × Result ReadError Read
read storage_url o token gs_url unless = elim (split_gs_url gs_url) [
  | none ↦ (token, err bad_url)
  | some (bucket, object) ↦
      let (token', bearer) = access_token o token in
      elim bearer [
        | err e ↦ (token', err e)
        | ok b ↦ receive unless token' (o.send (object_url storage_url bucket object unless) b)
      ]
]
