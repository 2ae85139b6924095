-- ===== src/TokenFile/Reading.antt =====
-- What a read of the bucket may give.
use mathlib.Core.List.{append-nil, append_assoc}
use st0x_oracle_server.Base.Int.{ℤ, pos, ◌<ℤ◌}
use st0x_oracle_server.Wire.{Bytes}
use st0x_oracle_server.TokenFile.Bucket.{
  Read, ReadError, Response, copy, unchanged, Outside, TokenSource, read_body, max_body_bytes,
  too_large, generation_of, read_copy, receive, over_size, to_str, is_success, read, parse_i64,
  split_gs_url, access_token, object_url,
}
use st0x_oracle_server.Base.{
  List, Option, ◌∷◌, Result, length, [], ◌++◌, String, ◌≤◌, ◌≡◌, ok, map, if◌then◌else◌, ltb, arith,
  some, err, length-append, none, Option-cases, inl, inr, Bool-cases, ◌==◌, nat_eq, refl,
}
use st0x_oracle_server.Base.Errors.{Result-cases}
use st0x_oracle_server.Base.Text.{trim, strip_prefix, Text}

abbrev pub concat : List Bytes → Bytes
concat [] = []
concat (b ∷ bs) = b ++ concat bs

abbrev arrived : List Bytes → List (Result String Bytes)
arrived parts = map (λ (b : Bytes). ok b) parts

read_body-lem :
    (acc : Bytes) (parts : List Bytes)
    → length acc ≤ max_body_bytes
    → read_body acc (arrived parts) ≡ (
        if ltb max_body_bytes (length (acc ++ concat parts))
        then err too_large
        else ok (acc ++ concat parts))
unfolding read_body
read_body-lem acc [] h = ground (arith, append-nil acc)
read_body-lem acc (b ∷ parts) h = ground (
  arith,
  append_assoc acc b (concat parts),
  length-append acc b,
  length-append (acc ++ b) (concat parts),
  read_body-lem (acc ++ b) parts,
)

-- Checking the size while the body arrives is checking the size of the whole: a body that arrives
-- without a fault is taken exactly when it is not over the limit, and then it is the chunks in
-- their order.
pub read_body-Whole :
    (parts : List Bytes)
    → read_body [] (arrived parts)
      ≡ (if ltb max_body_bytes (length (concat parts)) then err too_large else ok (concat parts))
read_body-Whole parts = read_body-lem [] parts (omega arith)

read_body-Bounded :
    (acc bytes : Bytes) (chunks : List (Result String Bytes))
    → length acc ≤ max_body_bytes
    → read_body acc chunks ≡ ok bytes
    → length bytes ≤ max_body_bytes
unfolding read_body
read_body-Bounded acc bytes [] h e = ground arith
read_body-Bounded acc bytes (err w ∷ chunks) h e = absurd (ground arith)
read_body-Bounded acc bytes (ok c ∷ chunks) h e =
    ground (arith, length-append acc c, read_body-Bounded (acc ++ c) bytes chunks)

-- A copy is of a positive generation and not over the limit; a read says that nothing changed
-- only where it was conditional.
abbrev pub Sound : Option ℤ → Result ReadError Read → Type 0
Sound unless (ok (copy bytes generation)) = (length bytes ≤ max_body_bytes) × (pos 0 <ℤ generation)
Sound unless (ok unchanged) = (g : ℤ) × (unless ≡ some g)
Sound unless (err e) = Unit

generation_of-Positive :
    (header : Option Bytes) (g : ℤ) → generation_of header ≡ some g → pos 0 <ℤ g
unfolding generation_of
generation_of-Positive none g h = absurd (ground arith)
generation_of-Positive (some value) g h = elim (Option-cases (to_str value)) [
  | inl e ↦ absurd (ground arith)
  | inr (text, e) ↦ elim (Option-cases (parse_i64 (trim text))) [
    | inl f ↦ absurd (ground arith)
    | inr (n, f) ↦ ground arith
  ]
]

read_copy-Sound : (unless : Option ℤ) (response : Response) → Sound unless (read_copy response)
unfolding read_copy
read_copy-Sound unless response = elim (Option-cases (generation_of response.generation_header)) [
  | inl e ↦ rw e tt
  | inr (g, e) ↦ elim (Bool-cases (over_size response.content_length)) [
    | inl f ↦ rw (e, f) tt
    | inr f ↦ elim (Result-cases (read_body [] response.chunks)) [
      | inr (w, k) ↦ rw (e, f, k) tt
      | inl (bytes, k) ↦
          rw (e, f, k)
            (
              read_body-Bounded [] bytes response.chunks (omega arith) k,
              generation_of-Positive response.generation_header g e,
            )
    ]
  ]
]

receive-Sound :
    (unless : Option ℤ) (token : TokenSource) (answer : Result String Response)
    → Sound unless (receive unless token answer).1
unfolding receive
receive-Sound unless token (err w) = tt
receive-Sound none token (ok response) = elim (Bool-cases (is_success response.status)) [
  | inl e ↦ rw e (read_copy-Sound none response)
  | inr e ↦ rw e tt
]
receive-Sound (some g) token (ok response) = elim (Bool-cases (response.status == 304)) [
  | inl f ↦ rw f (g, refl)
  | inr f ↦ elim (Bool-cases (is_success response.status)) [
    | inl e ↦ rw (f, e) (read_copy-Sound (some g) response)
    | inr e ↦ rw (f, e) tt
  ]
]

-- Whatever the metadata server and the storage answer, a read gives a copy within the limit and of
-- a positive generation, or nothing new where it was conditional, or an error.
pub read-Sound :
    (storage_url : Text) (o : Outside) (token : TokenSource) (gs_url : Text) (unless : Option ℤ)
    → Sound unless (read storage_url o token gs_url unless).1
unfolding read split_gs_url strip_prefix
read-Sound storage_url o token gs_url unless = elim (Option-cases (split_gs_url gs_url)) [
  | inl e ↦ rw e tt
  | inr ((bucket, object), e) ↦ elim (Result-cases (access_token o token).1) [
    | inr (w, f) ↦ rw (e, f) tt
    | inl (b, f) ↦
        rw (e, f)
          (receive-Sound unless (access_token o token).0
            (o.send (object_url storage_url bucket object unless) b))
  ]
]
