-- ===== src/Context/Words.antt =====
-- The slots of a signed context are words of 32 bytes, whose number the schema tells.
use st0x_oracle_server.Wire.{External, Word, Address, Bytes}
use st0x_oracle_server.Context.Layout.{Signed, context_v5, context_v6, context_v7}
use st0x_oracle_server.Context.{
  left_padding_from, build_context_v4, build_context_v5, build_session_context, parse_u64,
  build_context_v6, build_context_v7, from_be_bytes,
}
use st0x_oracle_server.Base.{
  List, ℕ, length, ◌≡◌, ok, replicate, arith, String, ◌-◌, length-append, length-replicate, All,
  Result, err, refl,
}
use st0x_oracle_server.Base.Decimal.{to_string}

abbrev pub IsWord : Word → Type 0
IsWord w = length w ≡ 32

-- Packed floats are words.
pub record PacksWords (x : External) : Type 0 where
  pub parsed : (text : Bytes) (w : Word) → x.float_parse text ≡ ok w → IsWord w
  pub from_fixed : (n d : ℕ) (w : Word) → x.float_from_fixed_decimal n d ≡ ok w → IsWord w
  pub inverted : (rate w : Word) → x.float_inv rate ≡ ok w → IsWord w

pub record IsSized (a : Signed) : Type 0 where
  pub price_bytes : IsWord a.price_bytes
  pub session_bytes : IsWord a.session_bytes
  pub input_token : length a.input_token ≡ 20
  pub output_token : length a.output_token ≡ 20

-- So many slots, each a word.
abbrev pub WordsOf : ℕ → List Word → Type 0
WordsOf n c = All IsWord c × (length c ≡ n)

left_padding_from-IsWord : (a : Address) → length a ≡ 20 → IsWord (left_padding_from a)
unfolding left_padding_from
left_padding_from-IsWord a h = omega (
  arith,
  h,
  length-append (replicate (32 - length a) 0) a,
  length-replicate {A = ℕ} (32 - length a) 0,
)

-- A result is a word, if there is one.
abbrev WordIfOk : Result String Word → Type 0
WordIfOk (ok w) = IsWord w
WordIfOk (err e) = Unit

if_ok : (r : Result String Word) → ((w : Word) → r ≡ ok w → IsWord w) → WordIfOk r
if_ok (ok w) h = h w refl
if_ok (err e) h = tt

module _ (x : External) (packs : PacksWords x) where
  number : (n : ℕ) → WordIfOk (x.float_parse (to_string n))
  number n = if_ok (x.float_parse (to_string n)) (packs.parsed (to_string n))

  ratio : (n d : ℕ) → WordIfOk (x.float_from_fixed_decimal n d)
  ratio n d = if_ok (x.float_from_fixed_decimal n d) (packs.from_fixed n d)

  module _ (a : Signed) (sized : IsSized a) (c : List Word) where
    numbers :
        WordIfOk (x.float_parse (to_string a.publish_time))
        × WordIfOk (x.float_parse (to_string a.session_start))
        × WordIfOk (x.float_parse (to_string a.session_end))
        × WordIfOk (x.float_parse (to_string a.quote_expiry))
    numbers =
        (number a.publish_time, number a.session_start, number a.session_end, number a.quote_expiry)

    tokens : IsWord (left_padding_from a.input_token) × IsWord (left_padding_from a.output_token)
    tokens = (
      left_padding_from-IsWord a.input_token sized.input_token,
      left_padding_from-IsWord a.output_token sized.output_token,
    )

    pub context_v4-WordsOf :
        build_context_v4 x a.price_bytes a.publish_time a.session_bytes a.session_start
            a.session_end a.input_token a.output_token
          ≡ ok c
        → WordsOf 8 c
    unfolding build_context_v4 build_session_context parse_u64
    context_v4-WordsOf h = ground (arith, numbers, tokens, sized, number 4)

    pub context_v5-WordsOf : context_v5 x a ≡ ok c → WordsOf 9 c
    unfolding build_context_v5 build_session_context parse_u64
    context_v5-WordsOf h = ground (arith, numbers, tokens, sized, number 5)

    pub context_v6-WordsOf : (nav_ratio : Word) → context_v6 x a nav_ratio ≡ ok c → WordsOf 10 c
    unfolding build_context_v6 build_session_context parse_u64
    context_v6-WordsOf nav_ratio h =
        ground (arith, numbers, tokens, sized, number 6, ratio (from_be_bytes nav_ratio) 18)

    pub context_v7-WordsOf : (chain_id : ℕ) → context_v7 x a chain_id ≡ ok c → WordsOf 10 c
    unfolding build_context_v7 build_session_context parse_u64
    context_v7-WordsOf chain_id h =
        ground (arith, numbers, tokens, sized, number 7, number chain_id)
