-- ===== src/Status/Reported.antt =====
-- What `/status` tells of the cache.
use st0x_oracle_server.Base.HashMap
use st0x_oracle_server.Status.{StatusResponse, StatusGauges, status}
use st0x_oracle_server.Pricing.{
  Feed, Key, CachedQuote, missing, latest, newest_in, newest_source_ts_ms, is_none, max_of,
}
use st0x_oracle_server.Base.{
  String, ℕ, Bool, List, ◌==◌, contains, length, ◌&&◌, ◌≡◌, filter, some, nat_eq, ◌∷◌, ◌≤◌, any,
  arith, true, string_eq, [], refl, Option, Bool-cases, ap, inl, inr, ◌⊎◌, pair_beq_iff,
  Option-cases, none, subst, ◌∙◌, pair_eq, false, nat_beq_iff,
}
use st0x_oracle_server.Base.Int.{ℤ, int_eq, ◌≤ℤ◌, leb_ℤ, int_beq_iff, wrapping_sub}
use text.Mathlib.TextEquality.{eq_iff}
use st0x_oracle_server.Tokens.{TokenSet}
use st0x_oracle_server.Wire.{Address, Quote}

contains-filter :
    (p : String → Bool) (s : String) (xs : List String)
    → contains s (filter p xs) ≡ (contains s xs && p s)
contains-filter p s [] = refl
contains-filter p s (x ∷ xs) =
    ground (arith, contains-filter p s xs, eq_iff x s, ap p {x = x} {y = s})

length-filter : (p : String → Bool) (xs : List String) → length (filter p xs) ≤ length xs
length-filter p [] = omega arith
length-filter p (x ∷ xs) = ground (arith, length-filter p xs)

-- The greater of what was found and one time more.
max_of-Bounds :
    (old : Option ℤ) (t : ℤ)
    → (m : ℤ) × (max_of old t ≡ some m)
      × (t ≤ℤ m)
      × ((o : ℤ) → old ≡ some o → o ≤ℤ m)
      × ((m ≡ t) ⊎ (old ≡ some m))
max_of-Bounds none t = (t, refl, omega arith, λ o e. absurd (ground arith), inl refl)
max_of-Bounds (some o) t = elim (Bool-cases (leb_ℤ t o)) [
  | inl e ↦ (o, ground arith, ground arith, λ p h. ground (arith, h), inr refl)
  | inr e ↦ (t, ground arith, omega arith, λ p h. ground (arith, h), inl refl)
]

-- No quote of the chain is newer than the newest.
newest_in-Bounds :
    (chain_id : ℕ) (s : String) (c : CachedQuote) (m : List (Key × CachedQuote))
    → HashMap.get (chain_id, s) m ≡ some c
    → (t : ℤ) × (newest_in chain_id m ≡ some t) × (c.quote.source_ts_unix_ms ≤ℤ t)
unfolding newest_in HashMap.get
newest_in-Bounds chain_id s c [] h = absurd (ground arith)
newest_in-Bounds chain_id s c ((k, d) ∷ m) h =
    let (t, bound, new, old, from) =
      max_of-Bounds (newest_in chain_id m) d.quote.source_ts_unix_ms in
    elim (Bool-cases (k == (chain_id, s))) [
      | inl e ↦
          let same : d ≡ c = ground arith in
          (
            t,
            ground (arith, pair_beq_iff k (chain_id, s), nat_beq_iff k.0 chain_id),
            subst (λ (x : CachedQuote). x.quote.source_ts_unix_ms ≤ℤ t) same new,
          )
      | inr e ↦
          let (u, newest, below) = newest_in-Bounds chain_id s c m (ground arith) in
          elim (Bool-cases (k.0 == chain_id)) [
            | inl here ↦ (t, ground arith, omega (arith, below, old u newest))
            | inr other ↦ (u, ground arith, below)
          ]
    ]

abbrev of_chain : ℕ → ℤ → Key × CachedQuote → Bool
of_chain chain_id t e = e.0.0 == chain_id && e.1.quote.source_ts_unix_ms == t

-- And it is the time of one of them.
newest_in-any :
    (chain_id : ℕ) (t : ℤ) (m : List (Key × CachedQuote))
    → newest_in chain_id m ≡ some t
    → any (of_chain chain_id t) m ≡ true
unfolding newest_in
newest_in-any chain_id t [] h = absurd (ground arith)
newest_in-any chain_id t ((k, d) ∷ m) h =
    let (u, bound, new, old, from) =
      max_of-Bounds (newest_in chain_id m) d.quote.source_ts_unix_ms in
    elim (Bool-cases (k.0 == chain_id)) [
      | inr e ↦ ground (arith, newest_in-any chain_id t m)
      | inl e ↦
          let same : u ≡ t = ground arith in
          elim from [
            | inl mine ↦ ground (arith, int_beq_iff d.quote.source_ts_unix_ms t)
            | inr older ↦ ground (arith, newest_in-any chain_id t m (older ∙ ap some same))
          ]
    ]

newest_in-none :
    (chain_id : ℕ) (m : List (Key × CachedQuote))
    → any (λ (e : Key × CachedQuote). e.0.0 == chain_id) m ≡ false
    → newest_in chain_id m ≡ none
unfolding newest_in
newest_in-none chain_id [] h = refl
newest_in-none chain_id ((k, d) ∷ m) h = ground (arith, newest_in-none chain_id m)

-- What a reply and the gauges tell of the cache as the two reads found it.
abbrev pub Tells :
    ℕ → TokenSet → Feed → Feed → ℤ → StatusResponse → StatusGauges → Option ℤ → Type 0
Tells chain_id set first second now reply g shown =
    ((s : String)
      → contains s reply.missing_symbols
        ≡ (contains s set.symbols && is_none (latest first chain_id s)))
    × (g.missing ≤ g.configured)
    × ((s : String) (q : Quote)
        → latest second chain_id s ≡ some q
        → (t : ℤ) × (g.freshness_ms ≡ some (wrapping_sub now t))
          × (q.source_ts_unix_ms ≤ℤ t)
          × (any (of_chain chain_id t) second.entries ≡ true))
    × (any (λ (e : Key × CachedQuote). e.0.0 == chain_id) second.entries ≡ false
        → g.freshness_ms ≡ shown)

-- `/status` names as missing exactly the configured symbols for which the cache of this chain has
-- no quote, and counts no more of them than are configured. If any quote of the chain is cached,
-- the freshness is the age of a cached quote of the chain than which no quote is newer; if none
-- is, the gauge keeps its value.
pub status-Tells :
    (signer : Address) (chain_id : ℕ) (set : TokenSet) (first second : Feed) (now : ℤ)
    (g : StatusGauges)
    → (let (reply, g') = status signer chain_id set first second now g in
        Tells chain_id set first second now reply g' g.freshness_ms)
unfolding status missing latest newest_source_ts_ms
status-Tells signer chain_id set first second now g =
    let listed = λ (s : String). is_none (HashMap.get (chain_id, s) first.entries) in
    (
      λ s. ground (arith, contains-filter listed s set.symbols),
      length-filter listed set.symbols,
      λ s q h. elim (Option-cases (HashMap.get (chain_id, s) second.entries)) [
        | inl e ↦ absurd (ground arith)
        | inr (c, e) ↦
            let (t, newest, below) = newest_in-Bounds chain_id s c second.entries e in
            (t, ground arith, ground arith, newest_in-any chain_id t second.entries newest)
      ],
      λ h. ground (arith, newest_in-none chain_id second.entries h),
    )
