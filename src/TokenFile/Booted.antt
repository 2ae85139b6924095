-- ===== src/TokenFile/Booted.antt =====
-- Boot ends, and what it starts with.
use st0x_oracle_server.TokenFile.Bucket.{Read, ReadError, copy, unchanged}
use st0x_oracle_server.TokenFile.Boot.{
  BootError, Copy, was_not_modified, unreachable, read_retrying, slept, read_at_boot, boot, Retry,
  validated, refused,
}
use st0x_oracle_server.Base.{
  ℕ, Result, ok, ◌≤◌, err, ◌<◌, ◌≡◌, ◌+◌, ◌-◌, List, some, length, arith, suc, inl, inr, zero, refl,
  Bool-cases, Option, [], subst, ◌==◌, ltb, ap, ◌∷◌, ◌*◌, nat_beq_iff, ◌∙◌, nat_eq, sym,
}
use st0x_oracle_server.Base.Errors.{Result-cases}
use st0x_oracle_server.TokenFile.Candidate.{Library, Candidate, candidate, set_of}
use st0x_oracle_server.Wire.{Bytes}
use st0x_oracle_server.Toml.{Table}
use st0x_oracle_server.Base.Int.{ℤ}
use st0x_oracle_server.Config.{Config}
use st0x_oracle_server.Tokens.{TokenSet}

-- What a try means, if it is the last.
abbrev pub outcome : ℕ → Result ReadError Read → Result BootError Copy
outcome attempt (ok (copy bytes generation)) = ok (bytes, generation)
outcome attempt (ok unchanged) = err was_not_modified
outcome attempt (err e) = err (unreachable e attempt)

module _ (attempts : ℕ) (reads : ℕ → Result ReadError Read) where
  -- The tries from `first` fail until `last`, whose outcome it is; a failure is the outcome only
  -- when no try is left.
  abbrev pub Ends : ℕ → ℕ → Result BootError Copy → Type 0
  Ends first last r =
      (first ≤ last)
      × ((n : ℕ) → first ≤ n → n < last → (e : ReadError) × (reads n ≡ err e))
      × (last ≤ first + (attempts - first))
      × (r ≡ outcome last (reads last))
      × ((e : ReadError) → reads last ≡ err e → attempts ≤ last)

  Ends-here :
      (first : ℕ)
      → ((e : ReadError) → reads first ≡ err e → attempts ≤ first)
      → Ends first first (outcome first (reads first))
  Ends-here first h = (omega arith, λ n a b. absurd (omega (arith, a, b)), omega arith, refl, h)

  Ends-later :
      (first last : ℕ) (r : Result BootError Copy) (w : ReadError)
      → reads first ≡ err w
      → first < attempts
      → Ends (first + 1) last r
      → Ends first last r
  Ends-later first last r w e less h = (
    omega (arith, h.0),
    λ n a b. elim (Bool-cases (n == first)) [
      | inl same ↦ (w, ap reads (ground (arith, nat_beq_iff n first)) ∙ e)
      | inr other ↦ h.1 n (ground (arith, nat_beq_iff n first)) b
    ],
    omega (arith, h.2, less),
    h.3,
    h.4,
  )

  -- What the loop gives: its sleeps, and the outcome of the last of its tries.
  abbrev pub Returns : ℕ → Option (List ℕ × Result BootError Copy) → Type 0
  Returns first end =
      (sleeps : List ℕ) × (last : ℕ) × (r : Result BootError Copy) × (end ≡ some (sleeps, r))
      × (last ≡ first + length sleeps)
      × Ends first last r

  Returns-slept :
      (first backoff : ℕ) (w : ReadError) (end : Option (List ℕ × Result BootError Copy))
      → reads first ≡ err w
      → first < attempts
      → Returns (first + 1) end
      → Returns first (slept backoff end)
  Returns-slept first backoff w end e less (sleeps, last, r, same, at, ends) = (
    backoff ∷ sleeps,
    last,
    r,
    ap (slept backoff) same,
    omega (arith, at),
    Ends-later first last r w e less ends,
  )

  Returns-stop :
      (first : ℕ)
      → ((e : ReadError) → reads first ≡ err e → attempts ≤ first)
      → Returns first (some ([], outcome first (reads first)))
  Returns-stop first h =
      ([], first, outcome first (reads first), refl, omega arith, Ends-here first h)

  -- Enough fuel: the loop returns.
  read_retrying-Returns :
      (fuel first backoff : ℕ)
      → attempts < first + fuel
      → 0 < fuel
      → Returns first (read_retrying attempts reads fuel first backoff)
  unfolding read_retrying
  read_retrying-Returns zero first backoff h k = absurd (omega (arith, k))
  read_retrying-Returns (suc fuel) first backoff h k = elim (Result-cases (reads first)) [
    | inl (copy bytes generation, e) ↦
        subst (Returns first) (ground arith) (Returns-stop first (λ w f. absurd (ground arith)))
    | inl (unchanged, e) ↦
        subst (Returns first) (ground arith) (Returns-stop first (λ w f. absurd (ground arith)))
    | inr (w, e) ↦ elim (Bool-cases (ltb first attempts)) [
      | inr over ↦ subst (Returns first) (ground arith) (Returns-stop first (λ w f. ground arith))
      | inl less ↦
          let rest = read_retrying attempts reads fuel (first + 1) (backoff * 2) in
          let step : slept backoff rest ≡ read_retrying attempts reads (suc fuel) first backoff =
            ground arith in
          subst (Returns first) step (
            Returns-slept first backoff w rest e (ground arith) (
              read_retrying-Returns fuel (first + 1) (backoff * 2) (omega (arith, h))
                (ground arith)))
    ]
  ]

-- Boot's loop ends: it tries at most as often as it may, each time only after a failure, and
-- gives what its last try gave, a failure only when no try was left.
pub read_at_boot-Returns :
    (retry : Retry) (reads : ℕ → Result ReadError Read)
    → Returns retry.attempts reads 1 (read_at_boot retry reads)
unfolding read_at_boot
read_at_boot-Returns retry reads =
    read_retrying-Returns retry.attempts reads (suc retry.attempts) 1 retry.first_backoff
      (omega arith) (omega arith)

-- What a server starts with: the candidate of the first copy that was read.
abbrev pub Starts :
    Library
    → Table
    → Retry
    → (ℕ → Result ReadError Read)
    → Result BootError (Config × TokenSet)
    → Type 0
Starts L static_config retry reads (err e) = Unit
Starts L static_config retry reads (ok (config, set)) =
    (last : ℕ) × (bytes : Bytes) × (generation : ℤ) × (c : Candidate) × Ends retry.attempts reads 1
      last (ok (bytes, generation))
    × (reads last ≡ ok (copy bytes generation))
    × (candidate L static_config bytes ≡ ok c)
    × (config ≡ c.config)
    × (set ≡ set_of c generation)

outcome-eq-ok :
    (attempt : ℕ) (r : Result ReadError Read) (bytes : Bytes) (generation : ℤ)
    → outcome attempt r ≡ ok (bytes, generation)
    → r ≡ ok (copy bytes generation)
outcome-eq-ok attempt (ok (copy b g)) bytes generation h = ground arith
outcome-eq-ok attempt (ok unchanged) bytes generation h = absurd (ground arith)
outcome-eq-ok attempt (err e) bytes generation h = absurd (ground arith)

module _ (L : Library) (static_config : Table) (retry : Retry)
    (reads : ℕ → Result ReadError Read) where
  boot-Starts-end :
      (sleeps : List ℕ) (last : ℕ) (end : Result BootError Copy)
      → read_at_boot retry reads ≡ some (sleeps, end)
      → Ends retry.attempts reads 1 last end
      → (r : Result BootError (Config × TokenSet)) × (boot L static_config retry reads ≡ some r)
        × Starts L static_config retry reads r
  unfolding boot validated
  boot-Starts-end sleeps last (err e) same ends = (err e, ground arith, tt)
  boot-Starts-end sleeps last (ok (bytes, generation)) same ends =
      elim (Result-cases (candidate L static_config bytes)) [
        | inr (w, f) ↦ (err (refused w generation), ground arith, tt)
        | inl (c, f) ↦ (
          ok (c.config, set_of c generation),
          ground arith,
          (
            last,
            bytes,
            generation,
            c,
            ends,
            outcome-eq-ok last (reads last) bytes generation (sym ends.3),
            f,
            refl,
            refl,
          ),
        )
      ]

  -- Boot ends with an error or with the candidate of the first copy that it read, under that
  -- copy's generation; every try before failed.
  pub boot-Starts :
      (r : Result BootError (Config × TokenSet)) × (boot L static_config retry reads ≡ some r)
      × Starts L static_config retry reads r
  boot-Starts =
      let (sleeps, last, end, same, at, ends) = read_at_boot-Returns retry reads in
      boot-Starts-end sleeps last end same ends
