-- ===== src/TokenFile/Boot.antt =====
-- src/token_file.rs: how boot reads the token file.
use st0x_oracle_server.Toml.{Table}
use st0x_oracle_server.Config.{Config}
use st0x_oracle_server.TokenFile.Bucket.{Read, ReadError, copy, unchanged}
use st0x_oracle_server.TokenFile.Candidate.{Library, candidate, set_of, CandidateError}
use st0x_oracle_server.Base.{
  ℕ, Result, Option, List, err, some, none, suc, ok, ◌∷◌, ◌+◌, ◌*◌, [], if◌then◌else◌, ltb, zero,
}
use st0x_oracle_server.Wire.{Bytes}
use st0x_oracle_server.Base.Int.{ℤ}
use st0x_oracle_server.Tokens.{TokenSet}

pub record Retry : Type 0 where
  pub attempts : ℕ
  -- In seconds.
  pub first_backoff : ℕ

abbrev pub boot_retry : Retry
boot_retry = record { attempts = 4; first_backoff = 4 }

pub data BootError : Type 0 where
  was_not_modified : BootError
  unreachable : ReadError → (attempt : ℕ) → BootError
  refused : CandidateError → ℤ → BootError

abbrev pub Copy : Type 0
Copy = Bytes × ℤ

abbrev pub slept :
    ℕ → Option (List ℕ × Result BootError Copy) → Option (List ℕ × Result BootError Copy)
slept backoff none = none
slept backoff (some (sleeps, end)) = some (backoff ∷ sleeps, end)

-- The loop; `reads n` is what try `n` gives. The outcome has the sleeps between the tries.
unfoldable pub read_retrying :
    ℕ → (ℕ → Result ReadError Read) → ℕ → ℕ → ℕ → Option (List ℕ × Result BootError Copy)
read_retrying attempts reads zero attempt backoff = none
read_retrying attempts reads (suc fuel) attempt backoff =
    let rest = read_retrying attempts reads fuel (attempt + 1) (backoff * 2) in
    elim (reads attempt) [
      | ok (copy bytes generation) ↦ some ([], ok (bytes, generation))
      | ok unchanged ↦ some ([], err was_not_modified)
      | err e ↦
          if ltb attempt attempts
          then slept backoff rest
          else some ([], err (unreachable e attempt))
    ]

-- Each try is made once at most, so `attempts` rounds and one more are enough.
unfoldable pub read_at_boot :
    Retry → (ℕ → Result ReadError Read) → Option (List ℕ × Result BootError Copy)
read_at_boot retry reads =
    read_retrying retry.attempts reads (suc retry.attempts) 1 retry.first_backoff

unfoldable pub validated : Library → Table → Copy → Result BootError (Config × TokenSet)
validated L static_config (bytes, generation) = elim (candidate L static_config bytes) [
  | err e ↦ err (refused e generation)
  | ok c ↦ ok (c.config, set_of c generation)
]

unfoldable pub boot :
    Library
    → Table
    → Retry
    → (ℕ → Result ReadError Read)
    → Option (Result BootError (Config × TokenSet))
boot L static_config retry reads = elim (read_at_boot retry reads) [
  | none ↦ none
  | some (sleeps, err e) ↦ some (err e)
  | some (sleeps, ok found) ↦ some (validated L static_config found)
]
