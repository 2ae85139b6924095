-- ===== src/Reload.antt =====
-- src/reload.rs: what a newer copy of the token file means for the running instance, and how it
-- is applied.
pub mod Decided
pub mod Applied
pub mod Running
pub mod Withdrawn
pub mod Settled
use st0x_oracle_server.Base.Text.{eq_ignore_ascii_case}
use st0x_oracle_server.Base.Int.{ℤ, int_eq}
use st0x_oracle_server.Base.{
  ◌++◌, option_eq, none, some, String, List, Option, if◌then◌else◌, length, Bool, Result, not, ◌==◌,
  ℕ, ◌∷◌, false, err, ◌||◌, ok, true, suc, nat_eq, string_eq, ltb,
}
use st0x_oracle_server.Toml.{Table}
use st0x_oracle_server.Config.{Config, RegistrySource}
use st0x_oracle_server.Pricing
use st0x_oracle_server.Pricing.{Feed}
use st0x_oracle_server.Tokens.{TokenSet, Tokens, current, replace}
use st0x_oracle_server.TokenFile.{Change, same_as, change}
use st0x_oracle_server.TokenFile.Bucket.{Read, ReadError, copy, unchanged}
use st0x_oracle_server.TokenFile.Candidate.{Library, Candidate, CandidateError, candidate, set_of}
use st0x_oracle_server.TokenFile.Describe.{show_change}
use st0x_oracle_server.Wire.{Bytes}

-- Why a copy is refused.
pub data Reason : Type 0 where
  invalid_copy : CandidateError → Reason
  static_field : String → Reason
  no_token_file : Reason

pub data Decision : Type 0 where
  same_generation : (generation : ℤ) → Decision
  same_rows : (generation : ℤ) → Decision
  swap : TokenSet → (removed readdressed : List String) → (described : String) → Decision
  reject : (generation : ℤ) → Reason → Decision

-- The first field other than the tokens that differs.
unfoldable pub static_field_changed : Config → Config → Option String
static_field_changed a b =
    if not (a.chain_id == b.chain_id)
    then some "chain_id"
    else if not (eq_ignore_ascii_case a.quote_token b.quote_token)
    then some "quote_token"
    else if not (a.port == b.port)
    then some "port"
    else if not (a.pricing.ws_url == b.pricing.ws_url)
        || not (a.pricing.consumer == b.pricing.consumer)
    then some "pricing"
    else if not (a.signing.reuse_min_remaining_secs == b.signing.reuse_min_remaining_secs)
    then some "signing"
    else none

abbrev pub swap_to : Candidate → ℤ → Change → Decision
swap_to c generation ch = swap (set_of c generation) ch.removed ch.readdressed (show_change ch)

module _ (L : Library) where
  -- What a valid copy means.
  unfoldable pub compare : TokenSet → ℤ → Candidate → Decision
  compare current generation c = elim current.projection [
    | none ↦ reject generation no_token_file
    | some running ↦
        if same_as L.to_lowercase c.projection running
        then same_rows generation
        else swap_to c generation (change L.to_lowercase running c.projection)
  ]

  unfoldable pub decide : Table → Config → TokenSet → ℤ → Bytes → Decision
  decide static_config boot_config current generation bytes =
      if current.generation == some generation
      then same_generation generation
      else elim (candidate L static_config bytes) [
        | err e ↦ reject generation (invalid_copy e)
        | ok c ↦ elim (static_field_changed boot_config c.config) [
          | some field ↦ reject generation (static_field field)
          | none ↦ compare current generation c
        ]
      ]

-- What the metrics show of the reload loop.
pub record Gauges : Type 0 where
  pub registry_generation : Option ℤ
  pub registry_tokens : ℕ
  pub configured_symbols : ℕ
  pub last_applied : ℤ
  pub last_check : ℤ
  pub registry_invalid : Bool
  pub reload_total : List String
  pub fetch_errors : ℕ

abbrev pub count : String → Gauges → Gauges
count result g = record g { reload_total = result ∷ g.reload_total }

abbrev keep_or : Option ℤ → Option ℤ → Option ℤ
keep_or none old = old
keep_or (some generation) old = some generation

-- `record_applied`, at the moment `now`.
unfoldable pub record_applied : ℤ → TokenSet → Gauges → Gauges
record_applied now set g = record g {
  registry_generation = keep_or set.generation g.registry_generation;
  registry_tokens = length set.symbols;
  configured_symbols = length set.symbols;
  last_applied = now;
}

-- The reloader with what it shares: the handlers' tokens, the subscription's assets, the cache.
pub record Reloader : Type 0 where
  pub tokens : Tokens
  pub assets : List String
  pub pricing : Feed
  pub rejected : Option ℤ
  pub gauges : Gauges

abbrev is_some {ℓ} : {A : Type ℓ} → Option A → Bool
is_some none = false
is_some (some a) = true

abbrev pub invalid : Reloader → Bool
invalid r = is_some r.rejected

abbrev unless_none : Option ℤ → Option ℤ → Option ℤ
unless_none none rejected = rejected
unless_none (some generation) rejected = none

-- The arms of `apply`.
abbrev pub act : ℤ → Decision → Reloader → Reloader
act now (same_generation generation) r = record r {
  rejected = none;
  gauges = count "unchanged" r.gauges;
}
act now (reject generation reason) r = record r {
  rejected = some generation;
  gauges = count "rejected" r.gauges;
}
act now (same_rows generation) r = record r {
  tokens = (replace r.tokens (record (current r.tokens) { generation = some generation })).0;
  rejected = none;
  gauges = count "unchanged" (record r.gauges { registry_generation = some generation });
}
act now (swap set removed readdressed described) r = record r {
  tokens = (replace r.tokens set).0;
  assets = set.symbols;
  pricing = (Pricing.forget r.pricing (removed ++ readdressed)).0;
  rejected = unless_none set.generation r.rejected;
  gauges = count "applied" (record_applied now set r.gauges);
}

abbrev show_invalid : Reloader → Reloader
show_invalid r = record r { gauges = record r.gauges { registry_invalid = invalid r } }

unfoldable pub apply : ℤ → Reloader → Decision → Reloader
apply now r decision = show_invalid (act now decision r)

-- The generation whose copy is not asked for again.
abbrev or_else : Option ℤ → Option ℤ → Option ℤ
or_else none b = b
or_else (some a) b = some a

abbrev pub unless : Reloader → Option ℤ
unless r = or_else r.rejected (current r.tokens).generation

abbrev pub checked : ℤ → Reloader → Reloader
checked now r = record r { gauges = record r.gauges { last_check = now } }

-- One round of the loop: a read of the bucket, and what is done with it.
unfoldable pub round : Library → Table → Config → ℤ → Result ReadError Read → Reloader → Reloader
round L static_config boot_config now (err e) r = record r {
  gauges = count "fetch_error" (record r.gauges { fetch_errors = suc r.gauges.fetch_errors });
}
round L static_config boot_config now (ok unchanged) r =
    let r' = checked now r in
    record r' { gauges = count (if invalid r then "rejected" else "unchanged") r'.gauges }
round L static_config boot_config now (ok (copy bytes generation)) r =
    apply now (checked now r)
      (decide L static_config boot_config (current r.tokens) generation bytes)

-- The seconds between two rounds.
unfoldable pub refresh_period : RegistrySource → ℕ
refresh_period source = if ltb source.refresh_secs 5 then 5 else source.refresh_secs
