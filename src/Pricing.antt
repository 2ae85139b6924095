-- ===== src/Pricing.antt =====
-- src/pricing_client.rs: the cache of the latest quote of each chain and asset, the generations
-- that tell whether a snapshot may still be used, and the frames that change them.
pub mod Events
pub mod Invariant
pub mod Preserved
pub mod Revoked
pub mod Liveness
pub mod Gone
pub mod Subscription
pub mod Requested
pub mod Followed
pub mod Pauses
pub mod Connect
use mathlib.Core.Option
use st0x_oracle_server.Base.HashMap
use st0x_oracle_server.Base.{
  ℕ, List, [], Bool, Option, String, not, ◌==◌, some, true, if◌then◌else◌, contains, suc, is_empty,
  ◌∷◌, none, false, filter, ◌++◌, nat_eq, string_eq, length, ◌-◌, pair_eq,
}
use st0x_oracle_server.Wire.{
  Quote, ServerFrame, ClientFrame, price, error, halt, ping, pong, ErrorCode, stale_source,
  other_code,
}
use st0x_oracle_server.Base.Int.{ℤ, leb_ℤ, ltb_ℤ, pos}

abbrev pub Key : Type 0
Key = ℕ × String

-- `Arc<GenerationState>`: the number is the identity of the shared state.
abbrev pub QuoteGeneration : Type 0
QuoteGeneration = ℕ

pub record CachedQuote : Type 0 where
  pub quote : Quote
  pub generation : QuoteGeneration

pub record QuoteSnapshot : Type 0 where
  pub quote : Quote
  pub generation : QuoteGeneration

-- The shared state of a `LiveClient` and its task: the map, the generations whose `live` flag is
-- false, the next new generation, and what `note_deadline_validity` and the counters keep.
pub record Feed : Type 0 where
  pub entries : List (Key × CachedQuote)
  pub revoked : List QuoteGeneration
  pub next_generation : ℕ
  pub invalid_deadlines : List Key
  pub upstream_failures : List String

abbrev pub empty : Feed
empty = record {
  entries = [];
  revoked = [];
  next_generation = 0;
  invalid_deadlines = [];
  upstream_failures = [];
}

abbrev pub is_live : Feed → QuoteGeneration → Bool
is_live f g = not (contains g f.revoked)

abbrev pub is_same : QuoteGeneration → QuoteGeneration → Bool
is_same g h = g == h

abbrev pub snapshot : CachedQuote → QuoteSnapshot
snapshot c = record { quote = c.quote; generation = c.generation }

-- The generations of the entries that are dropped.
evicted : (Key → Bool) → List (Key × CachedQuote) → List QuoteGeneration
evicted keep [] = []
evicted keep ((k, c) ∷ m) = if keep k then evicted keep m else c.generation ∷ evicted keep m

-- `evict`: drop and revoke every entry of the symbols, on every chain.
unfoldable pub evict : Feed → List String → Feed × ℕ
unfolding evicted
evict f symbols =
    let keep = λ (k : Key). not (contains k.1 symbols) in
    let kept = HashMap.retain_keys keep f.entries in
    (
      record f { entries = kept; revoked = evicted keep f.entries ++ f.revoked },
      length f.entries - length kept,
    )

-- A new price keeps the generation of the entry that it replaces.
unfoldable pub insert_quote : Feed → Quote → Feed
insert_quote f q =
    let key : Key = (q.chain_id, q.asset) in
    elim (HashMap.get key f.entries) [
      | some previous ↦ record f {
        entries =
            HashMap.insert key (record { quote = q; generation = previous.generation }) f.entries;
      }
      | none ↦ record f {
        entries =
            HashMap.insert key (record { quote = q; generation = f.next_generation }) f.entries;
        next_generation = suc f.next_generation;
      }
    ]

unfoldable pub forget : Feed → List String → Feed × ℕ
unfolding evict
forget f symbols = if is_empty symbols then (f, 0) else evict f symbols

-- The reads of a `LiveClient` are scoped to the chain of the deployment.
unfoldable pub latest : Feed → ℕ → String → Option Quote
latest f chain_id symbol = Option.map (λ c. c.quote) (HashMap.get (chain_id, symbol) f.entries)

unfoldable pub snapshot_many : Feed → ℕ → List String → List (String × QuoteSnapshot)
snapshot_many f chain_id [] = []
snapshot_many f chain_id (s ∷ symbols) =
    let rest = snapshot_many f chain_id symbols in
    elim (HashMap.get (chain_id, s) f.entries) [
      | none ↦ rest
      | some c ↦ HashMap.insert s (snapshot c) rest
    ]

abbrev pub max_of : Option ℤ → ℤ → Option ℤ
max_of none t = some t
max_of (some m) t = some (if leb_ℤ t m then m else t)

unfoldable pub newest_in : ℕ → List (Key × CachedQuote) → Option ℤ
newest_in chain_id [] = none
newest_in chain_id ((k, c) ∷ m) =
    if k.0 == chain_id
    then max_of (newest_in chain_id m) c.quote.source_ts_unix_ms
    else newest_in chain_id m

unfoldable pub newest_source_ts_ms : Feed → ℕ → Option ℤ
newest_source_ts_ms f chain_id = newest_in chain_id f.entries

abbrev pub is_none {ℓ} : {A : Type ℓ} → Option A → Bool
is_none none = true
is_none (some a) = false

unfoldable pub missing : Feed → ℕ → List String → List String
missing f chain_id symbols = filter (λ s. is_none (HashMap.get (chain_id, s) f.entries)) symbols

abbrev is_positive : Option ℤ → Bool
is_positive none = false
is_positive (some d) = ltb_ℤ (pos 0) d

abbrev note_deadline_validity : Feed → Key → Bool → Feed
note_deadline_validity f key valid =
    if valid
    then record f { invalid_deadlines = filter (λ k. not (k == key)) f.invalid_deadlines }
    else (record f {
      invalid_deadlines =
          if contains key f.invalid_deadlines
          then f.invalid_deadlines
          else key ∷ f.invalid_deadlines;
      upstream_failures = "missing_execution_deadline" ∷ f.upstream_failures;
    })

abbrev pub note_failure : Feed → String → Feed
note_failure f kind = record f { upstream_failures = kind ∷ f.upstream_failures }

-- A halt drops and revokes the entry of its own chain.
halt_asset : Feed → Key → Feed
halt_asset f key = elim (HashMap.get key f.entries) [
  | none ↦ f
  | some c ↦ record f { entries = HashMap.remove key f.entries; revoked = c.generation ∷ f.revoked }
]

-- A stale source names no chain, so its quotes are dropped on every chain.
disown : Feed → ErrorCode → Option String → Feed
unfolding evict
disown f stale_source (some asset) = (evict f (asset ∷ [])).0
disown f stale_source none = f
disown f other_code asset = f

abbrev subscribed : Option (List String) → String → Bool
subscribed none asset = true
subscribed (some assets) asset = contains asset assets

unfoldable pub apply_server_frame :
    Feed → Option (List String) → ServerFrame → Feed × Option ClientFrame
unfolding insert_quote disown halt_asset
apply_server_frame f assets (price q) =
    let noted =
      note_deadline_validity f (q.chain_id, q.asset) (is_positive q.execution_deadline_unix_ms) in
    if subscribed assets q.asset then (insert_quote noted q, none) else (noted, none)
apply_server_frame f assets (error code asset) =
    (disown (note_failure f "pricing_error_frame") code asset, none)
apply_server_frame f assets (halt chain_id asset true) = (halt_asset f (chain_id, asset), none)
apply_server_frame f assets (halt chain_id asset false) = (f, none)
apply_server_frame f assets (ping ts) = (f, some (pong ts))
