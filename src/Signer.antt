-- ===== src/Signer.antt =====
-- src/sign.rs: signatures by the hash of what is signed, one sign in flight for each hash.
pub mod Preimage
pub mod Cases
pub mod History
pub mod InFlight
pub mod Joined
pub mod Failure
pub mod Authentic
pub mod Answered
pub mod Bounds
pub mod KeyName
pub mod Key
use st0x_oracle_server.Base.HashMap
use st0x_oracle_server.Base.{
  ℕ, Bool, List, Option, String, Result, ◌*◌, true, ◌&&◌, [], false, ◌||◌, if◌then◌else◌, suc, ok,
  ◌∷◌, ◌+◌, not, some, ltb, leb, err, ◌++◌, none, ◌-◌, length, nat_beq, bytes_eq, nat_eq, ◌≡◌, refl,
  ◌⊎◌, arith, Option-cases, inl, inr, Bool-cases,
}
use st0x_oracle_server.Wire.{Bytes, Word, External}

-- `WAIT_TIMEOUT`, `SIGNATURE_CACHE_IDLE_TTL`, `SIGNATURE_CACHE_MAX_ENTRIES` and
-- `sweep_every_inserts`; times are in seconds of the monotonic clock.
abbrev pub wait_timeout : ℕ
wait_timeout = 2 * 5 + 1

abbrev pub signature_cache_idle_ttl : ℕ
signature_cache_idle_ttl = 120

abbrev pub signature_cache_max_entries : ℕ
signature_cache_max_entries = 16384

abbrev pub sweep_every_inserts : ℕ
sweep_every_inserts = 256

pub data SignState : Type 0 where
  pending : SignState
  done : Bytes → SignState
  failed : String → SignState

-- What the entry's receiver can see: the state that was sent last, and whether the sender is gone.
pub record CacheEntry : Type 0 where
  pub started_at : ℕ
  pub state : SignState
  pub sender_gone : Bool

abbrev pub is_pending : CacheEntry → Bool
is_pending e = elim e.state [ pending ↦ true | done b ↦ false | failed m ↦ false ]

abbrev pub is_in_flight : CacheEntry → Bool
is_in_flight e = is_pending e && not e.sender_gone

-- `Arc<CacheEntry>`: the number is the identity of the shared entry.
abbrev pub EntryId : Type 0
EntryId = ℕ

pub record Slot : Type 0 where
  pub last_used : ℕ
  pub entry : EntryId

-- The cache, the shared entries, and the hash for which each entry was made.
pub record SignatureCache : Type 0 where
  pub entries : List (Word × Slot)
  pub inserts_since_sweep : ℕ
  pub idle_ttl : ℕ
  pub max_entries : ℕ
  pub misses : ℕ
  pub hits : ℕ
  pub cells : List (EntryId × CacheEntry)
  pub next_entry : EntryId

pub data Lookup : Type 0 where
  existing : EntryId → Lookup
  fresh : EntryId → Lookup

abbrev pub entry_of : Lookup → EntryId
entry_of (existing id) = id
entry_of (fresh id) = id

abbrev pub new : (idle_ttl max_entries : ℕ) → SignatureCache
new idle_ttl max_entries = record {
  entries = [];
  inserts_since_sweep = 0;
  idle_ttl = idle_ttl;
  max_entries = max_entries;
  misses = 0;
  hits = 0;
  cells = [];
  next_entry = 0;
}

abbrev pub in_flight_in : Option CacheEntry → Bool
in_flight_in none = false
in_flight_in (some e) = is_in_flight e

abbrev pub cell : SignatureCache → EntryId → Option CacheEntry
cell c i = HashMap.get i c.cells

abbrev pub slot_in_flight : SignatureCache → Slot → Bool
slot_in_flight c slot = in_flight_in (cell c slot.entry)

unfoldable pub is_live : SignatureCache → Slot → ℕ → Bool
is_live c slot now = slot_in_flight c slot || ltb (now - slot.last_used) c.idle_ttl

-- The idle sweep, and the drop of everything finished when that is not enough.
unfoldable pub sweep : SignatureCache → ℕ → SignatureCache
sweep c now =
    let live = HashMap.retain (λ s. is_live c s now) c.entries in
    let kept =
      if leb c.max_entries (length live) then HashMap.retain (slot_in_flight c) live else live in
    record c { inserts_since_sweep = 0; entries = kept }

-- The part of `lookup` after no usable slot was found.
unfoldable pub start : SignatureCache → Word → ℕ → SignatureCache × Lookup
start c0 hash now =
    let c1 = record c0 { inserts_since_sweep = suc c0.inserts_since_sweep } in
    let c =
      if leb sweep_every_inserts c1.inserts_since_sweep || leb c1.max_entries (length c1.entries)
      then sweep c1 now
      else c1 in
    let id = c.next_entry in
    let entry : CacheEntry = record { started_at = now; state = pending; sender_gone = false } in
    (
      record c {
        entries = HashMap.insert hash (record { last_used = now; entry = id }) c.entries;
        cells = HashMap.insert id entry c.cells;
        next_entry = suc id;
      },
      fresh id,
    )

unfoldable pub lookup : SignatureCache → Word → ℕ → SignatureCache × Lookup
lookup c hash now = elim (HashMap.get hash c.entries) [
  | none ↦ start c hash now
  | some slot ↦
      if is_live c slot now
      then (
        record c { entries = HashMap.insert hash (record slot { last_used = now }) c.entries },
        existing slot.entry,
      )
      else start (record c { entries = HashMap.remove hash c.entries }) hash now
]

unfoldable pub evict : SignatureCache → Word → EntryId → SignatureCache
evict c hash id = elim (HashMap.get hash c.entries) [
  | none ↦ c
  | some current ↦
      if nat_beq current.entry id then record c { entries = HashMap.remove hash c.entries } else c
]

-- `tx.send(state)` at the end of the sign task, which drops the sender too.
unfoldable pub send : SignatureCache → EntryId → SignState → SignatureCache
send c id state = elim (cell c id) [
  | none ↦ c
  | some e ↦ record c {
    cells = HashMap.insert id (record e { state = state; sender_gone = true }) c.cells;
  }
]

-- The sign task dies without a report.
unfoldable pub abort : SignatureCache → EntryId → SignatureCache
abort c id = elim (cell c id) [
  | none ↦ c
  | some e ↦ record c { cells = HashMap.insert id (record e { sender_gone = true }) c.cells }
]

-- The task of `spawn_sign` between the sign and `send`: a failure evicts, and the state that is sent
-- next is made.
unfoldable pub settle :
    SignatureCache → Word → EntryId → Result String Bytes → SignatureCache × SignState
settle c hash id (ok signature) = (c, done signature)
settle c hash id (err why) = (evict c hash id, failed why)

-- The errors of `sign_context`: a failed sign's own text, a dead task, a wait that ran out.
pub data SignError : Type 0 where
  sign_failed : String → SignError
  aborted wait_timed_out : SignError

-- One attempt of `inner.sign_message` under `SIGN_TIMEOUT`.
pub data Attempt : Type 0 where
  signed : Bytes → Attempt
  attempt_failed : String → Attempt
  attempt_timed_out : Attempt

-- Two attempts at most; the error is that of the second.
unfoldable pub sign_hash_with_retry : Attempt → Attempt → Result String Bytes
sign_hash_with_retry (signed s) _ = ok s
sign_hash_with_retry _ (signed s) = ok s
sign_hash_with_retry _ (attempt_failed why) = err why
sign_hash_with_retry _ attempt_timed_out = err "signing timed out after 5s (retry included)"

abbrev pub counted : SignatureCache × Lookup → SignatureCache × Lookup
counted (c, existing id) = (record c { hits = suc c.hits }, existing id)
counted (c, fresh id) = (record c { misses = suc c.misses }, fresh id)

-- `sign_context` up to its wait: the entry of the hash, and the counters.
unfoldable pub begin : SignatureCache → Word → ℕ → SignatureCache × Lookup
begin c hash now = counted (lookup c hash now)

-- `sign_context` when its wait is over: settled, sender gone, or out of budget.
unfoldable pub finish : SignatureCache → Word → EntryId → SignatureCache × Result SignError Bytes
finish c hash id = elim (cell c id) [
  | none ↦ (c, err wait_timed_out)
  | some e ↦ elim e.state [
    | done signature ↦ (c, ok signature)
    | failed why ↦ (c, err (sign_failed why))
    | pending ↦ if e.sender_gone then (evict c hash id, err aborted) else (c, err wait_timed_out)
  ]
]

-- Hash of a context: the concatenation of its slots.
module _ (x : External) where
  abbrev pub packed : List Word → Bytes
  packed [] = []
  packed (slot ∷ context) = slot ++ packed context

  unfoldable pub context_hash : List Word → Word
  context_hash context = x.keccak256 (packed context)
