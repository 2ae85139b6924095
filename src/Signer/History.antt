-- ===== src/Signer/History.antt =====
-- Histories of the signature cache: requests that begin and end their wait, sign tasks that end.
use st0x_oracle_server.Base.HashMap
use st0x_oracle_server.Base.{none, some}
use st0x_oracle_server.Signer.{
  SignatureCache, Lookup, EntryId, Attempt, existing, begin, fresh, abort, finish, settle, send,
  SignState, sign_hash_with_retry,
}
use st0x_oracle_server.Wire.{Word}
use st0x_oracle_server.Base.{List, ℕ, [], ◌∷◌, nat_eq}

-- For each entry the hash that its sign task was spawned for, and for each task that has settled what
-- it sends next.
pub record State : Type 0 where
  pub cache : SignatureCache
  pub owners : List (EntryId × Word)
  pub reports : List (EntryId × SignState)

pub data Op : Type 0 where
  begins : (hash : Word) → (now : ℕ) → Op
  -- The task of the entry has its outcome, after the attempts with these numbers, and evicts on a
  -- failure. Sending the outcome is a step of its own.
  settles : (id : EntryId) → (first second : ℕ) → Op
  sends : EntryId → Op
  aborts : EntryId → Op
  ends : (hash : Word) → (id : EntryId) → Op

abbrev pub owned_by : Word → Lookup → List (EntryId × Word) → List (EntryId × Word)
owned_by hash (existing id) owners = owners
owned_by hash (fresh id) owners = HashMap.insert id hash owners

-- The signing key answers the n-th call for a hash with an attempt.
module _ (sign : Word → ℕ → Attempt) where
  unfoldable pub task : State → EntryId → ℕ → ℕ → State
  task s id first second = elim (HashMap.get id s.owners) [
    | none ↦ s
    | some hash ↦
        let (c, report) =
          settle s.cache hash id (sign_hash_with_retry (sign hash first) (sign hash second)) in
        record s { cache = c; reports = HashMap.insert id report s.reports }
  ]

  unfoldable pub broadcast : State → EntryId → State
  broadcast s id = elim (HashMap.get id s.reports) [
    | none ↦ s
    | some report ↦ record s {
      cache = send s.cache id report;
      reports = HashMap.remove id s.reports;
    }
  ]

  unfoldable pub step : State → Op → State
  step s (begins hash now) =
      let (c, found) = begin s.cache hash now in
      record s { cache = c; owners = owned_by hash found s.owners }
  step s (settles id first second) = task s id first second
  step s (sends id) = broadcast s id
  step s (aborts id) = record s { cache = abort s.cache id }
  step s (ends hash id) = record s { cache = (finish s.cache hash id).0 }

  unfoldable pub run : State → List Op → State
  run s [] = s
  run s (o ∷ ops) = run (step s o) ops

abbrev pub initial : SignatureCache → State
initial c = record { cache = c; owners = []; reports = [] }
