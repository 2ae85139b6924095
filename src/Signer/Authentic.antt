-- ===== src/Signer/Authentic.antt =====
-- The invariant of the cache: a slot holds an entry that was made for its hash, and a finished entry
-- holds a signature of the hash that it was made for.
use st0x_oracle_server.Base.HashMap
use st0x_oracle_server.Base.{
  some, List, ℕ, ◌≡◌, ◌<◌, All, arith, ◌∷◌, suc, nat_eq, nat_beq_iff, [], bytes_eq, Option-cases,
  Bool-cases, leb, inl, length, inr, true, ◌||◌, refl,
}
use st0x_oracle_server.Signer.{
  Lookup, EntryId, Attempt, existing, Slot, CacheEntry, fresh, signed, done, pending,
  SignatureCache, start, sweep, evict, SignState, abort, is_live, send, cell, sweep_every_inserts,
  slot_in_flight, lookup, counted,
}
use st0x_oracle_server.Wire.{Word, Bytes}
use st0x_oracle_server.Signer.History.{State, owned_by}
use st0x_oracle_server.Signer.Cases.{evict-cases, lookup-missing, lookup-live, lookup-dead}

abbrev pub Owns : List (EntryId × Word) → EntryId → Word → Type 0
Owns owners id hash = HashMap.get id owners ≡ some hash

-- The key answered some call for the hash with this signature.
abbrev pub Signs : (Word → ℕ → Attempt) → Word → Bytes → Type 0
Signs sign hash b = (n : ℕ) × (sign hash n ≡ signed b)

abbrev pub OwnedSlot : List (EntryId × Word) → Word × Slot → Type 0
OwnedSlot owners (hash, slot) = Owns owners slot.entry hash

abbrev pub Honest : (Word → ℕ → Attempt) → List (EntryId × Word) → EntryId × CacheEntry → Type 0
Honest sign owners (id, e) =
    (b : Bytes) → e.state ≡ done b → (hash : Word) × Owns owners id hash × Signs sign hash b

abbrev Below : ℕ → EntryId × Word → Type 0
Below n (id, hash) = id < n

pub record Kept (sign : Word → ℕ → Attempt) (c : SignatureCache) (owners : List (EntryId × Word))
    : Type 0 where
  pub slots : All (OwnedSlot owners) c.entries
  pub honest : All (Honest sign owners) c.cells
  pub below : All (Below c.next_entry) owners

-- What a task sends is as honest.
abbrev pub Told : (Word → ℕ → Attempt) → List (EntryId × Word) → EntryId × SignState → Type 0
Told sign owners (id, state) =
    (b : Bytes) → state ≡ done b → (hash : Word) × Owns owners id hash × Signs sign hash b

pub record Faithful (sign : Word → ℕ → Attempt) (s : State) : Type 0 where
  pub kept : Kept sign s.cache s.owners
  pub reported : All (Told sign s.owners) s.reports

pub Owns-more :
    (owners : List (EntryId × Word)) (n : ℕ) (id : EntryId) (hash new_hash : Word)
    → All (Below n) owners
    → Owns owners id hash
    → Owns (HashMap.insert n new_hash owners) id hash
Owns-more owners n id hash new_hash below h =
    let lt : id < n = HashMap.All-get (Below n) id hash owners h below in
    ground (arith, HashMap.get-insert id n new_hash owners, nat_beq_iff n id)

module _ (owners : List (EntryId × Word)) (n : ℕ) (new_hash : Word)
    (below : All (Below n) owners) where
  slots_more :
      (m : List (Word × Slot))
      → All (OwnedSlot owners) m
      → All (OwnedSlot (HashMap.insert n new_hash owners)) m
  slots_more [] h = tt
  slots_more ((k, s) ∷ m) h = (Owns-more owners n s.entry k new_hash below h.0, slots_more m h.1)

  Honest-more :
      (sign : Word → ℕ → Attempt) (m : List (EntryId × CacheEntry))
      → All (Honest sign owners) m
      → All (Honest sign (HashMap.insert n new_hash owners)) m
  Honest-more sign [] h = tt
  Honest-more sign ((k, e) ∷ m) h = (
    (λ b d. let (hash, o, s) = h.0 b d in (hash, Owns-more owners n k hash new_hash below o, s)),
    Honest-more sign m h.1,
  )

  pub Told-more :
      (sign : Word → ℕ → Attempt) (m : List (EntryId × SignState))
      → All (Told sign owners) m
      → All (Told sign (HashMap.insert n new_hash owners)) m
  Told-more sign [] h = tt
  Told-more sign ((k, e) ∷ m) h = (
    (λ b d. let (hash, o, s) = h.0 b d in (hash, Owns-more owners n k hash new_hash below o, s)),
    Told-more sign m h.1,
  )

  Below-more : (m : List (EntryId × Word)) → All (Below n) m → All (Below (suc n)) m
  Below-more [] h = tt
  Below-more ((k, w) ∷ m) h = (omega (arith, h.0), Below-more m h.1)

module _ (sign : Word → ℕ → Attempt) where
  -- The cache and the owners after `start`, over any cache with the same entries at most.
  started :
      (c : SignatureCache) (owners0 : List (EntryId × Word)) (hash : Word) (slot : Slot)
      (e : CacheEntry)
      → slot.entry ≡ c.next_entry
      → e.state ≡ pending
      → Kept sign c owners0
      → Kept sign
          (record c {
            entries = HashMap.insert hash slot c.entries;
            cells = HashMap.insert c.next_entry e c.cells;
            next_entry = suc c.next_entry;
          })
          (HashMap.insert c.next_entry hash owners0)
  started c owners0 hash slot e same is v =
      let n = c.next_entry in
      let owners = HashMap.insert n hash owners0 in
      record {
        slots =
            HashMap.All-insert (OwnedSlot owners) hash slot c.entries
              (rw same (ground (arith, HashMap.get-insert n n hash owners0, nat_beq_iff n n)))
              (slots_more owners0 n hash v.below c.entries v.slots);
        honest =
            HashMap.All-insert (Honest sign owners) n e c.cells
              (λ b d. absurd (ground (arith, is, d)))
              (Honest-more owners0 n hash v.below sign c.cells v.honest);
        below =
            HashMap.All-insert (Below (suc n)) n hash owners0 (omega arith)
              (Below-more owners0 n hash v.below owners0 v.below);
      }

  module _ (c : SignatureCache) (owners : List (EntryId × Word)) where
    abbrev pub Ok : SignatureCache → Type 0
    Ok d = Kept sign d owners

    sweep_valid : (now : ℕ) → Ok c → Ok (sweep c now)
    unfolding sweep
    sweep_valid now v =
        let live = HashMap.retain (λ s. is_live c s now) c.entries in
        let kept = HashMap.All-retain (OwnedSlot owners) (λ s. is_live c s now) c.entries v.slots in
        record {
          slots = elim (Bool-cases (leb c.max_entries (length live))) [
            | inl e ↦ rw e (HashMap.All-retain (OwnedSlot owners) (slot_in_flight c) live kept)
            | inr e ↦ rw e kept
          ];
          honest = v.honest;
          below = v.below;
        }

    removed_valid : (hash : Word) → Ok c → Ok (record c { entries = HashMap.remove hash c.entries })
    removed_valid hash v = record {
      slots = HashMap.All-remove (OwnedSlot owners) hash c.entries v.slots;
      honest = v.honest;
      below = v.below;
    }

    pub evict_valid : (hash : Word) (id : EntryId) → Ok c → Ok (evict c hash id)
    evict_valid hash id v = elim (evict-cases c hash id) [
      | inl e ↦ rw e v
      | inr e ↦ rw e (removed_valid hash v)
    ]

    put_valid :
        (id : EntryId) (e : CacheEntry)
        → Honest sign owners (id, e)
        → Ok c
        → Ok (record c { cells = HashMap.insert id e c.cells })
    put_valid id e h v = record {
      slots = v.slots;
      honest = HashMap.All-insert (Honest sign owners) id e c.cells h v.honest;
      below = v.below;
    }

    pub send_valid :
        (id : EntryId) (state : SignState)
        → ((b : Bytes) → state ≡ done b → (hash : Word) × Owns owners id hash × Signs sign hash b)
        → Ok c
        → Ok (send c id state)
    unfolding send
    send_valid id state h v = elim (Option-cases (cell c id)) [
      | inl e ↦ rw (e, send) v
      | inr (d, e) ↦
          rw (e, send) (put_valid id (record d { state = state; sender_gone = true }) h v)
    ]

    pub abort_valid : (id : EntryId) → Ok c → Ok (abort c id)
    unfolding abort
    abort_valid id v = elim (Option-cases (cell c id)) [
      | inl e ↦ rw (e, abort) v
      | inr (d, e) ↦
          rw (e, abort)
            (put_valid id (record d { sender_gone = true })
              (HashMap.All-get (Honest sign owners) id d c.cells e v.honest) v)
    ]

  start-Kept :
      (c : SignatureCache) (owners : List (EntryId × Word)) (hash : Word) (now : ℕ)
      → Ok c owners c
      → Kept sign (start c hash now).0 (owned_by hash (start c hash now).1 owners)
  unfolding start
  start-Kept c owners hash now v =
      let c1 = record c { inserts_since_sweep = suc c.inserts_since_sweep } in
      let v1 : Ok c owners c1 = record { slots = v.slots; honest = v.honest; below = v.below } in
      elim (Bool-cases (
        leb sweep_every_inserts c1.inserts_since_sweep || leb c1.max_entries (length c1.entries))) [
          | inl e ↦
              rw e (started (sweep c1 now) owners hash _ _ refl refl (sweep_valid c1 owners now v1))
          | inr e ↦ rw e (started c1 owners hash _ _ refl refl v1)
        ]

  abbrev With : List (EntryId × Word) → Word → SignatureCache × Lookup → Type 0
  With owners hash p = Kept sign p.0 (owned_by hash p.1 owners)

  pub lookup_valid :
      (c : SignatureCache) (owners : List (EntryId × Word)) (hash : Word) (now : ℕ)
      → Ok c owners c
      → With owners hash (lookup c hash now)
  lookup_valid c owners hash now v = elim (Option-cases (HashMap.get hash c.entries)) [
    | inl e ↦ rw (lookup-missing c hash now e) (start-Kept c owners hash now v)
    | inr (slot, e) ↦ elim (Bool-cases (is_live c slot now)) [
      | inl l ↦ rw (lookup-live c hash now slot e l) (record {
        slots =
            HashMap.All-insert (OwnedSlot owners) hash (record slot { last_used = now }) c.entries
              (HashMap.All-get (OwnedSlot owners) hash slot c.entries e v.slots) v.slots;
        honest = v.honest;
        below = v.below;
      })
      | inr l ↦ rw (lookup-dead c hash now slot e l) (
          start-Kept (record c { entries = HashMap.remove hash c.entries }) owners hash now
            (removed_valid c owners hash v))
    ]
  ]

  pub counted_valid :
      (owners : List (EntryId × Word)) (hash : Word) (p : SignatureCache × Lookup)
      → With owners hash p
      → With owners hash (counted p)
  counted_valid owners hash (c, existing id) v = record {
    slots = v.slots;
    honest = v.honest;
    below = v.below;
  }
  counted_valid owners hash (c, fresh id) v = record {
    slots = v.slots;
    honest = v.honest;
    below = v.below;
  }
