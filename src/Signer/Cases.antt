-- ===== src/Signer/Cases.antt =====
-- The ways in which the operations of the cache can go.
use st0x_oracle_server.Base.HashMap
use st0x_oracle_server.Base.{
  none, some, ℕ, ◌≡◌, ◌⊎◌, ok, arith, Option-cases, bytes_eq, refl, true, false, inl, inr,
  Bool-cases,
}
use st0x_oracle_server.Signer.{
  SignatureCache, finish, EntryId, begin, evict, start, Lookup, lookup, Slot, sweep, existing,
  counted, is_live, CacheEntry, fresh, entry_of, cell, done,
}
use st0x_oracle_server.Wire.{Word, Bytes}

-- The three ways of `lookup`.
module _ (c : SignatureCache) (hash : Word) (now : ℕ) where
  pub lookup-missing : HashMap.get hash c.entries ≡ none → lookup c hash now ≡ start c hash now
  unfolding lookup
  lookup-missing e = rw (e, lookup) refl

  module _ (slot : Slot) (e : HashMap.get hash c.entries ≡ some slot) where
    pub lookup-live :
        is_live c slot now ≡ true
        → lookup c hash now ≡ (
          record c { entries = HashMap.insert hash (record slot { last_used = now }) c.entries },
          existing slot.entry,
        )
    unfolding lookup
    lookup-live l = rw (e, lookup, l) refl

    pub lookup-dead :
        is_live c slot now ≡ false
        → lookup c hash now ≡ start (record c { entries = HashMap.remove hash c.entries }) hash now
    unfolding lookup
    lookup-dead l = rw (e, lookup, l) refl

pub evict-cases :
    (c : SignatureCache) (hash : Word) (id : EntryId)
    → (evict c hash id ≡ c)
      ⊎ (evict c hash id ≡ record c { entries = HashMap.remove hash c.entries })
unfolding evict
evict-cases c hash id = ground arith

-- The end of a wait changes the cache only for a task that died.
pub finish-cases :
    (c : SignatureCache) (hash : Word) (id : EntryId)
    → ((finish c hash id).0 ≡ c) ⊎ ((finish c hash id).0 ≡ evict c hash id)
unfolding finish
finish-cases c hash id = ground arith

pub finish-ok :
    (c : SignatureCache) (hash : Word) (id : EntryId) (b : Bytes)
    → (finish c hash id).1 ≡ ok b
    → (e : CacheEntry) × (cell c id ≡ some e) × (e.state ≡ done b)
unfolding finish
finish-ok c hash id b h = elim (Option-cases (cell c id)) [
  | inl e ↦ absurd (ground arith)
  | inr (d, e) ↦ (d, e, ground arith)
]

start-fresh :
    (c : SignatureCache) (hash : Word) (now : ℕ) → (start c hash now).1 ≡ fresh c.next_entry
unfolding start sweep
start-fresh c hash now = ground arith

pub lookup-absent :
    (c : SignatureCache) (hash : Word) (now : ℕ)
    → HashMap.get hash c.entries ≡ none
    → (lookup c hash now).1 ≡ fresh c.next_entry
lookup-absent c hash now e = rw (lookup-missing c hash now e) (start-fresh c hash now)

-- An entry of the cache, or the next new one.
pub lookup-cases :
    (c : SignatureCache) (hash : Word) (now : ℕ)
    → ((j : EntryId) × ((lookup c hash now).1 ≡ existing j))
      ⊎ ((lookup c hash now).1 ≡ fresh c.next_entry)
lookup-cases c hash now = elim (Option-cases (HashMap.get hash c.entries)) [
  | inl e ↦ inr (rw (lookup-missing c hash now e) (start-fresh c hash now))
  | inr (slot, e) ↦ elim (Bool-cases (is_live c slot now)) [
    | inl l ↦ inl (slot.entry, rw (lookup-live c hash now slot e l) refl)
    | inr l ↦ inr (
        rw (lookup-dead c hash now slot e l)
          (start-fresh (record c { entries = HashMap.remove hash c.entries }) hash now))
  ]
]

counted-cases :
    (n : EntryId) (p : SignatureCache × Lookup)
    → ((j : EntryId) × (p.1 ≡ existing j)) ⊎ (p.1 ≡ fresh n)
    → ((j : EntryId) × ((counted p).1 ≡ existing j)) ⊎ ((counted p).1 ≡ fresh n)
counted-cases n (c, existing i) h = h
counted-cases n (c, fresh i) h = h

pub begin-cases :
    (c : SignatureCache) (hash : Word) (now : ℕ)
    → ((j : EntryId) × ((begin c hash now).1 ≡ existing j))
      ⊎ ((begin c hash now).1 ≡ fresh c.next_entry)
unfolding begin
begin-cases c hash now = counted-cases c.next_entry (lookup c hash now) (lookup-cases c hash now)

-- The slot of the hash holds the entry that the request waits on.
abbrev pub Holds : Word → SignatureCache × Lookup → Type 0
Holds hash p =
    (slot : Slot) × (HashMap.get hash p.0.entries ≡ some slot) × (slot.entry ≡ entry_of p.1)

start-Holds : (c : SignatureCache) (hash : Word) (now : ℕ) → Holds hash (start c hash now)
unfolding start
start-Holds c hash now = (_, HashMap.get-here hash _ _, refl)

lookup-Holds : (c : SignatureCache) (hash : Word) (now : ℕ) → Holds hash (lookup c hash now)
lookup-Holds c hash now = elim (Option-cases (HashMap.get hash c.entries)) [
  | inl e ↦ rw (lookup-missing c hash now e) (start-Holds c hash now)
  | inr (slot, e) ↦ elim (Bool-cases (is_live c slot now)) [
    | inl l ↦ rw (lookup-live c hash now slot e l) (_, HashMap.get-here hash _ _, refl)
    | inr l ↦
        rw (lookup-dead c hash now slot e l)
          (start-Holds (record c { entries = HashMap.remove hash c.entries }) hash now)
  ]
]

counted-Holds : (hash : Word) (p : SignatureCache × Lookup) → Holds hash p → Holds hash (counted p)
counted-Holds hash (c, existing i) h = h
counted-Holds hash (c, fresh i) h = h

pub begin-Holds : (c : SignatureCache) (hash : Word) (now : ℕ) → Holds hash (begin c hash now)
unfolding begin
begin-Holds c hash now = counted-Holds hash (lookup c hash now) (lookup-Holds c hash now)
