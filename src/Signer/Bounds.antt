-- ===== src/Signer/Bounds.antt =====
-- The cache does not outgrow its cap by finished signatures.
use st0x_oracle_server.Base.HashMap
use st0x_oracle_server.Base.{
  length, ℕ, ◌≤◌, ◌<◌, suc, ◌⊎◌, Bool-cases, ◌≡◌, All, leb, true, inl, arith, List, ◌||◌,
  Option-cases, bytes_eq, nat_eq, inr, nat_beq_iff, ◌∷◌, [], refl,
}
use st0x_oracle_server.Signer.{
  SignatureCache, sweep, start, Slot, EntryId, slot_in_flight, CacheEntry, lookup, is_live,
  is_in_flight, sweep_every_inserts, fresh,
}
use st0x_oracle_server.Wire.{Word}
use st0x_oracle_server.Signer.Cases.{lookup-missing, lookup-live, lookup-dead}

abbrev pub Running : SignatureCache → Word × Slot → Type 0
Running c p = slot_in_flight c p.1 ≡ true

-- Either the cap holds, or every slot is a sign in flight.
abbrev pub Bounded : SignatureCache → Type 0
Bounded c = (length c.entries ≤ c.max_entries) ⊎ All (Running c) c.entries

sweep-cap :
    (c : SignatureCache) (now : ℕ)
    → (length (sweep c now).entries < c.max_entries) ⊎ All (Running c) (sweep c now).entries
unfolding sweep
sweep-cap c now =
    let live = HashMap.retain (λ s. is_live c s now) c.entries in
    elim (Bool-cases (leb c.max_entries (length live))) [
      | inl e ↦ inr (rw e (HashMap.All-kept (slot_in_flight c) live))
      | inr e ↦ inl (rw e (ground arith))
    ]

module _ (c : SignatureCache) (hash : Word) (slot : Slot) (e : CacheEntry)
    (same : slot.entry ≡ c.next_entry) (running : is_in_flight e ≡ true) where
  abbrev opened : SignatureCache
  opened = record c {
    entries = HashMap.insert hash slot c.entries;
    cells = HashMap.insert c.next_entry e c.cells;
    next_entry = suc c.next_entry;
  }

  still : (p : Word × Slot) → Running c p → Running opened p
  still p h = ground (
    arith,
    HashMap.get-insert p.1.entry c.next_entry e c.cells,
    nat_beq_iff c.next_entry p.1.entry,
  )

  still_all : (m : List (Word × Slot)) → All (Running c) m → All (Running opened) m
  still_all [] h = tt
  still_all (p ∷ m) h = (still p h.0, still_all m h.1)

  opened-Bounded : (length c.entries < c.max_entries) ⊎ All (Running c) c.entries → Bounded opened
  opened-Bounded (inl h) = inl (omega (arith, HashMap.length-insert hash slot c.entries))
  opened-Bounded (inr h) = inr (
      HashMap.All-insert (Running opened) hash slot c.entries
        (rw same (ground (arith, HashMap.get-here c.next_entry e c.cells))) (still_all c.entries h))

start-Bounded : (c : SignatureCache) (hash : Word) (now : ℕ) → Bounded (start c hash now).0
unfolding start sweep
start-Bounded c hash now =
    let c1 = record c { inserts_since_sweep = suc c.inserts_since_sweep } in
    elim (Bool-cases
      (leb sweep_every_inserts c1.inserts_since_sweep || leb c1.max_entries (length c1.entries))) [
        | inl e ↦ rw e (opened-Bounded (sweep c1 now) hash _ _ refl refl (sweep-cap c1 now))
        | inr e ↦ rw e (opened-Bounded c1 hash _ _ refl refl (inl (ground arith)))
      ]

-- A request that starts a sign leaves at most `max_entries` slots, or else only slots whose signs
-- are in flight: finished signatures never push the cache over its cap.
pub lookup-Bounded :
    (c : SignatureCache) (hash : Word) (now : ℕ) (id : EntryId)
    → (lookup c hash now).1 ≡ fresh id
    → Bounded (lookup c hash now).0
lookup-Bounded c hash now id h = elim (Option-cases (HashMap.get hash c.entries)) [
  | inl e ↦ rw (lookup-missing c hash now e) (start-Bounded c hash now)
  | inr (slot, e) ↦ elim (Bool-cases (is_live c slot now)) [
    | inl l ↦ absurd (ground (arith, h, lookup-live c hash now slot e l))
    | inr l ↦
        rw (lookup-dead c hash now slot e l)
          (start-Bounded (record c { entries = HashMap.remove hash c.entries }) hash now)
  ]
]
