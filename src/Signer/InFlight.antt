-- ===== src/Signer/InFlight.antt =====
-- A sign in flight: lookups and sweeps leave it in the cache.
use st0x_oracle_server.Base.HashMap
use st0x_oracle_server.Base.{
  some, Bool, ◌≡◌, ℕ, false, true, ◌≢◌, arith, suc, ◌<◌, nat_beq, bytes_beq_iff, Bool-cases,
  nat_beq_iff, leb, bytes_eq, nat_eq, ◌||◌, length, inl, inr, ◌==◌, subst, Option-cases, none,
}
use st0x_oracle_server.Signer.{
  SignatureCache, EntryId, Slot, slot_in_flight, sweep, start, is_live, CacheEntry, in_flight_in,
  cell, sweep_every_inserts, lookup, existing, Lookup, begin, counted, fresh,
}
use st0x_oracle_server.Wire.{Word}
use st0x_oracle_server.Signer.History.{Op, begins, settles, sends, aborts, ends}
use st0x_oracle_server.Signer.Cases.{lookup-missing, lookup-live, lookup-dead}

-- The hash's slot holds this entry, and its task is still running.
pub record InFlight (c : SignatureCache) (hash : Word) (id : EntryId) : Type 0 where
  pub slot : Slot
  pub found : HashMap.get hash c.entries ≡ some slot
  pub same : slot.entry ≡ id
  pub running : in_flight_in (cell c id) ≡ true
  pub known : id < c.next_entry

-- The task of the entry has its outcome, sends it, or dies.
abbrev pub ends_task : EntryId → Op → Bool
ends_task id (begins hash now) = false
ends_task id (settles j first second) = nat_beq j id
ends_task id (sends j) = nat_beq j id
ends_task id (aborts j) = nat_beq j id
ends_task id (ends hash j) = false

module _ (c : SignatureCache) (hash : Word) (id : EntryId) (v : InFlight c hash id) where
  slot_runs : slot_in_flight c v.slot ≡ true
  slot_runs = rw v.same v.running

  sweep_keeps : (now : ℕ) → InFlight (sweep c now) hash id
  unfolding sweep is_live
  sweep_keeps now =
      let live : is_live c v.slot now ≡ true = ground (arith, slot_runs) in
      let m = HashMap.retain (λ s. is_live c s now) c.entries in
      let kept = HashMap.get-retain hash v.slot (λ s. is_live c s now) c.entries v.found live in
      record {
        slot = v.slot;
        found =
            ground
              (arith, kept, HashMap.get-retain hash v.slot (slot_in_flight c) m kept slot_runs);
        same = v.same;
        running = v.running;
        known = v.known;
      }

  -- The entry that is made is another one.
  with_entry :
      (other : Word) (slot : Slot) (e : CacheEntry)
      → other ≢ hash
      → InFlight
          (record c {
            entries = HashMap.insert other slot c.entries;
            cells = HashMap.insert c.next_entry e c.cells;
            next_entry = suc c.next_entry;
          })
          hash
          id
  with_entry other slot e ne = record {
    slot = v.slot;
    found =
        ground
          (arith, HashMap.get-insert hash other slot c.entries, bytes_beq_iff other hash, v.found);
    same = v.same;
    running = ground (
      arith,
      HashMap.get-insert id c.next_entry e c.cells,
      nat_beq_iff c.next_entry id,
      v.running,
      v.known,
    );
    known = ground (arith, v.known);
  }

module _ (c : SignatureCache) (hash : Word) (id : EntryId) where
  start_keeps :
      (other : Word) (now : ℕ)
      → InFlight c hash id
      → other ≢ hash
      → InFlight (start c other now).0 hash id
  unfolding start
  start_keeps other now v ne =
      let c1 = record c { inserts_since_sweep = suc c.inserts_since_sweep } in
      let v1 : InFlight c1 hash id = record {
        slot = v.slot;
        found = v.found;
        same = v.same;
        running = v.running;
        known = v.known;
      } in
      elim (Bool-cases (
        leb sweep_every_inserts c1.inserts_since_sweep || leb c1.max_entries (length c1.entries))) [
          | inl e ↦
              rw e (with_entry (sweep c1 now) hash id (sweep_keeps c1 hash id v1 now) other _ _ ne)
          | inr e ↦ rw e (with_entry c1 hash id v1 other _ _ ne)
        ]

  is_dead :
      (other : Word) (now : ℕ) (slot : Slot)
      → InFlight c hash id
      → HashMap.get hash c.entries ≡ some slot
      → is_live c slot now ≡ false
      → ⊥
  unfolding is_live
  is_dead other now slot v e l = ground (arith, v.found, slot_runs c hash id v)

  removed_keeps :
      (other : Word)
      → InFlight c hash id
      → other ≢ hash
      → InFlight (record c { entries = HashMap.remove other c.entries }) hash id
  removed_keeps other v ne = record {
    slot = v.slot;
    found =
        ground (arith, HashMap.get-remove hash other c.entries, bytes_beq_iff other hash, v.found);
    same = v.same;
    running = v.running;
    known = v.known;
  }

  touched_keeps :
      (other : Word) (slot : Slot)
      → InFlight c hash id
      → HashMap.get other c.entries ≡ some slot
      → (now : ℕ)
      → InFlight
          (record c { entries = HashMap.insert other (record slot { last_used = now }) c.entries })
          hash
          id
  touched_keeps other slot v e now =
      let new_slot : Slot = record slot { last_used = now } in
      let there = HashMap.get-insert hash other new_slot c.entries in
      elim (Bool-cases (other == hash)) [
        | inl t ↦
            let is : other ≡ hash = ground (arith, bytes_beq_iff other hash) in
            record {
              slot = new_slot;
              found = ground (arith, there, t);
              same =
                  ground
                    (arith, v.found, v.same, subst (λ h. HashMap.get h c.entries ≡ some slot) is e);
              running = v.running;
              known = v.known;
            }
        | inr t ↦ record {
          slot = v.slot;
          found = ground (arith, there, t, v.found);
          same = v.same;
          running = v.running;
          known = v.known;
        }
      ]

  -- A request for the hash joins the sign that runs.
  pub lookup-existing : (now : ℕ) → InFlight c hash id → (lookup c hash now).1 ≡ existing id
  unfolding lookup is_live
  lookup-existing now v = ground (arith, v.found, v.same, slot_runs c hash id v)

module _ (c : SignatureCache) (hash : Word) (id : EntryId) where
  lookup_keeps :
      (other : Word) (now : ℕ) → InFlight c hash id → InFlight (lookup c other now).0 hash id
  lookup_keeps other now v = elim (Option-cases (HashMap.get other c.entries)) [
    | inl e ↦ rw (lookup-missing c other now e) (
        start_keeps c hash id other now v
          (λ p. ground (arith, v.found, subst (λ h. HashMap.get h c.entries ≡ none) p e)))
    | inr (slot, e) ↦ elim (Bool-cases (is_live c slot now)) [
      | inl l ↦ rw (lookup-live c other now slot e l) (touched_keeps c hash id other slot v e now)
      | inr l ↦
          let ne : other ≢ hash = λ p.
            is_dead c hash id other now slot v
              (subst (λ h. HashMap.get h c.entries ≡ some slot) p e) l in
          rw (lookup-dead c other now slot e l) (
            start_keeps (record c { entries = HashMap.remove other c.entries }) hash id other now
              (removed_keeps c hash id other v ne) ne)
    ]
  ]

  counted_keeps :
      (p : SignatureCache × Lookup) → InFlight p.0 hash id → InFlight (counted p).0 hash id
  counted_keeps (d, existing j) w = record {
    slot = w.slot;
    found = w.found;
    same = w.same;
    running = w.running;
    known = w.known;
  }
  counted_keeps (d, fresh j) w = record {
    slot = w.slot;
    found = w.found;
    same = w.same;
    running = w.running;
    known = w.known;
  }

  pub begin_keeps :
      (other : Word) (now : ℕ) → InFlight c hash id → InFlight (begin c other now).0 hash id
  unfolding begin
  begin_keeps other now v = counted_keeps (lookup c other now) (lookup_keeps other now v)
