-- ===== src/Signer/Failure.antt =====
-- What follows a failed sign.
use st0x_oracle_server.Base.HashMap
use st0x_oracle_server.Base.{
  ◌≡◌, ℕ, true, arith, bytes_beq_iff, nat_beq_iff, bytes_eq, nat_eq, inl, inr, Option-cases, none,
  String, err, some, ◌∙◌, refl, ap,
}
use st0x_oracle_server.Signer.{
  SignatureCache, EntryId, cell, lookup, evict, send, settle, finish, fresh, failed, sign_failed,
  in_flight_in, Attempt, sign_hash_with_retry,
}
use st0x_oracle_server.Wire.{Word}
use st0x_oracle_server.Signer.Cases.{lookup-absent}
use st0x_oracle_server.Signer.InFlight.{InFlight}
use st0x_oracle_server.Signer.History.{State, step, task, broadcast, settles, sends}

module _ (c : SignatureCache) (hash : Word) (id : EntryId) (v : InFlight c hash id) where
  evict-InFlight : evict c hash id ≡ record c { entries = HashMap.remove hash c.entries }
  unfolding evict
  evict-InFlight = rw (v.found, evict) (ground (arith, v.same, nat_beq_iff v.slot.entry id))

  gone : HashMap.get hash (HashMap.remove hash c.entries) ≡ none
  gone = ground (arith, HashMap.get-remove hash hash c.entries, bytes_beq_iff hash hash)

  -- The cache between the eviction and the broadcast, and after both.
  abbrev evicted_cache : SignatureCache
  evicted_cache = evict c hash id

  evicted_lookup : (now : ℕ) → (lookup evicted_cache hash now).1 ≡ fresh c.next_entry
  evicted_lookup now =
      rw evict-InFlight
        (lookup-absent (record c { entries = HashMap.remove hash c.entries }) hash now gone)

  evicted_running : in_flight_in (cell evicted_cache id) ≡ true
  evicted_running = rw evict-InFlight v.running

  sent_entries :
      (why : String) → HashMap.get hash (send evicted_cache id (failed why)).entries ≡ none
  unfolding send
  sent_entries why = rw evict-InFlight (ground (arith, gone))

  sent_next : (why : String) → (send evicted_cache id (failed why)).next_entry ≡ c.next_entry
  unfolding send evict
  sent_next why = ground arith

  sent_lookup :
      (why : String) (now : ℕ)
      → (lookup (send evicted_cache id (failed why)) hash now).1 ≡ fresh c.next_entry
  sent_lookup why now =
      lookup-absent (send evicted_cache id (failed why)) hash now (sent_entries why)
      ∙ ap fresh (sent_next why)

  sent_answer :
      (why : String)
      → (finish (send evicted_cache id (failed why)) hash id).1 ≡ err (sign_failed why)
  unfolding send finish
  sent_answer why = elim (Option-cases (cell c id)) [
    | inl e ↦ absurd (ground (arith, v.running))
    | inr (d, e) ↦ rw evict-InFlight (
        ground (
          arith,
          e,
          HashMap.get-here id (record d { state = failed why; sender_gone = true }) c.cells,
        ))
  ]

module _ (sign : Word → ℕ → Attempt) (s : State) (hash : Word) (id : EntryId) where
  failed_task :
      (n m : ℕ) (why : String)
      → HashMap.get id s.owners ≡ some hash
      → sign_hash_with_retry (sign hash n) (sign hash m) ≡ err why
      → step sign s (settles id n m) ≡ record s {
        cache = evict s.cache hash id;
        reports = HashMap.insert id (failed why) s.reports;
      }
  unfolding step task settle
  failed_task n m why o f = rw (o, task) (rw (f, settle) refl)

  failed_report :
      (why : String)
      → (let s1 = record s {
        cache = evict s.cache hash id;
        reports = HashMap.insert id (failed why) s.reports;
      } in
          (step sign s1 (sends id)).cache)
        ≡ send (evict s.cache hash id) id (failed why)
  unfolding step broadcast
  failed_report why = rw (HashMap.get-here id (failed why) s.reports, broadcast) refl

  -- A task that fails takes its entry out of the cache in one step and sends the failure in the next.
  -- Between the two the waiters still wait, and a request for the hash already starts a sign of its
  -- own; after the second the failed entry answers every waiter with its own error, and a request for
  -- the hash starts a sign of its own too.
  pub settle-fresh :
      (n m : ℕ) (why : String) (now : ℕ)
      → InFlight s.cache hash id
      → HashMap.get id s.owners ≡ some hash
      → sign_hash_with_retry (sign hash n) (sign hash m) ≡ err why
      → (let between = step sign s (settles id n m) in
          let after = step sign between (sends id) in
          (in_flight_in (cell between.cache id) ≡ true)
          × ((lookup between.cache hash now).1 ≡ fresh s.cache.next_entry)
          × ((finish after.cache hash id).1 ≡ err (sign_failed why))
          × ((lookup after.cache hash now).1 ≡ fresh s.cache.next_entry))
  settle-fresh n m why now v o f =
      rw (failed_task n m why o f, failed_report why)
        (
          evicted_running s.cache hash id v,
          evicted_lookup s.cache hash id v now,
          sent_answer s.cache hash id v why,
          sent_lookup s.cache hash id v why now,
        )
