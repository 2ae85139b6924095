-- ===== src/Signer/Joined.antt =====
-- Whatever others do, requests for a hash join the sign that runs.
use st0x_oracle_server.Base.HashMap
use st0x_oracle_server.Base.{
  ◌≡◌, ℕ, false, true, arith, nat_beq, bytes_beq_iff, nat_beq_iff, bytes_eq, nat_eq, inl, inr,
  Option-cases, Result, String, List, ok, any, ◌∷◌, err, [], ◌⊎◌,
}
use st0x_oracle_server.Signer.{
  SignatureCache, EntryId, in_flight_in, cell, lookup, existing, evict, send, abort, settle, finish,
  Attempt, SignState,
}
use st0x_oracle_server.Wire.{Word, Bytes}
use st0x_oracle_server.Signer.History.{
  Op, begins, settles, sends, aborts, ends, step, run, task, broadcast, State,
}
use st0x_oracle_server.Signer.InFlight.{InFlight, ends_task, begin_keeps, lookup-existing}

module _ (c : SignatureCache) (hash : Word) (id : EntryId) where
  evict_keeps :
      (other : Word) (j : EntryId)
      → nat_beq j id ≡ false
      → InFlight c hash id
      → InFlight (evict c other j) hash id
  unfolding evict
  evict_keeps other j ne v = record {
    slot = v.slot;
    found = ground (
      arith,
      HashMap.get-remove hash other c.entries,
      bytes_beq_iff other hash,
      v.found,
      v.same,
      nat_beq_iff j id,
    );
    same = v.same;
    running = ground (arith, v.running);
    known = ground (arith, v.known);
  }

  send_keeps :
      (j : EntryId) (state : SignState)
      → nat_beq j id ≡ false
      → InFlight c hash id
      → InFlight (send c j state) hash id
  unfolding send
  send_keeps j state ne v = record {
    slot = v.slot;
    found = ground (arith, v.found);
    same = v.same;
    running = elim (Option-cases (cell c j)) [
      | inl e ↦ rw (e, send) v.running
      | inr (d, e) ↦
          rw (e, send)
            (ground (
              arith,
              HashMap.get-insert id j (record d { state = state; sender_gone = true }) c.cells,
              ne,
              v.running,
            ))
    ];
    known = ground (arith, v.known);
  }

  abort_keeps :
      (j : EntryId) → nat_beq j id ≡ false → InFlight c hash id → InFlight (abort c j) hash id
  unfolding abort
  abort_keeps j ne v = record {
    slot = v.slot;
    found = ground (arith, v.found);
    same = v.same;
    running = elim (Option-cases (cell c j)) [
      | inl e ↦ rw (e, abort) v.running
      | inr (d, e) ↦
          rw (e, abort)
            (ground (
              arith,
              HashMap.get-insert id j (record d { sender_gone = true }) c.cells,
              ne,
              v.running,
            ))
    ];
    known = ground (arith, v.known);
  }

-- The end of a wait changes the cache only for a task that died.
finish-cache :
    (c : SignatureCache) (hash : Word) (j : EntryId)
    → ((finish c hash j).0 ≡ c)
      ⊎ (((finish c hash j).0 ≡ evict c hash j) × (in_flight_in (cell c j) ≡ false))
unfolding finish
finish-cache c hash j = ground arith

module _ (hash : Word) (id : EntryId) where
  settle_keeps :
      (c : SignatureCache) (other : Word) (j : EntryId) (r : Result String Bytes)
      → nat_beq j id ≡ false
      → InFlight c hash id
      → InFlight (settle c other j r).0 hash id
  unfolding settle
  settle_keeps c other j (ok s) ne v = v
  settle_keeps c other j (err why) ne v = evict_keeps c hash id other j ne v

  -- A wait that runs out leaves the sign running.
  finish_keeps :
      (c : SignatureCache) (other : Word) (j : EntryId)
      → InFlight c hash id
      → InFlight (finish c other j).0 hash id
  finish_keeps c other j v = elim (finish-cache c other j) [
    | inl e ↦ rw e v
    | inr (e, dead) ↦
        rw e (evict_keeps c hash id other j (ground (arith, nat_beq_iff j id, v.running)) v)
  ]

  module _ (sign : Word → ℕ → Attempt) where
    step_keeps :
        (s : State) (o : Op)
        → ends_task id o ≡ false
        → InFlight s.cache hash id
        → InFlight (step sign s o).cache hash id
    unfolding step task broadcast
    step_keeps s (begins other now) h v = begin_keeps s.cache hash id other now v
    step_keeps s (settles j first second) h v = elim (Option-cases (HashMap.get j s.owners)) [
      | inl e ↦ rw (e, task) v
      | inr (other, e) ↦ rw (e, task) (settle_keeps s.cache other j _ h v)
    ]
    step_keeps s (sends j) h v = elim (Option-cases (HashMap.get j s.reports)) [
      | inl e ↦ rw (e, broadcast) v
      | inr (report, e) ↦ rw (e, broadcast) (send_keeps s.cache hash id j report h v)
    ]
    step_keeps s (aborts j) h v = abort_keeps s.cache hash id j h v
    step_keeps s (ends other j) h v = finish_keeps s.cache other j v

    -- While the sign of a hash runs, whatever other requests and tasks do, sweeps included, every
    -- request for the hash waits on that sign: no second one is started.
    pub run-existing :
        (s : State) (ops : List Op) (now : ℕ)
        → InFlight s.cache hash id
        → any (ends_task id) ops ≡ false
        → (lookup (run sign s ops).cache hash now).1 ≡ existing id
    unfolding run
    run-existing s [] now v h = lookup-existing s.cache hash id now v
    run-existing s (o ∷ ops) now v h =
        run-existing (step sign s o) ops now (step_keeps s o (ground arith) v) (ground arith)
