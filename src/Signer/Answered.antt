-- ===== src/Signer/Answered.antt =====
-- A request is answered with a signature of its own hash.
use st0x_oracle_server.Signer.{attempt_timed_out, entry_of}
use st0x_oracle_server.Base.HashMap
use st0x_oracle_server.Base.{
  List, ℕ, ◌≡◌, arith, ◌∷◌, nat_eq, [], bytes_eq, Option-cases, inl, inr, refl, ok, Result, String,
  err, subst, All,
}
use st0x_oracle_server.Signer.{
  EntryId, Attempt, signed, SignatureCache, lookup, sign_hash_with_retry, settle, finish, new,
  attempt_failed, begin,
}
use st0x_oracle_server.Wire.{Word, Bytes}
use st0x_oracle_server.Signer.History.{
  State, step, initial, run, task, Op, begins, settles, sends, broadcast, aborts, ends, owned_by,
}
use st0x_oracle_server.Signer.Cases.{finish-cases, begin-cases, finish-ok, begin-Holds}
use st0x_oracle_server.Signer.Authentic.{
  Owns, Ok, Faithful, Signs, evict_valid, counted_valid, Owns-more, OwnedSlot, send_valid,
  lookup_valid, Honest, abort_valid, Told, Told-more,
}

module _ (sign : Word → ℕ → Attempt) where
  module _ (hash : Word) (n m : ℕ) (b : Bytes) where
    attempts :
        (x y : Attempt)
        → sign hash n ≡ x
        → sign hash m ≡ y
        → sign_hash_with_retry x y ≡ ok b
        → Signs sign hash b
    unfolding sign_hash_with_retry
    attempts (signed s) y p q h = (n, ground arith)
    attempts (attempt_failed w) (signed s) p q h = (m, ground arith)
    attempts (attempt_failed w) (attempt_failed u) p q h = absurd (ground arith)
    attempts (attempt_failed w) attempt_timed_out p q h = absurd (ground arith)
    attempts attempt_timed_out (signed s) p q h = (m, ground arith)
    attempts attempt_timed_out (attempt_failed u) p q h = absurd (ground arith)
    attempts attempt_timed_out attempt_timed_out p q h = absurd (ground arith)

    retry-Signs : sign_hash_with_retry (sign hash n) (sign hash m) ≡ ok b → Signs sign hash b
    retry-Signs h = attempts (sign hash n) (sign hash m) refl refl h

  settle_valid :
      (c : SignatureCache) (owners : List (EntryId × Word)) (hash : Word) (id : EntryId)
      (r : Result String Bytes)
      → Owns owners id hash
      → ((b : Bytes) → r ≡ ok b → Signs sign hash b)
      → Ok sign c owners c
      → Ok sign c owners (settle c hash id r).0 × Told sign owners (id, (settle c hash id r).1)
  unfolding settle
  settle_valid c owners hash id (ok s) o h v = (v, λ b d. (hash, o, h b (ground arith)))
  settle_valid c owners hash id (err why) o h v =
      (evict_valid sign c owners hash id v, λ b d. absurd (ground arith))

  begin_reported :
      (s : State) (hash : Word) (now : ℕ)
      → Faithful sign s
      → All (Told sign (owned_by hash (begin s.cache hash now).1 s.owners)) s.reports
  begin_reported s hash now v = elim (begin-cases s.cache hash now) [
    | inl (j, e) ↦ rw e v.reported
    | inr e ↦
        rw e (Told-more s.owners s.cache.next_entry hash v.kept.below sign s.reports v.reported)
  ]

  pub finish_valid :
      (c : SignatureCache) (owners : List (EntryId × Word)) (hash : Word) (id : EntryId)
      → Ok sign c owners c
      → Ok sign c owners (finish c hash id).0
  finish_valid c owners hash id v = elim (finish-cases c hash id) [
    | inl e ↦ rw e v
    | inr e ↦ rw e (evict_valid sign c owners hash id v)
  ]

  pub step-Faithful : (s : State) (o : Op) → Faithful sign s → Faithful sign (step sign s o)
  unfolding step task broadcast begin
  step-Faithful s (begins hash now) v = record {
    kept =
        counted_valid sign s.owners hash (lookup s.cache hash now)
          (lookup_valid sign s.cache s.owners hash now v.kept);
    reported = begin_reported s hash now v;
  }
  step-Faithful s (settles id n m) v = elim (Option-cases (HashMap.get id s.owners)) [
    | inl e ↦ rw (e, task) v
    | inr (hash, e) ↦
        let (kept, told) =
          settle_valid s.cache s.owners hash id _ e (retry-Signs hash n m) v.kept in
        rw (e, task)
          (record {
            kept = kept;
            reported = HashMap.All-insert (Told sign s.owners) id _ s.reports told v.reported;
          })
  ]
  step-Faithful s (sends id) v = elim (Option-cases (HashMap.get id s.reports)) [
    | inl e ↦ rw (e, broadcast) v
    | inr (report, e) ↦
        rw (e, broadcast)
          (record {
            kept =
                send_valid sign s.cache s.owners id report
                  (HashMap.All-get (Told sign s.owners) id report s.reports e v.reported) v.kept;
            reported = HashMap.All-remove (Told sign s.owners) id s.reports v.reported;
          })
  ]
  step-Faithful s (aborts id) v = record {
    kept = abort_valid sign s.cache s.owners id v.kept;
    reported = v.reported;
  }
  step-Faithful s (ends hash id) v = record {
    kept = finish_valid s.cache s.owners hash id v.kept;
    reported = v.reported;
  }

  pub initial-Faithful :
      (idle_ttl max_entries : ℕ) → Faithful sign (initial (new idle_ttl max_entries))
  initial-Faithful idle_ttl max_entries = record {
    kept = record { slots = tt; honest = tt; below = tt };
    reported = tt;
  }

  run-Faithful : (s : State) (ops : List Op) → Faithful sign s → Faithful sign (run sign s ops)
  unfolding run
  run-Faithful s [] v = v
  run-Faithful s (o ∷ ops) v = run-Faithful (step sign s o) ops (step-Faithful s o v)

  pub persists :
      (s : State) (o : Op) (id : EntryId) (hash : Word)
      → Faithful sign s
      → Owns s.owners id hash
      → Owns (step sign s o).owners id hash
  unfolding step task broadcast
  persists s (begins other now) id hash v h = elim (begin-cases s.cache other now) [
    | inl (j, e) ↦ rw e h
    | inr e ↦ rw e (Owns-more s.owners s.cache.next_entry id hash other v.kept.below h)
  ]
  persists s (settles j n m) id hash v h = elim (Option-cases (HashMap.get j s.owners)) [
    | inl e ↦ rw (e, task) h
    | inr (other, e) ↦ rw (e, task) h
  ]
  persists s (sends j) id hash v h = elim (Option-cases (HashMap.get j s.reports)) [
    | inl e ↦ rw (e, broadcast) h
    | inr (report, e) ↦ rw (e, broadcast) h
  ]
  persists s (aborts j) id hash v h = h
  persists s (ends other j) id hash v h = h

  run-persists :
      (s : State) (ops : List Op) (id : EntryId) (hash : Word)
      → Faithful sign s
      → Owns s.owners id hash
      → Owns (run sign s ops).owners id hash
  unfolding run
  run-persists s [] id hash v h = h
  run-persists s (o ∷ ops) id hash v h =
      run-persists (step sign s o) ops id hash (step-Faithful s o v) (persists s o id hash v h)

  pub begun :
      (s : State) (hash : Word) (now : ℕ)
      → Faithful sign s
      → Owns (step sign s (begins hash now)).owners (entry_of (begin s.cache hash now).1) hash
  unfolding step
  begun s hash now v =
      let (slot, e, same) = begin-Holds s.cache hash now in
      let w = step-Faithful s (begins hash now) v in
      subst (λ i. Owns (step sign s (begins hash now)).owners i hash) same
        (HashMap.All-get (OwnedSlot (step sign s (begins hash now)).owners) hash slot
          (begin s.cache hash now).0.entries e w.kept.slots)

  pub finish-Signs :
      (s : State) (hash : Word) (id : EntryId) (b : Bytes)
      → Faithful sign s
      → Owns s.owners id hash
      → (finish s.cache hash id).1 ≡ ok b
      → Signs sign hash b
  finish-Signs s hash id b v o h =
      let (e, at, is) = finish-ok s.cache hash id b h in
      let (other, own, signs) =
        HashMap.All-get (Honest sign s.owners) id e s.cache.cells at v.kept.honest b is in
      let same : other ≡ hash = ground (arith, own, o) in subst (λ w. Signs sign w b) same signs

  -- A cache that starts empty and is shared by any history of requests, failed and dead sign tasks
  -- and sweeps gives to a request only a signature that the key made of the request's own hash,
  -- whatever happens between the start and the end of its wait.
  pub run-Signs :
      (idle_ttl max_entries : ℕ) (before between : List Op) (hash : Word) (now : ℕ) (b : Bytes)
      → (let s = run sign (initial (new idle_ttl max_entries)) before in
          (finish
            (run sign (step sign s (begins hash now)) between).cache
            hash
            (entry_of (begin s.cache hash now).1)).1)
        ≡ ok b
      → Signs sign hash b
  run-Signs idle_ttl max_entries before between hash now b h =
      let s = run sign (initial (new idle_ttl max_entries)) before in
      let v =
        run-Faithful (initial (new idle_ttl max_entries)) before
          (initial-Faithful idle_ttl max_entries) in
      let w = step-Faithful s (begins hash now) v in
      let id = entry_of (begin s.cache hash now).1 in
      finish-Signs (run sign (step sign s (begins hash now)) between) hash id b
        (run-Faithful (step sign s (begins hash now)) between w)
        (run-persists (step sign s (begins hash now)) between id hash w (begun s hash now v)) h
