-- ===== src/Tests/Signing.antt =====
-- Histories of the signature cache.
use st0x_oracle_server.Signer.Authentic.{Signs}
use st0x_oracle_server.Signer.{
  new, SignatureCache, Slot, begin, lookup, signature_cache_idle_ttl, start, settle,
  signature_cache_max_entries, existing, fresh, send, finish, sign_hash_with_retry, sign_failed,
  entry_of, in_flight_in, Attempt, cell, attempt_failed,
}
use st0x_oracle_server.Signer.History.{
  run, step, State, task, broadcast, Op, begins, settles, sends, aborts, ends, initial,
}
use st0x_oracle_server.Base.{List, ◌∷◌, ◌≡◌, [], err, arith, refl, ok, ℕ, true}
use st0x_oracle_server.Base.HashMap
use st0x_oracle_server.Tests.{key}
use st0x_oracle_server.Wire.{Word}
use st0x_oracle_server.Signer.Bounds.{Bounded, lookup-Bounded}
use st0x_oracle_server.Signer.InFlight.{InFlight}
use st0x_oracle_server.Signer.Joined.{run-existing}
use st0x_oracle_server.Signer.Failure.{settle-fresh}
use st0x_oracle_server.Signer.Answered.{run-Signs}

abbrev hash : Word
hash = 6 ∷ []

abbrev empty_cache : SignatureCache
empty_cache = new signature_cache_idle_ttl signature_cache_max_entries

abbrev signing_cache : SignatureCache
signing_cache = (begin empty_cache hash 0).0

abbrev one_slot : Slot
one_slot = record { last_used = 0; entry = 0 }

signing-InFlight : InFlight signing_cache hash 0
unfolding begin lookup start HashMap.get HashMap.insert
signing-InFlight = record {
  slot = one_slot;
  found = refl;
  same = refl;
  running = refl;
  known = omega arith;
}

abbrev signing_state : State
signing_state = record { cache = signing_cache; owners = (0, hash) ∷ []; reports = [] }

abbrev busy : List Op
busy = begins (7 ∷ []) 3 ∷ aborts 1 ∷ begins hash 500 ∷ ends hash 0 ∷ []

run-existing_example : (lookup (run key signing_state busy).cache hash 900).1 ≡ existing 0
run-existing_example = run-existing hash 0 key signing_state busy 900 signing-InFlight refl

-- A key that never answers.
abbrev dead_key : Word → ℕ → Attempt
dead_key w n = attempt_failed "down"

abbrev evicted : State
evicted = step dead_key signing_state (settles 0 0 1)

fails : sign_hash_with_retry (dead_key hash 0) (dead_key hash 1) ≡ err "down"
unfolding sign_hash_with_retry
fails = refl

settle-fresh_example :
    (in_flight_in (cell evicted.cache 0) ≡ true)
    × ((lookup evicted.cache hash 9).1 ≡ fresh signing_cache.next_entry)
    × ((finish (step dead_key evicted (sends 0)).cache hash 0).1 ≡ err (sign_failed "down"))
    × ((lookup (step dead_key evicted (sends 0)).cache hash 9).1 ≡ fresh signing_cache.next_entry)
unfolding HashMap.get
settle-fresh_example =
    settle-fresh dead_key signing_state hash 0 0 1 "down" 9 signing-InFlight refl fails

starts : (lookup empty_cache hash 0).1 ≡ fresh 0
unfolding lookup start HashMap.get
starts = refl

lookup-Bounded_example : Bounded (lookup empty_cache hash 0).0
lookup-Bounded_example = lookup-Bounded empty_cache hash 0 0 starts

-- The task of the entry ends while the request waits.
abbrev between : List Op
between = settles 0 0 0 ∷ sends 0 ∷ []

signs_from_start :
    (let s = run key (initial empty_cache) [] in
      (finish
        (run key (step key s (begins hash 0)) between).cache
        hash
        (entry_of (begin s.cache hash 0).1)).1)
    ≡ ok hash
unfolding run step task broadcast begin lookup start settle send sign_hash_with_retry finish
    HashMap.get HashMap.insert
signs_from_start = refl

run-Signs_example : Signs key hash hash
run-Signs_example =
    run-Signs key signature_cache_idle_ttl signature_cache_max_entries [] between hash 0 hash
      signs_from_start
