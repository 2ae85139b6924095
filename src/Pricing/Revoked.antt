-- ===== src/Pricing/Revoked.antt =====
-- A generation that was revoked is never live again.
use st0x_oracle_server.Pricing.{
  Feed, Key, evicted, QuoteGeneration, evict, insert_quote, halt_asset, apply_server_frame, forget,
  note_deadline_validity, is_positive, note_failure,
}
use st0x_oracle_server.Base.{
  List, ◌≡◌, pair_eq, nat_eq, string_eq, some, false, contains, arith, true, String, not, ◌∷◌, [],
  none,
}
use st0x_oracle_server.Pricing.Invariant.{key_of}
use st0x_oracle_server.Wire.{Quote, price, error, halt, ping, stale_source, other_code}
use st0x_oracle_server.Pricing.Preserved.{contains-append}
use st0x_oracle_server.Pricing.Events.{step, Event, arrives, forgets, run}

module _ (g : QuoteGeneration) where
  evict_dead :
      (f : Feed) (symbols : List String)
      → contains g f.revoked ≡ true
      → contains g (evict f symbols).0.revoked ≡ true
  unfolding evict
  evict_dead f symbols h =
      let keep = λ (j : Key). not (contains j.1 symbols) in
      ground (arith, contains-append g (evicted keep f.entries) f.revoked)

  insert_dead :
      (f : Feed) (q : Quote)
      → contains g f.revoked ≡ true
      → contains g (insert_quote f q).revoked ≡ true
  unfolding insert_quote
  insert_dead f q h = ground arith

  -- Nothing revives a revoked generation.
  pub step_dead :
      (f : Feed) (ev : Event) → contains g f.revoked ≡ true → contains g (step f ev).revoked ≡ true
  unfolding step apply_server_frame forget halt_asset
  step_dead f (arrives assets (price q)) h = ground (
    arith,
    insert_dead (note_deadline_validity f (key_of q) (is_positive q.execution_deadline_unix_ms)) q,
  )
  step_dead f (arrives assets (error stale_source (some asset))) h =
      evict_dead (note_failure f "pricing_error_frame") (asset ∷ []) h
  step_dead f (arrives assets (error stale_source none)) h = h
  step_dead f (arrives assets (error other_code asset)) h = h
  step_dead f (arrives assets (halt chain_id asset true)) h = ground arith
  step_dead f (arrives assets (halt chain_id asset false)) h = h
  step_dead f (arrives assets (ping ts)) h = h
  step_dead f (forgets []) h = h
  step_dead f (forgets (s ∷ symbols)) h = evict_dead f (s ∷ symbols) h

  pub run_dead :
      (f : Feed) (evs : List Event)
      → contains g f.revoked ≡ true
      → contains g (run f evs).revoked ≡ true
  unfolding run
  run_dead f [] h = h
  run_dead f (ev ∷ evs) h = run_dead (step f ev) evs (step_dead f ev h)
