-- ===== src/Pricing/Liveness.antt =====
-- When a snapshot of a cached quote may still be signed or served.
use st0x_oracle_server.Base.HashMap
use mathlib.Core.Option
use st0x_oracle_server.Pricing.{
  Feed, Key, evicted, QuoteGeneration, CachedQuote, evict, insert_quote, halt_asset,
  apply_server_frame, forget, note_deadline_validity, is_positive, subscribed, is_live, latest,
  note_failure,
}
use st0x_oracle_server.Base.{
  ℕ, List, Option, Bool, ◌≡◌, pair_eq, nat_eq, string_eq, some, false, contains, ◌==◌, arith, true,
  String, not, nat_beq_iff, pair_beq_iff, ◌∷◌, Option-cases, [], inl, inr, none, refl, Bool-cases,
  ap, any, subst,
}
use st0x_oracle_server.Pricing.Invariant.{Entries, Owned, key_of, IsValid}
use st0x_oracle_server.Wire.{Quote, price, error, halt, ping, stale_source, other_code}
use st0x_oracle_server.Pricing.Preserved.{contains-append, step-IsValid}
use st0x_oracle_server.Pricing.Events.{step, Event, disowns, arrives, forgets, run}
use text.Mathlib.TextEquality.{eq_iff}
use st0x_oracle_server.Pricing.Revoked.{run_dead}

-- The generation of the entry at a key.
abbrev pub generation_at : Feed → Key → Option QuoteGeneration
generation_at f k = Option.map (λ c. c.generation) (HashMap.get k f.entries)

get-live :
    (n : ℕ) (r : List QuoteGeneration) (k : Key) (c : CachedQuote) (m : Entries)
    → HashMap.get k m ≡ some c
    → Owned n r m
    → contains c.generation r ≡ false
unfolding HashMap.get
get-live n r k c [] e o = absurd (ground arith)
get-live n r k c ((j, d) ∷ m) e o = ground (arith, get-live n r k c m)

evicted-contains :
    (keep : Key → Bool) (k : Key) (c : CachedQuote) (m : Entries)
    → HashMap.get k m ≡ some c
    → keep k ≡ false
    → contains c.generation (evicted keep m) ≡ true
unfolding evicted HashMap.get
evicted-contains keep k c [] e h = ground arith
evicted-contains keep k c ((j, d) ∷ m) e h =
    ground
      (arith, pair_beq_iff j k, nat_beq_iff d.generation d.generation, evicted-contains keep k c m)

module _ (f : Feed) (k : Key) (c : CachedQuote) (at : HashMap.get k f.entries ≡ some c) where
  evict_kills :
      (symbols : List String)
      → contains k.1 symbols ≡ true
      → contains c.generation (evict f symbols).0.revoked ≡ true
  unfolding evict
  evict_kills symbols h =
      let keep = λ (j : Key). not (contains j.1 symbols) in
      ground (
        arith,
        evicted-contains keep k c f.entries at,
        contains-append c.generation (evicted keep f.entries) f.revoked,
      )

  evict_keeps :
      (symbols : List String)
      → contains k.1 symbols ≡ false
      → HashMap.get k (evict f symbols).0.entries ≡ some c
  unfolding evict
  evict_keeps symbols h =
      ground (arith, HashMap.get-retain_keys k (λ (j : Key). not (contains j.1 symbols)) f.entries)

  halt_kills : contains c.generation (halt_asset f k).revoked ≡ true
  unfolding halt_asset
  halt_kills = ground (arith, nat_beq_iff c.generation c.generation)

  halt_keeps : (j : Key) → (k == j) ≡ false → HashMap.get k (halt_asset f j).entries ≡ some c
  unfolding halt_asset
  halt_keeps j h =
      ground (arith, HashMap.get-remove k j f.entries, pair_beq_iff j k, pair_beq_iff k j)

  insert_keeps : (q : Quote) → generation_at (insert_quote f q) k ≡ some c.generation
  unfolding insert_quote
  insert_keeps q = elim (Option-cases (HashMap.get (key_of q) f.entries)) [
    | inl e ↦
        rw (e, insert_quote)
          (ground (
            arith,
            HashMap.get-insert k (key_of q) (record { quote = q; generation = f.next_generation })
                f.entries,
            pair_beq_iff (key_of q) k,
          ))
    | inr (p, e) ↦
        rw (e, insert_quote)
          (ground (
            arith,
            HashMap.get-insert k (key_of q) (record { quote = q; generation = p.generation })
                f.entries,
            pair_beq_iff (key_of q) k,
          ))
  ]

note-entries : (f : Feed) (j : Key) (b : Bool) → (note_deadline_validity f j b).entries ≡ f.entries
note-entries f j true = refl
note-entries f j false = refl

price_keeps :
    (f : Feed) (k : Key) (c : CachedQuote) (assets : Option (List String)) (q : Quote)
    → HashMap.get k f.entries ≡ some c
    → generation_at (apply_server_frame f assets (price q)).0 k ≡ some c.generation
unfolding apply_server_frame
price_keeps f k c assets q at =
    let b = is_positive q.execution_deadline_unix_ms in
    let noted = note_deadline_validity f (key_of q) b in
    let same : HashMap.get k noted.entries ≡ some c = rw (note-entries f (key_of q) b) at in
    elim (Bool-cases (subscribed assets q.asset)) [
      | inl e ↦ rw e (insert_keeps _ k c same q)
      | inr e ↦ rw e (ap (Option.map (λ (d : CachedQuote). d.generation)) same)
    ]

module _ (f : Feed) (k : Key) (c : CachedQuote) (at : HashMap.get k f.entries ≡ some c) where
  step_keeps : (ev : Event) → disowns k ev ≡ false → generation_at (step f ev) k ≡ some c.generation
  unfolding step apply_server_frame forget
  step_keeps (arrives assets (price q)) h = price_keeps f k c assets q at
  step_keeps (arrives assets (error stale_source (some asset))) h =
      ap (Option.map (λ (d : CachedQuote). d.generation)) (
        evict_keeps (note_failure f "pricing_error_frame") k c at (asset ∷ [])
          (ground (arith, eq_iff asset k.1, eq_iff k.1 asset)))
  step_keeps (arrives assets (error stale_source none)) h = ground arith
  step_keeps (arrives assets (error other_code asset)) h = ground arith
  step_keeps (arrives assets (halt chain_id asset true)) h =
      ap (Option.map (λ (d : CachedQuote). d.generation)) (halt_keeps f k c at (chain_id, asset) h)
  step_keeps (arrives assets (halt chain_id asset false)) h = ground arith
  step_keeps (arrives assets (ping ts)) h = ground arith
  step_keeps (forgets []) h = ground arith
  step_keeps (forgets (s ∷ symbols)) h =
      ap (Option.map (λ (d : CachedQuote). d.generation)) (evict_keeps f k c at (s ∷ symbols) h)

  step_kills : (ev : Event) → disowns k ev ≡ true → contains c.generation (step f ev).revoked ≡ true
  unfolding step apply_server_frame forget
  step_kills (arrives assets (price q)) h = ground arith
  step_kills (arrives assets (error stale_source (some asset))) h =
      evict_kills (note_failure f "pricing_error_frame") k c at (asset ∷ [])
        (ground (arith, eq_iff asset k.1, eq_iff k.1 asset))
  step_kills (arrives assets (error stale_source none)) h = ground arith
  step_kills (arrives assets (error other_code asset)) h = ground arith
  step_kills (arrives assets (halt chain_id asset true)) h =
      let same : k ≡ (chain_id, asset) = (pair_beq_iff k (chain_id, asset)).0 h in
      subst (λ j. contains c.generation (halt_asset f j).revoked ≡ true) same (halt_kills f k c at)
  step_kills (arrives assets (halt chain_id asset false)) h = ground arith
  step_kills (arrives assets (ping ts)) h = ground arith
  step_kills (forgets []) h = ground arith
  step_kills (forgets (s ∷ symbols)) h = evict_kills f k c at (s ∷ symbols) h

entry_at :
    (f : Feed) (k : Key) (g : QuoteGeneration)
    → generation_at f k ≡ some g
    → (c : CachedQuote) × (HashMap.get k f.entries ≡ some c) × (c.generation ≡ g)
entry_at f k g e =
    (Option.map-eq-some_iff (λ (d : CachedQuote). d.generation) (HashMap.get k f.entries)).0 e

generation_at-is_live :
    (f : Feed) (k : Key) (g : QuoteGeneration)
    → IsValid f
    → generation_at f k ≡ some g
    → is_live f g ≡ true
generation_at-is_live f k g v e =
    let (c, at, same) = entry_at f k g e in
    ground (arith, get-live f.next_generation f.revoked k c f.entries at v.owned)

-- A snapshot of a cached quote is live after a history exactly when no event of the history
-- disowned its key: price frames and events of other keys leave it live, and nothing revives it.
pub run-is_live :
    (f : Feed) (k : Key) (g : QuoteGeneration) (evs : List Event)
    → IsValid f
    → generation_at f k ≡ some g
    → is_live (run f evs) g ≡ not (any (disowns k) evs)
unfolding run
run-is_live f k g [] v at = generation_at-is_live f k g v at
run-is_live f k g (ev ∷ evs) v e =
    let (c, at, same) = entry_at f k g e in
    elim (Bool-cases (disowns k ev)) [
      | inl yes_ ↦ ground (arith, step_kills f k c at ev yes_, run_dead g (step f ev) evs)
      | inr no_ ↦
          ground (
            arith,
            step_keeps f k c at ev no_,
            run-is_live (step f ev) k g evs (step-IsValid f ev v),
          )
    ]

-- What a request reads of the cache, a quote with its liveness, is live at that moment.
pub latest-is_live :
    (f : Feed) (chain_id : ℕ) (symbol : String) (q : Quote)
    → IsValid f
    → latest f chain_id symbol ≡ some q
    → (g : QuoteGeneration) × (generation_at f (chain_id, symbol) ≡ some g) × (is_live f g ≡ true)
unfolding latest
latest-is_live f chain_id symbol q v e =
    let (c, at, same) =
      (Option.map-eq-some_iff (λ (d : CachedQuote). d.quote)
          (HashMap.get (chain_id, symbol) f.entries)).0
        e in
    let here = ap (Option.map (λ (d : CachedQuote). d.generation)) at in
    (c.generation, here, generation_at-is_live f (chain_id, symbol) c.generation v here)
