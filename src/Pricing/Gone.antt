-- ===== src/Pricing/Gone.antt =====
-- A symbol that is forgotten and no longer subscribed does not come back.
use st0x_oracle_server.Base.HashMap
use st0x_oracle_server.Base.{
  none, some, pair_eq, string_eq, nat_eq, ◌≡◌, String, List, ℕ, arith, contains, ◌==◌, not, true,
  ap, false, map, ◌∷◌, Option-cases, [], inl, inr, Bool-cases, pair_beq_iff,
}
use st0x_oracle_server.Pricing.{
  Feed, Key, latest, forget, evict, insert_quote, apply_server_frame, halt_asset, disown,
  note_deadline_validity, is_positive, note_failure,
}
use st0x_oracle_server.Wire.{Quote, ServerFrame, price, error, halt, ping, stale_source, other_code}
use st0x_oracle_server.Pricing.Events.{step, arrives, run, Event}
use text.Mathlib.TextEquality.{eq_iff}

abbrev pub IsGone : Feed → Key → Type 0
IsGone f k = HashMap.get k f.entries ≡ none

evict-IsGone :
    (f : Feed) (symbols : List String) (k : Key) → IsGone f k → IsGone (evict f symbols).0 k
unfolding evict
evict-IsGone f symbols k h =
    ground (arith, HashMap.get-retain_keys k (λ (j : Key). not (contains j.1 symbols)) f.entries)

pub forget-IsGone :
    (f : Feed) (symbols : List String) (k : Key)
    → contains k.1 symbols ≡ true
    → IsGone (forget f symbols).0 k
unfolding forget evict
forget-IsGone f [] k h = absurd (ground arith)
forget-IsGone f (s ∷ symbols) k h =
    ground
      (arith, HashMap.get-retain_keys k (λ (j : Key). not (contains j.1 (s ∷ symbols))) f.entries)

contains-eq : (a b : String) (xs : List String) → a ≡ b → contains a xs ≡ contains b xs
contains-eq a b xs h = ap (λ c. contains c xs) h

insert_quote-IsGone :
    (f : Feed) (q : Quote) (k : Key)
    → ((q.chain_id, q.asset) == k) ≡ false
    → IsGone f k
    → IsGone (insert_quote f q) k
unfolding insert_quote
insert_quote-IsGone f q k d h = elim (Option-cases (HashMap.get (q.chain_id, q.asset) f.entries)) [
  | inl e ↦ ground (
    arith,
    HashMap.get-insert k (q.chain_id, q.asset)
        (record { quote = q; generation = f.next_generation }) f.entries,
  )
  | inr (c, e) ↦ ground (
    arith,
    HashMap.get-insert k (q.chain_id, q.asset) (record { quote = q; generation = c.generation })
        f.entries,
  )
]

step-IsGone :
    (f : Feed) (assets : List String) (frame : ServerFrame) (k : Key)
    → contains k.1 assets ≡ false
    → IsGone f k
    → IsGone (step f (arrives (some assets) frame)) k
unfolding step apply_server_frame halt_asset disown
step-IsGone f assets (price q) k d h =
    let noted =
      note_deadline_validity f (q.chain_id, q.asset) (is_positive q.execution_deadline_unix_ms) in
    elim (Bool-cases (contains q.asset assets)) [
      | inr e ↦ ground arith
      | inl e ↦ ground (
        arith,
        insert_quote-IsGone noted q k,
        pair_beq_iff (q.chain_id, q.asset) k,
        contains-eq q.asset k.1 assets,
        eq_iff q.asset k.1,
      )
    ]
step-IsGone f assets (error stale_source (some asset)) k d h =
    evict-IsGone (note_failure f "pricing_error_frame") (asset ∷ []) k h
step-IsGone f assets (error stale_source none) k d h = h
step-IsGone f assets (error other_code asset) k d h = h
step-IsGone f assets (halt chain_id asset true) k d h =
    ground (arith, HashMap.get-remove k (chain_id, asset) f.entries)
step-IsGone f assets (halt chain_id asset false) k d h = h
step-IsGone f assets (ping ts) k d h = h

abbrev pub frames_under : List String → List ServerFrame → List Event
frames_under assets frames = map (λ (frame : ServerFrame). arrives (some assets) frame) frames

pub run-IsGone :
    (f : Feed) (assets : List String) (frames : List ServerFrame) (k : Key)
    → contains k.1 assets ≡ false
    → IsGone f k
    → IsGone (run f (frames_under assets frames)) k
unfolding run
run-IsGone f assets [] k d h = h
run-IsGone f assets (frame ∷ frames) k d h =
    run-IsGone (step f (arrives (some assets) frame)) assets frames k d
      (step-IsGone f assets frame k d h)

pub IsGone-latest :
    (f : Feed) (chain_id : ℕ) (symbol : String)
    → IsGone f (chain_id, symbol)
    → latest f chain_id symbol ≡ none
unfolding latest
IsGone-latest f chain_id symbol h = ground arith
