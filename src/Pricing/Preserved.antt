-- ===== src/Pricing/Preserved.antt =====
-- Every operation on the cache keeps its invariant.
use st0x_oracle_server.Base.HashMap
use st0x_oracle_server.Pricing.{
  Key, QuoteGeneration, insert_quote, evict, evicted, Feed, CachedQuote, halt_asset, disown,
  note_deadline_validity, apply_server_frame, empty, forget, price, is_positive, subscribed,
}
use st0x_oracle_server.Base.{
  ℕ, Bool, List, contains, All, String, ◌≡◌, ◌∷◌, ◌++◌, ◌<◌, arith, some, ◌||◌, false, suc,
  Option-cases, not, [], pair_beq_iff, inl, pair_eq, nat_eq, string_eq, refl, inr, true, Option,
  none, Bool-cases,
}
use st0x_oracle_server.Pricing.Events.{step, Event, run, arrives, forgets}
use st0x_oracle_server.Pricing.Invariant.{
  Entries, Apart, Owned, IsValid, get-Apart, Apart-key, insert_new-Owned, key_of, below-fresh,
  insert_old-Owned,
}
use st0x_oracle_server.Wire.{Quote, ErrorCode, stale_source, error, other_code, halt, ping}

Apart-remove :
    (k j : Key) (g : QuoteGeneration) (m : Entries) → Apart k g m → Apart k g (HashMap.remove j m)
unfolding HashMap.remove
Apart-remove k j g [] h = tt
Apart-remove k j g ((i, d) ∷ m) h = ground (arith, Apart-remove k j g m h.2)

Apart-retain :
    (k : Key) (g : QuoteGeneration) (keep : Key → Bool) (m : Entries)
    → Apart k g m
    → Apart k g (HashMap.retain_keys keep m)
unfolding HashMap.retain_keys
Apart-retain k g keep [] h = tt
Apart-retain k g keep ((i, d) ∷ m) h = ground (arith, Apart-retain k g keep m h.2)

remove_absent : (k : Key) (g : QuoteGeneration) (m : Entries) → Apart k g m → HashMap.remove k m ≡ m
unfolding HashMap.remove
remove_absent k g [] h = refl
remove_absent k g ((i, d) ∷ m) h = ground (arith, pair_beq_iff i k, remove_absent k g m h.2)

-- To revoke a generation that no entry has keeps the entries.
Owned-revoke :
    (n : ℕ) (r : List QuoteGeneration) (k : Key) (g : QuoteGeneration) (m : Entries)
    → Apart k g m
    → Owned n r m
    → Owned n (g ∷ r) m
Owned-revoke n r k g [] a o = tt
Owned-revoke n r k g ((j, d) ∷ m) a o = ground (arith, Owned-revoke n r k g m a.2 o.4)

remove-Owned :
    (n : ℕ) (r : List QuoteGeneration) (k : Key) (c : CachedQuote) (m : Entries)
    → HashMap.get k m ≡ some c
    → Owned n r m
    → Owned n (c.generation ∷ r) (HashMap.remove k m)
unfolding HashMap.get HashMap.remove
remove-Owned n r k c [] e o = tt
remove-Owned n r k c ((j, d) ∷ m) e o = ground (
  arith,
  pair_beq_iff j k,
  remove-Owned n r k c m,
  get-Apart j k d.generation m c,
  Apart-remove j k d.generation m,
  Apart-key j k d.generation m,
  remove_absent k d.generation m,
  Owned-revoke n r j d.generation m o.3 o.4,
)

pub contains-append :
    (g : QuoteGeneration) (a b : List QuoteGeneration)
    → contains g (a ++ b) ≡ (contains g a || contains g b)
contains-append g [] b = refl
contains-append g (h ∷ a) b = ground (arith, contains-append g a b)

evicted-Apart :
    (k : Key) (g : QuoteGeneration) (keep : Key → Bool) (m : Entries)
    → Apart k g m
    → contains g (evicted keep m) ≡ false
unfolding evicted
evicted-Apart k g keep [] h = refl
evicted-Apart k g keep ((j, d) ∷ m) h = ground (arith, evicted-Apart k g keep m h.2)

evict-Owned :
    (n : ℕ) (r : List QuoteGeneration) (keep : Key → Bool) (m : Entries)
    → Owned n r m
    → Owned n (evicted keep m ++ r) (HashMap.retain_keys keep m)
unfolding evicted HashMap.retain_keys
evict-Owned n r keep [] o = tt
evict-Owned n r keep ((j, d) ∷ m) o = ground (
  arith,
  evict-Owned n r keep m o.4,
  Apart-retain j d.generation keep m o.3,
  evicted-Apart j d.generation keep m o.3,
  contains-append d.generation (evicted keep m) r,
  Owned-revoke n (evicted keep m ++ r) j d.generation (HashMap.retain_keys keep m),
)

evict-below :
    (n : ℕ) (r : List QuoteGeneration) (keep : Key → Bool) (m : Entries)
    → Owned n r m
    → All (λ g. g < n) r
    → All (λ g. g < n) (evicted keep m ++ r)
unfolding evicted
evict-below n r keep [] o h = h
evict-below n r keep ((j, d) ∷ m) o h = ground (arith, evict-below n r keep m o.4 h)

below-suc : (n : ℕ) (r : List QuoteGeneration) → All (λ g. g < n) r → All (λ g. g < suc n) r
below-suc n [] h = tt
below-suc n (g ∷ r) h = (omega arith, below-suc n r h.1)

pub get-below :
    (n : ℕ) (r : List QuoteGeneration) (k : Key) (c : CachedQuote) (m : Entries)
    → HashMap.get k m ≡ some c
    → Owned n r m
    → c.generation < n
unfolding HashMap.get
get-below n r k c [] e o = absurd (ground arith)
get-below n r k c ((j, d) ∷ m) e o = ground (arith, get-below n r k c m)

insert_quote-IsValid : (f : Feed) (q : Quote) → IsValid f → IsValid (insert_quote f q)
unfolding insert_quote
insert_quote-IsValid f q v = elim (Option-cases (HashMap.get (q.chain_id, q.asset) f.entries)) [
  | inl e ↦
      rw (e, insert_quote)
        (record {
          owned =
              insert_new-Owned f.next_generation f.revoked (key_of q)
                (record { quote = q; generation = f.next_generation }) f.entries refl refl e
                (below-fresh f.next_generation f.revoked v.below) v.owned;
          below = below-suc f.next_generation f.revoked v.below;
        })
  | inr (p, e) ↦
      rw (e, insert_quote)
        (record {
          owned =
              insert_old-Owned f.next_generation f.revoked (key_of q)
                (record { quote = q; generation = p.generation }) p f.entries refl e refl v.owned;
          below = v.below;
        })
]

evict-IsValid : (f : Feed) (symbols : List String) → IsValid f → IsValid (evict f symbols).0
unfolding evict
evict-IsValid f symbols v = record {
  owned =
      evict-Owned f.next_generation f.revoked (λ k. not (contains k.1 symbols)) f.entries v.owned;
  below =
      evict-below f.next_generation f.revoked (λ k. not (contains k.1 symbols)) f.entries v.owned
        v.below;
}

halt_asset-IsValid : (f : Feed) (key : Key) → IsValid f → IsValid (halt_asset f key)
unfolding halt_asset
halt_asset-IsValid f key v = elim (Option-cases (HashMap.get key f.entries)) [
  | inl e ↦ rw (e, halt_asset) v
  | inr (c, e) ↦
      rw (e, halt_asset)
        (record {
          owned = remove-Owned f.next_generation f.revoked key c f.entries e v.owned;
          below = (get-below f.next_generation f.revoked key c f.entries e v.owned, v.below);
        })
]

disown-IsValid :
    (f : Feed) (code : ErrorCode) (asset : Option String)
    → IsValid f
    → IsValid (disown f code asset)
unfolding disown
disown-IsValid f stale_source (some asset) v = evict-IsValid f (asset ∷ []) v
disown-IsValid f stale_source none v = v
disown-IsValid f other_code asset v = v

-- What the counters and the log of invalid deadlines hold is no part of the invariant.
note-IsValid :
    (f : Feed) (key : Key) (b : Bool) → IsValid f → IsValid (note_deadline_validity f key b)
note-IsValid f key true v = record { owned = v.owned; below = v.below }
note-IsValid f key false v = record { owned = v.owned; below = v.below }

price-IsValid :
    (f : Feed) (assets : Option (List String)) (q : Quote)
    → IsValid f
    → IsValid (apply_server_frame f assets (price q)).0
unfolding apply_server_frame
price-IsValid f assets q v =
    let noted = note-IsValid f (key_of q) (is_positive q.execution_deadline_unix_ms) v in
    elim (Bool-cases (subscribed assets q.asset)) [
      | inl e ↦ rw e (insert_quote-IsValid _ q noted)
      | inr e ↦ rw e noted
    ]

pub step-IsValid : (f : Feed) (ev : Event) → IsValid f → IsValid (step f ev)
unfolding step apply_server_frame forget
step-IsValid f (arrives assets (price q)) v = unfold step in price-IsValid f assets q v
step-IsValid f (arrives assets (error code asset)) v =
    disown-IsValid _ code asset (record { owned = v.owned; below = v.below })
step-IsValid f (arrives assets (halt chain_id asset true)) v = halt_asset-IsValid f _ v
step-IsValid f (arrives assets (halt chain_id asset false)) v = v
step-IsValid f (arrives assets (ping ts)) v = v
step-IsValid f (forgets []) v = v
step-IsValid f (forgets (s ∷ symbols)) v = evict-IsValid f (s ∷ symbols) v

-- Whatever frames arrive and whatever symbols are forgotten, in any order, every cached quote
-- stands under its own chain and asset, has a generation that no other entry has, and is live.
pub run-IsValid : (f : Feed) (evs : List Event) → IsValid f → IsValid (run f evs)
unfolding run
run-IsValid f [] v = v
run-IsValid f (ev ∷ evs) v = run-IsValid (step f ev) evs (step-IsValid f ev v)

pub empty-IsValid : IsValid empty
empty-IsValid = record { owned = tt; below = tt }
