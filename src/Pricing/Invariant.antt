-- ===== src/Pricing/Invariant.antt =====
-- The cache keeps each quote under its own chain and asset, each entry has a generation of its
-- own, and no cached generation is revoked.
use st0x_oracle_server.Base.HashMap
use st0x_oracle_server.Base.{
  List, ℕ, All, ◌<◌, ◌≡◌, none, contains, some, false, arith, ◌∷◌, suc, ◌≢◌, [], pair_eq, nat_eq,
  string_eq, refl, pair_beq_iff, subst,
}
use st0x_oracle_server.Wire.{Quote}
use st0x_oracle_server.Pricing.{Key, Feed, CachedQuote, QuoteGeneration}

abbrev pub Entries : Type 0
Entries = List (Key × CachedQuote)

abbrev pub key_of : Quote → Key
key_of q = (q.chain_id, q.asset)

abbrev pub Apart : Key → QuoteGeneration → Entries → Type 0
Apart k g [] = Unit
Apart k g ((j, c) ∷ m) = (j ≢ k) × (c.generation ≢ g) × Apart k g m

-- The entries are keyed by their quotes, live, and apart; `n` is above every generation.
abbrev pub Owned : ℕ → List QuoteGeneration → Entries → Type 0
Owned n r [] = Unit
Owned n r ((k, c) ∷ m) =
    (k ≡ key_of c.quote)
    × (c.generation < n)
    × (contains c.generation r ≡ false)
    × Apart k c.generation m
    × Owned n r m

pub record IsValid (f : Feed) : Type 0 where
  pub owned : Owned f.next_generation f.revoked f.entries
  pub below : All (λ g. g < f.next_generation) f.revoked

-- A generation that is not yet given out is apart from all entries, and not revoked.
pub Apart-fresh :
    (n : ℕ) (r : List QuoteGeneration) (k : Key) (m : Entries)
    → Owned n r m
    → HashMap.get k m ≡ none
    → Apart k n m
unfolding HashMap.get
Apart-fresh n r k [] h e = tt
Apart-fresh n r k ((j, c) ∷ m) h e = ground (arith, pair_beq_iff j k, Apart-fresh n r k m h.4)

pub below-fresh : (n : ℕ) (r : List QuoteGeneration) → All (λ g. g < n) r → contains n r ≡ false
below-fresh n [] h = refl
below-fresh n (g ∷ r) h = ground (arith, below-fresh n r h.1)

pub Apart-insert :
    (k j : Key) (g : QuoteGeneration) (c : CachedQuote) (m : Entries)
    → j ≢ k
    → c.generation ≢ g
    → Apart k g m
    → Apart k g (HashMap.insert j c m)
unfolding HashMap.insert
Apart-insert k j g c [] hj hg h = ground arith
Apart-insert k j g c ((i, d) ∷ m) hj hg h =
    ground (arith, pair_beq_iff i j, Apart-insert k j g c m hj hg h.2)

pub Owned-suc : (n : ℕ) (r : List QuoteGeneration) (m : Entries) → Owned n r m → Owned (suc n) r m
Owned-suc n r [] h = tt
Owned-suc n r ((k, c) ∷ m) h = (h.0, omega arith, h.2, h.3, Owned-suc n r m h.4)

pub insert_new-Owned :
    (n : ℕ) (r : List QuoteGeneration) (k : Key) (c : CachedQuote) (m : Entries)
    → k ≡ key_of c.quote
    → c.generation ≡ n
    → HashMap.get k m ≡ none
    → contains n r ≡ false
    → Owned n r m
    → Owned (suc n) r (HashMap.insert k c m)
unfolding HashMap.get HashMap.insert
insert_new-Owned n r k c [] e g h b o = ground arith
insert_new-Owned n r k c ((j, d) ∷ m) e g h b o =
    ground
      (arith, pair_beq_iff j k, insert_new-Owned n r k c m e g, Apart-insert j k d.generation c m)

pub Apart-key : (k j : Key) (g : QuoteGeneration) (m : Entries) → k ≡ j → Apart k g m → Apart j g m
Apart-key k j g m e h = subst (λ i. Apart i g m) e h

pub get-Apart :
    (k j : Key) (g : QuoteGeneration) (m : Entries) (c : CachedQuote)
    → HashMap.get j m ≡ some c
    → Apart k g m
    → (j ≢ k) × (c.generation ≢ g)
unfolding HashMap.get
get-Apart k j g [] c e h = ground arith
get-Apart k j g ((i, d) ∷ m) c e h = ground (arith, pair_beq_iff i j, get-Apart k j g m c)

pub insert_old-Owned :
    (n : ℕ) (r : List QuoteGeneration) (k : Key) (c p : CachedQuote) (m : Entries)
    → k ≡ key_of c.quote
    → HashMap.get k m ≡ some p
    → c.generation ≡ p.generation
    → Owned n r m
    → Owned n r (HashMap.insert k c m)
unfolding HashMap.get HashMap.insert
insert_old-Owned n r k c p [] e h g o = ground arith
insert_old-Owned n r k c p ((j, d) ∷ m) e h g o = ground (
  arith,
  pair_beq_iff j k,
  insert_old-Owned n r k c p m e,
  get-Apart j k d.generation m p,
  Apart-insert j k d.generation c m,
  Apart-key j k d.generation m,
)
