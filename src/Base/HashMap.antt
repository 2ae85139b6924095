-- ===== src/Base/HashMap.antt =====
-- A hash map as an association list. Its laws do not depend on the order of the entries.
use Prim.Native.Nat.{suc, ◌≤◌}
use mathlib.Core.Path.{◌≡◌, refl, subst}
use mathlib.Core.Logic.{inl, inr}
use mathlib.Core.Bool.{Bool, true}
use mathlib.Core.List.{List, [], ◌∷◌}
use mathlib.Core.Option.{Option, none, some}
use native.Mathlib.Omega.{arith}
use st0x_oracle_server.Base.Tests.{if◌then◌else◌, Bool-cases}
use st0x_oracle_server.Base.Lists.{All, length}
use st0x_oracle_server.Base.Equality.{Eq, ◌==◌}

module _ {ℓ κ} {K : Type ℓ} {V : Type κ} where
  -- Drops every entry whose key fails the test.
  unfoldable pub retain_keys : (K → Bool) → List (K × V) → List (K × V)
  retain_keys p [] = []
  retain_keys p ((j, w) ∷ m) = if p j then (j, w) ∷ retain_keys p m else retain_keys p m

  -- Drops every entry whose value fails the test.
  unfoldable pub retain : (V → Bool) → List (K × V) → List (K × V)
  retain p [] = []
  retain p ((j, w) ∷ m) = if p w then (j, w) ∷ retain p m else retain p m

module _ {ℓ κ} {K : Type ℓ} {V : Type κ} ⦃e : Eq K⦄ where
  unfoldable pub get : K → List (K × V) → Option V
  get k [] = none
  get k ((j, v) ∷ m) = if j == k then some v else get k m

  unfoldable pub insert : K → V → List (K × V) → List (K × V)
  insert k v [] = (k, v) ∷ []
  insert k v ((j, w) ∷ m) = if j == k then (k, v) ∷ m else (j, w) ∷ insert k v m

  unfoldable pub remove : K → List (K × V) → List (K × V)
  remove k [] = []
  remove k ((j, w) ∷ m) = if j == k then remove k m else (j, w) ∷ remove k m

  pub get-insert :
      (j k : K) (v : V) (m : List (K × V))
      → get j (insert k v m) ≡ (if k == j then some v else get j m)
  unfolding get insert
  get-insert j k v [] = refl
  get-insert j k v ((i, w) ∷ m) =
      ground (arith, e.beq_iff i k, e.beq_iff i j, e.beq_iff k j, get-insert j k v m)

  pub get-here : (k : K) (v : V) (m : List (K × V)) → get k (insert k v m) ≡ some v
  get-here k v m = ground (arith, get-insert k k v m, e.beq_iff k k)

  pub get-remove :
      (j k : K) (m : List (K × V)) → get j (remove k m) ≡ (if k == j then none else get j m)
  unfolding get remove
  get-remove j k [] = ground arith
  get-remove j k ((i, w) ∷ m) =
      ground (arith, e.beq_iff i k, e.beq_iff i j, e.beq_iff k j, get-remove j k m)

  pub get-retain_keys :
      (j : K) (p : K → Bool) (m : List (K × V))
      → get j (retain_keys p m) ≡ (if p j then get j m else none)
  unfolding get retain_keys
  get-retain_keys j p [] = ground arith
  get-retain_keys j p ((i, w) ∷ m) = ground (arith, e.beq_iff i j, get-retain_keys j p m)

module _ {ℓ κ μ} {K : Type ℓ} {V : Type κ} (P : K × V → Type μ) where
  pub All-retain : (p : V → Bool) (m : List (K × V)) → All P m → All P (retain p m)
  unfolding retain
  All-retain p [] h = h
  All-retain p ((j, w) ∷ m) h = elim (Bool-cases (p w)) [
    | inl e ↦ rw e (h.0, All-retain p m h.1)
    | inr e ↦ rw e (All-retain p m h.1)
  ]

module _ {ℓ κ} {K : Type ℓ} {V : Type κ} where
  -- What `retain` keeps passes its test.
  pub All-kept :
      (p : V → Bool) (m : List (K × V)) → All (λ (kv : K × V). p kv.1 ≡ true) (retain p m)
  unfolding retain
  All-kept p [] = tt
  All-kept p ((j, w) ∷ m) = elim (Bool-cases (p w)) [
    | inl e ↦ rw e (e, All-kept p m)
    | inr e ↦ rw e (All-kept p m)
  ]

module _ {ℓ κ μ} {K : Type ℓ} {V : Type κ} (P : K × V → Type μ) ⦃e : Eq K⦄ where
  pub All-insert : (k : K) (v : V) (m : List (K × V)) → P (k, v) → All P m → All P (insert k v m)
  unfolding insert
  All-insert k v [] h hm = (h, tt)
  All-insert k v ((j, w) ∷ m) h hm = elim (Bool-cases (j == k)) [
    | inl t ↦ rw t (h, hm.1)
    | inr t ↦ rw t (hm.0, All-insert k v m h hm.1)
  ]

  pub All-remove : (k : K) (m : List (K × V)) → All P m → All P (remove k m)
  unfolding remove
  All-remove k [] h = h
  All-remove k ((j, w) ∷ m) h = elim (Bool-cases (j == k)) [
    | inl t ↦ rw t (All-remove k m h.1)
    | inr t ↦ rw t (h.0, All-remove k m h.1)
  ]

  pub All-get : (k : K) (v : V) (m : List (K × V)) → get k m ≡ some v → All P m → P (k, v)
  unfolding get
  All-get k v [] g h = cc
  All-get k v ((j, w) ∷ m) g h = elim (Bool-cases (j == k)) [
    | inl t ↦
        let same : j ≡ k = (e.beq_iff j k).0 t in
        let val : w ≡ v = ground arith in subst (λ x. P (x, v)) same (subst (λ x. P (j, x)) val h.0)
    | inr t ↦ All-get k v m (ground arith) h.1
  ]

module _ {ℓ κ} {K : Type ℓ} {V : Type κ} ⦃e : Eq K⦄ where
  -- An entry that passes the test is still found.
  pub get-retain :
      (k : K) (v : V) (p : V → Bool) (m : List (K × V))
      → get k m ≡ some v
      → p v ≡ true
      → get k (retain p m) ≡ some v
  unfolding get retain
  get-retain k v p [] g h = cc
  get-retain k v p ((j, w) ∷ m) g h = ground (arith, e.beq_iff j k, get-retain k v p m)

  pub length-insert : (k : K) (v : V) (m : List (K × V)) → length (insert k v m) ≤ suc (length m)
  unfolding insert
  length-insert k v [] = omega arith
  length-insert k v ((j, w) ∷ m) = ground (arith, length-insert k v m)
