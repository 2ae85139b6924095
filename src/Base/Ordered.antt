-- ===== src/Base/Ordered.antt =====
-- Total orders as an interface, and the ordered sets (`BTreeSet`) that stand on them.
use Prim.Native.Char.{code}
use text.Mathlib.TextEquality.{Char-path}
use st0x_oracle_server.Base.{
  Bool, String, Eq, ◌≡◌, false, ◌||◌, true, arith, ◌&&◌, ltb, refl, nat_beq, List, ◌∷◌, All,
  contains, [], if◌then◌else◌, ◌==◌, Bool-cases, inl, inr,
}

pub record Ord {ℓ} (A : Type ℓ) : Type ℓ where
  pub lt : A → A → Bool
  pub lt_irrefl : (a : A) → lt a a ≡ false
  pub lt_trans : (a b c : A) → lt a b ≡ true → lt b c ≡ true → lt a c ≡ true
  pub lt_total : (a b : A) → lt a b ≡ false → lt b a ≡ false → a ≡ b

-- `str` is ordered by its bytes, which is the order of its code points.
abbrev pub text_lt : String → String → Bool
text_lt String.[] String.[] = false
text_lt String.[] (String.◌∷◌ d t) = true
text_lt (String.◌∷◌ c s) String.[] = false
text_lt (String.◌∷◌ c s) (String.◌∷◌ d t) =
    ltb (code c) (code d) || (nat_beq (code c) (code d) && text_lt s t)

pub text_irrefl : (s : String) → text_lt s s ≡ false
text_irrefl String.[] = refl
text_irrefl (String.◌∷◌ c s) = ground (arith, text_irrefl s)

pub text_trans : (s t u : String) → text_lt s t ≡ true → text_lt t u ≡ true → text_lt s u ≡ true
text_trans String.[] String.[] u h k = cc
text_trans String.[] (String.◌∷◌ d t) String.[] h k = cc
text_trans String.[] (String.◌∷◌ d t) (String.◌∷◌ e u) h k = refl
text_trans (String.◌∷◌ c s) String.[] u h k = cc
text_trans (String.◌∷◌ c s) (String.◌∷◌ d t) String.[] h k = cc
text_trans (String.◌∷◌ c s) (String.◌∷◌ d t) (String.◌∷◌ e u) h k = ground (arith, text_trans s t u)

pub text_total : (s t : String) → text_lt s t ≡ false → text_lt t s ≡ false → s ≡ t
text_total String.[] String.[] h k = refl
text_total String.[] (String.◌∷◌ d t) h k = cc
text_total (String.◌∷◌ c s) String.[] h k = cc
text_total (String.◌∷◌ c s) (String.◌∷◌ d t) h k =
    let same : code c ≡ code d = ground arith in
    let rest : s ≡ t = ground (arith, text_total s t) in cc (Char-path c d same, rest)

instance abbrev pub text_ord : Ord String
text_ord = record {
  lt = text_lt;
  lt_irrefl = text_irrefl;
  lt_trans = text_trans;
  lt_total = text_total;
}

-- Pairs are ordered by the first part, then by the second.
module _ {ℓ κ} {A : Type ℓ} {B : Type κ} ⦃o : Ord A⦄ ⦃e : Eq A⦄ ⦃p : Ord B⦄ where
  abbrev pub pair_lt : A × B → A × B → Bool
  pair_lt (a, b) (c, d) = o.lt a c || (e.beq a c && p.lt b d)

  pub pair_irrefl : (x : A × B) → pair_lt x x ≡ false
  pair_irrefl (a, b) = ground (arith, o.lt_irrefl a, p.lt_irrefl b)

  pub pair_trans : (x y z : A × B) → pair_lt x y ≡ true → pair_lt y z ≡ true → pair_lt x z ≡ true
  pair_trans (a, b) (c, d) (f, g) h k =
      ground
        (arith, o.lt_trans a c f, p.lt_trans b d g, e.beq_iff a c, e.beq_iff c f, e.beq_iff a f)

  pub pair_total : (x y : A × B) → pair_lt x y ≡ false → pair_lt y x ≡ false → x ≡ y
  pair_total (a, b) (c, d) h k =
      let first : a ≡ c = ground (arith, o.lt_total a c) in
      let second : b ≡ d = ground (arith, e.beq_iff a c, e.beq_iff c a, p.lt_total b d) in
      cc (first, second)

  instance abbrev pub pair_ord : Ord (A × B)
  pair_ord = record {
    lt = pair_lt;
    lt_irrefl = pair_irrefl;
    lt_trans = pair_trans;
    lt_total = pair_total;
  }

-- `BTreeSet`: a list in strictly increasing order.
module _ {ℓ} {A : Type ℓ} ⦃o : Ord A⦄ ⦃e : Eq A⦄ where
  unfoldable pub insert : A → List A → List A
  insert a [] = a ∷ []
  insert a (x ∷ xs) = if o.lt a x then a ∷ x ∷ xs else if e.beq a x then x ∷ xs else x ∷ insert a xs

  unfoldable pub collect : List A → List A
  collect [] = []
  collect (a ∷ as') = insert a (collect as')

  -- Above every element of the rest.
  abbrev pub Below : A → List A → Type 0
  Below a xs = All (λ x. o.lt a x ≡ true) xs

  abbrev pub IsSorted : List A → Type 0
  IsSorted [] = Unit
  IsSorted (x ∷ xs) = Below x xs × IsSorted xs

  pub contains-insert :
      (b a : A) (xs : List A) → contains b (insert a xs) ≡ ((a == b) || contains b xs)
  unfolding insert
  contains-insert b a [] = refl
  contains-insert b a (x ∷ xs) =
      ground (arith, e.beq_iff a x, e.beq_iff a b, e.beq_iff x b, contains-insert b a xs)

  pub contains-collect : (b : A) (xs : List A) → contains b (collect xs) ≡ contains b xs
  unfolding collect
  contains-collect b [] = refl
  contains-collect b (x ∷ xs) =
      ground (arith, contains-insert b x (collect xs), contains-collect b xs)

  Below-trans : (a b : A) (xs : List A) → o.lt a b ≡ true → Below b xs → Below a xs
  Below-trans a b [] h k = tt
  Below-trans a b (x ∷ xs) h k = (o.lt_trans a b x h k.0, Below-trans a b xs h k.1)

  Below-insert : (b a : A) (xs : List A) → o.lt b a ≡ true → Below b xs → Below b (insert a xs)
  unfolding insert
  Below-insert b a [] h k = (h, tt)
  Below-insert b a (x ∷ xs) h k = elim (Bool-cases (o.lt a x)) [
    | inl f ↦ rw f (h, k)
    | inr f ↦ elim (Bool-cases (e.beq a x)) [
      | inl g ↦ rw (f, g) k
      | inr g ↦ rw (f, g) (k.0, Below-insert b a xs h k.1)
    ]
  ]

  insert-IsSorted : (a : A) (xs : List A) → IsSorted xs → IsSorted (insert a xs)
  unfolding insert
  insert-IsSorted a [] h = (tt, tt)
  insert-IsSorted a (x ∷ xs) h = elim (Bool-cases (o.lt a x)) [
    | inl f ↦ rw f ((f, Below-trans a x xs f h.0), h)
    | inr f ↦ elim (Bool-cases (e.beq a x)) [
      | inl g ↦ rw (f, g) h
      | inr g ↦
          rw (f, g)
            (
              Below-insert x a xs (ground (arith, o.lt_total a x, e.beq_iff a x)) h.0,
              insert-IsSorted a xs h.1,
            )
    ]
  ]

  pub collect-IsSorted : (xs : List A) → IsSorted (collect xs)
  unfolding collect
  collect-IsSorted [] = tt
  collect-IsSorted (x ∷ xs) = insert-IsSorted x (collect xs) (collect-IsSorted xs)

  Below-contains : (a b : A) (xs : List A) → Below a xs → contains b xs ≡ true → o.lt a b ≡ true
  Below-contains a b [] h k = cc
  Below-contains a b (x ∷ xs) h k = ground (arith, Below-contains a b xs h.1, e.beq_iff x b)

  abbrev pub SameMembers : List A → List A → Type ℓ
  SameMembers xs ys = (a : A) → contains a xs ≡ contains a ys

  -- Two ordered sets with the same members are the same list.
  pub IsSorted-unique : (xs ys : List A) → IsSorted xs → IsSorted ys → SameMembers xs ys → xs ≡ ys
  IsSorted-unique [] [] h k m = refl
  IsSorted-unique [] (y ∷ ys) h k m = absurd (ground (arith, m y, e.beq_iff y y))
  IsSorted-unique (x ∷ xs) [] h k m = absurd (ground (arith, m x, e.beq_iff x x))
  IsSorted-unique (x ∷ xs) (y ∷ ys) h k m =
      let head : x ≡ y = ground (
        arith,
        m x,
        m y,
        e.beq_iff x x,
        e.beq_iff y y,
        e.beq_iff x y,
        e.beq_iff y x,
        Below-contains x y xs h.0,
        Below-contains y x ys k.0,
        o.lt_trans x y x,
        o.lt_irrefl x,
      ) in
      let tail : xs ≡ ys = IsSorted-unique xs ys h.1 k.1 (λ a. ground (
        arith,
        m a,
        e.beq_iff x a,
        e.beq_iff y a,
        Below-contains x a xs h.0,
        Below-contains y a ys k.0,
        o.lt_irrefl a,
      )) in
      cc (head, tail)
