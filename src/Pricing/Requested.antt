-- ===== src/Pricing/Requested.antt =====
-- What a session has asked the pricing service for, after a change of the list.
use st0x_oracle_server.Base.Ordered.{collect, text_ord}
use st0x_oracle_server.Base.{
  string_eq, ok, err, String, List, Bool, contains, false, not, ◌≡◌, ◌||◌, ◌∷◌, is_empty, All, ◌&&◌,
  [], true, arith, inl, inr, refl, ap, Bool-cases, ◌∙◌, sym, if◌then◌else◌,
}
use st0x_oracle_server.Pricing.Subscription
use st0x_oracle_server.Pricing.Subscription.{Link, Turn, Sent, goes_on, ends, turn}
use st0x_oracle_server.Wire.{ClientFrame, subscribe, unsubscribe, pong}
use text.Mathlib.TextEquality.{eq_iff}

-- What the service makes of one frame, and of all of them, the latest first.
abbrev pub hears : String → ClientFrame → Bool → Bool
hears s (subscribe consumer assets) held = contains s assets || held
hears s (unsubscribe assets) held = not (contains s assets) && held
hears s (pong ts) held = held

abbrev pub subscribed_at : List ClientFrame → String → Bool
subscribed_at [] s = false
subscribed_at (frame ∷ out) s = hears s frame (subscribed_at out s)

abbrev pub is_request : ClientFrame → Bool
is_request (subscribe consumer assets) = not (is_empty assets)
is_request (unsubscribe assets) = not (is_empty assets)
is_request (pong ts) = true

-- The service serves the session exactly the symbols that it believes to have asked for, and no
-- frame asked for nothing.
abbrev pub InStep : Link → Type 0
InStep l =
    ((s : String) → subscribed_at l.out s ≡ contains s l.sent)
    × All (λ (f : ClientFrame). is_request f ≡ true) l.out

abbrev pub GoesOn : (Link → Type 0) → Turn → Type 0
GoesOn P (goes_on l) = P l
GoesOn P (ends r l) = Unit

contains-difference :
    (s : String) (xs ys : List String)
    → contains s (Subscription.difference xs ys) ≡ (contains s xs && not (contains s ys))
contains-difference s [] ys = refl
contains-difference s (x ∷ xs) ys = ground (arith, eq_iff x s, contains-difference s xs ys)

GoesOn-then :
    (P Q : Link → Type 0) (t : Turn) (f : Link → Turn)
    → GoesOn P t
    → ((l : Link) → P l → GoesOn Q (f l))
    → GoesOn Q (Subscription.then_turn t f)
GoesOn-then P Q (goes_on l) f h k = k l h
GoesOn-then P Q (ends r l) f h k = tt

pub GoesOn-map :
    (P Q : Link → Type 0) (t : Turn) → ((l : Link) → P l → Q l) → GoesOn P t → GoesOn Q t
GoesOn-map P Q (goes_on l) f h = f l h
GoesOn-map P Q (ends r l) f h = tt

pub if-GoesOn :
    (P : Link → Type 0) (b : Bool) (t u : Turn)
    → GoesOn P t
    → GoesOn P u
    → GoesOn P (if b then t else u)
if-GoesOn P true t u h k = h
if-GoesOn P false t u h k = k

-- A session that has sent what it meant to, under a list, with a view of the service.
abbrev Holds : List String → (String → Bool) → Link → Type 0
Holds published view l =
    ((s : String) → subscribed_at l.out s ≡ view s)
    × All (λ (f : ClientFrame). is_request f ≡ true) l.out
    × (l.published ≡ published)

-- After a change of the list the service is asked for exactly its symbols.
abbrev pub Follows : Link → Type 0
Follows l = InStep l × (l.sent ≡ collect l.published)

module _ (consumer : String) where
  send_subscribe :
      (published : List String) (view : String → Bool) (symbols : List String) (a : Sent) (l : Link)
      → Holds published view l
      → GoesOn
          (Holds published (λ s. contains s symbols || view s))
          (Subscription.send_some symbols (subscribe consumer symbols) a l)
  send_subscribe published view [] a l h = h
  send_subscribe published view (x ∷ xs) (err why) l h = tt
  send_subscribe published view (x ∷ xs) (ok u) l h =
      (λ s. ap (λ v. contains s (x ∷ xs) || v) (h.0 s), (refl, h.1), h.2)

  send_unsubscribe :
      (published : List String) (view : String → Bool) (symbols : List String) (a : Sent) (l : Link)
      → Holds published view l
      → GoesOn
          (Holds published (λ s. not (contains s symbols) && view s))
          (Subscription.send_some symbols (unsubscribe symbols) a l)
  send_unsubscribe published view [] a l h = h
  send_unsubscribe published view (x ∷ xs) (err why) l h = tt
  send_unsubscribe published view (x ∷ xs) (ok u) l h =
      (λ s. ap (λ v. not (contains s (x ∷ xs)) && v) (h.0 s), (refl, h.1), h.2)

  settle_list-Follows :
      (published : List String) (view : String → Bool) (l : Link)
      → ((s : String) → view s ≡ contains s (collect published))
      → Holds published view l
      → GoesOn Follows (Subscription.settle_list (collect published) l)
  settle_list-Follows published view l v h = elim (Bool-cases (is_empty (collect published))) [
    | inl e ↦ rw e tt
    | inr e ↦ rw e ((λ s. h.0 s ∙ v s, h.1), ap (λ (p : List String). collect p) (sym h.2))
  ]

  pub follow-Follows :
      (a b : Sent) (l : Link) → InStep l → GoesOn Follows (Subscription.follow consumer a b l)
  unfolding Subscription.follow
  follow-Follows a b l h =
      let next = collect l.published in
      let added = Subscription.difference next l.sent in
      let removed = Subscription.difference l.sent next in
      let view₀ = λ (s : String). contains s l.sent in
      let view₁ = λ (s : String). contains s added || view₀ s in
      let view₂ = λ (s : String). not (contains s removed) && view₁ s in
      GoesOn-then (Holds l.published view₁) Follows
        (Subscription.send_some added (subscribe consumer added) a l)
        (λ l₁.
          Subscription.then_turn (Subscription.send_some removed (unsubscribe removed) b l₁)
            (Subscription.settle_list next))
        (send_subscribe l.published view₀ added a l (h.0, h.1, refl))
        (λ l₁ h₁.
          GoesOn-then (Holds l.published view₂) Follows
            (Subscription.send_some removed (unsubscribe removed) b l₁)
            (Subscription.settle_list next) (send_unsubscribe l.published view₁ removed b l₁ h₁)
            (λ l₂. settle_list-Follows l.published view₂ l₂ (λ s.
              ground
                (arith, contains-difference s next l.sent, contains-difference s l.sent next))))
