-- ===== src/Batch/Strict.antt =====
-- Strict mode stops at the first slot that fails.
use st0x_oracle_server.World.{M, World, continue, pure}
use st0x_oracle_server.Batch.{build_slots, build_slot, next, Result}
use st0x_oracle_server.Refusal.{AppError}
use st0x_oracle_server.Base.{List, ◌≡◌, false, err, ◌++◌, ok, arith, ◌∷◌, [], ap, refl, ◌∙◌}

continue-eq-err :
    {A B : Type 0} (r : Result AppError A × World) (f : A → B) {e : AppError} {w' : World}
    → continue r (λ a. pure (f a)) ≡ (err e, w')
    → r ≡ (err e, w')
unfolding continue
continue-eq-err (ok a, v) f h = absurd (ground arith)
continue-eq-err (err d, v) f h = ground arith

module _ {S T : Type 0} (build_one : S → M T) where
  -- The slots before the one that failed were built, each for itself; the slot failed in the state
  -- that they left, with the error of the request; the slots after it were not built at all, since
  -- the state is the one that the failed slot left.
  pub record StopsAt (slots : List (Result AppError S)) (w : World) (e : AppError) (w' : World)
      : Type 0 where
    pub before : List (Result AppError S)
    pub slot : Result AppError S
    pub after : List (Result AppError S)
    pub items : List (Result AppError T)
    pub reached : World
    pub splits : slots ≡ before ++ slot ∷ after
    pub builds : build_slots build_one before false w ≡ (ok items, reached)
    pub fails : build_slot build_one slot reached ≡ (err e, w')

  StopsAt-here :
      (slot : Result AppError S) (slots : List (Result AppError S)) (w : World) (e : AppError)
      (w' : World)
      → build_slot build_one slot w ≡ (err e, w')
      → StopsAt (slot ∷ slots) w e w'
  unfolding build_slots
  StopsAt-here slot slots w e w' h = record {
    before = [];
    slot = slot;
    after = slots;
    items = [];
    reached = w;
    splits = refl;
    builds = refl;
    fails = h;
  }

  StopsAt-later :
      (slot : Result AppError S) (slots : List (Result AppError S)) (w v : World) (t : T)
      (e : AppError) (w' : World)
      → build_slot build_one slot w ≡ (ok t, v)
      → StopsAt slots v e w'
      → StopsAt (slot ∷ slots) w e w'
  unfolding build_slots continue
  StopsAt-later slot slots w v t e w' h s = record {
    before = slot ∷ s.before;
    slot = s.slot;
    after = s.after;
    items = ok t ∷ s.items;
    reached = s.reached;
    splits = ap (λ r. slot ∷ r) s.splits;
    builds = rw (h, s.builds) refl;
    fails = s.fails;
  }

  stops :
      (slot : Result AppError S) (slots : List (Result AppError S)) (w w' : World) (e : AppError)
      (r : Result AppError T × World)
      → ((v : World) → build_slots build_one slots false v ≡ (err e, w') → StopsAt slots v e w')
      → build_slot build_one slot w ≡ r
      → next false r (build_slots build_one slots false) ≡ (err e, w')
      → StopsAt (slot ∷ slots) w e w'
  stops slot slots w w' e (ok t, v) later is h =
      StopsAt-later slot slots w v t e w' is (later v (continue-eq-err _ _ h))
  stops slot slots w w' e (err d, v) later is h =
      let failed : ◌≡◌ {A = Result AppError T × World} (err d, v) (err e, w') = ground (arith, h) in
      StopsAt-here slot slots w e w' (is ∙ failed)

  -- In strict mode a request fails with the error of the first slot that fails, in request order,
  -- and nothing after that slot is built, so that nothing after it is signed.
  pub build_slots-StopsAt :
      (slots : List (Result AppError S)) (w w' : World) (e : AppError)
      → build_slots build_one slots false w ≡ (err e, w')
      → StopsAt slots w e w'
  unfolding build_slots
  build_slots-StopsAt [] w w' e h = absurd (ground arith)
  build_slots-StopsAt (slot ∷ slots) w w' e h =
      stops slot slots w w' e (build_slot build_one slot w)
        (λ v k. build_slots-StopsAt slots v w' e k) refl h
