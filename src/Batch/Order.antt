-- ===== src/Batch/Order.antt =====
-- Every slot is built for itself and keeps its place.
use st0x_oracle_server.World.{M, World, continue-eq-ok}
use st0x_oracle_server.Base.{List, Result, [], Bool, err, ◌∷◌, ◌≡◌, ok, subst, arith, true}
use st0x_oracle_server.Batch.{build_slots, build_slot, next}
use st0x_oracle_server.Refusal.{AppError}
use mathlib.Core.Bool.{false}

module _ {S T : Type 0} (build_one : S → M T) where
  -- Item by item: an error stands in its place, and a slot has a result of its own build.
  pub data Built : List (Result AppError S) → List (Result AppError T) → Type 0 where
    none_left : Built [] []
    stays :
        {slots : List (Result AppError S)} {items : List (Result AppError T)}
        → (e : AppError) → Built slots items
        → Built (err e ∷ slots) (err e ∷ items)
    builds :
        {slots : List (Result AppError S)} {items : List (Result AppError T)}
        → (s : S) → (w : World) → Built slots items
        → Built (ok s ∷ slots) ((build_one s w).0 ∷ items)

  build_slot-Built :
      (slot : Result AppError S) (w : World) (slots : List (Result AppError S))
      (items : List (Result AppError T))
      → Built slots items
      → Built (slot ∷ slots) ((build_slot build_one slot w).0 ∷ items)
  build_slot-Built (ok s) w slots items b = builds s w b
  build_slot-Built (err e) w slots items b = stays e b

  next-Built :
      (slot : Result AppError S) (slots : List (Result AppError S)) (envelope : Bool)
      (p : Result AppError T × World) (rest : M (List (Result AppError T))) (w' : World)
      (items : List (Result AppError T))
      → ((more : List (Result AppError T)) → Built slots more → Built (slot ∷ slots) (p.0 ∷ more))
      → ((v u : World) (more : List (Result AppError T)) → rest v ≡ (ok more, u) → Built slots more)
      → next envelope p rest ≡ (ok items, w')
      → Built (slot ∷ slots) items
  next-Built slot slots envelope (ok r, v) rest w' items one more h =
      let (tail, u, e, g) = continue-eq-ok (rest v) _ h in
      subst (Built (slot ∷ slots)) (ground arith) (one tail (more v u tail e))
  next-Built slot slots true (err f, v) rest w' items one more h =
      let (tail, u, e, g) = continue-eq-ok (rest v) _ h in
      subst (Built (slot ∷ slots)) (ground arith) (one tail (more v u tail e))
  next-Built slot slots false (err f, v) rest w' items one more h = absurd (ground arith)

  -- The slots of a request are built each for itself, in place: a failed resolution stays where it
  -- was, and every other slot has a result that its own build gave, in both modes.
  pub build_slots-Built :
      (slots : List (Result AppError S)) (envelope : Bool) (w w' : World)
      (items : List (Result AppError T))
      → build_slots build_one slots envelope w ≡ (ok items, w')
      → Built slots items
  unfolding build_slots
  build_slots-Built [] envelope w w' items h = subst (Built []) {x = []} (ground arith) none_left
  build_slots-Built (slot ∷ slots) envelope w w' items h =
      next-Built slot slots envelope (build_slot build_one slot w)
        (build_slots build_one slots envelope) w' items
        (λ more b. build_slot-Built slot w slots more b)
        (λ v u more e. build_slots-Built slots envelope v u more e) h
