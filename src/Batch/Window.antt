-- ===== src/Batch/Window.antt =====
-- src/lib.rs: the window of `build_slots`, in which the slots of an envelope are built at once and
-- end in any order.
use st0x_oracle_server.Base.{
  none, some, ◌∷◌, [], zero, suc, nat_eq, ℕ, List, Option, ◌-◌, replicate, length,
}

abbrev pub max_concurrent_slot_builds : ℕ
max_concurrent_slot_builds = 10

-- The futures by their indices: those not yet started, those that run, and the slots of the reply.
pub record Window (R : Type 0) : Type 0 where
  pub waiting : List ℕ
  pub running : List ℕ
  pub built : List (Option R)

-- `buffer_unordered` starts futures while there is room.
unfoldable pub fill : ℕ → List ℕ → List ℕ → List ℕ × List ℕ
fill zero waiting running = (waiting, running)
fill (suc room) [] running = ([], running)
fill (suc room) (i ∷ waiting) running = fill room waiting (i ∷ running)

-- The future that ends next, by its place among those that run, and the others.
unfoldable pub pick : ℕ → ℕ → List ℕ → ℕ × List ℕ
pick zero i others = (i, others)
pick (suc place) i [] = (i, [])
pick (suc place) i (j ∷ others) = let (k, rest) = pick place j others in (k, i ∷ rest)

module _ {R : Type 0} where
  -- `built[index] = Some(result)`; an index out of range is a panic.
  unfoldable pub store_at : ℕ → R → List (Option R) → Option (List (Option R))
  store_at i r [] = none
  store_at zero r (s ∷ built) = some (some r ∷ built)
  store_at (suc i) r (s ∷ built) = elim (store_at i r built) [
    | none ↦ none
    | some rest ↦ some (s ∷ rest)
  ]

  -- `expect` of every slot.
  unfoldable pub expect_all : List (Option R) → Option (List R)
  expect_all [] = some []
  expect_all (none ∷ built) = none
  expect_all (some r ∷ built) = elim (expect_all built) [
    | none ↦ none
    | some rest ↦ some (r ∷ rest)
  ]

  -- The loop over the stream: `picks` says which future ends next, `outcome` what each gives. An
  -- outcome of nothing is a panic, or fuel that ran out.
  unfoldable pub drain : (ℕ → ℕ) → (ℕ → R) → ℕ → Window R → Option (List (Option R))
  drain picks outcome zero w = none
  drain picks outcome (suc fuel) w =
      let (waiting, running) =
        fill (max_concurrent_slot_builds - length w.running) w.waiting w.running in
      elim running [
        | [] ↦ some w.built
        | i ∷ others ↦
            let (k, rest) = pick (picks fuel) i others in
            elim (store_at k (outcome k) w.built) [
              | none ↦ none
              | some built ↦
                  drain picks outcome fuel
                    (record { waiting = waiting; running = rest; built = built })
            ]
      ]

unfoldable pub range : ℕ → ℕ → List ℕ
range first zero = []
range first (suc n) = first ∷ range (suc first) n

-- All slots of an envelope; one round more than there are slots is enough fuel.
unfoldable pub build_window : {R : Type 0} → (ℕ → ℕ) → (ℕ → R) → ℕ → Option (List R)
build_window picks outcome n =
    let start =
      drain picks outcome (suc n)
        (record { waiting = range 0 n; running = []; built = replicate n none }) in
    elim start [ none ↦ none | some built ↦ expect_all built ]
