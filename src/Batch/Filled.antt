-- ===== src/Batch/Filled.antt =====
-- Whatever the order in which the futures of a window end, every slot is filled with its own result.
use st0x_oracle_server.Base.{
  some, ◌∷◌, [], zero, suc, nat_eq, inl, inr, true, false, ◌+◌, ◌-◌, ◌<◌, ℕ, List, length, contains,
  ◌≡◌, Option, ◌||◌, arith, ◌==◌, ap, get_elem?, refl, if◌then◌else◌, Nat-cases, sym, ◌∙◌,
  nat_beq_iff, list-cases, subst, map, replicate, none, length-replicate,
}
use st0x_oracle_server.Batch.Window.{
  Window, fill, pick, store_at, drain, max_concurrent_slot_builds, range, expect_all, build_window,
}
use st0x_oracle_server.Batch.Futures.{
  fill-contains, fill_idle, pick-contains, length-range, fill_keeps, fill-size, contains-range,
  pick-size,
}

module _ {R : Type 0} where
  -- The slots after one is filled.
  abbrev Filled : ℕ → R → List (Option R) → List (Option R) → Type 0
  Filled i r built built' =
      (length built' ≡ length built)
      × ((j : ℕ) → get_elem? built' j ≡ (if i == j then some (some r) else get_elem? built j))

  store_at-Filled :
      (i : ℕ) (r : R) (built : List (Option R))
      → i < length built
      → (built' : List (Option R)) × (store_at i r built ≡ some built') × Filled i r built built'
  unfolding store_at
  store_at-Filled i r [] h = absurd (omega (arith, h))
  store_at-Filled zero r (s ∷ built) h = (
    some r ∷ built,
    refl,
    (refl, λ j. elim (Nat-cases j) [ inl e ↦ ground (arith, e) | inr (k, e) ↦ ground (arith, e) ]),
  )
  store_at-Filled (suc i) r (s ∷ built) h =
      let (rest, e, filled) = store_at-Filled i r built (omega (arith, h)) in
      (
        s ∷ rest,
        rw e refl,
        (
          ap suc filled.0,
          λ j. elim (Nat-cases j) [
            | inl z ↦ ground (arith, z)
            | inr (k, z) ↦ ground (arith, z, filled.1 k)
          ],
        ),
      )

  module _ (picks : ℕ → ℕ) (outcome : ℕ → R) (n : ℕ) where
    abbrev pub IsFull : List (Option R) → Type 0
    IsFull built =
        (length built ≡ n) × ((i : ℕ) → i < n → get_elem? built i ≡ some (some (outcome i)))

    -- A slot is filled unless its future waits or runs, and every future has a slot.
    abbrev Good : List ℕ → List ℕ → List (Option R) → Type 0
    Good waiting running built =
        (length built ≡ n)
        × ((i : ℕ)
            → i < n
            → (contains i waiting || contains i running) ≡ false
            → get_elem? built i ≡ some (some (outcome i)))
        × ((i : ℕ) → (contains i waiting || contains i running) ≡ true → i < n)

    fill-Good :
        (room : ℕ) (waiting running : List ℕ) (built : List (Option R))
        → Good waiting running built
        → Good (fill room waiting running).0 (fill room waiting running).1 built
    fill-Good room waiting running built g = (
      g.0,
      λ i h e. g.1 i h (sym (fill-contains i room waiting running) ∙ e),
      λ i e. g.2 i (sym (fill-contains i room waiting running) ∙ e),
    )

    fill_all :
        (waiting running : List ℕ)
        → (fill (max_concurrent_slot_builds - length running) waiting running).1 ≡ []
        → (fill (max_concurrent_slot_builds - length running) waiting running).0 ≡ []
    fill_all waiting [] e = fill_idle max_concurrent_slot_builds waiting [] (omega arith) e
    fill_all waiting (i ∷ running) e =
        absurd (fill_keeps (max_concurrent_slot_builds - length (i ∷ running)) i waiting running e)

    pick-Good :
        (place i : ℕ) (waiting others : List ℕ) (built built' : List (Option R))
        → Good waiting (i ∷ others) built
        → Filled (pick place i others).0 (outcome (pick place i others).0) built built'
        → Good waiting (pick place i others).1 built'
    pick-Good place i waiting others built built' g f =
        let k = (pick place i others).0 in
        (
          f.0 ∙ g.0,
          λ j h e. ground (
            arith,
            f.1 j,
            pick-contains j place i others,
            g.1 j h,
            nat_beq_iff k j,
            ap outcome {x = k} {y = j},
          ),
          λ j e. ground (arith, pick-contains j place i others, g.2 j),
        )

    abbrev next_filled : Window R → List ℕ × List ℕ
    next_filled w = fill (max_concurrent_slot_builds - length w.running) w.waiting w.running

    drain_ends :
        (fuel : ℕ) (w : Window R)
        → (next_filled w).1 ≡ []
        → drain picks outcome (suc fuel) w ≡ some w.built
    unfolding drain
    drain_ends fuel w e = ground arith

    drain_goes_on :
        (fuel : ℕ) (w : Window R) (i : ℕ) (others : List ℕ) (built : List (Option R))
        → (next_filled w).1 ≡ i ∷ others
        → store_at (pick (picks fuel) i others).0 (outcome (pick (picks fuel) i others).0) w.built
          ≡ some built
        → drain picks outcome (suc fuel) w
          ≡ drain picks outcome fuel (record {
            waiting = (next_filled w).0;
            running = (pick (picks fuel) i others).1;
            built = built;
          })
    unfolding drain
    drain_goes_on fuel w i others built e stored = ground arith

    drain-IsFull :
        (fuel : ℕ) (w : Window R)
        → length w.waiting + length w.running < fuel
        → Good w.waiting w.running w.built
        → (built : List (Option R)) × (drain picks outcome fuel w ≡ some built) × IsFull built
    unfolding drain
    drain-IsFull zero w h g = absurd (omega (arith, h))
    drain-IsFull (suc fuel) w h g =
        let room = max_concurrent_slot_builds - length w.running in
        let filled = fill room w.waiting w.running in
        let g' = fill-Good room w.waiting w.running w.built g in
        elim (list-cases filled.1) [
          | inl e ↦
              let waits : filled.0 ≡ [] = fill_all w.waiting w.running e in
              let idle : (j : ℕ) → (contains j filled.0 || contains j filled.1) ≡ false = λ j.
                subst (λ x. (contains j x || contains j filled.1) ≡ false) (sym waits)
                  (ap (λ (x : List ℕ). contains j x) e) in
              (w.built, drain_ends fuel w e, (g.0, λ j k. g'.1 j k (idle j)))
          | inr (i, others, e) ↦
              let place = picks fuel in
              let k = (pick place i others).0 in
              let rest = (pick place i others).1 in
              let g'' : Good filled.0 (i ∷ others) w.built =
                subst (λ r. Good filled.0 r w.built) e g' in
              let in_range : k < n =
                g''.2 k (ground (arith, pick-contains k place i others, nat_beq_iff k k)) in
              let (built, stored, put) =
                store_at-Filled k (outcome k) w.built (subst (λ m. k < m) (sym g.0) in_range) in
              let (all_built, drained, full) =
                drain-IsFull fuel (record { waiting = filled.0; running = rest; built = built })
                  (omega (
                    arith,
                    h,
                    fill-size room w.waiting w.running,
                    ap length e,
                    pick-size place i others,
                  ))
                  (pick-Good place i filled.0 others w.built built g'' put) in
              (all_built, drain_goes_on fuel w i others built e stored ∙ drained, full)
        ]

module _ {R : Type 0} (outcome : ℕ → R) where
  expect_all-range :
      (first n : ℕ) (built : List (Option R))
      → length built ≡ n
      → ((i : ℕ) → i < n → get_elem? built i ≡ some (some (outcome (first + i))))
      → expect_all built ≡ some (map outcome (range first n))
  unfolding expect_all range
  expect_all-range first zero [] e h = refl
  expect_all-range first zero (s ∷ built) e h = absurd (omega (arith, e))
  expect_all-range first (suc n) [] e h = absurd (omega (arith, e))
  expect_all-range first (suc n) (s ∷ built) e h =
      let size : length built ≡ n = omega (arith, e) in
      let rest =
        expect_all-range (suc first) n built size
          (λ i k. h (suc i) (omega (arith, k)) ∙ ap (λ m. some (some (outcome m))) (omega arith)) in
      let here : s ≡ some (outcome first) = ground (
        arith,
        h 0 (omega arith)
            ∙ ap (λ m. some (some (outcome m))) {x = first + 0} {y = first} (omega arith),
      ) in
      ground (arith, here, rest)

  -- An envelope's slots end in whatever order they like, and start as there is room: every result
  -- is the slot's own and stands in its place, no index is out of range, and the `expect` of a
  -- filled slot holds.
  pub build_window-map :
      (picks : ℕ → ℕ) (n : ℕ) → build_window picks outcome n ≡ some (map outcome (range 0 n))
  unfolding build_window
  build_window-map picks n =
      let (built, drained, full) =
        drain-IsFull picks outcome n (suc n)
          (record { waiting = range 0 n; running = []; built = replicate n none })
          (omega (arith, length-range 0 n))
          (
            length-replicate n none,
            λ i h e. absurd (ground (arith, contains-range i 0 n)),
            λ i e. ground (arith, contains-range i 0 n),
          ) in
      let step : build_window picks outcome n ≡ expect_all built = ground arith in
      step
      ∙ (expect_all-range 0 n built full.0
          (λ i k. full.1 i k ∙ ap (λ m. some (some (outcome m))) (omega arith)))
