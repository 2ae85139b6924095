-- ===== src/Batch/Futures.antt =====
-- The futures of a window: which run, which wait, and which ends next.
use st0x_oracle_server.Base.{
  ◌∷◌, [], zero, suc, nat_eq, ◌+◌, ◌<◌, ℕ, List, length, contains, ◌≡◌, ◌≢◌, ◌||◌, arith, ◌==◌, ap,
  refl, leb, ◌&&◌, ltb,
}
use st0x_oracle_server.Batch.Window.{fill, pick, range}

pub fill-contains :
    (j room : ℕ) (w r : List ℕ)
    → (contains j (fill room w r).0 || contains j (fill room w r).1)
      ≡ (contains j w || contains j r)
unfolding fill
fill-contains j zero w r = refl
fill-contains j (suc room) [] r = refl
fill-contains j (suc room) (i ∷ w) r = ground (arith, fill-contains j room w (i ∷ r))

pub fill-size :
    (room : ℕ) (w r : List ℕ)
    → length (fill room w r).0 + length (fill room w r).1 ≡ length w + length r
unfolding fill
fill-size zero w r = refl
fill-size (suc room) [] r = refl
fill-size (suc room) (i ∷ w) r = omega (arith, fill-size room w (i ∷ r))

pub fill_keeps : (room i : ℕ) (w r : List ℕ) → (fill room w (i ∷ r)).1 ≢ []
unfolding fill
fill_keeps zero i w r e = absurd (ground arith)
fill_keeps (suc room) i [] r e = absurd (ground arith)
fill_keeps (suc room) i (j ∷ w) r e = fill_keeps room j w (i ∷ r) e

-- Nothing runs only when nothing waits.
pub fill_idle :
    (room : ℕ) (w r : List ℕ) → 0 < room → (fill room w r).1 ≡ [] → (fill room w r).0 ≡ []
unfolding fill
fill_idle zero w r h e = absurd (omega (arith, h))
fill_idle (suc room) [] r h e = refl
fill_idle (suc room) (i ∷ w) r h e = absurd (fill_keeps room i w r e)

pub pick-contains :
    (j place i : ℕ) (others : List ℕ)
    → contains j (i ∷ others)
      ≡ (((pick place i others).0 == j) || contains j (pick place i others).1)
unfolding pick
pick-contains j zero i others = refl
pick-contains j (suc place) i [] = refl
pick-contains j (suc place) i (k ∷ others) = ground (arith, pick-contains j place k others)

pub pick-size : (place i : ℕ) (others : List ℕ) → length (pick place i others).1 ≡ length others
unfolding pick
pick-size zero i others = refl
pick-size (suc place) i [] = refl
pick-size (suc place) i (k ∷ others) = ap suc (pick-size place k others)

pub contains-range :
    (i first n : ℕ) → contains i (range first n) ≡ (leb first i && ltb i (first + n))
unfolding range
contains-range i first zero = ground arith
contains-range i first (suc n) = ground (arith, contains-range i (suc first) n)

pub length-range : (first n : ℕ) → length (range first n) ≡ n
unfolding range
length-range first zero = refl
length-range first (suc n) = ap suc (length-range (suc first) n)
