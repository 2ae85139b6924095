-- ===== src/World/Requests.antt =====
-- What others do meanwhile does not count a request.
use st0x_oracle_server.World.{
  World, Action, act, act_all, release, yield, feeds, replaces, ticks, elapses, reuses, signs,
}
use st0x_oracle_server.Wire.{Word}
use st0x_oracle_server.Signer.{Attempt}
use st0x_oracle_server.Base.{ℕ, List, [], ◌∷◌, ◌≡◌, refl, ◌∙◌}

module _ (sign : Word → ℕ → Attempt) where
  pub act-requests : (w : World) (a : Action) → (act sign w a).requests ≡ w.requests
  unfolding act
  act-requests w (feeds ev) = refl
  act-requests w (replaces r) = refl
  act-requests w (ticks now) = refl
  act-requests w (elapses s) = refl
  act-requests w (reuses key expiry r g) = refl
  act-requests w (signs o) = refl

  act_all-requests :
      (w : World) (actions : List Action) → (act_all sign w actions).requests ≡ w.requests
  unfolding act_all
  act_all-requests w [] = refl
  act_all-requests w (a ∷ actions) = act_all-requests (act sign w a) actions ∙ act-requests w a

  release-requests : (s : List (List Action)) (w : World) → (release sign s w).requests ≡ w.requests
  unfolding release
  release-requests [] w = refl
  release-requests (now ∷ later) w = act_all-requests (record w { schedule = later }) now

  pub yield-requests : (w : World) → (yield sign w).requests ≡ w.requests
  unfolding yield
  yield-requests w = release-requests w.schedule w
