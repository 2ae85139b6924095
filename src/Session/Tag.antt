-- ===== src/Session/Tag.antt =====
-- The layout of the signed session tag.
use st0x_oracle_server.Base.{
  ℕ, ◌+◌, ◌-◌, ◌≡◌, [], ◌∷◌, ◌++◌, arith, length, replicate, length-append, length-replicate,
}
use st0x_oracle_server.Wire.{SessionTag, External}
use st0x_oracle_server.Session.{tag_bytes32_v3}

module _ (x : External) where
  -- The signed tag is one word of 32 bytes, whatever the session.
  pub length-tag_bytes32_v3 : (t : SessionTag) → length (tag_bytes32_v3 x t) ≡ 32
  unfolding tag_bytes32_v3
  length-tag_bytes32_v3 t = omega (
    arith,
    x.tag_name-short t,
    length-append (replicate (31 - length (x.tag_name t)) 0)
        (x.tag_name t ++ (0xe0 + length (x.tag_name t)) ∷ []),
    length-append (x.tag_name t) ((0xe0 + length (x.tag_name t)) ∷ []),
    length-replicate {A = ℕ} (31 - length (x.tag_name t)) 0,
  )
