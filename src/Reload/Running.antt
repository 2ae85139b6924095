-- ===== src/Reload/Running.antt =====
-- Over any history of reads, the instance runs the rows of the last copy that it could accept.
use st0x_oracle_server.Base.{
  none, some, ok, err, list_eq, string_eq, pair_eq, List, Option, Result, ◌≡◌, Option-cases, inl,
  inr, refl, arith, ap, ◌∷◌, All, sym, ◌∙◌, [],
}
use st0x_oracle_server.Base.Int.{ℤ}
use st0x_oracle_server.Toml.{Table}
use st0x_oracle_server.Config.{Config}
use st0x_oracle_server.TokenFile.{Row, Projection, rows}
use st0x_oracle_server.TokenFile.Bucket.{Read, ReadError, copy, unchanged}
use st0x_oracle_server.TokenFile.Candidate.{Library, Candidate, candidate, set_of}
use st0x_oracle_server.Tokens.{TokenSet, replace}
use st0x_oracle_server.Reload.{
  Reloader, Decision, same_generation, same_rows, swap, reject, apply, round, decide, invalid_copy,
  static_field, no_token_file, static_field_changed, current, checked,
}
use st0x_oracle_server.Reload.Decided.{Means, decide-Means}
use st0x_oracle_server.Wire.{Bytes}
use st0x_oracle_server.TokenFile.Compare.{same_as-rows}

module _ (L : Library) (static_config : Table) (boot_config : Config) where
  -- The specification: what a copy offers to run, if it may be accepted at all.
  abbrev pub offered : Bytes → Option (List Row)
  offered bytes = elim (candidate L static_config bytes) [
    | err e ↦ none
    | ok c ↦ elim (static_field_changed boot_config c.config) [
      | some field ↦ none
      | none ↦ some (rows L.to_lowercase c.projection)
    ]
  ]

  abbrev or_keep : List Row → Option (List Row) → Option (List Row)
  or_keep v none = some v
  or_keep v (some w) = some w

  -- An instance without a token file stays without one; another runs what the copy offers, or
  -- keeps what it runs.
  abbrev pub accept : Option (List Row) → Result ReadError Read → Option (List Row)
  accept none read = none
  accept (some v) (ok (copy bytes generation)) = or_keep v (offered bytes)
  accept (some v) _ = some v

  abbrev rows_of : Option Projection → Option (List Row)
  rows_of none = none
  rows_of (some p) = some (rows L.to_lowercase p)

  abbrev pub running_rows : TokenSet → Option (List Row)
  running_rows set = rows_of set.projection

  -- The bucket's generations: each names one upload.
  abbrev pub Named : (ℤ → Bytes) → Result ReadError Read → Type 0
  Named content (ok (copy bytes generation)) = bytes ≡ content generation
  Named content _ = Unit

  -- The running rows are those that the running generation offers.
  abbrev pub Faithful : (ℤ → Bytes) → TokenSet → Type 0
  Faithful content set =
      (g : ℤ) (v : List Row)
      → set.generation ≡ some g
      → running_rows set ≡ some v
      → offered (content g) ≡ some v

  module _ (content : ℤ → Bytes) (r : Reloader) (now generation : ℤ) (bytes : Bytes) where
    -- What one decision does to the running set.
    abbrev Follows : Decision → Type 0
    Follows decision =
        let set' = current (apply now r decision).tokens in
        (running_rows set' ≡ accept (running_rows (current r.tokens)) (ok (copy bytes generation)))
        × Faithful content set'

    accept-none :
        (v : Option (List Row)) → offered bytes ≡ none → v ≡ accept v (ok (copy bytes generation))
    accept-none none h = refl
    accept-none (some v) h = rw h refl

    accept-some :
        (v w : List Row)
        → offered bytes ≡ some w
        → some w ≡ accept (some v) (ok (copy bytes generation))
    accept-some v w h = rw h refl

    offered-some :
        (c : Candidate)
        → candidate L static_config bytes ≡ ok c
        → static_field_changed boot_config c.config ≡ none
        → offered bytes ≡ some (rows L.to_lowercase c.projection)
    offered-some c h k = ground arith

    -- The set of the new generation runs the rows that the copy offers.
    Faithful-here :
        (set : TokenSet) (w : List Row)
        → bytes ≡ content generation
        → offered bytes ≡ some w
        → set.generation ≡ some generation
        → running_rows set ≡ some w
        → Faithful content set
    Faithful-here set w n o at runs g v e k =
        let same : generation ≡ g = ground arith in
        let rows_same : w ≡ v = ground arith in
        ap (λ h. offered (content h)) (sym same) ∙ (ap offered (sym n) ∙ (o ∙ ap some rows_same))

    apply-Follows :
        (decision : Decision)
        → Means L static_config boot_config (current r.tokens) generation bytes decision
        → bytes ≡ content generation
        → Faithful content (current r.tokens)
        → Follows decision
    unfolding apply replace
    apply-Follows (same_generation g) (e, same) n f = (
      elim (Option-cases (running_rows (current r.tokens))) [
        | inl k ↦ rw k refl
        | inr (v, k) ↦
            let o : offered bytes ≡ some v = ap offered n ∙ f generation v same k in
            k ∙ (accept-some v v o ∙ ap (λ rs. accept rs (ok (copy bytes generation))) (sym k))
      ],
      f,
    )
    apply-Follows (reject g (invalid_copy w)) (e, newer, lacks) n f =
        (accept-none (running_rows (current r.tokens)) (ground arith), f)
    apply-Follows (reject g (static_field field)) (e, newer, (c, built, lacks)) n f =
        (accept-none (running_rows (current r.tokens)) (ground arith), f)
    apply-Follows (reject g no_token_file) (e, newer, (c, built, kept, lacks)) n f =
        (rw lacks refl, f)
    apply-Follows (same_rows g) (c, running, e, (newer, built, kept, runs), same) n f =
        let o = offered-some c built kept in
        let equal = same_as-rows L.to_lowercase c.projection running same in
        let now_runs : running_rows (current r.tokens) ≡ some (rows L.to_lowercase c.projection) =
          ap rows_of runs ∙ ap some (sym equal) in
        (
          now_runs
              ∙ (accept-some (rows L.to_lowercase running) (rows L.to_lowercase c.projection) o
                  ∙ ap (λ rs. accept rs (ok (copy bytes generation))) (sym (ap rows_of runs))),
          Faithful-here (record (current r.tokens) { generation = some g })
              (rows L.to_lowercase c.projection) n o (ap some e) now_runs,
        )
    apply-Follows (swap set removed readdressed described)
          (c, running, (newer, built, kept, runs), other, same, gone, moved_) n f =
        let o = offered-some c built kept in
        let now_runs : running_rows set ≡ some (rows L.to_lowercase c.projection) =
          ap running_rows same in
        (
          now_runs
              ∙ (accept-some (rows L.to_lowercase running) (rows L.to_lowercase c.projection) o
                  ∙ ap (λ rs. accept rs (ok (copy bytes generation))) (sym (ap rows_of runs))),
          Faithful-here set (rows L.to_lowercase c.projection) n o
              (ap (λ (x : TokenSet). x.generation) same) now_runs,
        )

  -- What boot and an accepted copy leave is faithful.
  pub set_of-Faithful :
      (content : ℤ → Bytes) (r : Reloader) (now generation : ℤ) (bytes : Bytes) (c : Candidate)
      → bytes ≡ content generation
      → candidate L static_config bytes ≡ ok c
      → static_field_changed boot_config c.config ≡ none
      → Faithful content (set_of c generation)
  set_of-Faithful content r now generation bytes c n built kept =
      Faithful-here content r now generation bytes (set_of c generation)
        (rows L.to_lowercase c.projection) n
        (offered-some content r now generation bytes c built kept) refl refl

  -- A history of the loop: the moments of its rounds and what each read gave.
  abbrev pub History : Type 0
  History = List (ℤ × Result ReadError Read)

  unfoldable pub rounds : History → Reloader → Reloader
  rounds [] r = r
  rounds ((now, read) ∷ history) r = rounds history (round L static_config boot_config now read r)

  unfoldable pub accepts : Option (List Row) → History → Option (List Row)
  accepts v [] = v
  accepts v ((now, read) ∷ history) = accepts (accept v read) history

  accept-err : (e : ReadError) (v : Option (List Row)) → v ≡ accept v (err e)
  accept-err e none = refl
  accept-err e (some v) = refl

  accept-unchanged : (v : Option (List Row)) → v ≡ accept v (ok unchanged)
  accept-unchanged none = refl
  accept-unchanged (some v) = refl

  round-accept :
      (content : ℤ → Bytes) (now : ℤ) (read : Result ReadError Read) (r : Reloader)
      → Named content read
      → Faithful content (current r.tokens)
      → (let set' = current (round L static_config boot_config now read r).tokens in
          (running_rows set' ≡ accept (running_rows (current r.tokens)) read)
          × Faithful content set')
  unfolding round
  round-accept content now (err e) r n f = (accept-err e (running_rows (current r.tokens)), f)
  round-accept content now (ok unchanged) r n f =
      (accept-unchanged (running_rows (current r.tokens)), f)
  round-accept content now (ok (copy bytes generation)) r n f =
      apply-Follows content (checked now r) now generation bytes
        (decide L static_config boot_config (current r.tokens) generation bytes)
        (decide-Means L static_config boot_config (current r.tokens) generation bytes) n f

  -- Whatever the bucket held and whichever reads failed, the instance runs the rows of the last
  -- copy that it could accept, or those it began with: a refused or unread copy changes nothing,
  -- and an accepted one replaces them at once.
  pub rounds-accepts :
      (content : ℤ → Bytes) (history : History) (r : Reloader)
      → All (λ (h : ℤ × Result ReadError Read). Named content h.1) history
      → Faithful content (current r.tokens)
      → running_rows (current (rounds history r).tokens)
        ≡ accepts (running_rows (current r.tokens)) history
  unfolding rounds accepts
  rounds-accepts content [] r n f = refl
  rounds-accepts content ((now, read) ∷ history) r (here, n) f =
      let (step, f') = round-accept content now read r here f in
      rounds-accepts content history (round L static_config boot_config now read r) n f'
      ∙ ap (λ v. accepts v history) step
