-- ===== src/TokenFile/Bearer.antt =====
-- The access tokens of the reads: whose answer they are, and until when they are used.
use st0x_oracle_server.TokenFile.Bucket.{split_gs_url}
use st0x_oracle_server.Base.Text.{strip_prefix}
use st0x_oracle_server.TokenFile.Bucket.{
  TokenSource, Outside, MetadataToken, Response, fixed, metadata, access_token, receive, read,
  forget_access_token, fetch_token, is_some, is_success, split_gs_url,
}
use st0x_oracle_server.Base.Text.{Text}
use st0x_oracle_server.Base.{
  String, List, Option, ◌∷◌, ℕ, some, ◌≡◌, [], ok, get_elem?, none, suc, ◌⊎◌, Result, Bool-cases,
  ◌+◌, ◌<◌, err, ltb, inl, ◌*◌, refl, inr, ◌-◌, arith, subst, ◌&&◌, ◌==◌, nat_eq, Option-cases,
}
use st0x_oracle_server.Base.Int.{ℤ}
use st0x_oracle_server.Base.Errors.{Result-cases}

-- One read, with what happens outside.
pub record Call : Type 0 where
  pub outside : Outside
  pub gs_url : Text
  pub unless : Option ℤ

module _ (storage_url : Text) (source : TokenSource) where
  -- The token source after the reads, the latest first.
  unfoldable pub after : List Call → TokenSource
  after [] = source
  after (c ∷ earlier) = (read storage_url c.outside (after earlier) c.gs_url c.unless).0

-- The metadata server's answer to the call: a token, and until when it is used.
abbrev pub Gives : Call → String → ℕ → Type 0
Gives c token until =
    (fresh : MetadataToken) × (c.outside.metadata_token ≡ ok fresh)
    × (token ≡ fresh.access_token)
    × (until ≡ c.outside.fetched + 1000 * (fresh.expires_in - 60))

abbrev pub Issued : List Call → String → ℕ → Type 0
Issued calls token until = (n : ℕ) × (c : Call) × (get_elem? calls n ≡ some c) × Gives c token until

abbrev HoldsIssued : List Call → TokenSource → Type 0
HoldsIssued calls (fixed token) = Unit
HoldsIssued calls (metadata none) = Unit
HoldsIssued calls (metadata (some (token, until))) = Issued calls token until

HoldsIssued-later :
    (c : Call) (calls : List Call) (s : TokenSource)
    → HoldsIssued calls s
    → HoldsIssued (c ∷ calls) s
HoldsIssued-later c calls (fixed token) h = tt
HoldsIssued-later c calls (metadata none) h = tt
HoldsIssued-later c calls (metadata (some (token, until))) (n, d, at, gives) = (suc n, d, at, gives)

-- The token of a read: a fixed one, one that this read fetched, or an earlier one before its end.
abbrev pub FreshFrom : List Call → Call → TokenSource → String → Type 0
FreshFrom earlier c (fixed token) bearer = bearer ≡ token
FreshFrom earlier c (metadata cached) bearer =
    (until : ℕ) × (Gives c bearer until ⊎ (Issued earlier bearer until × (c.outside.now < until)))

fetch_token-HoldsIssued :
    (c : Call) (calls : List Call) (cached : Option (String × ℕ)) (r : Result String MetadataToken)
    → c.outside.metadata_token ≡ r
    → HoldsIssued calls (metadata cached)
    → HoldsIssued (c ∷ calls) (fetch_token c.outside cached r).0
fetch_token-HoldsIssued c calls cached (ok fresh) e h = (0, c, refl, (fresh, e, refl, refl))
fetch_token-HoldsIssued c calls cached (err why) e h = HoldsIssued-later c calls (metadata cached) h

fetch_token-Gives :
    (c : Call) (cached : Option (String × ℕ)) (r : Result String MetadataToken) (bearer : String)
    → c.outside.metadata_token ≡ r
    → (fetch_token c.outside cached r).1 ≡ ok bearer
    → (until : ℕ) × Gives c bearer until
fetch_token-Gives c cached (ok fresh) bearer e h =
    (c.outside.fetched + 1000 * (fresh.expires_in - 60), (fresh, e, ground (arith, h), refl))
fetch_token-Gives c cached (err why) bearer e h = absurd (ground arith)

access_token-HoldsIssued :
    (c : Call) (calls : List Call) (s : TokenSource)
    → HoldsIssued calls s
    → HoldsIssued (c ∷ calls) (access_token c.outside s).0
unfolding access_token
access_token-HoldsIssued c calls (fixed token) h = tt
access_token-HoldsIssued c calls (metadata none) h =
    fetch_token-HoldsIssued c calls none c.outside.metadata_token refl tt
access_token-HoldsIssued c calls (metadata (some (token, until))) h =
    elim (Bool-cases (ltb c.outside.now until)) [
      | inl e ↦ rw e (HoldsIssued-later c calls (metadata (some (token, until))) h)
      | inr e ↦
          rw e
            (fetch_token-HoldsIssued c calls (some (token, until)) c.outside.metadata_token refl h)
    ]

access_token-FreshFrom :
    (c : Call) (calls : List Call) (s : TokenSource) (bearer : String)
    → HoldsIssued calls s
    → (access_token c.outside s).1 ≡ ok bearer
    → FreshFrom calls c s bearer
unfolding access_token
access_token-FreshFrom c calls (fixed token) bearer h e = ground (arith, e)
access_token-FreshFrom c calls (metadata none) bearer h e =
    let (until, gives) = fetch_token-Gives c none c.outside.metadata_token bearer refl e in
    (until, inl gives)
access_token-FreshFrom c calls (metadata (some (token, until))) bearer h e =
    elim (Bool-cases (ltb c.outside.now until)) [
      | inl early ↦ (
        until,
        inr (subst (λ b. Issued calls b until) (ground (arith, e, early)) h, ground (arith, early)),
      )
      | inr late ↦
          let (end, gives) =
            fetch_token-Gives c (some (token, until)) c.outside.metadata_token bearer refl
              (ground (arith, e, late)) in
          (end, inl gives)
    ]

forget-HoldsIssued :
    (calls : List Call) (s : TokenSource)
    → HoldsIssued calls s
    → HoldsIssued calls (forget_access_token s)
forget-HoldsIssued calls (fixed token) h = tt
forget-HoldsIssued calls (metadata cached) h = tt

receive-HoldsIssued :
    (calls : List Call) (unless : Option ℤ) (s : TokenSource) (r : Result String Response)
    → HoldsIssued calls s
    → HoldsIssued calls (receive unless s r).0
unfolding receive
receive-HoldsIssued calls unless s (err why) h = h
receive-HoldsIssued calls unless s (ok response) h =
    elim (Bool-cases (is_some unless && (response.status == 304))) [
      | inl e ↦ rw e h
      | inr e ↦ elim (Bool-cases (is_success response.status)) [
        | inl f ↦ rw (e, f) h
        | inr f ↦ elim (Bool-cases (response.status == 401)) [
          | inl g ↦ rw (e, f, g) (forget-HoldsIssued calls s h)
          | inr g ↦ rw (e, f, g) h
        ]
      ]
    ]

-- A bucket of the environment starts with a fixed token, or with none.
abbrev pub IsInitial : TokenSource → Type 0
IsInitial (fixed token) = Unit
IsInitial (metadata cached) = cached ≡ none

initial-HoldsIssued : (s : TokenSource) → IsInitial s → HoldsIssued [] s
initial-HoldsIssued (fixed token) h = tt
initial-HoldsIssued (metadata none) h = tt
initial-HoldsIssued (metadata (some held)) h = absurd (ground (arith, h))

module _ (storage_url : Text) (source : TokenSource) (initial : IsInitial source) where
  read-HoldsIssued :
      (c : Call) (calls : List Call) (s : TokenSource)
      → HoldsIssued calls s
      → HoldsIssued (c ∷ calls) (read storage_url c.outside s c.gs_url c.unless).0
  unfolding read split_gs_url strip_prefix
  read-HoldsIssued c calls s h =
      let held = access_token-HoldsIssued c calls s h in
      elim (Option-cases (split_gs_url c.gs_url)) [
        | inl e ↦ rw e (HoldsIssued-later c calls s h)
        | inr ((bucket, object), e) ↦ elim (Result-cases (access_token c.outside s).1) [
          | inr (why, f) ↦ rw (e, f) held
          | inl (bearer, f) ↦
              rw (e, f)
                (receive-HoldsIssued (c ∷ calls) c.unless (access_token c.outside s).0 _ held)
        ]
      ]

  after-HoldsIssued : (calls : List Call) → HoldsIssued calls (after storage_url source calls)
  unfolding after
  after-HoldsIssued [] = initial-HoldsIssued source initial
  after-HoldsIssued (c ∷ earlier) =
      read-HoldsIssued c earlier (after storage_url source earlier) (after-HoldsIssued earlier)

  -- Over any history of reads, the access token that a read sends is the fixed one, or the metadata
  -- server's answer to this read, or its answer to an earlier read, at most until sixty seconds
  -- before that token expires, counted from the moment at which it was fetched.
  pub access_token-Fresh :
      (earlier : List Call) (c : Call) (bearer : String)
      → (access_token c.outside (after storage_url source earlier)).1 ≡ ok bearer
      → FreshFrom earlier c (after storage_url source earlier) bearer
  access_token-Fresh earlier c bearer e =
      access_token-FreshFrom c earlier (after storage_url source earlier) bearer
        (after-HoldsIssued earlier) e
