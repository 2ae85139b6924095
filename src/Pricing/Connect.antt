-- ===== src/Pricing/Connect.antt =====
-- src/pricing_client.rs: what a connection to the pricing service authenticates itself with.
use st0x_oracle_server.Base.Text.{Text, strip_prefix, trim, split_once, split_once-append}
use st0x_oracle_server.Base.Errors.{◌>>=◌, map_ok}
use st0x_oracle_server.Pricing.Subscription.{ClientError, web_socket, header, id_token}
use st0x_oracle_server.Base.{
  Option, codes, Result, ℕ, Bool, contains, if◌then◌else◌, some, String, leb, List, ◌≡◌, is_empty,
  ◌++◌, ◌&&◌, ok, false, none, ltb, ◌∷◌, [], arith, nat_eq, map_err, err,
}
use st0x_oracle_server.Base.Errors.{map_ok}
use mathlib.Core.Option.{none}

-- `str::find` of a text: what stands before it and after it.
unfoldable pub find : Text → Text → Option (Text × Text)
find pattern [] = if is_empty pattern then some ([], []) else none
find pattern (c ∷ s) =
    let rest = find pattern s in
    elim (strip_prefix pattern (c ∷ s)) [
      | some after ↦ some ([], after)
      | none ↦ elim rest [ none ↦ none | some (before, after) ↦ some (c ∷ before, after) ]
    ]

-- A `ws` scheme as the `http` scheme that it stands for.
unfoldable pub as_http : Text → Text
as_http ws_url = elim (strip_prefix (codes "wss://") ws_url) [
  | some rest ↦ codes "https://" ++ rest
  | none ↦ elim (strip_prefix (codes "ws://") ws_url) [
    | some rest ↦ codes "http://" ++ rest
    | none ↦ ws_url
  ]
]

abbrev host_of : Text → Text
host_of rest = elim (split_once b'/' rest) [ none ↦ rest | some (host, path) ↦ host ]

unfoldable pub service_audience : Text → Text
service_audience ws_url = elim (find (codes "://") (as_http ws_url)) [
  | none ↦ as_http ws_url
  | some (scheme, rest) ↦ scheme ++ (codes "://" ++ host_of rest)
]

-- What other crates do: reading the URL, the metadata server's status and body for an audience,
-- reading a header's value, and opening the socket.
pub record Handshake : Type 0 where
  pub into_client_request : Text → Result String (Unit {0})
  pub metadata : Text → Result String (ℕ × Result String Text)
  pub from_str : Text → Result String (Unit {0})
  pub connect_async : Text → Text → Result String (Unit {0})

abbrev is_success : ℕ → Bool
is_success status = leb 200 status && ltb status 300

unfoldable pub fetch_id_token : Handshake → Text → Result ClientError Text
fetch_id_token h audience = do
  (status, body) ← map_err id_token (h.metadata audience)
  if is_success status
      then map_ok trim (map_err id_token body)
      else err (id_token "metadata status")

abbrev bearer_of : Handshake → Bool → Text → Text → Result ClientError Text
bearer_of h iam_auth ws_url api_key =
    if iam_auth
    then map_ok (λ t. codes "Bearer " ++ t) (fetch_id_token h (service_audience ws_url))
    else ok (codes "Bearer " ++ api_key)

-- `connect_and_run` up to its session: what the session's socket was opened with, or nothing when
-- there is no symbol to follow.
unfoldable pub connect :
    Handshake → Bool → Text → Text → List String → Result ClientError (Option Text)
connect h iam_auth ws_url api_key [] = ok none
connect h iam_auth ws_url api_key (s ∷ assets) = do
  _ ← map_err web_socket (h.into_client_request ws_url)
  bearer ← bearer_of h iam_auth ws_url api_key
  _ ← map_err header (h.from_str bearer)
  _ ← map_err web_socket (h.connect_async ws_url bearer)
  ok (some bearer)

-- The audience of a `wss` address is its host under `https`, without the path.
service_audience-wss :
    (host path : Text)
    → contains b'/' host ≡ false
    → service_audience (codes "wss://" ++ (host ++ b'/' ∷ path)) ≡ codes "https://" ++ host
unfolding service_audience as_http find strip_prefix
service_audience-wss host path h = ground (arith, split_once-append b'/' host path h)
