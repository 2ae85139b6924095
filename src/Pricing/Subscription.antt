-- ===== src/Pricing/Subscription.antt =====
-- src/pricing_client.rs: a connected session with the pricing service, which follows the list of
-- symbols, and the loop that connects again.
use st0x_oracle_server.Base.Ordered.{collect, text_ord}
use st0x_oracle_server.Base.{
  none, some, string_eq, ok, err, String, ℕ, List, Result, Option, Bool, filter, ◌∷◌, if◌then◌else◌,
  true, ◌*◌, not, [], is_empty, false, ◌+◌, ltb, contains,
}
use st0x_oracle_server.Pricing.{Feed, apply_server_frame}
use st0x_oracle_server.Wire.{ServerFrame, ClientFrame, subscribe, unsubscribe}

pub data ClientError : Type 0 where
  web_socket : (why : String) → ClientError
  no_frame : ClientError
  header : (why : String) → ClientError
  id_token : (why : String) → ClientError

-- Sixty seconds, in milliseconds.
abbrev pub read_deadline : ℕ
read_deadline = 60000

-- What the session keeps, the value of the watched list among it, and the frames that it has sent,
-- the latest first.
pub record Link : Type 0 where
  pub feed : Feed
  pub published : List String
  pub sent : List String
  pub watching : Bool
  pub deadline : ℕ
  pub out : List ClientFrame

pub data Message : Type 0 where
  -- A binary message, decoded or not.
  binary : Result String ServerFrame → Message
  transport_ping : Message
  other_message : Message
  broken : (why : String) → Message

abbrev pub Sent : Type 0
Sent = Result String (Unit {0})

-- What wakes the session, and what others do meanwhile.
pub data Wake : Type 0 where
  publishes : List String → Wake
  deadline_passes : Wake
  -- The list changed; the outcomes of the two frames that may be sent.
  list_changed : Sent → Sent → Wake
  sender_gone : Wake
  -- At a moment, a message; the outcome of the reply is not looked at.
  message : ℕ → Message → Sent → Wake
  stream_ends : Wake

pub data Turn : Type 0 where
  goes_on : Link → Turn
  ends : Result ClientError (Unit {0}) → Link → Turn

abbrev pub difference : List String → List String → List String
difference xs ys = filter (λ s. not (contains s ys)) xs

-- `send_frame` of a frame, unless its list is empty.
abbrev pub send_some : List String → ClientFrame → Sent → Link → Turn
send_some [] frame sent l = goes_on l
send_some (s ∷ symbols) frame (ok u) l = goes_on (record l { out = frame ∷ l.out })
send_some (s ∷ symbols) frame (err why) l = ends (err (web_socket why)) l

abbrev pub then_turn : Turn → (Link → Turn) → Turn
then_turn (goes_on l) f = f l
then_turn (ends r l) f = ends r l

-- The new list is now the one that was sent; an empty one ends the session.
abbrev pub settle_list : List String → Link → Turn
settle_list next l =
    let l' = record l { sent = next } in if is_empty next then ends (ok tt) l' else goes_on l'

module _ (consumer : String) where
  unfoldable pub follow : Sent → Sent → Link → Turn
  follow subscribed unsubscribed l =
      let next = collect l.published in
      let added = difference next l.sent in
      let removed = difference l.sent next in
      then_turn (send_some added (subscribe consumer added) subscribed l) (λ l₁.
        then_turn (send_some removed (unsubscribe removed) unsubscribed l₁) (settle_list next))

abbrev pub replied : Option ClientFrame → Sent → Link → Link
replied none sent l = l
replied (some reply) (ok u) l = record l { out = reply ∷ l.out }
replied (some reply) (err why) l = l

abbrev pub handle : Message → Sent → Link → Turn
handle (binary (err why)) sent l = goes_on l
handle (binary (ok frame)) sent l =
    let (feed, reply) = apply_server_frame l.feed (some l.published) frame in
    goes_on (replied reply sent (record l { feed = feed }))
handle transport_ping sent l = goes_on l
handle other_message sent l = goes_on l
handle (broken why) sent l = ends (err (web_socket why)) l

module _ (consumer : String) where
  -- One turn of `select!`.
  unfoldable pub turn : Link → Wake → Turn
  turn l (publishes symbols) = goes_on (record l { published = symbols })
  turn l deadline_passes = ends (err no_frame) l
  turn l (list_changed subscribed unsubscribed) =
      if l.watching then follow consumer subscribed unsubscribed l else goes_on l
  turn l sender_gone = goes_on (record l { watching = false })
  turn l (message now m sent) = handle m sent (record l { deadline = now + read_deadline })
  turn l stream_ends = ends (ok tt) l

  -- The session up to its loop.
  unfoldable pub start_session : ℕ → Feed → List String → Sent → Turn
  start_session now feed published subscribed =
      let sent = collect published in
      let l : Link = record {
        feed = feed;
        published = published;
        sent = sent;
        watching = true;
        deadline = now + read_deadline;
        out = [];
      } in
      if is_empty sent
      then ends (ok tt) l
      else send_some sent (subscribe consumer sent) subscribed l

  unfoldable pub run_session : Turn → List Wake → Turn
  run_session (ends r l) wakes = ends r l
  run_session (goes_on l) [] = goes_on l
  run_session (goes_on l) (w ∷ wakes) = run_session (turn l w) wakes

pub record Backoff : Type 0 where
  pub initial : ℕ
  pub max : ℕ

-- In milliseconds.
abbrev pub client_backoff : Backoff
client_backoff = record { initial = 1000; max = 30000 }

abbrev pub min : ℕ → ℕ → ℕ
min a b = if ltb a b then a else b

-- What `run_loop` does with the end of a session: the pause, if any, and the next backoff.
unfoldable pub reconnect : Backoff → ℕ → Result ClientError (Unit {0}) → Option ℕ × ℕ
reconnect b backoff (ok u) = (none, b.initial)
reconnect b backoff (err e) = (some backoff, min (backoff * 2) b.max)

-- `run_loop` over the ends of its sessions: the pauses in their order.
unfoldable pub pauses : Backoff → ℕ → List (Result ClientError (Unit {0})) → List ℕ
pauses b backoff [] = []
pauses b backoff (end ∷ ended) =
    let (pause, next) = reconnect b backoff end in
    let rest = pauses b next ended in elim pause [ none ↦ rest | some p ↦ p ∷ rest ]
