-- ===== src/Pricing/Followed.antt =====
-- The pricing service is asked for the symbols of the token set, and for no others.
use st0x_oracle_server.Base.Ordered.{collect, text_ord}
use st0x_oracle_server.Base.{
  none, some, string_eq, ok, err, String, List, false, ◌≡◌, ◌∷◌, is_empty, [], true, arith, refl, ℕ,
  sym, Option, ◌+◌, subst,
}
use st0x_oracle_server.Pricing.Subscription
use st0x_oracle_server.Pricing.Subscription.{Link, Turn, Sent, goes_on, ends, turn}
use st0x_oracle_server.Wire.{ClientFrame, subscribe, pong, ServerFrame, price, error, halt, ping}
use st0x_oracle_server.Pricing.{Feed, apply_server_frame}
use st0x_oracle_server.Base.Int.{ℤ}
use st0x_oracle_server.Pricing.Requested.{
  InStep, GoesOn, GoesOn-map, if-GoesOn, Follows, follow-Follows,
}

module _ (consumer : String) where
  replied-InStep :
      (reply : Option ClientFrame) (sent : Sent) (l : Link)
      → ((r : ClientFrame) → reply ≡ some r → (ts : ℤ) × (r ≡ pong ts))
      → InStep l
      → InStep (Subscription.replied reply sent l)
  replied-InStep none sent l p h = h
  replied-InStep (some r) (err why) l p h = h
  replied-InStep (some r) (ok u) l p h =
      let (ts, e) = p r refl in
      subst (λ (x : ClientFrame). InStep (record l { out = x ∷ l.out })) (sym e) (h.0, (refl, h.1))

  reply-pong :
      (f : Feed) (assets : Option (List String)) (frame : ServerFrame) (reply : ClientFrame)
      → (apply_server_frame f assets frame).1 ≡ some reply
      → (ts : ℤ) × (reply ≡ pong ts)
  unfolding apply_server_frame
  reply-pong f assets (price q) reply h = absurd (ground arith)
  reply-pong f assets (error code asset) reply h = absurd (ground arith)
  reply-pong f assets (halt chain_id asset true) reply h = absurd (ground arith)
  reply-pong f assets (halt chain_id asset false) reply h = absurd (ground arith)
  reply-pong f assets (ping ts) reply h = (ts, ground arith)

  handle-InStep :
      (m : Subscription.Message) (sent : Sent) (l : Link)
      → InStep l
      → GoesOn InStep (Subscription.handle m sent l)
  handle-InStep (Subscription.binary (err why)) sent l h = h
  handle-InStep (Subscription.binary (ok frame)) sent l h =
      let next = apply_server_frame l.feed (some l.published) frame in
      replied-InStep next.1 sent (record l { feed = next.0 })
        (reply-pong l.feed (some l.published) frame) h
  handle-InStep Subscription.transport_ping sent l h = h
  handle-InStep Subscription.other_message sent l h = h
  handle-InStep (Subscription.broken why) sent l h = tt

  turn-InStep : (l : Link) (w : Subscription.Wake) → InStep l → GoesOn InStep (turn consumer l w)
  unfolding turn
  turn-InStep l (Subscription.publishes symbols) h = h
  turn-InStep l Subscription.deadline_passes h = tt
  turn-InStep l (Subscription.list_changed a b) h =
      if-GoesOn InStep l.watching (Subscription.follow consumer a b l) (goes_on l)
        (GoesOn-map Follows InStep (Subscription.follow consumer a b l) (λ m k. k.0)
          (follow-Follows consumer a b l h))
        h
  turn-InStep l Subscription.sender_gone h = h
  turn-InStep l (Subscription.message now m sent) h =
      handle-InStep m sent (record l { deadline = now + Subscription.read_deadline }) h
  turn-InStep l Subscription.stream_ends h = tt

  started : ℕ → Feed → List String → List String → Link
  started now feed published symbols = record {
    feed = feed;
    published = published;
    sent = symbols;
    watching = true;
    deadline = now + Subscription.read_deadline;
    out = [];
  }

  start_send :
      (now : ℕ) (feed : Feed) (published symbols : List String) (a : Sent)
      → symbols ≡ collect published
      → GoesOn Follows (
          Subscription.send_some symbols
            (subscribe consumer symbols)
            a
            (started now feed published symbols))
  unfolding started
  start_send now feed published [] a e = ((λ s. refl, tt), e)
  start_send now feed published (x ∷ xs) (ok u) e = ((λ s. ground arith, (refl, tt)), e)
  start_send now feed published (x ∷ xs) (err why) e = tt

  start_session-Follows :
      (now : ℕ) (feed : Feed) (published : List String) (a : Sent)
      → GoesOn Follows (Subscription.start_session consumer now feed published a)
  unfolding Subscription.start_session started
  start_session-Follows now feed published a =
      let sent = collect published in
      if-GoesOn Follows (is_empty sent) (ends (ok tt) (started now feed published sent))
        (Subscription.send_some sent (subscribe consumer sent) a (started now feed published sent))
        tt (start_send now feed published sent a refl)

  run_session-InStep :
      (t : Turn) (wakes : List Subscription.Wake)
      → GoesOn InStep t
      → GoesOn InStep (Subscription.run_session consumer t wakes)
  unfolding Subscription.run_session
  run_session-InStep (ends r l) wakes h = tt
  run_session-InStep (goes_on l) [] h = h
  run_session-InStep (goes_on l) (w ∷ wakes) h =
      run_session-InStep (turn consumer l w) wakes (turn-InStep l w h)

  -- While a session lasts, whatever wakes it and however the list changes meanwhile, the service
  -- is asked for exactly the symbols that the session believes to have asked for, and no frame
  -- asks for nothing.
  pub session-InStep :
      (now : ℕ) (feed : Feed) (published : List String) (a : Sent) (wakes : List Subscription.Wake)
      → GoesOn InStep (
          Subscription.run_session consumer
            (Subscription.start_session consumer now feed published a)
            wakes)
  session-InStep now feed published a wakes =
      let t = Subscription.start_session consumer now feed published a in
      run_session-InStep t wakes
        (GoesOn-map Follows InStep t (λ m k. k.0) (start_session-Follows now feed published a))

  -- A session that notices a change and lasts has asked for exactly the symbols of the new list.
  pub list_changed-Follows :
      (l : Link) (a b : Sent)
      → InStep l
      → l.watching ≡ true
      → GoesOn Follows (turn consumer l (Subscription.list_changed a b))
  unfolding turn
  list_changed-Follows l a b h w =
      subst (GoesOn Follows) {x = Subscription.follow consumer a b l} (ground arith)
        (follow-Follows consumer a b l h)
