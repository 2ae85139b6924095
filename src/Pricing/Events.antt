-- ===== src/Pricing/Events.antt =====
-- Histories of the cache: frames from the pricing service, and the symbols that a reload forgets.
-- Each happens under the write lock, so a history is a list.
use st0x_oracle_server.Base.{
  Option, List, Bool, String, ◌∷◌, ◌&&◌, [], ◌==◌, some, false, contains, string_eq, pair_eq,
  nat_eq,
}
use st0x_oracle_server.Pricing.{Feed, Key, apply_server_frame, forget}
use st0x_oracle_server.Wire.{halt, ServerFrame, error, stale_source}

pub data Event : Type 0 where
  -- A frame, and the list of subscribed symbols at that moment.
  arrives : Option (List String) → ServerFrame → Event
  forgets : List String → Event

unfoldable pub step : Feed → Event → Feed
step f (arrives assets frame) = (apply_server_frame f assets frame).0
step f (forgets symbols) = (forget f symbols).0

unfoldable pub run : Feed → List Event → Feed
unfolding step
run f [] = f
run f (ev ∷ evs) = run (step f ev) evs

-- The event disowns the quotes of the key: a halt on its chain, a stale source of its asset on
-- whatever chain, or a reload that drops or readdresses its symbol.
abbrev pub disowns : Key → Event → Bool
disowns k (arrives assets (halt chain_id asset halted)) = halted && (k == (chain_id, asset))
disowns k (arrives assets (error stale_source (some asset))) = k.1 == asset
disowns k (arrives assets frame) = false
disowns k (forgets symbols) = contains k.1 symbols
