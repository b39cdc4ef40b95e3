-- ===== src/Factory/Listing/Tests.antt =====
-- A store with two channels, listed in two calls.
use omni_events.Prelude.{ℕ, ◌≡◌, ◌++◌, none, List, [], ◌∷◌, arith}
use omni_events.Prelude.Text.{codes}
use omni_events.EventChannel.Examples.{admins}
use omni_events.EventChannel.{new_channel, activate}
use omni_events.EventChannel.Store.{Store}
use omni_events.Iterators.Fetch.{one, fetch_rest}
use omni_events.Factory.Listing.{
  list_store, list_channels, exists_channel, listed, list_channels-exists_channel,
}

abbrev two : Store (List ℕ) (List ℕ)
two =
    record { pointer = 1; channel = activate admins (codes "a") none new_channel }
    ∷ record { pointer = 2; channel = activate admins (codes "b") none new_channel }
    ∷ []

list_channels-exists_channel_example :
    let (first, rest) = list_channels 1 two in
    let fetched = first ++ fetch_rest rest (one ∷ []) in
    (fetched ≡ list_store two) × (exists_channel (codes "b") two ≡ listed (codes "b") fetched)
list_channels-exists_channel_example =
    list_channels-exists_channel (codes "b") 1 (one ∷ []) two (omega arith)
