-- ===== src/EventChannel/Store/Tests.antt =====
-- A store with one channel whose consumers cannot be disconnected.
use omni_events.Prelude.{ℕ, ◌≡◌, refl, none, some, List, [], ◌∷◌, ◌++◌, map, inl, inr}
use omni_events.Prelude.Text.{codes}
use omni_events.Proxy.{ok, throw, object_not_exist}
use omni_events.EventChannel.Examples.{admins}
use omni_events.EventChannel.{Admins, new_channel, activate}
use omni_events.EventChannel.Store.{Entry, empty, destroy_entry, empty-destroys}

abbrev one : Entry (List ℕ) (List ℕ)
one = record { pointer = 10; channel = activate admins (codes "one") none new_channel }

abbrev three : Entry (List ℕ) (List ℕ)
three = record { pointer = 30; channel = activate admins (codes "three") none new_channel }

-- The consumers of this channel cannot be disconnected where there are any.
abbrev stubborn : Admins (List ℕ) (List ℕ) ℕ
stubborn = record admins {
  disconnect_consumers =
      λ c. elim c [ [] ↦ (ok tt, []) | x ∷ xs ↦ (throw object_not_exist, x ∷ xs) ];
}

abbrev two : Entry (List ℕ) (List ℕ)
two = record { pointer = 20; channel = record (one.channel) { consumer_admin = some (5 ∷ []) } }

empty-destroys_example :
    (empty stubborn (one ∷ []) ≡ (ok tt, map (destroy_entry stubborn) (one ∷ [])))
    × (empty stubborn (one ∷ two ∷ three ∷ []) ≡ (
      throw object_not_exist,
      map (destroy_entry stubborn) (one ∷ []) ++ destroy_entry stubborn two ∷ three ∷ [],
    ))
unfolding activate
empty-destroys_example =
    empty-destroys stubborn (one ∷ []) (three ∷ []) two object_not_exist ((refl, refl, refl), tt)
      (inr (refl, inl refl))
