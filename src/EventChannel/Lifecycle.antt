-- ===== src/EventChannel/Lifecycle.antt =====
-- The life of a channel: its record in the log and in the store, and what destroy() puts an end to.
mod Tests
use omni_events.Prelude.{
  ℕ, zero, suc, ◌+◌, ◌≡◌, ltb, Bool, true, false, not, ◌&&◌, Option, none, some, List, [], ◌∷◌,
  ◌++◌, if◌then◌else◌, ◌⊎◌,
}
use omni_events.Prelude.Text.{Str, codes}
use omni_events.Proxy.{object_not_exist}
use omni_events.EventChannel.{
  Admins, Channel, System, Phase, fresh, looping, transferring, finished, failed, for_consumers,
  for_suppliers, poa_name, output, Reach,
}

module _ {S C E : Type 0} (admins : Admins S C E) (name l : Str) (start : System S C) where
  -- The state in which the thread begins, with the record of the channel as it is there.
  abbrev pub Beginning : System S C → Type 0
  Beginning u = Reach admins start u × (u.phase ≡ fresh) × (u.channel.poa ≡ some name)

  -- The channel has written its record.
  abbrev pub Begun : Option Str → Type 0
  Begun log = (u : System S C) × Beginning u × (log ≡ some (l ++ output admins u.channel))

  -- What the log, the store and the POA are in each phase, for a channel of this name and a log
  -- that had this text.
  abbrev pub Recorded : Channel S C → Phase → Bool → Option Str → Type 0
  Recorded c fresh stored log = (log ≡ some l) × (stored ≡ false) × (c.poa ≡ some name)
  Recorded c looping stored log = Begun log × (stored ≡ true) × (c.poa ≡ some name)
  Recorded c transferring stored log = Begun log × (stored ≡ true) × (c.poa ≡ some name)
  Recorded c finished stored log =
      ((u : System S C) × Beginning u
        × (log
            ≡ some (
                (l ++ output admins u.channel)
                ++ (if c.shutdown_requested then codes "-ecf/" ++ (name ++ codes "\n") else []))))
      × (stored ≡ false)
  Recorded c failed stored log = ((log ≡ some l) × (stored ≡ false)) ⊎ (Begun log × (stored ≡ true))

  abbrev sys : Channel S C → Phase → Bool → Option Str → System S C
  sys c p stored log = record { channel = c; phase = p; stored = stored; log = log }

  abbrev pub IsRecorded : System S C → Type 0
  IsRecorded s = Recorded (s.channel) (s.phase) (s.stored) (s.log)
