-- ===== src/EventChannel/Lifecycle/Tests.antt =====
-- A channel that is activated, runs and is destroyed.
use omni_events.Prelude.{ℕ, false, some, none, List}
use omni_events.Prelude.Text.{codes}
use omni_events.EventChannel.Examples.{admins}
use omni_events.EventChannel.{System, fresh, new_channel, activate, destroy, begin}

abbrev first : System (List ℕ) (List ℕ)
first = record {
  channel = activate admins (codes "ch") none new_channel;
  phase = fresh;
  stored = false;
  log = some (codes "ecf ;;\n");
}

abbrev begun : System (List ℕ) (List ℕ)
begun = begin admins first

abbrev shut : System (List ℕ) (List ℕ)
shut = record begun { channel = (destroy admins (begun.channel)).1 }
