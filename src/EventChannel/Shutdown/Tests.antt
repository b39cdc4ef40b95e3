-- ===== src/EventChannel/Shutdown/Tests.antt =====
-- A channel in its transfer phase that is destroyed.
use omni_events.Prelude.{ℕ, refl, true, some, none, List, [], ◌∷◌}
use omni_events.Prelude.Text.{codes}
use omni_events.EventChannel.Examples.{admins}
use omni_events.EventChannel.{System, transferring, new_channel, activate, destroy}
use omni_events.EventChannel.Shutdown.{Ended, run_thread, run_thread-destroy}

abbrev busy : System (List ℕ) (List ℕ)
busy = record {
  channel = activate admins (codes "ch") none new_channel;
  phase = transferring;
  stored = true;
  log = some (codes "ecf/ch ;;\n");
}

abbrev shut : System (List ℕ) (List ℕ)
shut = record busy { channel = (destroy admins (busy.channel)).1 }

run_thread-destroy_example : Ended admins (codes "ch") (run_thread admins 2 shut)
unfolding activate
run_thread-destroy_example =
    run_thread-destroy admins (codes "ch") (codes "ecf/ch ;;\n") busy refl refl refl refl

-- A supplier has pushed in between.
abbrev later : System (List ℕ) (List ℕ)
later = record shut {
  channel = record (shut.channel) {
    supplier_admin = some (9 ∷ []);
    consumer_admin = some (4 ∷ []);
  };
}
