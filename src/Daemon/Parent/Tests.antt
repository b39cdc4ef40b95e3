-- ===== src/Daemon/Parent/Tests.antt =====
-- A server whose start fails with an exception behind daemonize().
use omni_events.Prelude.{refl}
use omni_events.Daemon.{Calls, no_process, fails_starting, daemonize}
use omni_events.Daemon.Parent.{Learns, daemonize-Learns}
use omni_events.Daemon.Examples.{calls, server}

abbrev stale : Calls
stale = record calls { kill = λ pid. no_process }

daemonize-Learns_example : Learns stale fails_starting (daemonize stale server)
unfolding server
daemonize-Learns_example = daemonize-Learns stale fails_starting server refl refl refl (refl, refl)
