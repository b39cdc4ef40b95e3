-- ===== src/Daemon/Pidfile/Tests.antt =====
-- A second server with the pidfile of one that runs as process 77.
use omni_events.Prelude.{refl}
use omni_events.Prelude.Text.{codes}
use omni_events.Daemon.{daemonize}
use omni_events.Daemon.Pidfile.{Refuses, daemonize-Refuses}
use omni_events.Daemon.Examples.{calls, server}

daemonize-Refuses_example : Refuses (codes "/var/run/omniEvents.pid") 77 (daemonize calls server)
unfolding server
daemonize-Refuses_example =
    daemonize-Refuses (codes "/var/run/omniEvents.pid") 77 calls server refl refl refl refl
      (refl, refl, refl)
