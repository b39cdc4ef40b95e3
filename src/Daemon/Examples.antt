-- ===== src/Daemon/Examples.antt =====
-- A system on which every call works, and a server that is to go into the background.
use omni_events.Prelude.{true, false, some, []}
use omni_events.Prelude.Text.{codes}
use omni_events.Daemon.{Calls, Process, opened_other, regular, alive, new_daemon, pidfile_path}

abbrev pub calls : Calls
calls = record {
  have_on_exit = true;
  on_exit_works = true;
  pipe_works = true;
  fork_works = true;
  setsid_works = true;
  chdir_works = true;
  open_file = λ fd name. opened_other;
  pidfile_reads = true;
  pidfile_opens = true;
  stat = λ name. regular;
  kill = λ pid. alive;
  unlink_works = true;
  write_works = true;
  own_pid = 900;
}

unfoldable pub server : Process
unfolding new_daemon pidfile_path
server = record {
  daemon = record new_daemon { pidfile = some (pidfile_path (codes "omniEvents.pid")) };
  exit_handler = false;
  sent = [];
  pid_in_file = some 77;
}
