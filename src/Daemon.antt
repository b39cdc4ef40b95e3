-- ===== src/Daemon.antt =====
-- The background process of the server on Unix: class DaemonImpl, src/daemon_unix.cc, and what main()
-- of src/main.cc does with it.
--
-- What the calls of the system answer is a record of answers. A status is an int, given by its value
-- modulo 2 ^ 32. The child's side of fork() is a process that goes on or has ended; the parent's is what
-- it reads from the pipe. An ofstream and an ifstream throw nothing, as they are set up here. The
-- configuration is the one for omniORB 4 with LOG_PERROR.
pub mod Start
mod Parent
mod Pidfile
mod Examples
use omni_events.Prelude.{
  ℕ, ◌-◌, ◌^◌, ◌==◌, ltb, Bool, true, false, not, ◌&&◌, Option, none, some, List, [], ◌∷◌, ◌++◌,
  if◌then◌else◌,
}
use omni_events.Prelude.Text.{Str, codes}

abbrev pub minus_one : ℕ
minus_one = 2 ^ 32 - 1

pub data Stat : Type 0 where
  regular not_regular missing stat_failed : Stat

pub data Kill : Type 0 where
  alive no_process kill_failed : Kill

-- open() for a descriptor that is to be replaced gives none, this one, or another that dup2() copies or
-- fails to copy.
pub data Open : Type 0 where
  not_opened opened_same opened_other dup_failed : Open

pub record Calls : Type 0 where
  pub have_on_exit : Bool
  pub on_exit_works : Bool
  pub pipe_works : Bool
  pub fork_works : Bool
  pub setsid_works : Bool
  pub chdir_works : Bool
  pub open_file : ℕ → Str → Open
  -- Whether the pidfile can be opened for reading, and for writing.
  pub pidfile_reads : Bool
  pub pidfile_opens : Bool
  pub stat : Str → Stat
  pub kill : ℕ → Kill
  pub unlink_works : Bool
  pub write_works : Bool
  pub own_pid : ℕ

pub record Daemon : Type 0 where
  pub tracefile : Option Str
  pub pidfile : Option Str
  pub foreground : Bool
  pub have_pidfile : Bool
  pub have_parent : Bool
  pub have_syslog : Bool

-- A process: its exit handler, the statuses in its pipe, and the process id in the file at _pidfile,
-- which is 0 where the text is no positive number.
pub record Process : Type 0 where
  pub daemon : Daemon
  pub exit_handler : Bool
  pub sent : List ℕ
  pub pid_in_file : Option ℕ

pub data Run : Type 0 where
  running : Process → Run
  exited : ℕ → Process → Run

unfoldable pub and_then : Run → (Process → Run) → Run
and_then (running p) f = f p
and_then (exited s p) f = exited s p

unfoldable pub new_daemon : Daemon
new_daemon = record {
  tracefile = none;
  pidfile = none;
  foreground = false;
  have_pidfile = false;
  have_parent = false;
  have_syslog = false;
}

-- The option -P: a name that is not absolute is one in /var/run.
unfoldable pub pidfile_path : Str → Str
pidfile_path [] = codes "/var/run/"
pidfile_path (c ∷ s) = if c == b'/' then c ∷ s else codes "/var/run/" ++ (c ∷ s)

unfoldable pub notify_parent : Calls → ℕ → Process → Process
notify_parent calls status p =
    if calls.write_works then record p { sent = p.sent ++ (status ∷ []) } else p

abbrev pub is_set : Option Str → Bool
is_set none = false
is_set (some f) = true

abbrev pub removable : Process → Bool
removable p = is_set p.daemon.pidfile && p.daemon.have_pidfile

-- The effect of unlink(), if it is called at all, and works.
abbrev pub unlinked : Bool → Bool → ℕ → Process → ℕ × Process
unlinked false works status p = (status, p)
unlinked true true status p = (status, record p { pid_in_file = none })
unlinked true false status p = (minus_one, p)

-- shutdown() up to the parent's notification, with the status for it.
unfoldable pub clear_pidfile : Calls → ℕ → Process → ℕ × Process
clear_pidfile calls status p =
    unlinked (removable p) calls.unlink_works status
      (record p { daemon = record (p.daemon) { have_pidfile = false; have_syslog = false } })

unfoldable pub shutdown : Calls → ℕ → Process → Process
unfolding clear_pidfile notify_parent
shutdown calls status p =
    let (s, q) = clear_pidfile calls status p in
    if p.daemon.have_parent
    then notify_parent calls s (record q { daemon = record (q.daemon) { have_parent = false } })
    else q

-- ::exit() with the handler that daemonize() has registered: on_exit() passes it the status,
-- atexit() does not.
unfoldable pub exit : Calls → ℕ → Process → Run
unfolding shutdown
exit calls status p =
    exited status
      (if p.exit_handler then shutdown calls (if calls.have_on_exit then status else 0) p else p)

unfoldable pub register : Calls → Process → Run
unfolding exit
register calls p =
    if calls.on_exit_works
    then running (record p { exit_handler = true })
    else exit calls minus_one p

-- fork(), in the child.
unfoldable pub fork : Calls → Process → Run
unfolding exit
fork calls p =
    if calls.pipe_works
    then (if calls.fork_works
        then (let q = record p { daemon = record (p.daemon) { have_parent = true } } in
            if calls.setsid_works then running q else exit calls minus_one q)
        else exit calls minus_one p)
    else exit calls minus_one p

-- What is done with the answer of kill(pid,0), of stat(), and with _pidfile.
unfoldable pub after_kill : Calls → Kill → Process → Run
unfolding exit
after_kill calls alive p = exit calls minus_one p
after_kill calls no_process p = running p
after_kill calls kill_failed p = exit calls minus_one p

unfoldable pub check_pid : Calls → Option ℕ → Process → Run
unfolding after_kill
check_pid calls none p = running p
check_pid calls (some pid) p = if ltb 0 pid then after_kill calls (calls.kill pid) p else running p

-- The number that the stream gives: none where it cannot be opened, which throws nothing.
abbrev pub pid_read : Calls → Process → Option ℕ
pid_read calls p = if calls.pidfile_reads then p.pid_in_file else none

unfoldable pub after_stat : Calls → Stat → Process → Run
unfolding exit check_pid
after_stat calls regular p = check_pid calls (pid_read calls p) p
after_stat calls not_regular p = exit calls minus_one p
after_stat calls missing p = running p
after_stat calls stat_failed p = exit calls minus_one p

unfoldable pub check_pidfile : Calls → Option Str → Process → Run
unfolding after_stat
check_pidfile calls none p = running p
check_pidfile calls (some f) p = after_stat calls (calls.stat f) p

unfoldable pub check_pidfile_or_shutdown : Calls → Process → Run
unfolding check_pidfile
check_pidfile_or_shutdown calls p = check_pidfile calls p.daemon.pidfile p

-- Whether the file could be opened is not asked.
abbrev pub with_pidfile : Calls → Option Str → Process → Process
with_pidfile calls none p = p
with_pidfile calls (some f) p =
    let q = record p { daemon = record (p.daemon) { have_pidfile = true } } in
    if calls.pidfile_opens then record q { pid_in_file = some calls.own_pid } else q

unfoldable pub write_pidfile : Calls → Process → Run
write_pidfile calls p = running (with_pidfile calls p.daemon.pidfile p)

unfoldable pub open_file_for : Calls → ℕ → Str → Bool
open_file_for calls fd name = elim (calls.open_file fd name) [
  | not_opened ↦ false
  | opened_same ↦ true
  | opened_other ↦ true
  | dup_failed ↦ false
]

unfoldable pub redirect_streams_to : Calls → Str → Process → Run
unfolding exit open_file_for
redirect_streams_to calls name p =
    if open_file_for calls 0 (codes "/dev/null")
    then (if open_file_for calls 1 name
        then (if open_file_for calls 2 name then running p else exit calls minus_one p)
        else exit calls minus_one p)
    else exit calls minus_one p

unfoldable pub redirect : Calls → Option Str → Process → Run
unfolding redirect_streams_to
redirect calls (some (c ∷ s)) p = redirect_streams_to calls (c ∷ s) p
redirect calls _ p = running (record p { daemon = record (p.daemon) { have_syslog = true } })

unfoldable pub fork_unless_foreground : Calls → Process → Run
unfolding fork
fork_unless_foreground calls p = if p.daemon.foreground then running p else fork calls p

unfoldable pub change_directory : Calls → Process → Run
unfolding exit redirect
change_directory calls p =
    if calls.chdir_works then redirect calls p.daemon.tracefile p else exit calls minus_one p

unfoldable pub daemonize : Calls → Process → Run
unfolding register fork_unless_foreground check_pidfile_or_shutdown write_pidfile change_directory
    and_then
daemonize calls p =
    and_then
      (and_then
        (and_then (and_then (register calls p) (fork_unless_foreground calls))
          (check_pidfile_or_shutdown calls))
        (write_pidfile calls))
      (change_directory calls)

unfoldable pub tell_ok : Calls → Process → Process
unfolding notify_parent
tell_ok calls p =
    if p.daemon.have_parent
    then notify_parent calls 0 (record p { daemon = record (p.daemon) { have_parent = false } })
    else p

unfoldable pub running_ok : Calls → Process → Run
unfolding tell_ok redirect_streams_to
running_ok calls p =
    if p.daemon.have_syslog
    then redirect_streams_to calls (codes "/dev/null") (tell_ok calls p)
    else running (tell_ok calls p)

-- What read() of the parent gives: a number of bytes and the status in them, or -1.
pub data Read : Type 0 where
  bytes : ℕ → ℕ → Read
  read_failed : Read

-- The comparison of -1 with sizeof(status) is one of unsigned numbers, and false.
unfoldable pub wait_for_child : Read → ℕ
wait_for_child (bytes n status) = if ltb n 4 then minus_one else status
wait_for_child read_failed = minus_one

-- The first status in the pipe, or the end of the pipe once the child has ended.
abbrev pub pipe_read : List ℕ → Read
pipe_read [] = bytes 0 0
pipe_read (s ∷ ss) = bytes 4 s

-- How main() goes on behind daemonize(): a CORBA exception before runningOk(), an exit(), an exception
-- behind runningOk(), or a request to shut down; or an exception that main() does not catch, an assertion
-- or a signal, before runningOk() or behind it, which ends the process with a status and without its exit
-- handler.
pub data Course : Type 0 where
  fails_starting : Course
  exits_starting : ℕ → Course
  fails_running : Course
  aborts_starting aborts_running : ℕ → Course
  shuts_down : Course

-- `return` from main(): the destructor of the Daemon, and then exit().
unfoldable pub return_from_main : Calls → ℕ → Process → Run
unfolding shutdown exit
return_from_main calls status p = exit calls status (shutdown calls 0 p)

unfoldable pub run_main : Calls → Course → Process → Run
unfolding return_from_main exit running_ok and_then
run_main calls fails_starting p = return_from_main calls 1 p
run_main calls (exits_starting status) p = exit calls status p
run_main calls fails_running p = and_then (running_ok calls p) (return_from_main calls 1)
run_main calls (aborts_starting status) p = exited status p
run_main calls (aborts_running status) p = and_then (running_ok calls p) (exited status)
run_main calls shuts_down p = and_then (running_ok calls p) (return_from_main calls 0)
