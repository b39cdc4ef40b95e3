-- ===== src/Daemon/Pidfile.antt =====
-- The pidfile of a server that is running already.
mod Tests
use omni_events.Prelude.{
  ℕ, ltb, ◌≡◌, refl, ap, sym, ◌∙◌, subst, Bool, true, false, ◌&&◌, Option, none, some, List, [],
  ◌∷◌, ◌++◌, if◌then◌else◌,
}
use omni_events.Prelude.Text.{Str, codes}
use omni_events.Daemon.{
  Calls, Daemon, Process, Run, running, exited, and_then, minus_one, notify_parent, clear_pidfile,
  is_set, removable, unlinked, shutdown, exit, register, fork, fork_unless_foreground, after_kill,
  check_pid, after_stat, check_pidfile, check_pidfile_or_shutdown, write_pidfile, change_directory,
  daemonize, Stat, regular, Kill, alive,
}
use omni_events.Daemon.Start.{if_cases}

and_false : (b : Bool) → (b && false) ≡ false
and_false true = refl
and_false false = refl

pid-unlinked :
    (called works : Bool) (status : ℕ) (p : Process)
    → called ≡ false
    → (unlinked called works status p).1.pid_in_file ≡ p.pid_in_file
pid-unlinked false works status p h = refl
pid-unlinked true works status p h = let wrong = h in cc

module _ (f : Str) (pid : ℕ) where
  -- The pidfile is not this process's, and has the other's number.
  abbrev pub Foreign : Process → Type 0
  Foreign p =
      (p.daemon.pidfile ≡ some f) × (p.daemon.have_pidfile ≡ false) × (p.pid_in_file ≡ some pid)

  abbrev pub EndsForeign : Run → Type 0
  EndsForeign (running p) = Foreign p
  EndsForeign (exited s p) = (s ≡ minus_one) × (p.pid_in_file ≡ some pid)

  abbrev pub Refuses : Run → Type 0
  Refuses (running p) = ⊥
  Refuses (exited s p) = (s ≡ minus_one) × (p.pid_in_file ≡ some pid)

  and_then-EndsForeign :
      (r : Run) (g : Process → Run)
      → EndsForeign r
      → ((p : Process) → Foreign p → EndsForeign (g p))
      → EndsForeign (and_then r g)
  unfolding and_then
  and_then-EndsForeign (running p) g h k = k p h
  and_then-EndsForeign (exited s p) g h k = h

  and_then-Refuses :
      (r : Run) (g : Process → Run)
      → EndsForeign r
      → ((p : Process) → Foreign p → Refuses (g p))
      → Refuses (and_then r g)
  unfolding and_then
  and_then-Refuses (running p) g h k = k p h
  and_then-Refuses (exited s p) g h k = h

  Refuses-and_then : (r : Run) (g : Process → Run) → Refuses r → Refuses (and_then r g)
  unfolding and_then
  Refuses-and_then (running p) g h = elim h [ ]
  Refuses-and_then (exited s p) g h = h

  module _ (calls : Calls) where
    shutdown-Foreign :
        (s : ℕ) (p : Process) → Foreign p → (shutdown calls s p).pid_in_file ≡ some pid
    unfolding shutdown clear_pidfile notify_parent
    shutdown-Foreign s p (n, h, k) =
        let own : removable p ≡ false =
          ap (λ b. is_set p.daemon.pidfile && b) h ∙ and_false (is_set p.daemon.pidfile) in
        let kept : (clear_pidfile calls s p).1.pid_in_file ≡ some pid =
          pid-unlinked (removable p) calls.unlink_works s _ own ∙ k in
        if_cases (λ q. Process.pid_in_file q ≡ some pid) p.daemon.have_parent _ _
          (λ y.
            if_cases (λ q. Process.pid_in_file q ≡ some pid) calls.write_works _ _ (λ w. kept)
              (λ w. kept))
          (λ y. kept)

    exit-Refuses : (p : Process) → Foreign p → Refuses (exit calls minus_one p)
    unfolding exit
    exit-Refuses p h = (
      refl,
      if_cases (λ q. Process.pid_in_file q ≡ some pid) p.exit_handler _ _
          (λ y. shutdown-Foreign (if calls.have_on_exit then minus_one else 0) p h) (λ y. h.2),
    )

    exit-EndsForeign : (p : Process) → Foreign p → EndsForeign (exit calls minus_one p)
    unfolding exit
    exit-EndsForeign p h = exit-Refuses p h

    register-EndsForeign : (p : Process) → Foreign p → EndsForeign (register calls p)
    unfolding register
    register-EndsForeign p h =
        if_cases EndsForeign calls.on_exit_works _ _ (λ y. h) (λ n. exit-EndsForeign p h)

    fork-EndsForeign : (p : Process) → Foreign p → EndsForeign (fork_unless_foreground calls p)
    unfolding fork_unless_foreground fork
    fork-EndsForeign p h =
        let child : Process = record p { daemon = record (p.daemon) { have_parent = true } } in
        let failed = exit-EndsForeign p h in
        if_cases EndsForeign p.daemon.foreground _ _ (λ y. h)
          (λ y.
            if_cases EndsForeign calls.pipe_works _ _
              (λ z.
                if_cases EndsForeign calls.fork_works _ _
                  (λ x.
                    if_cases EndsForeign calls.setsid_works _ _ (λ w. h)
                      (λ w. exit-EndsForeign child h))
                  (λ x. failed))
              (λ z. failed))

    check-Refuses :
        (p : Process)
        → ltb 0 pid ≡ true
        → calls.stat f ≡ regular
        → calls.pidfile_reads ≡ true
        → calls.kill pid ≡ alive
        → Foreign p
        → Refuses (check_pidfile_or_shutdown calls p)
    unfolding check_pidfile_or_shutdown check_pidfile after_stat check_pid after_kill
    check-Refuses p positive s o k (n, h, e) =
        let same : check_pidfile_or_shutdown calls p ≡ exit calls minus_one p =
          ap (λ o. check_pidfile calls o p) n
          ∙ ap (λ x. after_stat calls x p) s
          ∙ ap (λ b. check_pid calls (if b then p.pid_in_file else none) p) o
          ∙ ap (λ x. check_pid calls x p) e
          ∙ ap (λ b. if b then after_kill calls (calls.kill pid) p else running p) positive
          ∙ ap (λ x. after_kill calls x p) k in
        subst Refuses (sym same) (exit-Refuses p (n, h, e))

    -- If the pidfile is a regular file that can be opened for reading and has the number of a process
    -- that is alive, and this process has no pidfile of its own yet, daemonize() ends with -1 and leaves
    -- the file as it is, whichever other calls fail.
    pub daemonize-Refuses :
        (p : Process)
        → ltb 0 pid ≡ true
        → calls.stat f ≡ regular
        → calls.pidfile_reads ≡ true
        → calls.kill pid ≡ alive
        → Foreign p
        → Refuses (daemonize calls p)
    unfolding daemonize
    daemonize-Refuses p positive s o k h =
        let first =
          and_then-EndsForeign (register calls p) (fork_unless_foreground calls)
            (register-EndsForeign p h) fork-EndsForeign in
        let second =
          and_then-Refuses _ (check_pidfile_or_shutdown calls) first
            (λ q. check-Refuses q positive s o k) in
        Refuses-and_then _ (change_directory calls)
          (Refuses-and_then _ (write_pidfile calls) second)
