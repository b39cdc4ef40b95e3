-- ===== src/Daemon/Start.antt =====
-- What the process that started the server learns of it, and what becomes of the pidfile.
use omni_events.Prelude.{
  ℕ, ltb, ◌≡◌, refl, ap, sym, ◌∙◌, Bool, true, false, ◌⊎◌, inl, inr, Option, none, some, List, [],
  ◌∷◌, ◌++◌, if◌then◌else◌,
}
use omni_events.Prelude.Text.{Str, codes}
use omni_events.Daemon.{
  Calls, Process, Run, running, exited, and_then, minus_one, notify_parent, clear_pidfile,
  removable, unlinked, shutdown, exit, register, fork, fork_unless_foreground, after_kill,
  check_pid, after_stat, pid_read, check_pidfile, check_pidfile_or_shutdown, with_pidfile,
  write_pidfile, open_file_for, redirect_streams_to, redirect, change_directory, daemonize,
  wait_for_child, pipe_read, Stat, regular, not_regular, missing, stat_failed, Kill, alive,
  no_process, kill_failed,
}

-- The status with which the process that waits for the child ends.
abbrev pub status_of : List ℕ → ℕ
status_of sent = wait_for_child (pipe_read sent)

-- Nothing but a failure was sent.
abbrev pub NoSuccess : List ℕ → Type 0
NoSuccess sent = (sent ≡ []) ⊎ (sent ≡ minus_one ∷ [])

abbrev Quiet : Process → Type 0
Quiet p = NoSuccess p.sent

-- Still running with `Q`, or ended in failure with nothing but that told.
abbrev pub Ends : (Process → Type 0) → Run → Type 0
Ends Q (running q) = Q q
Ends Q (exited s q) = (s ≡ minus_one) × NoSuccess q.sent

-- A process that has not forked, and the child with the parent that waits for it.
abbrev pub Fresh : Process → Type 0
Fresh p = (p.sent ≡ []) × (p.daemon.foreground ≡ false)

abbrev Registered : Process → Type 0
Registered p = (p.sent ≡ []) × (p.daemon.foreground ≡ false) × (p.exit_handler ≡ true)

abbrev pub Awaited : Process → Type 0
Awaited p = (p.sent ≡ []) × (p.daemon.have_parent ≡ true) × (p.exit_handler ≡ true)

and_then-Ends :
    (Q R : Process → Type 0) (r : Run) (f : Process → Run)
    → Ends Q r
    → ((q : Process) → Q q → Ends R (f q))
    → Ends R (and_then r f)
unfolding and_then
and_then-Ends Q R (running q) f h k = k q h
and_then-Ends Q R (exited s q) f h k = h

pub if_cases :
    {A : Type 0} (P : A → Type 0) (b : Bool) (x y : A)
    → (b ≡ true → P x)
    → (b ≡ false → P y)
    → P (if b then x else y)
if_cases P true x y f g = f refl
if_cases P false x y f g = g refl

sent-unlinked :
    (called works : Bool) (status : ℕ) (p : Process)
    → (unlinked called works status p).1.sent ≡ p.sent
sent-unlinked false works status p = refl
sent-unlinked true true status p = refl
sent-unlinked true false status p = refl

unlinked-minus_one :
    (called works : Bool) (p : Process) → (unlinked called works minus_one p).0 ≡ minus_one
unlinked-minus_one false works p = refl
unlinked-minus_one true true p = refl
unlinked-minus_one true false p = refl

module _ (calls : Calls) where
  pub sent-clear_pidfile :
      (status : ℕ) (p : Process) → (clear_pidfile calls status p).1.sent ≡ p.sent
  unfolding clear_pidfile
  sent-clear_pidfile status p = sent-unlinked (removable p) calls.unlink_works status _

  clear_pidfile-minus_one : (p : Process) → (clear_pidfile calls minus_one p).0 ≡ minus_one
  unfolding clear_pidfile
  clear_pidfile-minus_one p = unlinked-minus_one (removable p) calls.unlink_works _

  notify_parent-NoSuccess :
      (status : ℕ) (p : Process)
      → status ≡ minus_one
      → p.sent ≡ []
      → NoSuccess ((notify_parent calls status p).sent)
  unfolding notify_parent
  notify_parent-NoSuccess status p e h =
      if_cases Quiet calls.write_works _ _
        (λ w. inr (ap (λ x. x ++ (status ∷ [])) h ∙ ap (λ x. x ∷ []) e)) (λ w. inl h)

  shutdown-NoSuccess : (p : Process) → p.sent ≡ [] → NoSuccess ((shutdown calls minus_one p).sent)
  unfolding shutdown
  shutdown-NoSuccess p h =
      let empty = sent-clear_pidfile minus_one p ∙ h in
      if_cases Quiet p.daemon.have_parent _ _
        (λ y. notify_parent-NoSuccess _ _ (clear_pidfile-minus_one p) empty) (λ n. inl empty)

  exit-Ends :
      (Q : Process → Type 0) (p : Process)
      → calls.have_on_exit ≡ true
      → p.sent ≡ []
      → Ends Q (exit calls minus_one p)
  unfolding exit
  exit-Ends Q p on h = (
    refl,
    if_cases Quiet p.exit_handler _ _
        (λ y.
          if_cases (λ status. NoSuccess ((shutdown calls status p).sent)) calls.have_on_exit _ _
            (λ o. shutdown-NoSuccess p h) (λ o. let wrong = sym on ∙ o in cc))
        (λ n. inl h),
  )

module _ (calls : Calls) (on : calls.have_on_exit ≡ true) where
  register-Ends : (p : Process) → Fresh p → Ends Registered (register calls p)
  unfolding register
  register-Ends p h =
      if_cases (Ends Registered) calls.on_exit_works _ _ (λ y. (h.0, h.1, refl))
        (λ n. exit-Ends calls Registered p on (h.0))

  fork-Ends : (p : Process) → Registered p → Ends Awaited (fork calls p)
  unfolding fork
  fork-Ends p (h, k, r) =
      let q : Process = record p { daemon = record (p.daemon) { have_parent = true } } in
      let failed = exit-Ends calls Awaited p on h in
      if_cases (Ends Awaited) calls.pipe_works _ _
        (λ y.
          if_cases (Ends Awaited) calls.fork_works _ _
            (λ z.
              if_cases (Ends Awaited) calls.setsid_works _ _ (λ s. (h, refl, r))
                (λ s. exit-Ends calls Awaited q on h))
            (λ z. failed))
        (λ n. failed)

  fork_unless_foreground-Ends :
      (p : Process) → Registered p → Ends Awaited (fork_unless_foreground calls p)
  unfolding fork_unless_foreground
  fork_unless_foreground-Ends p h =
      if_cases (Ends Awaited) p.daemon.foreground _ _ (λ y. let wrong = sym y ∙ h.1 in cc)
        (λ n. fork-Ends p h)

  after_kill-Ends : (k : Kill) (p : Process) → Awaited p → Ends Awaited (after_kill calls k p)
  unfolding after_kill
  after_kill-Ends alive p h = exit-Ends calls Awaited p on (h.0)
  after_kill-Ends no_process p h = h
  after_kill-Ends kill_failed p h = exit-Ends calls Awaited p on (h.0)

  check_pid-Ends : (o : Option ℕ) (p : Process) → Awaited p → Ends Awaited (check_pid calls o p)
  unfolding check_pid
  check_pid-Ends none p h = h
  check_pid-Ends (some pid) p h =
      if_cases (Ends Awaited) (ltb 0 pid) _ _ (λ y. after_kill-Ends (calls.kill pid) p h) (λ n. h)

  after_stat-Ends : (s : Stat) (p : Process) → Awaited p → Ends Awaited (after_stat calls s p)
  unfolding after_stat
  after_stat-Ends regular p h = check_pid-Ends (pid_read calls p) p h
  after_stat-Ends not_regular p h = exit-Ends calls Awaited p on (h.0)
  after_stat-Ends missing p h = h
  after_stat-Ends stat_failed p h = exit-Ends calls Awaited p on (h.0)

  check_pidfile-Ends :
      (o : Option Str) (p : Process) → Awaited p → Ends Awaited (check_pidfile calls o p)
  unfolding check_pidfile
  check_pidfile-Ends none p h = h
  check_pidfile-Ends (some f) p h = after_stat-Ends (calls.stat f) p h

  with_pidfile-Awaited :
      (o : Option Str) (p : Process) → Awaited p → Awaited (with_pidfile calls o p)
  with_pidfile-Awaited none p h = h
  with_pidfile-Awaited (some f) p h = if_cases Awaited calls.pidfile_opens _ _ (λ y. h) (λ n. h)

  redirect_streams_to-Ends :
      (name : Str) (p : Process) → Awaited p → Ends Awaited (redirect_streams_to calls name p)
  unfolding redirect_streams_to
  redirect_streams_to-Ends name p h =
      let failed = exit-Ends calls Awaited p on (h.0) in
      if_cases (Ends Awaited) (open_file_for calls 0 (codes "/dev/null")) _ _
        (λ y.
          if_cases (Ends Awaited) (open_file_for calls 1 name) _ _
            (λ z. if_cases (Ends Awaited) (open_file_for calls 2 name) _ _ (λ s. h) (λ s. failed))
            (λ z. failed))
        (λ n. failed)

  redirect-Ends : (o : Option Str) (p : Process) → Awaited p → Ends Awaited (redirect calls o p)
  unfolding redirect
  redirect-Ends none p h = h
  redirect-Ends (some []) p h = h
  redirect-Ends (some (c ∷ s)) p h = redirect_streams_to-Ends (c ∷ s) p h

  change_directory-Ends : (p : Process) → Awaited p → Ends Awaited (change_directory calls p)
  unfolding change_directory
  change_directory-Ends p h =
      if_cases (Ends Awaited) calls.chdir_works _ _ (λ y. redirect-Ends p.daemon.tracefile p h)
        (λ n. exit-Ends calls Awaited p on (h.0))

  pub daemonize-Ends : (p : Process) → Fresh p → Ends Awaited (daemonize calls p)
  unfolding daemonize check_pidfile_or_shutdown write_pidfile
  daemonize-Ends p h =
      let first =
        and_then-Ends Registered Awaited (register calls p) (fork_unless_foreground calls)
          (register-Ends p h) fork_unless_foreground-Ends in
      let second =
        and_then-Ends Awaited Awaited _ (check_pidfile_or_shutdown calls) first
          (λ q k. check_pidfile-Ends q.daemon.pidfile q k) in
      let third =
        and_then-Ends Awaited Awaited _ (write_pidfile calls) second
          (λ q k. with_pidfile-Awaited q.daemon.pidfile q k) in
      and_then-Ends Awaited Awaited _ (change_directory calls) third change_directory-Ends
