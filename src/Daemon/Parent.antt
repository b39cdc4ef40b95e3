-- ===== src/Daemon/Parent.antt =====
-- The status with which the process that started the server ends, whatever becomes of the server.
mod Tests
use omni_events.Prelude.{
  ℕ, ◌≡◌, refl, ap, sym, ◌∙◌, subst, Bool, true, false, inl, inr, Option, none, some, List, [], ◌∷◌,
  ◌++◌, if◌then◌else◌,
}
use omni_events.Prelude.Text.{Str, codes}
use omni_events.Daemon.{
  Calls, Daemon, Process, Run, running, exited, and_then, minus_one, notify_parent, clear_pidfile,
  removable, unlinked, shutdown, exit, open_file_for, redirect_streams_to, daemonize, tell_ok,
  running_ok, return_from_main, run_main, wait_for_child, Course, fails_starting, exits_starting,
  aborts_starting, aborts_running, fails_running, shuts_down,
}
use omni_events.Daemon.Start.{
  status_of, NoSuccess, Fresh, Awaited, Ends, if_cases, sent-clear_pidfile, daemonize-Ends,
}

-- The parent was told a status, and is told no other.
abbrev Told : ℕ → Process → Type 0
Told s p = (p.sent ≡ s ∷ []) × (p.daemon.have_parent ≡ false)

abbrev ToldRun : ℕ → Run → Type 0
ToldRun s (running p) = Told s p
ToldRun s (exited t p) = p.sent ≡ s ∷ []

-- What the parent learns of a server that daemonize() has made: 0 also where the start fails with a CORBA
-- exception, and -1 where the process ends without its exit handler.
abbrev pub seen : Course → ℕ
seen (exits_starting s) = s
seen (aborts_starting s) = minus_one
seen _ = 0

abbrev pub sent_in : Run → List ℕ
sent_in (running p) = p.sent
sent_in (exited s p) = p.sent

abbrev pub exit_status : Run → Option ℕ
exit_status (running p) = none
exit_status (exited s p) = some s

abbrev pub Learns : Calls → Course → Run → Type 0
Learns calls course (exited s q) = (s ≡ minus_one) × (status_of q.sent ≡ minus_one)
Learns calls course (running q) =
    (status_of (sent_in (run_main calls course q)) ≡ seen course)
    × (exit_status (run_main calls fails_starting q) ≡ some 1)

ToldRun-sent : (s : ℕ) (r : Run) → ToldRun s r → sent_in r ≡ s ∷ []
ToldRun-sent s (running p) h = h.0
ToldRun-sent s (exited t p) h = h

and_then-ToldRun :
    (s : ℕ) (r : Run) (f : Process → Run)
    → ToldRun s r
    → ((p : Process) → Told s p → ToldRun s (f p))
    → ToldRun s (and_then r f)
unfolding and_then
and_then-ToldRun s (running p) f h k = k p h
and_then-ToldRun s (exited t p) f h k = h

unlinked-works :
    (called works : Bool) (status : ℕ) (p : Process)
    → works ≡ true
    → (unlinked called works status p).0 ≡ status
unlinked-works false works status p h = refl
unlinked-works true true status p h = refl
unlinked-works true false status p h = let wrong = h in cc

have_parent-unlinked :
    (called works : Bool) (status : ℕ) (p : Process)
    → (unlinked called works status p).1.daemon.have_parent ≡ p.daemon.have_parent
have_parent-unlinked false works status p = refl
have_parent-unlinked true true status p = refl
have_parent-unlinked true false status p = refl

module _ (calls : Calls) (writes : calls.write_works ≡ true)
    (unlinks : calls.unlink_works ≡ true) where
  notify_parent-Told :
      (s : ℕ) (p : Process)
      → p.sent ≡ []
      → p.daemon.have_parent ≡ false
      → Told s (notify_parent calls s p)
  unfolding notify_parent
  notify_parent-Told s p h k =
      if_cases (Told s) calls.write_works _ _ (λ y. (ap (λ x. x ++ (s ∷ [])) h, k))
        (λ n. let wrong = sym n ∙ writes in cc)

  clear_pidfile-works : (s : ℕ) (p : Process) → (clear_pidfile calls s p).0 ≡ s
  unfolding clear_pidfile
  clear_pidfile-works s p = unlinked-works (removable p) calls.unlink_works s _ unlinks

  have_parent-clear_pidfile :
      (s : ℕ) (p : Process) → (clear_pidfile calls s p).1.daemon.have_parent ≡ p.daemon.have_parent
  unfolding clear_pidfile
  have_parent-clear_pidfile s p = have_parent-unlinked (removable p) calls.unlink_works s _

  shutdown-tells : (s : ℕ) (p : Process) → Awaited p → Told s (shutdown calls s p)
  unfolding shutdown
  shutdown-tells s p (h, k, r) =
      let (t, q) = clear_pidfile calls s p in
      let alone : Process = record q { daemon = record (q.daemon) { have_parent = false } } in
      if_cases (Told s) p.daemon.have_parent _ _
        (λ y.
          subst (λ x. Told x (notify_parent calls t alone)) (clear_pidfile-works s p)
            (notify_parent-Told t alone (sent-clear_pidfile calls s p ∙ h) refl))
        (λ n. let wrong = sym n ∙ k in cc)

  shutdown-Told : (s t : ℕ) (p : Process) → Told s p → Told s (shutdown calls t p)
  unfolding shutdown
  shutdown-Told s t p (h, k) =
      if_cases (Told s) p.daemon.have_parent _ _ (λ y. let wrong = sym y ∙ k in cc)
        (λ n. (sent-clear_pidfile calls t p ∙ h, have_parent-clear_pidfile t p ∙ k))

  exit-tells :
      (s : ℕ) (p : Process) → calls.have_on_exit ≡ true → Awaited p → ToldRun s (exit calls s p)
  unfolding exit
  exit-tells s p on h =
      if_cases (λ q. Process.sent q ≡ s ∷ []) p.exit_handler _ _
        (λ y.
          if_cases (λ t. (shutdown calls t p).sent ≡ s ∷ []) calls.have_on_exit _ _
            (λ o. (shutdown-tells s p h).0) (λ o. let wrong = sym on ∙ o in cc))
        (λ n. let wrong = sym n ∙ h.2 in cc)

  exit-ToldRun : (s t : ℕ) (p : Process) → Told s p → ToldRun s (exit calls t p)
  unfolding exit
  exit-ToldRun s t p h =
      if_cases (λ q. Process.sent q ≡ s ∷ []) p.exit_handler _ _
        (λ y. (shutdown-Told s (if calls.have_on_exit then t else 0) p h).0) (λ n. h.0)

  return_from_main-ToldRun :
      (s t : ℕ) (p : Process) → Told s p → ToldRun s (return_from_main calls t p)
  unfolding return_from_main
  return_from_main-ToldRun s t p h = exit-ToldRun s t (shutdown calls 0 p) (shutdown-Told s 0 p h)

  tell_ok-Told : (p : Process) → Awaited p → Told 0 (tell_ok calls p)
  unfolding tell_ok
  tell_ok-Told p (h, k, r) =
      let alone : Process = record p { daemon = record (p.daemon) { have_parent = false } } in
      if_cases (Told 0) p.daemon.have_parent _ _ (λ y. notify_parent-Told 0 alone h refl)
        (λ n. let wrong = sym n ∙ k in cc)

  redirect_streams_to-ToldRun :
      (s : ℕ) (name : Str) (p : Process) → Told s p → ToldRun s (redirect_streams_to calls name p)
  unfolding redirect_streams_to
  redirect_streams_to-ToldRun s name p h =
      let failed = exit-ToldRun s minus_one p h in
      if_cases (ToldRun s) (open_file_for calls 0 (codes "/dev/null")) _ _
        (λ y.
          if_cases (ToldRun s) (open_file_for calls 1 name) _ _
            (λ z. if_cases (ToldRun s) (open_file_for calls 2 name) _ _ (λ x. h) (λ x. failed))
            (λ z. failed))
        (λ n. failed)

  running_ok-ToldRun : (p : Process) → Awaited p → ToldRun 0 (running_ok calls p)
  unfolding running_ok
  running_ok-ToldRun p h =
      let told = tell_ok-Told p h in
      if_cases (ToldRun 0) p.daemon.have_syslog _ _
        (λ y. redirect_streams_to-ToldRun 0 (codes "/dev/null") (tell_ok calls p) told) (λ n. told)

status_of-one : (s : ℕ) (sent : List ℕ) → sent ≡ s ∷ [] → status_of sent ≡ s
unfolding wait_for_child
status_of-one s sent h = ap status_of h ∙ refl

NoSuccess-status_of : (sent : List ℕ) → NoSuccess sent → status_of sent ≡ minus_one
unfolding wait_for_child
NoSuccess-status_of sent (inl h) = ap status_of h ∙ refl
NoSuccess-status_of sent (inr h) = ap status_of h ∙ refl

run_main-status :
    (calls : Calls)
    → calls.write_works ≡ true
    → calls.unlink_works ≡ true
    → (course : Course) (p : Process) → calls.have_on_exit ≡ true
    → Awaited p
    → status_of (sent_in (run_main calls course p)) ≡ seen course
unfolding run_main return_from_main
run_main-status calls writes unlinks fails_starting p on h = status_of-one 0 _ (
    ToldRun-sent 0 (exit calls 1 (shutdown calls 0 p)) (
      exit-ToldRun calls writes unlinks 0 1 (shutdown calls 0 p)
        (shutdown-tells calls writes unlinks 0 p h)))
run_main-status calls writes unlinks (exits_starting s) p on h =
    status_of-one s _ (ToldRun-sent s (exit calls s p) (exit-tells calls writes unlinks s p on h))
run_main-status calls writes unlinks (aborts_starting s) p on h =
    NoSuccess-status_of p.sent (inl (h.0))
run_main-status calls writes unlinks (aborts_running s) p on h = status_of-one 0 _ (
    ToldRun-sent 0 _ (
      and_then-ToldRun 0 (running_ok calls p) (exited s)
        (running_ok-ToldRun calls writes unlinks p h) (λ q t. t.0)))
run_main-status calls writes unlinks fails_running p on h = status_of-one 0 _ (
    ToldRun-sent 0 _ (
      and_then-ToldRun 0 (running_ok calls p) (return_from_main calls 1)
        (running_ok-ToldRun calls writes unlinks p h)
        (return_from_main-ToldRun calls writes unlinks 0 1)))
run_main-status calls writes unlinks shuts_down p on h = status_of-one 0 _ (
    ToldRun-sent 0 _ (
      and_then-ToldRun 0 (running_ok calls p) (return_from_main calls 0)
        (running_ok-ToldRun calls writes unlinks p h)
        (return_from_main-ToldRun calls writes unlinks 0 0)))

fails_starting-one :
    (calls : Calls) (p : Process) → exit_status (run_main calls fails_starting p) ≡ some 1
unfolding run_main return_from_main exit
fails_starting-one calls p = refl

-- If on_exit() is there, the pipe can be written and the pidfile removed, for a server that goes into the
-- background and a new pipe: a daemonize() that ends does so with -1, and the waiting parent with -1,
-- whichever call failed. If it does not end, the parent ends with the status of an exit() before
-- runningOk(), with -1 if the process ends before it without its exit handler, and else with 0: also if
-- the start fails with a CORBA exception, with which the server itself ends with 1.
pub daemonize-Learns :
    (calls : Calls) (course : Course) (p : Process)
    → calls.have_on_exit ≡ true
    → calls.write_works ≡ true
    → calls.unlink_works ≡ true
    → Fresh p
    → Learns calls course (daemonize calls p)
daemonize-Learns calls course p on writes unlinks h =
    learns (daemonize calls p) (daemonize-Ends calls on p h)
  where
    learns : (r : Run) → Ends Awaited r → Learns calls course r
    learns (running q) k =
        (run_main-status calls writes unlinks course q on k, fails_starting-one calls q)
    learns (exited s q) (e, k) = (e, NoSuccess-status_of q.sent k)
