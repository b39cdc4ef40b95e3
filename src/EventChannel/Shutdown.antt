-- ===== src/EventChannel/Shutdown.antt =====
-- What is left to happen to a channel that was destroyed.
mod Tests
use omni_events.Prelude.{
  ℕ, zero, suc, ◌+◌, ◌≡◌, refl, sym, ap, subst, ◌∙◌, ltb, Bool, true, false, not, ◌&&◌, Bool-cases,
  Option, none, some, ◌++◌, if◌then◌else◌, inl, inr,
}
use omni_events.Prelude.Text.{Str, codes}
use omni_events.Proxy.{Result, ok, throw}
use omni_events.EventChannel.{
  Admins, Channel, System, Phase, fresh, looping, transferring, finished, failed, destroy, runs,
  poa_name, output, logged, begin, transfer, erase_line, finish, text_of, thread_step, alive, call,
  disconnected,
}

runs-closed : {S C : Type 0} (c : Channel S C) → c.shutdown_requested ≡ true → runs c ≡ false
runs-closed c h = elim (Bool-cases (ltb (c.removed) (c.added + 1))) [
  | inl y ↦ rw y (rw h refl)
  | inr n ↦ rw n refl
]

module _ {S C E : Type 0} (admins : Admins S C E) where
  -- The administration objects of a channel, and whether it was destroyed.
  abbrev Same : System S C → System S C → Type 0
  Same s t =
      (t.channel.shutdown_requested ≡ s.channel.shutdown_requested)
      × (t.channel.supplier_admin ≡ s.channel.supplier_admin)
      × (t.channel.consumer_admin ≡ s.channel.consumer_admin)

-- Steps of the thread, as many as it is given.
abbrev pub run_thread : {S C E : Type 0} → Admins S C E → ℕ → System S C → System S C
run_thread admins zero s = s
run_thread admins (suc n) s = elim (thread_step admins s) [
  | none ↦ s
  | some t ↦ run_thread admins n t
]

module _ {S C E : Type 0} (admins : Admins S C E) (name : Str) where
  -- The thread has ended, and the last line of the log erases the channel.
  abbrev pub Ended : System S C → Type 0
  Ended s =
      (s.phase ≡ finished)
      × (s.stored ≡ false)
      × (s.channel.poa ≡ none)
      × ((text : Str) × (s.log ≡ some (text ++ (codes "-ecf/" ++ (name ++ codes "\n")))))

  abbrev ending : Channel S C → Str → System S C
  ending c log = record {
    channel = record c { poa = none };
    phase = finished;
    stored = false;
    log = some (log ++ erase_line c);
  }

  ending-Ended :
      (n : ℕ) (c : Channel S C) (log : Str)
      → c.poa ≡ some name
      → Ended (run_thread admins n (ending c log))
  unfolding thread_step
  ending-Ended zero c log h = (
    refl,
    refl,
    refl,
    (log, ap (λ o. some (log ++ (codes "-ecf/" ++ (text_of o ++ codes "\n")))) h),
  )
  ending-Ended (suc n) c log h = (
    refl,
    refl,
    refl,
    (log, ap (λ o. some (log ++ (codes "-ecf/" ++ (text_of o ++ codes "\n")))) h),
  )

  finish-ending :
      (c : Channel S C) (p : Phase) (stored : Bool) (log : Str)
      → c.shutdown_requested ≡ true
      → finish (record { channel = c; phase = p; stored = stored; log = some log }) ≡ ending c log
  unfolding finish
  finish-ending c p stored log h = rw (h, finish) refl

  looping-Ended :
      (n : ℕ) (c : Channel S C) (stored : Bool) (log : Str)
      → c.shutdown_requested ≡ true
      → c.poa ≡ some name
      → Ended (
          run_thread admins
            (suc n)
            (record { channel = c; phase = looping; stored = stored; log = some log }))
  unfolding thread_step
  looping-Ended n c stored log h q =
      let s : System S C = record {
        channel = c;
        phase = looping;
        stored = stored;
        log = some log;
      } in
      let p = λ (x : Bool).
        if x
        then record s { channel = record c { holding = true }; phase = transferring }
        else finish s in
      subst (λ t. Ended (run_thread admins n t))
        (sym (ap p (runs-closed c h) ∙ finish-ending c looping stored log h))
        (ending-Ended n c log q)

  shutdown-Ended :
      (c : Channel S C) (p : Phase) (stored : Bool) (log : Str)
      → c.shutdown_requested ≡ true
      → c.poa ≡ some name
      → alive p ≡ true
      → Ended
          (run_thread admins 2 (record { channel = c; phase = p; stored = stored; log = some log }))
  unfolding thread_step begin
  shutdown-Ended c fresh stored log h q a =
      looping-Ended 0 (record c { holding = false }) true (log ++ output admins c) h q
  shutdown-Ended c looping stored log h q a = looping-Ended 1 c stored log h q
  shutdown-Ended c transferring stored log h q a =
      let s : System S C = record {
        channel = c;
        phase = transferring;
        stored = stored;
        log = some log;
      } in
      let p = λ (x : Bool). if x then finish s else transfer admins s in
      subst (λ t. Ended (run_thread admins 1 t))
        (sym (ap p h ∙ finish-ending c transferring stored log h)) (ending-Ended 1 c log q)
  shutdown-Ended c finished stored log h q a = cc
  shutdown-Ended c failed stored log h q a = cc

  disconnected_lem :
      (a : Result (Unit {0}) × Option C) (b : Result (Unit {0}) × Option S) (c : Channel S C)
      → ((disconnected a b c).1.shutdown_requested ≡ c.shutdown_requested)
        × ((disconnected a b c).1.poa ≡ c.poa)
  disconnected_lem (ok a, x) (r, y) c = (refl, refl)
  disconnected_lem (throw e, x) b c = (refl, refl)

  destroy-open :
      (c : Channel S C)
      → c.shutdown_requested ≡ false
      → ((destroy admins c).1.shutdown_requested ≡ true) × ((destroy admins c).1.poa ≡ c.poa)
  unfolding destroy
  destroy-open c h =
      rw (h, destroy)
        (disconnected_lem (call admins.disconnect_consumers c.consumer_admin)
          (call admins.disconnect_suppliers c.supplier_admin)
          (record c { shutdown_requested = true; holding = false }))

-- When a channel whose thread has not ended is destroyed for the first time, two more steps of the
-- thread are enough: it has ended, the channel is out of the store and its POA gone, and the log ends
-- in the line that erases its record. No exception of the ORB comes in these steps.
pub run_thread-destroy :
    {S C E : Type 0} (admins : Admins S C E) (name log : Str) (s : System S C)
    → alive (s.phase) ≡ true
    → s.channel.shutdown_requested ≡ false
    → s.channel.poa ≡ some name
    → s.log ≡ some log
    → Ended admins name
        (run_thread admins 2 (record s { channel = (destroy admins (s.channel)).1 }))
run_thread-destroy admins name log s a h q l =
    let c = (destroy admins (s.channel)).1 in
    let (shut, poa) = destroy-open admins name (s.channel) h in
    subst
      (λ x.
        Ended admins name (
          run_thread admins 2
            (record { channel = c; phase = s.phase; stored = s.stored; log = x })))
      (sym l) (shutdown-Ended admins name c (s.phase) (s.stored) log shut (poa ∙ q) a)
