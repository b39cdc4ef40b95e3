-- ===== src/Proxy/PushSupplierManager/Stuck.antt =====
-- A push supplier that is disconnected while the exception that answers its last push is on the way.
mod Tests
use omni_events.Prelude.{
  ℕ, zero, suc, ◌+◌, ◌≡◌, refl, true, false, Bool, Option, none, some, List, [], ◌∷◌, ◌++◌, arith,
  if◌then◌else◌, length, ltb, sym, ap, ◌∙◌,
}
use mathlib.Core.List.{append-nil, append_assoc}
use omni_events.Prelude.Text.{Str, codes}
use omni_events.Queue.{EventQueue, Reader}
use omni_events.Proxy.{
  Ref, ok, throw, Env, Request, Core, send_deferred, erase_key, deactivate_object, key_text,
  disconnect_push_consumer,
}
use omni_events.Proxy.PushSupplier.{
  PushSupplier, Reply, raised, Flags, St, trigger, disconnect_push_supplier, shut_down, key_name,
}
use omni_events.Proxy.PushSupplierManager.{
  Servant, Rest, again, firsts, state_of, trigger_all, end_cycle, Cycle, cycle,
}

-- A connected servant with a push under way, and the same once its client has disconnected it.
abbrev pub pushing : Str → Str → Ref → Str → Bool → Reader → Servant
pushing channel oid t sior proxy r = record {
  core = record { channel = channel; oid = oid; active = true };
  self = record {
    reader = r;
    target = some t;
    target_sior = sior;
    req = true;
    target_is_proxy = proxy;
  };
}

abbrev pub abandoned : Str → Str → Str → Bool → Reader → Servant
abandoned channel oid sior proxy r = record {
  core = record { channel = channel; oid = oid; active = false };
  self = record {
    reader = r;
    target = none;
    target_sior = sior;
    req = true;
    target_is_proxy = proxy;
  };
}

abbrev pub dashes : ℕ → Str
dashes zero = []
dashes (suc n) = codes "-" ++ dashes n

-- The servants with what poll_response() finds for each, nothing where the list is at its end.
abbrev pub polled : List (Option Reply) → List Servant → List (Servant × Option Reply)
polled replies [] = []
polled [] (s ∷ ss) = (s, none) ∷ polled [] ss
polled (reply ∷ replies) (s ∷ ss) = (s, reply) ∷ polled replies ss

firsts-polled :
    (replies : List (Option Reply)) (ss : List Servant) → firsts (polled replies ss) ≡ ss
firsts-polled replies [] = refl
firsts-polled [] (s ∷ ss) = ap (λ xs. s ∷ xs) (firsts-polled [] ss)
firsts-polled (reply ∷ replies) (s ∷ ss) = ap (λ xs. s ∷ xs) (firsts-polled replies ss)

module _ {E : Type 0} (channel oid : Str) (sior : Str) (proxy : Bool) (r : Reader) where
  disconnect-abandoned :
      (t : Ref) (text : Str) (sent : List (Request E))
      → disconnect_push_supplier
          (state_of (pushing channel oid t sior proxy r) (record { log = some text; sent = sent }))
        ≡ (
          ok tt,
          state_of (abandoned channel oid sior proxy r) (record {
            log = some (
                text
                ++ (codes "-"
                    ++ (key_text (record { channel = channel; oid = oid; active = true }) key_name
                        ++ codes "\n")));
            sent = sent ++ record { target = t; operation = disconnect_push_consumer } ∷ [];
          }),
        )
  unfolding disconnect_push_supplier erase_key deactivate_object send_deferred
  disconnect-abandoned t text sent = refl

  -- The cycles that follow, each on what the one before has left. In each, poll_response() finds the
  -- exception for the first servant of the set, and what the list says for those behind it.
  abbrev pub cycles : EventQueue E → ℕ → List (List (Option Reply)) → Cycle E → Option (Cycle E)
  cycles q ref_count [] c = some c
  cycles q ref_count (replies ∷ rounds) c =
      elim (cycle q ref_count (polled (some raised ∷ replies) c.servants) c.sleep c.env) [
        | none ↦ none
        | some d ↦ cycles q ref_count rounds d
      ]

  abandoned-cycle :
      (q : EventQueue E) (ref_count : ℕ) (rest : List (Servant × Option Reply)) (sleep : ℕ)
      (text : Str) (sent : List (Request E))
      → cycle q
          (suc ref_count)
          ((abandoned channel oid sior proxy r, some raised) ∷ rest)
          sleep
          (record { log = some text; sent = sent })
        ≡ some (record {
          servants = abandoned channel oid sior proxy r ∷ firsts rest;
          env = record { log = some (text ++ codes "-"); sent = sent };
          sleep = sleep;
          rest = again;
        })
  unfolding cycle trigger shut_down erase_key
  abandoned-cycle q ref_count rest sleep text sent =
      let e : ltb (suc ref_count) 1 ≡ false = ground arith in rw (e, cycle)

  abbrev pub left_with : List Servant → Str → List (Request E) → ℕ → Rest → Cycle E
  left_with others log sent sleep rest = record {
    servants = abandoned channel oid sior proxy r ∷ others;
    env = record { log = some log; sent = sent };
    sleep = sleep;
    rest = rest;
  }

  abandoned-cycles :
      (q : EventQueue E) (ref_count : ℕ) (replies : List (Option Reply))
      (rounds : List (List (Option Reply))) (others : List Servant) (sleep : ℕ) (rest : Rest)
      (text : Str) (sent : List (Request E))
      → cycles q (suc ref_count) (replies ∷ rounds) (left_with others text sent sleep rest)
        ≡ some (left_with others (text ++ dashes (suc (length rounds))) sent sleep again)
  abandoned-cycles q ref_count replies [] others sleep rest text sent =
      rw (abandoned-cycle q ref_count (polled replies others) sleep text sent, cycles)
        (ap (λ ss. some (left_with ss (text ++ codes "-") sent sleep again))
          (firsts-polled replies others))
  abandoned-cycles q ref_count replies (more ∷ rounds) others sleep rest text sent =
      rw (abandoned-cycle q ref_count (polled replies others) sleep text sent, cycles)
        (ap
            (λ ss.
              cycles q (suc ref_count) (more ∷ rounds)
                (left_with ss (text ++ codes "-") sent sleep again))
            (firsts-polled replies others)
          ∙ abandoned-cycles q ref_count more rounds others sleep again (text ++ codes "-") sent
          ∙ ap (λ l. some (left_with others l sent sleep again))
              (append_assoc text (codes "-") (dashes (suc (length rounds)))))

  -- The client of a connected push supplier, the first of the manager's set, disconnects it, with
  -- success, while a push is under way that an exception answers. Then every later cycle of the
  -- thread ends in ServantNotActive, as long as the POA has not etherealized the servant: none of the
  -- servants behind it is triggered, the thread begins the next cycle without having released the
  -- mutex, and the log has one more dash that no key follows.
  pub disconnect-cycles :
      (t : Ref) (q : EventQueue E) (ref_count : ℕ) (replies : List (Option Reply))
      (rounds : List (List (Option Reply))) (others : List Servant) (sleep : ℕ) (rest : Rest)
      (text : Str) (sent : List (Request E))
      → let left = disconnect_push_supplier (
          state_of
            (pushing channel oid t sior proxy r)
            (record { log = some text; sent = sent })) in
        let s : Servant = record { core = left.1.core; self = left.1.self } in
        let key = key_text (record { channel = channel; oid = oid; active = true }) key_name in
        (left.0 ≡ ok tt)
        × (cycles q
              (suc ref_count)
              (replies ∷ rounds)
              (record { servants = s ∷ others; env = left.1.env; sleep = sleep; rest = rest })
            ≡ some (
                left_with others
                  ((text ++ (codes "-" ++ (key ++ codes "\n"))) ++ dashes (suc (length rounds)))
                  (sent ++ record { target = t; operation = disconnect_push_consumer } ∷ [])
                  sleep
                  again))
  disconnect-cycles t q ref_count replies rounds others sleep rest text sent =
      rw (disconnect-abandoned t text sent)
        (refl, abandoned-cycles q ref_count replies rounds others sleep rest _ _)
