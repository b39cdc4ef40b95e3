-- ===== src/Proxy/PullConsumer/Retries.antt =====
-- When a ProxyPullConsumer gives its connection up, and what it has asked of the supplier by then.
mod Tests
use omni_events.Prelude.{
  ℕ, zero, suc, dec_lt, ◌+◌, ◌≤◌, ◌<◌, ◌≡◌, refl, ap, ◌∙◌, ◌≢◌, ◌⊎◌, inl, inr, Bool, true, false,
  Option, none, some, List, [], ◌∷◌, ◌++◌, arith, leb, if◌then◌else◌,
}
use mathlib.Core.Option
use mathlib.Core.List.{append_assoc}
use omni_events.Prelude.Text.{Str, codes}
use omni_events.Proxy.{
  Ref, Exception, assertion, object_not_exist, Result, ok, throw, Operation, pull, try_pull,
  disconnect_pull_supplier, Env, Request, State, send_deferred, erase_key, deactivate_object,
  key_text,
}
use omni_events.Proxy.PullConsumer.{
  Mode, pull_mode, try_pull_mode, PullConsumer, Reply, raised, returned, St, other_mode, collect,
  trigger_request, key_name, give_up, disconnect_pull_consumer, is_nil, request_of,
}

abbrev pub result_list : {E : Type 0} → Result (Option E) → List E
result_list (ok (some e)) = e ∷ []
result_list (ok none) = []
result_list (throw x) = []

-- Every answer to a request comes with an event.
abbrev pub AllHave : {E : Type 0} → List (Reply E) → Type 0
AllHave [] = Unit {0}
AllHave (raised ∷ rs) = AllHave rs
AllHave (returned v b ∷ rs) = (b ≡ some true) × AllHave rs

abbrev pub values : {E : Type 0} → List (Reply E) → List E
values [] = []
values (raised ∷ rs) = values rs
values (returned v b ∷ rs) = v ∷ values rs

lt→leb : (n : ℕ) → n < 3 → leb 3 n ≡ false
lt→leb n h = ground arith

module _ {E : Type 0} where
  -- One round of the channel's cycle as the proxy sees it, with a reply to its request.
  abbrev pub round : St E → Reply E → St E
  round s reply = (collect (some reply) (trigger_request s).1).1

  abbrev pub rounds : St E → List (Reply E) → St E
  rounds s [] = s
  rounds s (r ∷ rs) = rounds (round s r) rs

  -- Whether replies that follow on `n` exceptions in a row bring four in a row.
  abbrev pub fails : ℕ → List (Reply E) → Bool
  fails n [] = false
  fails n (raised ∷ rs) = let rest = fails (n + 1) rs in if leb 3 n then true else rest
  fails n (returned v b ∷ rs) = fails 0 rs

  -- A proxy between two rounds: connected to `t` after `n` exceptions in a row, with no request
  -- under way; and one that has lost its supplier.
  abbrev pub connected : Str → Str → Ref → Mode → ℕ → Env E → St E
  connected channel oid t m n env = record {
    core = record { channel = channel; oid = oid; active = true };
    self = record { target = some t; req = none; mode = m; exception_count = n };
    env = env;
  }

  abbrev pub given_up : Str → Str → Mode → ℕ → Env E → St E
  given_up channel oid m n env = record {
    core = record { channel = channel; oid = oid; active = false };
    self = record { target = none; req = none; mode = m; exception_count = n };
    env = env;
  }

  abbrev pub sends : Ref → Operation E → Env E → Env E
  sends t op env = record env { sent = env.sent ++ record { target = t; operation = op } ∷ [] }

  -- The log with the record that erases the proxy's key.
  abbrev pub erases : Str → Str → Env E → Env E
  erases channel oid env = record env {
    log =
        Option.map
          (λ text.
            text
            ++ (codes "-"
                ++ (key_text (record { channel = channel; oid = oid; active = true }) key_name
                    ++ codes "\n")))
          env.log;
  }

  module _ (channel oid : Str) (t : Ref) where
    raised-connected :
        (m : Mode) (n : ℕ) (env : Env E)
        → n < 3
        → round (connected channel oid t m n env) raised
          ≡ connected channel oid t (other_mode m) (n + 1) (sends t (request_of m) env)
    unfolding collect trigger_request send_deferred
    raised-connected m zero env h = refl
    raised-connected m (suc zero) env h = refl
    raised-connected m (suc (suc zero)) env h = refl
    raised-connected m (suc (suc (suc n))) env h = absurd (omega arith)

    raised-given_up :
        (m : Mode) (sent : List (Request E)) (log : Option Str)
        → let env : Env E = record { log = log; sent = sent } in
          round (connected channel oid t m 3 env) raised
          ≡ given_up channel oid
              (other_mode m)
              4
              (erases channel oid (sends t disconnect_pull_supplier (sends t (request_of m) env)))
    unfolding collect trigger_request send_deferred give_up erase_key deactivate_object
    raised-given_up m sent none = refl
    raised-given_up m sent (some text) = refl

    returned-connected :
        (m : Mode) (n : ℕ) (env : Env E) (v : E) (b : Option Bool)
        → round (connected channel oid t m n env) (returned v b)
          ≡ connected channel oid t m 0 (sends t (request_of m) env)
    unfolding collect trigger_request send_deferred
    returned-connected m n env v b = refl

    given_up-rounds :
        (m : Mode) (n : ℕ) (env : Env E) (rs : List (Reply E))
        → rounds (given_up channel oid m n env) rs ≡ given_up channel oid m n env
    unfolding collect trigger_request
    given_up-rounds m n env [] = refl
    given_up-rounds m n env (r ∷ rs) = given_up-rounds m n env rs

    -- What a proxy is after some rounds.
    abbrev pub Outcome : Bool → St E → Type 0
    Outcome true s = (s.self.target ≡ none) × (s.core.active ≡ false)
    Outcome false s = (s.self.target ≡ some t) × (s.core.active ≡ true)

    outcome :
        (m : Mode) (n : ℕ) (sent : List (Request E)) (log : Option Str) (rs : List (Reply E))
        → n < 4
        → Outcome
            (fails n rs)
            (rounds (connected channel oid t m n (record { log = log; sent = sent })) rs)
    outcome m n sent log [] h = (refl, refl)
    outcome m n sent log (returned v b ∷ rs) h =
        rw (returned-connected m n (record { log = log; sent = sent }) v b)
          (outcome m 0 _ log rs (omega arith))
    outcome m n sent log (raised ∷ rs) h = elim (dec_lt n 3) [
      | yes p ↦
          rw (raised-connected m n (record { log = log; sent = sent }) p)
            (rw (lt→leb n p) (outcome (other_mode m) (n + 1) _ log rs (omega arith)))
      | no p ↦
          let e : n ≡ 3 = omega arith in
          rw e (
            rw (raised-given_up m sent log) (
              rw
                (given_up-rounds (other_mode m) 4
                  (erases channel oid (
                    sends t disconnect_pull_supplier
                      (sends t (request_of m) (record { log = log; sent = sent }))))
                  rs)
                (refl, refl)))
    ]

    four_raised :
        (m : Mode) (sent : List (Request E)) (log : Option Str)
        → let env : Env E = record { log = log; sent = sent } in
          rounds (connected channel oid t m 0 env) (raised ∷ raised ∷ raised ∷ raised ∷ [])
          ≡ given_up channel oid m 4 (
              erases channel oid (
                sends t disconnect_pull_supplier (
                  sends t (request_of (other_mode m)) (
                    sends t
                      (request_of m)
                      (sends t (request_of (other_mode m)) (sends t (request_of m) env))))))
    unfolding collect trigger_request send_deferred give_up erase_key deactivate_object
    four_raised pull_mode sent none = refl
    four_raised pull_mode sent (some text) = refl
    four_raised try_pull_mode sent none = refl
    four_raised try_pull_mode sent (some text) = refl

    asserts :
        (m : Mode) (sent : List (Request E)) (log : Option Str)
        → let asked =
            (trigger_request (connected channel oid t m 3 (record { log = log; sent = sent }))).1 in
          let left = disconnect_pull_consumer asked in
          (left.0 ≡ ok tt) × ((collect (some raised) left.1).0 ≡ throw assertion)
    unfolding disconnect_pull_consumer collect trigger_request send_deferred give_up erase_key
        deactivate_object
    asserts m sent none = (refl, refl)
    asserts m sent (some text) = (refl, refl)

    -- A connected proxy keeps its supplier through any replies that bring no four exceptions in a
    -- row, counted from the exceptions it has already had, and has dropped it and left the POA once
    -- they do.
    pub rounds-Outcome :
        (m : Mode) (n : ℕ) (env : Env E) (rs : List (Reply E))
        → n < 4
        → Outcome (fails n rs) (rounds (connected channel oid t m n env) rs)
    rounds-Outcome m n env rs h = outcome m n env.sent env.log rs h

    -- Four exceptions in a row from a fresh count: the proxy has asked the supplier twice by each
    -- operation in turn, sends it one disconnect_pull_supplier, and erases its key from the log.
    pub rounds-four_raised :
        (m : Mode) (env : Env E)
        → rounds (connected channel oid t m 0 env) (raised ∷ raised ∷ raised ∷ raised ∷ [])
          ≡ given_up channel oid m 4 (
              erases channel oid (
                sends t disconnect_pull_supplier (
                  sends t (request_of (other_mode m)) (
                    sends t
                      (request_of m)
                      (sends t (request_of (other_mode m)) (sends t (request_of m) env))))))
    rounds-four_raised m env = four_raised m env.sent env.log

    -- The events that the rounds push onto the channel's queue.
    abbrev pub pushed : St E → List (Reply E) → List E
    pushed s [] = []
    pushed s (r ∷ rs) =
        result_list (collect (some r) (trigger_request s).1).0 ++ pushed (round s r) rs

    pushed-values :
        (m : Mode) (n : ℕ) (sent : List (Request E)) (log : Option Str) (rs : List (Reply E))
        → n < 4
        → fails n rs ≡ false
        → AllHave rs
        → pushed (connected channel oid t m n (record { log = log; sent = sent })) rs ≡ values rs
    unfolding collect trigger_request send_deferred
    pushed-values m n sent log [] h f a = refl
    pushed-values pull_mode n sent log (returned v b ∷ rs) h f a =
        ap (◌∷◌ v) (pushed-values pull_mode 0 _ log rs (omega arith) f a.1)
    pushed-values try_pull_mode n sent log (returned v b ∷ rs) h f a =
        rw a.0 (ap (◌∷◌ v) (pushed-values try_pull_mode 0 _ log rs (omega arith) f a.1))
    pushed-values m zero sent log (raised ∷ rs) h f a =
        pushed-values (other_mode m) 1 _ log rs (omega arith) f a
    pushed-values m (suc zero) sent log (raised ∷ rs) h f a =
        pushed-values (other_mode m) 2 _ log rs (omega arith) f a
    pushed-values m (suc (suc zero)) sent log (raised ∷ rs) h f a =
        pushed-values (other_mode m) 3 _ log rs (omega arith) f a
    pushed-values m (suc (suc (suc n))) sent log (raised ∷ rs) h f a = ground arith

    -- If no four exceptions in a row arrive and each answer to try_pull comes with an event, then
    -- the proxy pushes onto the channel's queue exactly the values that it was given, in order.
    pub pushed-eq-values :
        (m : Mode) (env : Env E) (rs : List (Reply E))
        → fails 0 rs ≡ false
        → AllHave rs
        → pushed (connected channel oid t m 0 env) rs ≡ values rs
    pushed-eq-values m env rs f a = pushed-values m 0 env.sent env.log rs (omega arith) f a

    -- A proxy that has had three exceptions in a row and is disconnected by its client while a
    -- request is under way: disconnect_pull_consumer() succeeds, and the exception that then
    -- answers the request fails the assertion in reportObjectFailure().
    pub disconnect-collect_assertion :
        (m : Mode) (env : Env E)
        → let asked = (trigger_request (connected channel oid t m 3 env)).1 in
          let left = disconnect_pull_consumer asked in
          (left.0 ≡ ok tt) × ((collect (some raised) left.1).0 ≡ throw assertion)
    disconnect-collect_assertion m env = asserts m env.sent env.log
