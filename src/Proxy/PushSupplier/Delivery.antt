-- ===== src/Proxy/PushSupplier/Delivery.antt =====
-- What a connected ProxyPushSupplier pushes to its consumer: the events that its reader has not
-- read, in order, one request at a time.
mod Tests
use omni_events.Prelude.{
  ℕ, zero, suc, ◌+◌, ◌<◌, not, subst, ◌≡◌, ◌≢◌, refl, sym, ap, ◌∙◌, ◌⊎◌, inl, inr, Bool, true,
  false, Option, none, some, List, [], ◌∷◌, ◌++◌, arith, ◌==◌, if◌then◌else◌, Bool-cases, ==_iff,
  map, length, get_or, ◌%◌,
}
use mathlib.Core.List.{append_assoc, append-nil}
use omni_events.Prelude.Text.{Str}
use omni_events.Queue.{EventQueue, Reader, more_events, next_event}
use omni_events.Queue.Refinement.{Refines}
use omni_events.Queue.Reading.{unread_next, unread_none}
use omni_events.Proxy.{Ref, Result, ok, throw, push, Env, Request, State, send_deferred}
use omni_events.Proxy.PushSupplier.{
  PushSupplier, Reply, delivered, timeout, raised, Flags, St, trigger,
}

abbrev pub idle : Flags
idle = record { busy = false; waiting = false }

-- Whether the next event may be pushed: no push is under way, or the one that is has an answer.
abbrev pub ready : Option Reply → Bool → Bool
ready none b = not b
ready (some reply) b = true

abbrev pub NoneRaised : List (Option Reply) → Type 0
NoneRaised [] = Unit {0}
NoneRaised (reply ∷ replies) = (reply ≢ some raised) × NoneRaised replies

abbrev pub AllAnswered : List (Option Reply) → Type 0
AllAnswered [] = Unit {0}
AllAnswered (none ∷ replies) = ⊥
AllAnswered (some reply ∷ replies) = AllAnswered replies

module _ {E : Type 0} where
  abbrev pub pushed : E → List E × List E × Bool → List E × List E × Bool
  pushed e (sent, left, b) = (e ∷ sent, left, b)

  -- The account: the events that are pushed, those that are left, and whether a push is under way.
  abbrev pub account : Bool → List E → List (Option Reply) → List E × List E × Bool
  account b u [] = ([], u, b)
  account b [] (reply ∷ replies) =
      let waits = account b [] replies in
      let proceeds = account false [] replies in if ready reply b then proceeds else waits
  account b (e ∷ u) (reply ∷ replies) =
      let waits = account b (e ∷ u) replies in
      let proceeds = pushed e (account true u replies) in if ready reply b then proceeds else waits

  account_all :
      (replies : List (Option Reply)) (b : Bool) (u : List E)
      → AllAnswered replies
      → length u < length replies
      → account b u replies ≡ (u, [], false)
  account_all [] b u a h = absurd (omega arith)
  account_all (none ∷ replies) b u a h = elim a [ ]
  account_all (some reply ∷ []) b [] a h = refl
  account_all (some reply ∷ r ∷ replies) b [] a h =
      account_all (r ∷ replies) false [] a (omega arith)
  account_all (some reply ∷ replies) b (e ∷ u) a h =
      ap (pushed e) (account_all replies true u a (omega (arith, h)))

module _ {E : Type 0} where
  -- A connected proxy; `b` says whether a push is under way.
  abbrev pub connected : Str → Str → Ref → Str → Bool → Reader → Bool → Env E → St E
  connected channel oid t sior proxy r b env = record {
    core = record { channel = channel; oid = oid; active = true };
    self = record {
      reader = r;
      target = some t;
      target_sior = sior;
      req = b;
      target_is_proxy = proxy;
    };
    env = env;
  }

  abbrev pub pushes : Ref → List E → List (Request E)
  pushes t = map (λ e. record { target = t; operation = push e })

  module _ (channel oid : Str) (t : Ref) (sior : Str) (proxy : Bool) (q : EventQueue E) where
    abbrev at : Reader → Bool → Env E → St E
    at = connected channel oid t sior proxy

    -- Trigger the proxy, with what poll_response() finds each time.
    abbrev pub pump : List (Option Reply) → St E → St E
    pump [] s = s
    pump (reply ∷ replies) s = pump replies (trigger q reply idle s).1

    trigger-waits :
        (reply : Option Reply) (r : Reader) (b : Bool) (env : Env E)
        → ready reply b ≡ false
        → (trigger q reply idle (at r b env)).1 ≡ at r b env
    unfolding trigger
    trigger-waits none r true env n = refl
    trigger-waits none r false env n = cc
    trigger-waits (some reply) r b env n = cc

    trigger-next :
        (reply : Option Reply) (r : Reader) (b : Bool) (e : E) (u : List E) (env : Env E)
        → ready reply b ≡ true
        → reply ≢ some raised
        → Refines q r (e ∷ u)
        → (trigger q reply idle (at r b env)).1
          ≡ at
              (next_event r q).1
              true
              (record env { sent = env.sent ++ record { target = t; operation = push e } ∷ [] })
    unfolding trigger send_deferred
    trigger-next (some raised) r b e u env y h f = absurd (h refl)
    trigger-next none r true e u env y h f = cc
    trigger-next none r false e u env y h f = let n = unread_next q r e u f in rw (n.0) (rw (n.1))
    trigger-next (some delivered) r true e u env y h f =
        let n = unread_next q r e u f in rw (n.0) (rw (n.1))
    trigger-next (some delivered) r false e u env y h f =
        let n = unread_next q r e u f in rw (n.0) (rw (n.1))
    trigger-next (some timeout) r true e u env y h f =
        let n = unread_next q r e u f in rw (n.0) (rw (n.1))
    trigger-next (some timeout) r false e u env y h f =
        let n = unread_next q r e u f in rw (n.0) (rw (n.1))

    trigger-last :
        (reply : Option Reply) (r : Reader) (b : Bool) (env : Env E)
        → ready reply b ≡ true
        → reply ≢ some raised
        → Refines q r []
        → (trigger q reply idle (at r b env)).1 ≡ at r false env
    unfolding trigger
    trigger-last (some raised) r b env y h f = absurd (h refl)
    trigger-last none r true env y h f = cc
    trigger-last none r false env y h f = rw (unread_none q r f)
    trigger-last (some delivered) r true env y h f = rw (unread_none q r f)
    trigger-last (some delivered) r false env y h f = rw (unread_none q r f)
    trigger-last (some timeout) r true env y h f = rw (unread_none q r f)
    trigger-last (some timeout) r false env y h f = rw (unread_none q r f)

    -- The proxy as the account of its pushes says.
    abbrev pub Accounted : List E × List E × Bool → Env E → St E → Type 0
    Accounted (sent, left, b) env s =
        (r : Reader) × (s ≡ at r b (record env { sent = env.sent ++ pushes t sent }))
        × Refines q r left

    after_push :
        (e : E) (a : List E × List E × Bool) (env : Env E) (s : St E)
        → Accounted a
            (record env { sent = env.sent ++ record { target = t; operation = push e } ∷ [] })
            s
        → Accounted (e ∷ a.0, a.1, a.2) env s
    after_push e a env s (r, same, f) = (
      r,
      same
          ∙ ap (λ l. at r a.2 (record { log = env.log; sent = l }))
              (append_assoc env.sent (record { target = t; operation = push e } ∷ [])
                (pushes t a.0)),
      f,
    )

    pump-Accounted :
        (replies : List (Option Reply)) (r : Reader) (b : Bool) (u : List E) (env : Env E)
        → NoneRaised replies
        → Refines q r u
        → Accounted (account b u replies) env (pump replies (at r b env))
    pump-Accounted [] r b u env h f =
        (r, ap (λ l. at r b (record { log = env.log; sent = l })) (sym (append-nil env.sent)), f)
    pump-Accounted (reply ∷ replies) r b [] env h f = elim (Bool-cases (ready reply b)) [
      | inl y ↦ rw y (
          subst (λ s. Accounted (account false [] replies) env (pump replies s))
            (sym (trigger-last reply r b env y h.0 f))
            (pump-Accounted replies r false [] env h.1 f))
      | inr n ↦ rw n (
          subst (λ s. Accounted (account b [] replies) env (pump replies s))
            (sym (trigger-waits reply r b env n)) (pump-Accounted replies r b [] env h.1 f))
    ]
    pump-Accounted (reply ∷ replies) r b (e ∷ u) env h f = elim (Bool-cases (ready reply b)) [
      | inl y ↦
          let more : Env E = record env {
            sent = env.sent ++ record { target = t; operation = push e } ∷ [];
          } in
          let next = (next_event r q).1 in
          rw y (
            subst (λ s. Accounted (pushed e (account true u replies)) env (pump replies s))
              (sym (trigger-next reply r b e u env y h.0 f))
              (after_push e (account true u replies) env (pump replies (at next true more))
                (pump-Accounted replies next true u more h.1 ((unread_next q r e u f).2))))
      | inr n ↦ rw n (
          subst (λ s. Accounted (account b (e ∷ u) replies) env (pump replies s))
            (sym (trigger-waits reply r b env n)) (pump-Accounted replies r b (e ∷ u) env h.1 f))
    ]

    -- A connected proxy is triggered any number of times, and each time its push is not answered yet, or
    -- has returned or timed out. After any number of these triggers it has pushed to its target
    -- what the account says: while a push is unanswered, none; else the next of the events that its reader
    -- had not read, one for a trigger, in their order. It is then connected still, its reader has the
    -- others left, and it has written nothing to the log. If there are more triggers than unread
    -- events and all find an answer, it has pushed all of them, each once, with no push under way.
    pub pump-pushes :
        (replies : List (Option Reply)) (r : Reader) (b : Bool) (u : List E) (env : Env E)
        → NoneRaised replies
        → Refines q r u
        → Accounted (account b u replies) env (pump replies (at r b env))
          × (AllAnswered replies → length u < length replies → account b u replies ≡ (u, [], false))
    pump-pushes replies r b u env h f =
        (pump-Accounted replies r b u env h f, account_all replies b u)
