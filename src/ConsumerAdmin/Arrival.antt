-- ===== src/ConsumerAdmin/Arrival.antt =====
-- The order in which pushed events reach the queue that consumers read: push() and trigger() of
-- src/ProxyPushConsumer.cc, collect() of src/SupplierAdmin.cc and send() of src/ConsumerAdmin.cc, as the
-- channel's main loop puts them together, for a channel without pull suppliers.
mod Tests
use omni_events.Prelude.{
  ℕ, ◌≡◌, refl, sym, ap, subst, ◌∙◌, Bool, true, false, Bool-cases, Option, none, some, List, [],
  ◌∷◌, ◌++◌, if◌then◌else◌, inl, inr,
}
use mathlib.Core.List.{append_assoc, append-nil}
use omni_events.Queue.{EventQueue, append}
use omni_events.SupplierAdmin.{Consumers, SupplierAdmin, Time, collect, collect_pulls, pull_some}
use omni_events.Proxy.PushConsumer.{PushConsumer, State, push, trigger}
use omni_events.ConsumerAdmin.{append_all}

-- The managers of a SupplierAdmin that has no pull consumers.
abbrev pub push_only : {E : Type 0} → Consumers PushConsumer E
push_only = record {
  collect_pulled = λ c q. (c, q);
  trigger_request = λ c. c;
  trigger_pushed = λ c. record c { use_local_queue = false };
  has_pull_consumer = λ c. false;
}

-- A transfer phase of the main loop.
abbrev pub cycle : {E : Type 0} → ℕ → Time → Time → State E → State E
cycle period now next_pull s =
    elim (collect push_only period now
      (record { consumers = s.self; queue = s.queue; next_pull = next_pull })) [
        | none ↦ s
        | some (events, a) ↦ record s {
          self = a.consumers;
          queue = a.queue;
          consumers = append_all s.consumers events;
        }
      ]

pub data Event (E : Type 0) : Type 0 where
  pushed : E → Event E
  cycled : Time → Time → Event E

abbrev pub happen : {E : Type 0} → ℕ → List (Event E) → State E → State E
happen period [] s = s
happen period (pushed e ∷ es) s = happen period es (push e s)
happen period (cycled now next ∷ es) s = happen period es (cycle period now next s)

abbrev pub pushes : {E : Type 0} → List (Event E) → List E
pushes [] = []
pushes (pushed e ∷ es) = e ∷ pushes es
pushes (cycled now next ∷ es) = pushes es

append_all-append :
    {E : Type 0} (q : EventQueue E) (xs ys : List E)
    → append_all q (xs ++ ys) ≡ append_all (append_all q xs) ys
unfolding append_all
append_all-append q [] ys = refl
append_all-append q (x ∷ xs) ys = append_all-append (append q x) xs ys

module _ {E : Type 0} (period : ℕ) where
  -- The consumers' queue with what is still to be sent; and a proxy that sends at once has nothing
  -- waiting before it.
  abbrev total : State E → EventQueue E
  total s = append_all (s.consumers) (s.queue)

  abbrev Waits : State E → Type 0
  Waits s = s.self.use_local_queue ≡ false → s.queue ≡ []

  push-total :
      (e : E) (s : State E) → Waits s → (total (push e s) ≡ append (total s) e) × Waits (push e s)
  unfolding push append_all
  push-total e s w = elim (Bool-cases (s.self.use_local_queue)) [
    | inl y ↦ rw (y, push) (append_all-append (s.consumers) (s.queue) (e ∷ []), λ h. cc)
    | inr n ↦
        rw (n, push)
          (
            ap (append_all (append (s.consumers) e)) (w n)
                ∙ sym (ap (λ q. append (append_all (s.consumers) q) e) (w n)),
            λ h. cc,
          )
  ]

  cycle-total : (now next : Time) (s : State E) → (cycle period now next s).consumers ≡ total s
  unfolding collect collect_pulls append_all
  cycle-total now next s = refl

  cycle-queue : (now next : Time) (s : State E) → (cycle period now next s).queue ≡ []
  unfolding collect collect_pulls append_all
  cycle-queue now next s = refl

  happen-total :
      (es : List (Event E)) (s : State E)
      → Waits s
      → (total (happen period es s) ≡ append_all (total s) (pushes es)) × Waits (happen period es s)
  unfolding append_all
  happen-total [] s w = (refl, w)
  happen-total (pushed e ∷ es) s w =
      let (one, w2) = push-total e s w in
      let (more, w3) = happen-total es (push e s) w2 in
      (more ∙ ap (λ q. append_all q (pushes es)) one, w3)
  happen-total (cycled now next ∷ es) s w =
      let t = cycle period now next s in
      let same : total t ≡ total s =
        ap (append_all (t.consumers)) (cycle-queue now next s) ∙ cycle-total now next s in
      let (more, w3) = happen-total es t (λ h. cycle-queue now next s) in
      (more ∙ ap (λ q. append_all q (pushes es)) same, w3)

-- Suppliers push events and the main loop comes to its transfer phase, in any order. Once a transfer
-- phase is over, the consumers' queue is what appending the pushed events to it makes of it, in the
-- order in which they were pushed and each of them once, whichever of them were sent at once and whichever
-- waited for a transfer phase; and none waits any more. Nothing had waited before, and there are no pull
-- suppliers. What the queue keeps of the events that are appended is its filter's and its size's.
pub cycle-happen :
    {E : Type 0} (period : ℕ) (now next : Time) (es : List (Event E)) (s : State E)
    → s.queue ≡ []
    → let t = cycle period now next (happen period es s) in
      (t.consumers ≡ append_all (s.consumers) (pushes es)) × (t.queue ≡ [])
unfolding append_all
cycle-happen period now next es s h =
    let u = happen period es s in
    (
      cycle-total period now next u
          ∙ (happen-total period es s (λ _. h)).0
          ∙ ap (λ q. append_all (append_all (s.consumers) q) (pushes es)) h,
      cycle-queue period now next u,
    )
