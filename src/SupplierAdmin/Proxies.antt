-- ===== src/SupplierAdmin/Proxies.antt =====
-- The SupplierAdmin with the managers of its proxies: obtain_pull_consumer(), disconnect(),
-- reincarnate() and output() of class SupplierAdmin_i, src/SupplierAdmin.cc. `_pullConsumer` is null
-- until a client asks for a pull consumer or stored ones are made again. The object that createObject()
-- returns is a reference by calls of the ORB.
use omni_events.Prelude.{Option, none, some, List, [], ◌++◌}
use omni_events.Prelude.Text.{Str, codes}
use omni_events.PersistNode.{PersistNode, Children, leaf, branch, children, child, or_empty}
use omni_events.Queue.{EventQueue}
use omni_events.Proxy.{Ref, Result, ok, Env, M, ◌>>◌}
use omni_events.Proxy.PushConsumer as PushConsumer
use omni_events.Proxy.PushConsumer.{PushConsumer, State}
use omni_events.Proxy.PullConsumerManager as PullConsumerManager
use omni_events.Proxy.PullConsumerManager.{Servant, Manager}
use omni_events.SupplierAdmin.{SupplierAdmin}

-- What the managers keep; `sent_on` is the ConsumerAdmin's queue, to which push consumers send.
pub record Proxies (E : Type 0) : Type 0 where
  pub push_consumer : PushConsumer
  pub pull_consumer : Option (List Servant)
  pub sent_on : EventQueue E
  pub env : Env E

abbrev pub Admin : Type 0 → Type 0
Admin E = SupplierAdmin (Proxies E) E

abbrev pub servants : Option (List Servant) → List Servant
servants none = []
servants (some ss) = ss

-- What output() writes, behind the text of the push consumers, which do not throw.
unfoldable pub output_pulled : Str → Option (List Servant) → Result (Unit {0}) × Str
output_pulled pushed none = (ok tt, pushed)
output_pulled pushed (some ss) =
    let (r, pulled) = PullConsumerManager.output_all ss in (r, pushed ++ pulled)

module _ {E : Type 0} where
  -- The state of a manager, and what the SupplierAdmin is once it has changed.
  abbrev pub pushing : Admin E → State E
  pushing a = record {
    self = a.consumers.push_consumer;
    queue = a.queue;
    consumers = a.consumers.sent_on;
    env = a.consumers.env;
  }

  abbrev pub with_pushing : State E → Admin E → Admin E
  with_pushing s a = record a {
    consumers = record (a.consumers) { push_consumer = s.self; sent_on = s.consumers; env = s.env };
    queue = s.queue;
  }

  abbrev pub pulling : List Servant → Admin E → Manager E
  pulling ss a = record { servants = ss; queue = a.queue; env = a.consumers.env }

  abbrev pub with_pulling : Manager E → Admin E → Admin E
  with_pulling m a = record a {
    consumers = record (a.consumers) { pull_consumer = some (m.servants); env = m.env };
    queue = m.queue;
  }

  unfoldable pub obtain_pull_consumer : Admin E → Admin E
  obtain_pull_consumer a = record a {
    consumers = record (a.consumers) { pull_consumer = some (servants a.consumers.pull_consumer) };
  }

  unfoldable pub disconnect : M (Admin E) (Unit {0})
  disconnect a =
      let b = with_pushing (PushConsumer.disconnect (pushing a)) a in
      elim b.consumers.pull_consumer [
        | none ↦ (ok tt, b)
        | some ss ↦
            let (r, m) = PullConsumerManager.disconnect_all (pulling ss b) in (r, with_pulling m b)
      ]

  unfoldable pub output : Admin E → Result (Unit {0}) × Str
  unfolding output_pulled
  output a =
      output_pulled (PushConsumer.output_all a.consumers.push_consumer.connections)
        a.consumers.pull_consumer

  module _ (reconnect : Ref → Result (Unit {0}))
      (push_supplier pull_supplier : Str → Option Ref) where
    unfoldable pub reincarnate_pushed : Children → M (Admin E) (Unit {0})
    reincarnate_pushed leaf a = (ok tt, a)
    reincarnate_pushed (branch k n cs) a =
        let (r, s) = PushConsumer.reincarnate push_supplier reconnect (branch k n cs) (pushing a) in
        (r, with_pushing s a)

    unfoldable pub reincarnate_pulled : Children → M (Admin E) (Unit {0})
    reincarnate_pulled leaf a = (ok tt, a)
    reincarnate_pulled (branch k n cs) a =
        let (r, m) =
          PullConsumerManager.reincarnate pull_supplier (a.consumers.push_consumer.channel_name)
            (branch k n cs) (pulling (servants a.consumers.pull_consumer) a) in
        (r, with_pulling m a)

    -- Of a node with the two kinds of proxies. The functions are string_to_object() with the narrowing
    -- to a PushSupplier and to a PullSupplier.
    unfoldable pub reincarnate : PersistNode → M (Admin E) (Unit {0})
    unfolding reincarnate_pushed reincarnate_pulled
    reincarnate n =
        reincarnate_pushed (children (or_empty (child (codes "ProxyPushConsumer") n)))
        >> reincarnate_pulled (children (or_empty (child (codes "ProxyPullConsumer") n)))
