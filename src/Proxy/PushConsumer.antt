-- ===== src/Proxy/PushConsumer.antt =====
-- The proxy that suppliers push to: class ProxyPushConsumer_i and its Connection,
-- src/ProxyPushConsumer.cc, with omniORB 4 and real-time push, as the build sets them.
--
-- It is the default servant of its POA: the id of the object that a call is for, currentObjectId(),
-- is an argument of the methods that ask for it. The list that it shares with the SupplierAdmin and
-- the queue of the ConsumerAdmin that it sends to are in the state.
pub mod Table
pub mod Recovery
use omni_events.Prelude.{
  ℕ, ◌==◌, Bool, true, false, not, ◌&&◌, Option, none, some, List, [], ◌∷◌, ◌++◌, if◌then◌else◌,
}
use omni_events.Prelude.Text.{Str, codes}
use omni_events.PersistNode.{PersistNode, Children, node, leaf, branch, attr_string}
use omni_events.PersistNode.Longs.{attr_long}
use omni_events.Queue.{EventQueue, append}
use omni_events.Proxy.{
  Ref, Exception, bad_param, already_connected, type_error, object_not_exist, transient,
  comm_failure, assertion, Result, ok, throw, Operation, is_a, disconnect_push_supplier, Request,
  Env, M, ◌>>=◌, ◌>>◌, raise, modify,
}
use Table.{Connection, Connections, no_connection, entry, find, insert, change, erase}

pub record PushConsumer : Type 0 where
  pub channel_name : Str
  pub connections : Connections
  pub use_local_queue : Bool

pub record State (E : Type 0) : Type 0 where
  pub self : PushConsumer
  pub queue : List E
  pub consumers : EventQueue E
  pub env : Env E

abbrev pub new_push_consumer : Str → PushConsumer
new_push_consumer channel = record {
  channel_name = channel;
  connections = no_connection;
  use_local_queue = false;
}

abbrev pub key_text : Str → Str → Str
key_text channel oid =
    codes "ecf/" ++ (channel ++ (codes "/SupplierAdmin/ProxyPushConsumer/" ++ oid))

-- Connection::output(), and the line that disconnect_push_consumer() writes.
unfoldable pub output_connection : Connection → Str
output_connection c =
    key_text (c.channel_name) (c.oidstr)
    ++ (codes " IOR="
        ++ (c.target_sior
            ++ ((if c.target_is_proxy then codes " proxy=1" else []) ++ codes " ;;\n")))

unfoldable pub erase_text : Str → Str → Str
erase_text channel oid = codes "-" ++ (key_text channel oid ++ codes "\n")

-- What output() writes of all connections.
unfoldable pub output_all : Connections → Str
output_all no_connection = []
output_all (entry k c cs) = output_connection c ++ output_all cs

-- What is written to the log, where there is one.
abbrev pub log_text : {E : Type 0} → Str → Env E → Env E
log_text text env = elim env.log [ none ↦ env | some l ↦ record env { log = some (l ++ text) } ]

abbrev pub send_to : {E : Type 0} → Ref → Operation E → Env E → Env E
send_to target op env = record env {
  sent = env.sent ++ record { target = target; operation = op } ∷ [];
}

-- What callback() does to a connection and the log; `none` is a return value that is no Boolean.
unfoldable pub callback : {E : Type 0} → Option Bool → Connection → Env E → Connection × Env E
callback none c env = (c, env)
callback (some false) c env = (record c { target_is_proxy = false }, env)
callback (some true) c env =
    let d = record c { target_is_proxy = true } in (d, log_text (output_connection d) env)

-- The exceptions that reincarnate() catches, for one connection.
abbrev pub caught : Result (Unit {0}) → Result (Unit {0})
caught (throw bad_param) = ok tt
caught (throw already_connected) = ok tt
caught (throw type_error) = ok tt
caught (throw object_not_exist) = ok tt
caught (throw transient) = ok tt
caught (throw comm_failure) = ok tt
caught r = r

module _ {E : Type 0} where
  unfoldable pub connect_push_supplier : Str → Str → Option Ref → M (State E) (Unit {0})
  connect_push_supplier supplier_id oid none s = (ok tt, s)
  connect_push_supplier supplier_id oid (some supplier) s = elim (find oid s.self.connections) [
    | some old ↦ raise already_connected s
    | none ↦
        let c : Connection = record {
          channel_name = s.self.channel_name;
          oidstr = oid;
          target_sior = supplier;
          target_is_proxy = false;
        } in
        (
          ok tt,
          record s {
            self = record (s.self) { connections = insert oid c s.self.connections };
            env = log_text (output_connection c) (send_to supplier (is_a supplier_id) s.env);
          },
        )
  ]

  unfoldable pub disconnect_push_consumer : Str → State E → State E
  disconnect_push_consumer oid s = elim (find oid s.self.connections) [
    | none ↦ s
    | some c ↦ record s {
      self = record (s.self) { connections = erase oid s.self.connections };
      env =
          log_text (erase_text s.self.channel_name oid)
            (send_to (c.target_sior) disconnect_push_supplier s.env);
    }
  ]

  -- callback() of the connection that the map has for an id. The request holds the Connection, not the id: an
  -- answer to one that the map has no more is callback() alone, which Recovery.Late is about.
  unfoldable pub answer : Str → Option Bool → State E → State E
  answer oid value s = elim (find oid s.self.connections) [
    | none ↦ s
    | some c ↦
        let (d, env) = callback value c s.env in
        record s {
          self = record (s.self) { connections = change oid d s.self.connections };
          env = env;
        }
  ]

  -- The first event of a cycle goes to the consumers at once.
  unfoldable pub push : E → State E → State E
  push e s = if s.self.use_local_queue then record s { queue = s.queue ++ e ∷ [] } else record s {
    self = record (s.self) { use_local_queue = true };
    consumers = append s.consumers e;
  }

  unfoldable pub trigger : State E → State E
  trigger s = record s { self = record (s.self) { use_local_queue = false } }

  -- disconnect(): every connection gets the request; nothing is written to the log.
  unfoldable pub disconnect_all : Connections → Env E → Env E
  disconnect_all no_connection env = env
  disconnect_all (entry k c cs) env =
      disconnect_all cs (send_to (c.target_sior) disconnect_push_supplier env)

  unfoldable pub disconnect : State E → State E
  disconnect s = record s {
    self = record (s.self) { connections = no_connection };
    env = disconnect_all s.self.connections s.env;
  }

  -- `resolve` is string_to_object() with the narrowing behind it, and `reconnect` what the call
  -- connect_push_consumer() of a remote ProxyPushSupplier comes to.
  unfoldable pub reincarnate_one :
      (Str → Option Ref) → (Ref → Result (Unit {0})) → Str → PersistNode → M (State E) (Unit {0})
  reincarnate_one resolve reconnect oid n s =
      let is_proxy = not (attr_long (codes "proxy") 0 n == 0) in
      elim (find oid s.self.connections) [
        | some old ↦ raise assertion s
        | none ↦ elim (resolve (attr_string (codes "IOR") [] n)) [
          | none ↦ (ok tt, s)
          | some supplier ↦
              let c : Connection = record {
                channel_name = s.self.channel_name;
                oidstr = oid;
                target_sior = supplier;
                target_is_proxy = is_proxy;
              } in
              (
                (if is_proxy then caught (reconnect supplier) else ok tt),
                record s {
                  self = record (s.self) { connections = insert oid c s.self.connections };
                },
              )
        ]
      ]

  unfoldable pub reincarnate :
      (Str → Option Ref) → (Ref → Result (Unit {0})) → Children → M (State E) (Unit {0})
  unfolding reincarnate_one
  reincarnate resolve reconnect leaf = λ s. (ok tt, s)
  reincarnate resolve reconnect (branch oid n cs) = do
    reincarnate_one resolve reconnect oid n
    reincarnate resolve reconnect cs
