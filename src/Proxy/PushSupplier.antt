-- ===== src/Proxy/PushSupplier.antt =====
-- A proxy that pushes events to a consumer: class ProxyPushSupplier_i, src/ProxyPushSupplier.cc.
-- The environment gives each trigger() what `_req->poll_response()` finds: nothing, a normal return,
-- CORBA::TIMEOUT, or another exception. The proxy's Reader is a member; the queue that it reads is
-- the argument of trigger(), which runs while the manager's mutex keeps the queue still.
pub mod Delivery
pub mod Restart
use omni_events.Prelude.{
  ℕ, ◌+◌, Bool, true, false, Option, none, some, if◌then◌else◌, ◌&&◌, not, [], ◌++◌, List,
}
use omni_events.Prelude.Text.{Str, codes}
use omni_events.Queue.{EventQueue, Reader, new_reader, more_events, next_event}
use omni_events.Proxy.{
  Ref, bad_param, already_connected, object_not_exist, null_pointer, ok, M, ◌>>=◌, ◌>>◌, pure,
  raise, modify, set_self, push, disconnect_push_consumer, is_a, State, send_deferred, erase_key,
  deactivate_object, activate_object_with_id, write_output, basic_text, Core,
}

pub record PushSupplier : Type 0 where
  pub reader : Reader
  pub target : Option Ref
  -- `_target_sior`, the stringified target.
  pub target_sior : Str
  -- Whether a push is under way.
  pub req : Bool
  pub target_is_proxy : Bool

pub data Reply : Type 0 where
  delivered timeout raised : Reply

-- The two flags that trigger() sets.
pub record Flags : Type 0 where
  pub busy : Bool
  pub waiting : Bool

abbrev pub St : Type 0 → Type 0
St E = State PushSupplier E

unfoldable pub new_push_supplier : {E : Type 0} → EventQueue E → PushSupplier
new_push_supplier q = record {
  reader = new_reader q;
  target = none;
  target_sior = [];
  req = false;
  target_is_proxy = false;
}

abbrev pub key_name : Str
key_name = codes "ConsumerAdmin/ProxyPushSupplier"

abbrev pub is_nil {ℓ} : {A : Type ℓ} → Option A → Bool
is_nil none = true
is_nil (some a) = false

-- What output() writes behind the key. The stringified target is written whatever it is.
unfoldable pub attributes : PushSupplier → Str
attributes p =
    codes " IOR=" ++ (p.target_sior ++ (if p.target_is_proxy then codes " proxy=1" else []))

module _ {E : Type 0} where
  -- output() of the servant, `none` where keyOutput() throws.
  unfoldable pub output : St E → Option Str
  output s = if s.core.active then some (basic_text s.core key_name (attributes s.self)) else none

  unfoldable pub connect_push_consumer : Str → Option Ref → M (St E) (Unit {0})
  connect_push_consumer consumer_id none s = raise bad_param s
  connect_push_consumer consumer_id (some consumer) s =
      if is_nil s.self.target && not s.self.req
      then (do
        set_self (record (s.self) { target = some consumer; target_sior = consumer })
        send_deferred consumer (is_a consumer_id)
        λ t. write_output key_name (attributes t.self) t)
          s
      else raise already_connected s

  unfoldable pub disconnect_push_supplier : M (St E) (Unit {0})
  disconnect_push_supplier = do
    erase_key key_name
    deactivate_object
    λ s. elim s.self.target [
      | none ↦ raise object_not_exist s
      | some consumer ↦
          (do
            set_self (record (s.self) { target = none })
            send_deferred consumer disconnect_push_consumer)
            s
    ]

  -- The handler of an exception other than TIMEOUT. `_req` is reset where there is a target only.
  notify_consumer : M (St E) (Unit {0})
  notify_consumer s = elim s.self.target [
    | none ↦ (ok tt, s)
    | some consumer ↦
        (do
          set_self (record (s.self) { req = false })
          send_deferred consumer disconnect_push_consumer)
          s
  ]

  unfoldable pub shut_down : M (St E) (Unit {0})
  unfolding notify_consumer
  shut_down = do
    notify_consumer
    modify (λ s. record s { self = record (s.self) { target = none } })
    erase_key key_name
    deactivate_object

  -- The second half of trigger(): send the next event, and say whether a request is under way.
  send_next : EventQueue E → Flags → M (St E) Flags
  send_next q flags s = elim s.self.target [
    | none ↦ (ok (record flags { waiting = if s.self.req then true else flags.waiting }), s)
    | some consumer ↦
        if not s.self.req && more_events s.self.reader q
        then (let (event, reader) = next_event s.self.reader q in
            elim event [
              | none ↦ raise null_pointer s
              | some e ↦
                  (do
                    set_self (record (s.self) { reader = reader; req = true })
                    send_deferred consumer (push e)
                    pure (record { busy = true; waiting = true }))
                    s
            ])
        else (ok (record flags { waiting = if s.self.req then true else flags.waiting }), s)
  ]

  response_arrived : EventQueue E → Reply → Flags → M (St E) Flags
  unfolding send_next
  response_arrived q raised flags = do shut_down; pure flags
  response_arrived q delivered flags = do
    modify (λ s. record s { self = record (s.self) { req = false } })
    send_next q (record flags { busy = true })
  response_arrived q timeout flags = do
    modify (λ s. record s { self = record (s.self) { req = false } })
    send_next q (record flags { busy = true })

  unfoldable pub trigger : EventQueue E → Option Reply → Flags → M (St E) Flags
  unfolding response_arrived
  trigger q none flags s = send_next q flags s
  trigger q (some reply) flags s =
      if s.self.req then response_arrived q reply flags s else send_next q flags s

  -- `answer` is the Boolean that the return value of `_is_a` holds, if it holds one.
  unfoldable pub callback : Option Bool → M (St E) (Unit {0})
  callback answer s = if s.self.target_is_proxy then (ok tt, s) else (elim answer [
    | none ↦ (ok tt, record s { self = record (s.self) { target_is_proxy = false } })
    | some false ↦ (ok tt, record s { self = record (s.self) { target_is_proxy = false } })
    | some true ↦
        (do
          set_self (record (s.self) { target_is_proxy = true })
          λ t. write_output key_name (attributes t.self) t)
          s
  ])

  -- The part of reincarnate() that concerns this process: `resolve` is string_to_object(), and
  -- `proxy` the value of attrLong("proxy"). The call of the remote proxy's connect_push_supplier(),
  -- which a federated proxy then makes, is left out: AlreadyConnected, TypeError, OBJECT_NOT_EXIST,
  -- TRANSIENT and COMM_FAILURE are caught there, and another exception would come out of reincarnate().
  unfoldable pub reincarnate : (Str → Option Ref) → Str → Str → Bool → M (St E) (Unit {0})
  reincarnate resolve oid ior proxy s = elim (resolve ior) [
    | none ↦ raise bad_param s
    | some consumer ↦
        (do
          activate_object_with_id oid
          modify (λ t. record t {
            self = record (t.self) { target = some consumer; target_is_proxy = proxy };
          }))
          s
  ]
