-- ===== src/Proxy/PullSupplier.antt =====
-- A proxy that a consumer pulls events from: class ProxyPullSupplier_i, src/ProxyPullSupplier.cc.
-- The second that omni_thread::get_time() gives is an argument of the methods that call touch(), and
-- the queue is an argument of those that read it.
pub mod Answers
use omni_events.Prelude.{
  ℕ, ◌+◌, Bool, true, false, Option, none, some, if◌then◌else◌, ◌||◌, not, [], ◌++◌,
}
use omni_events.Prelude.Text.{Str, codes}
use omni_events.Queue.{EventQueue, Reader, new_reader, more_events, next_event}
use omni_events.Proxy.{
  Ref, bad_param, already_connected, object_not_exist, null_pointer, transient, disconnected, ok, M,
  ◌>>=◌, ◌>>◌, raise, set_self, disconnect_pull_consumer, State, send_deferred, erase_key,
  deactivate_object, activate_object_with_id, write_output, target_text, basic_text,
}

pub record PullSupplier : Type 0 where
  pub reader : Reader
  pub target : Option Ref
  pub connected : Bool
  pub timestamp : ℕ
  -- Whether `_req` is set, which this class never does.
  pub req : Bool

abbrev pub St : Type 0 → Type 0
St E = State PullSupplier E

abbrev pub key_name : Str
key_name = codes "ConsumerAdmin/ProxyPullSupplier"

abbrev pub is_nil {ℓ} : {A : Type ℓ} → Option A → Bool
is_nil none = true
is_nil (some a) = false

unfoldable pub new_pull_supplier : {E : Type 0} → ℕ → EventQueue E → PullSupplier
new_pull_supplier now q = record {
  reader = new_reader q;
  target = none;
  connected = false;
  timestamp = now;
  req = false;
}

module _ {E : Type 0} where
  unfoldable pub touch : ℕ → M (St E) (Unit {0})
  touch now s = set_self (record (s.self) { timestamp = now }) s

  unfoldable pub connect_pull_consumer : ℕ → Option Ref → M (St E) (Unit {0})
  connect_pull_consumer now consumer s =
      if s.self.connected || (not (is_nil s.self.target) || s.self.req)
      then raise already_connected s
      else (do
        touch now
        λ t. set_self (record (t.self) { connected = true }) t
        λ t. set_self (record (t.self) { target = or_else consumer t.self.target }) t
        λ t. write_output key_name (target_text t.self.target []) t)
          s
    where
      or_else : Option Ref → Option Ref → Option Ref
      or_else none old = old
      or_else (some c) old = some c

  -- output(), the text, if servant_to_id() knows the servant.
  unfoldable pub output : St E → Option Str
  output s =
      if s.core.active
      then some (basic_text s.core key_name (target_text s.self.target []))
      else none

  unfoldable pub disconnect_pull_supplier : ℕ → M (St E) (Unit {0})
  disconnect_pull_supplier now = do
    touch now
    erase_key key_name
    deactivate_object
    λ s.
        if s.self.connected
        then (elim s.self.target [
          | none ↦ (ok tt, s)
          | some consumer ↦
              (do
                set_self (record (s.self) { target = none })
                send_deferred consumer disconnect_pull_consumer)
                s
        ])
        else raise object_not_exist s

  -- `new CORBA::Any(*nextEvent())`.
  unfoldable pub take_event : EventQueue E → M (St E) E
  take_event q s =
      let (event, reader) = next_event s.self.reader q in
      elim event [
        | none ↦ raise null_pointer s
        | some e ↦ (ok e, record s { self = record (s.self) { reader = reader } })
      ]

  unfoldable pub pull : ℕ → EventQueue E → M (St E) E
  unfolding take_event
  pull now q s =
      if s.self.connected
      then (do
        touch now
        λ t. if more_events t.self.reader q then take_event q t else raise transient t)
          s
      else raise disconnected s

  -- `none` is has_event=0.
  unfoldable pub try_pull : ℕ → EventQueue E → M (St E) (Option E)
  unfolding take_event
  try_pull now q s =
      if s.self.connected
      then (do
        touch now
        λ t.
            if more_events t.self.reader q
            then (do e ← take_event q; λ u. (ok (some e), u)) t
            else (ok none, t))
          s
      else raise disconnected s

  -- `resolve` is string_to_object() and the narrowing behind it, whose nil is BAD_PARAM.
  unfoldable pub reincarnate : (Str → Option Ref) → ℕ → Str → Str → M (St E) (Unit {0})
  unfolding connect_pull_consumer
  reincarnate resolve now oid ior s = elim (resolve ior) [
    | none ↦ raise bad_param s
    | some consumer ↦ (do activate_object_with_id oid; connect_pull_consumer now (some consumer)) s
  ]
