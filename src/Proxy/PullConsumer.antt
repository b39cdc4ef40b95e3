-- ===== src/Proxy/PullConsumer.antt =====
-- A proxy that pulls events from a supplier: class ProxyPullConsumer_i, src/ProxyPullConsumer.cc.
-- The environment gives each collect() what `_req->poll_response()` finds: nothing, an exception, or
-- a return value with the value of a lone Boolean argument `has_event`. The event that collect()
-- pushes onto the channel's queue is its result.
pub mod Retries
use omni_events.Prelude.{
  ℕ, ◌+◌, Bool, true, false, Option, none, some, leb, if◌then◌else◌, ◌&&◌, [],
}
use omni_events.Prelude.Text.{Str, codes}
use omni_events.Proxy.{
  Ref, Exception, bad_param, already_connected, object_not_exist, assertion, Result, ok, throw, M,
  ◌>>=◌, ◌>>◌, pure, raise, modify, set_self, Operation, pull, try_pull, disconnect_pull_supplier,
  State, send_deferred, erase_key, deactivate_object, write_output, target_text,
}

pub data Mode : Type 0 where
  pull_mode try_pull_mode : Mode

pub record PullConsumer : Type 0 where
  pub target : Option Ref
  -- The request that is under way: triggerRequest() makes one for each mode.
  pub req : Option Mode
  pub mode : Mode
  pub exception_count : ℕ

pub data Reply (E : Type 0) : Type 0 where
  raised : Reply E
  returned : E → Option Bool → Reply E

abbrev pub St : Type 0 → Type 0
St E = State PullConsumer E

unfoldable pub new_pull_consumer : PullConsumer
new_pull_consumer = record { target = none; req = none; mode = pull_mode; exception_count = 0 }

abbrev pub other_mode : Mode → Mode
other_mode pull_mode = try_pull_mode
other_mode try_pull_mode = pull_mode

abbrev pub key_name : Str
key_name = codes "SupplierAdmin/ProxyPullConsumer"

abbrev is_nil {ℓ} : {A : Type ℓ} → Option A → Bool
is_nil none = true
is_nil (some a) = false

abbrev has_event : Mode → Option Bool → Bool
has_event pull_mode arg = true
has_event try_pull_mode none = false
has_event try_pull_mode (some b) = b

module _ {E : Type 0} where
  unfoldable pub connect_pull_supplier : Option Ref → M (St E) (Unit {0})
  connect_pull_supplier none s = raise bad_param s
  connect_pull_supplier (some supplier) s =
      if is_nil s.self.target && is_nil s.self.req
      then (do
        set_self (record (s.self) { target = some supplier })
        write_output key_name (target_text (some supplier) []))
          s
      else raise already_connected s

  unfoldable pub disconnect_pull_consumer : M (St E) (Unit {0})
  disconnect_pull_consumer = do
    erase_key key_name
    deactivate_object
    λ s. elim s.self.target [
      | none ↦ raise object_not_exist s
      | some supplier ↦
          (do
            set_self (record (s.self) { target = none })
            send_deferred supplier disconnect_pull_supplier)
            s
    ]

  -- The part of collect() that gives a connection up; `reportObjectFailure` asserts a target.
  unfoldable pub give_up : M (St E) (Unit {0})
  give_up s = elim s.self.target [
    | none ↦ raise assertion s
    | some supplier ↦
        (do
          send_deferred supplier disconnect_pull_supplier
          set_self (record (s.self) { target = none })
          erase_key key_name
          deactivate_object)
          s
  ]

  abbrev clear_req : M (St E) (Unit {0})
  clear_req = modify (λ s. record s { self = record (s.self) { req = none } })

  collect_reply : Mode → Reply E → M (St E) (Option E)
  collect_reply op raised = do
    modify (λ s. record s {
      self = record (s.self) {
        exception_count = s.self.exception_count + 1;
        mode = other_mode s.self.mode;
      };
    })
    λ s. if leb 4 s.self.exception_count then give_up s else (ok tt, s)
    clear_req
    pure none
  collect_reply op (returned value arg) = do
    modify (λ s. record s { self = record (s.self) { exception_count = 0 } })
    clear_req
    pure (if has_event op arg then some value else none)

  unfoldable pub collect : Option (Reply E) → M (St E) (Option E)
  unfolding collect_reply
  collect none s = (ok none, s)
  collect (some reply) s = elim s.self.req [
    | none ↦ (ok none, s)
    | some op ↦ collect_reply op reply s
  ]

  abbrev request_of : Mode → Operation E
  request_of pull_mode = pull
  request_of try_pull_mode = try_pull

  unfoldable pub trigger_request : M (St E) (Unit {0})
  trigger_request s = elim s.self.req [
    | some op ↦ (ok tt, s)
    | none ↦ elim s.self.target [
      | none ↦ (ok tt, s)
      | some supplier ↦
          (do
            set_self (record (s.self) { req = some s.self.mode })
            send_deferred supplier (request_of s.self.mode))
            s
    ]
  ]
