-- ===== src/Proxy.antt =====
-- What the proxies share: class Proxy and the helpers of class Servant (src/ProxyManager.cc,
-- src/Servant.cc), and the parts of the ORB that they reach.
--
-- The ORB is not modelled: an object reference stands for itself as its stringified IOR, a nil
-- reference is `none`, and what a proxy sends is the list of its deferred requests, in order. The
-- POA knows a servant from activate_object_with_id() to deactivate_object(), and servant_to_id()
-- raises ServantNotActive outside that time. The log is the text that has been written to it, `none`
-- where no omniEventsLog exists.
pub mod PullConsumer
pub mod PullConsumerManager
pub mod PullSupplier
pub mod PullSupplierManager
pub mod PushConsumer
pub mod PushSupplier
pub mod PushSupplierManager
use omni_events.Prelude.{
  ℕ, ◌+◌, ◌≡◌, refl, Bool, true, false, Option, none, some, List, [], ◌∷◌, ◌++◌, arith,
  if◌then◌else◌,
}
use omni_events.Prelude.Text.{Str, codes}

-- An object reference.
abbrev pub Ref : Type 0
Ref = Str

pub data Exception : Type 0 where
  bad_param already_connected object_not_exist disconnected transient : Exception
  type_error comm_failure other_exception : Exception
  -- ServantNotActive, from servant_to_id().
  servant_not_active : Exception
  -- A failed assert(), or a null pointer that is read: the process ends.
  assertion null_pointer : Exception

pub data Result {ℓ} (A : Type ℓ) : Type ℓ where
  ok : A → Result A
  throw : Exception → Result A

-- Stateful code that may throw. What it did before it threw stays done.
abbrev pub M : Type 0 → Type 0 → Type 0
M S A = S → Result A × S

infixl 5 ◌>>=◌ ◌>>◌
abbrev pub ◌>>=◌ : {S A B : Type 0} → M S A → (A → M S B) → M S B
◌>>=◌ m k s = let (r, t) = m s in elim r [ ok a ↦ k a t | throw e ↦ (throw e, t) ]

abbrev pub ◌>>◌ : {S A B : Type 0} → M S A → M S B → M S B
m >> k = m >>= λ _. k

abbrev pub pure : {S A : Type 0} → A → M S A
pure a s = (ok a, s)

abbrev pub raise : {S A : Type 0} → Exception → M S A
raise e s = (throw e, s)

abbrev pub modify : {S : Type 0} → (S → S) → M S (Unit {0})
modify f s = (ok tt, f s)

-- The operations that the proxies invoke on their clients.
pub data Operation (E : Type 0) : Type 0 where
  push : E → Operation E
  pull try_pull : Operation E
  disconnect_push_consumer disconnect_push_supplier : Operation E
  disconnect_pull_consumer disconnect_pull_supplier : Operation E
  is_a : Str → Operation E

-- A deferred request: send_deferred(), and Orb::deferredRequest() where no proxy keeps it.
pub record Request (E : Type 0) : Type 0 where
  pub target : Ref
  pub operation : Operation E

pub record Env (E : Type 0) : Type 0 where
  pub log : Option Str
  pub sent : List (Request E)

-- The members that a proxy has from Proxy and Servant. `oid` is the id under which the POA knows
-- it, and `channel` the name of the parent POA.
pub record Core : Type 0 where
  pub channel : Str
  pub oid : Str
  pub active : Bool

-- A proxy of a class with members `P`, and what it shares with others.
pub record State (P E : Type 0) : Type 0 where
  pub core : Core
  pub self : P
  pub env : Env E

-- What keyOutput() writes, if servant_to_id() knows the servant.
unfoldable pub key_text : Core → Str → Str
key_text c name = codes "ecf/" ++ (c.channel ++ (codes "/" ++ (name ++ (codes "/" ++ c.oid))))

-- What follows the key in the two forms of basicOutput(): the one takes an object and writes
-- nothing of a nil one, the other takes a string.
abbrev pub target_text : Option Ref → Str → Str
target_text none extra = []
target_text (some ior) extra = codes " IOR=" ++ (ior ++ extra)

unfoldable pub basic_text : Core → Str → Str → Str
basic_text c name attributes = key_text c name ++ (attributes ++ codes " ;;\n")

module _ {P E : Type 0} where
  abbrev pub set_self : P → M (State P E) (Unit {0})
  set_self p = modify (λ s. record s { self = p })

  unfoldable pub send_deferred : Ref → Operation E → M (State P E) (Unit {0})
  send_deferred target op s =
      let call : Request E = record { target = target; operation = op } in
      (ok tt, record s { env = record (s.env) { sent = s.env.sent ++ call ∷ [] } })

  -- The dash is written before servant_to_id() may throw.
  unfoldable pub erase_key : Str → M (State P E) (Unit {0})
  erase_key name s = elim s.env.log [
    | none ↦ (ok tt, s)
    | some text ↦
        if s.core.active
        then (
          ok tt,
          record s {
            env = record (s.env) {
              log = some (text ++ (codes "-" ++ (key_text s.core name ++ codes "\n")));
            };
          },
        )
        else (
          throw servant_not_active,
          record s { env = record (s.env) { log = some (text ++ codes "-") } },
        )
  ]

  -- A servant that is not active is reported and left alone.
  unfoldable pub deactivate_object : M (State P E) (Unit {0})
  deactivate_object s = (ok tt, record s { core = record (s.core) { active = false } })

  unfoldable pub activate_object_with_id : Str → M (State P E) (Unit {0})
  activate_object_with_id oid s =
      (ok tt, record s { core = record (s.core) { oid = oid; active = true } })

  -- `WriteLock log; output(log.os);` under omniEventsLog::exists(), for an output() that calls
  -- basicOutput() with these attributes.
  unfoldable pub write_output : Str → Str → M (State P E) (Unit {0})
  write_output name attributes s = elim s.env.log [
    | none ↦ (ok tt, s)
    | some text ↦
        if s.core.active
        then (
          ok tt,
          record s {
            env = record (s.env) { log = some (text ++ basic_text s.core name attributes) };
          },
        )
        else (throw servant_not_active, s)
  ]
