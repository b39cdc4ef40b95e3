-- ===== src/EventChannel.antt =====
-- An event channel: class EventChannel_i, src/EventChannel.cc and src/EventChannel.h.
--
-- Its two administration objects are behind the interface `Admins`. The POA that the channel has made
-- is its name, `none` where it is nil; the reference count is the number of references that were added
-- to the constructor's one and the number that were removed. The thread of the channel does what
-- run_undetached() and mainLoop() do in steps, between which the requests of clients and of the
-- factory come. An exception of the ORB that ends the thread is the step `fail`, between two of these,
-- and a null administration object in the transfer phase ends the thread like one. The test of
-- _shutdownRequested in the transfer phase and the transfer behind it are one step. The log is as far
-- as this thread writes it: the lines of the proxies are in Proxy/. The channel has a store. The mapper
-- is the id that it is active with in the INSPOA, `none` where it is null; `activate` leaves out the
-- call of setInsName(), which Factory/Channels models.
mod Lifecycle
mod Shutdown
pub mod Store
pub mod Examples
use omni_events.Prelude.{
  ℕ, ◌+◌, ◌≡◌, ltb, Bool, true, false, not, ◌&&◌, Option, none, some, List, [], ◌∷◌, ◌++◌,
  if◌then◌else◌,
}
use omni_events.Prelude.Text.{Str, codes}
use omni_events.PersistNode.{PersistNode, node, leaf, attrs, child}
use omni_events.Proxy.{Result, ok, throw, Exception, object_not_exist}

-- The administration objects of a supplier side `S` and a consumer side `C`, with events `E`.
pub record Admins (S C E : Type 0) : Type 0 where
  pub new_consumer_admin : PersistNode → C
  pub new_supplier_admin : PersistNode → S
  pub reincarnate_suppliers : PersistNode → S → S
  pub reincarnate_consumers : PersistNode → C → C
  pub collect : S → List E × S
  pub send : C → List E → C
  -- disconnect(), which an exception may end.
  pub disconnect_suppliers : S → Result (Unit {0}) × S
  pub disconnect_consumers : C → Result (Unit {0}) × C
  -- What _properties, the suppliers' and the consumers' side write of a channel.
  pub output_properties : PersistNode → Str → Str
  pub output_suppliers : S → Str
  pub output_consumers : C → Str

pub record Channel (S C : Type 0) : Type 0 where
  pub consumer_admin : Option C
  pub supplier_admin : Option S
  pub shutdown_requested : Bool
  pub properties : PersistNode
  pub poa : Option Str
  pub mapper : Option Str
  pub holding : Bool
  pub added : ℕ
  pub removed : ℕ
  pub name : Str

-- Where the thread is: not yet begun, at the head of the main loop, in the transfer phase, at its end.
pub data Phase : Type 0 where
  fresh looping transferring finished failed : Phase

pub record System (S C : Type 0) : Type 0 where
  pub channel : Channel S C
  pub phase : Phase
  pub stored : Bool
  pub log : Option Str

-- A call through a pointer that may be null.
abbrev pub call :
    {A : Type 0} → (A → Result (Unit {0}) × A) → Option A → Result (Unit {0}) × Option A
call f none = (ok tt, none)
call f (some a) = let (r, b) = f a in (r, some b)

-- What the two calls of disconnect() come to: an exception of the first leaves out the second.
abbrev pub disconnected :
    {S C : Type 0}
    → Result (Unit {0}) × Option C
    → Result (Unit {0}) × Option S
    → Channel S C
    → Result (Unit {0}) × Channel S C
disconnected (throw e, consumers) suppliers c = (throw e, record c { consumer_admin = consumers })
disconnected (ok a, consumers) (r, suppliers) c =
    (r, record c { consumer_admin = consumers; supplier_admin = suppliers })

-- `if(node){ child=node->child(key); if(child) ...}`.
abbrev pub with_child : {A : Type 0} → Str → (PersistNode → A → A) → Option PersistNode → A → A
with_child key f none a = a
with_child key f (some n) a = elim (child key n) [ none ↦ a | some m ↦ f m a ]

abbrev pub text_of : Option Str → Str
text_of none = []
text_of (some n) = n

abbrev pub written : {A : Type 0} → (A → Str) → Option A → Str
written f none = []
written f (some a) = f a

abbrev pub logged : Str → Option Str → Option Str
logged text none = none
logged text (some l) = some (l ++ text)

-- The thread is not at its end.
abbrev pub alive : Phase → Bool
alive finished = false
alive failed = false
alive _ = true

module _ {S C : Type 0} where
  abbrev pub new_channel : Channel S C
  new_channel = record {
    consumer_admin = none;
    supplier_admin = none;
    shutdown_requested = false;
    properties = node leaf [];
    poa = none;
    mapper = none;
    holding = true;
    added = 0;
    removed = 0;
    name = [];
  }

  unfoldable pub for_consumers : Channel S C → Result C
  for_consumers c = elim c.consumer_admin [
    | none ↦ throw object_not_exist
    | some a ↦ if c.shutdown_requested then throw object_not_exist else ok a
  ]

  unfoldable pub for_suppliers : Channel S C → Result S
  for_suppliers c = elim c.supplier_admin [
    | none ↦ throw object_not_exist
    | some a ↦ if c.shutdown_requested then throw object_not_exist else ok a
  ]

  unfoldable pub add_ref : Channel S C → Channel S C
  add_ref c = record c { added = c.added + 1 }

  unfoldable pub remove_ref : Channel S C → Channel S C
  remove_ref c = record c { removed = c.removed + 1 }

  -- `_refCount>0 && !_shutdownRequested`.
  abbrev pub runs : Channel S C → Bool
  runs c = ltb c.removed (c.added + 1) && not c.shutdown_requested

  abbrev pub poa_name : Channel S C → Str
  poa_name c = text_of c.poa

  unfoldable pub channel_name : Channel S C → Str
  channel_name c = elim c.poa [ none ↦ c.name | some n ↦ n ]

  abbrev pub erase_line : Channel S C → Str
  erase_line c = codes "-ecf/" ++ (poa_name c ++ codes "\n")

  unfoldable pub finish : System S C → System S C
  finish s =
      if s.channel.shutdown_requested
      then record s {
        stored = false;
        log = logged (erase_line s.channel) s.log;
        channel = record (s.channel) { poa = none };
        phase = finished;
      }
      else record s { stored = false; phase = finished }

module _ {S C E : Type 0} where
  unfoldable pub destroy : Admins S C E → Channel S C → Result (Unit {0}) × Channel S C
  destroy admins c =
      if c.shutdown_requested
      then (throw object_not_exist, c)
      else disconnected (call admins.disconnect_consumers c.consumer_admin)
          (call admins.disconnect_suppliers c.supplier_admin)
          (record c { shutdown_requested = true; holding = false })

  -- activate(): the POA holds a reference to the object in place of the constructor's.
  unfoldable pub activate : Admins S C E → Str → Option PersistNode → Channel S C → Channel S C
  activate admins name n c =
      let properties = elim n as (λ _. PersistNode) [
        | none ↦ c.properties
        | some m ↦ node leaf (attrs m)
      ] in
      record c {
        name = name;
        poa = some name;
        holding = true;
        properties = properties;
        consumer_admin = some (
            with_child (codes "ConsumerAdmin") admins.reincarnate_consumers n
              (admins.new_consumer_admin properties));
        supplier_admin = some (
            with_child (codes "SupplierAdmin") admins.reincarnate_suppliers n
              (admins.new_supplier_admin properties));
        added = c.added + 1;
        removed = c.removed + 1;
      }

  unfoldable pub output : Admins S C E → Channel S C → Str
  output admins c =
      admins.output_properties c.properties (codes "ecf/" ++ poa_name c)
      ++ (written admins.output_suppliers c.supplier_admin
          ++ written admins.output_consumers c.consumer_admin)

  unfoldable pub begin : Admins S C E → System S C → System S C
  unfolding output
  begin admins s = record s {
    stored = true;
    log = logged (output admins s.channel) s.log;
    channel = record (s.channel) { holding = false };
    phase = looping;
  }

  unfoldable pub transfer : Admins S C E → System S C → System S C
  transfer admins s = elim s.channel.supplier_admin [
    | none ↦ record s { phase = failed }
    | some a ↦ elim s.channel.consumer_admin [
      | none ↦ record s { phase = failed }
      | some b ↦
          let (events, after) = admins.collect a in
          record s {
            channel = record (s.channel) {
              supplier_admin = some after;
              consumer_admin = some (admins.send b events);
              holding = false;
            };
            phase = looping;
          }
    ]
  ]

  -- The next thing that the thread does, if no exception comes.
  unfoldable pub thread_step : Admins S C E → System S C → Option (System S C)
  unfolding begin transfer finish
  thread_step admins s = elim s.phase [
    | fresh ↦ some (begin admins s)
    | looping ↦ some (
        if runs s.channel
        then record s { channel = record (s.channel) { holding = true }; phase = transferring }
        else finish s)
    | transferring ↦ some (if s.channel.shutdown_requested then finish s else transfer admins s)
    | finished ↦ none
    | failed ↦ none
  ]

  -- Everything that happens to a channel that is active.
  pub data Step (admins : Admins S C E) : System S C → System S C → Type 0 where
    thread : (s t : System S C) → thread_step admins s ≡ some t → Step admins s t
    fail : (s : System S C) → alive (s.phase) ≡ true → Step admins s (record s { phase = failed })
    destroyed :
        (s : System S C)
        → alive (s.phase) ≡ true
        → Step admins s (record s { channel = (destroy admins s.channel).1 })
    -- What suppliers, consumers and their proxies do to the administration objects: a push that goes to the
    -- consumers at once, say.
    clients :
        (s : System S C) (suppliers : Option S) (consumers : Option C)
        → Step admins s (record s {
          channel = record (s.channel) { supplier_admin = suppliers; consumer_admin = consumers };
        })
    reference_added : (s : System S C) → Step admins s (record s { channel = add_ref s.channel })
    reference_removed :
        (s : System S C) → Step admins s (record s { channel = remove_ref s.channel })

  pub data Reach (admins : Admins S C E) (start : System S C) : System S C → Type 0 where
    here : Reach admins start start
    next : (s t : System S C) → Reach admins start s → Step admins s t → Reach admins start t
