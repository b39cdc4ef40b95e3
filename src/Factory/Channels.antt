-- ===== src/Factory/Channels.antt =====
-- The channels that the factory makes and finds: create_object(), create_channel(), join_channel(),
-- get_channel() and the constructor of src/EventChannelFactory.cc, with newUniqueId() of
-- src/Servant.cc and createPoa(), activate() and setInsName() of src/EventChannel.cc.
--
-- The POAs are the ORB's. `Adapters` are the calls of them, on a state `W`: `none` is the exception
-- that the CORBA standard gives the call, AdapterAlreadyExists, ObjectAlreadyActive or ObjectNotActive.
-- A channel is known by its pointer, and the pointers that `new` returns are counted. The process id
-- and the seconds of the clock are arguments.
pub mod Names
mod Pointers
mod Dangling
mod Ending
pub mod Reachable
mod Examples
mod Tests
use omni_events.Prelude.{
  ℕ, zero, suc, ◌+◌, ◌/◌, ◌%◌, ◌^◌, ◌==◌, ltb, Bool, true, false, Option, none, some, List, [], ◌∷◌,
  ◌++◌, if◌then◌else◌,
}
use omni_events.Prelude.Text.{Str, codes, str_eq}
use omni_events.PersistNode.{PersistNode, Children, leaf, branch, has_attr, attr_string}
use omni_events.PersistNode.Longs.{int_text}
use omni_events.EventChannel.{Admins, Channel, new_channel, activate, poa_name}
use omni_events.EventChannel.Store.{Entry}
use omni_events.Factory.{
  Criterion, KeyPart, Outcome, parsed, invalid_criteria, cannot_meet_criteria, text, supports,
  parse_criteria,
}

-- What an id of the INSPOA stands for: the factory itself, or a channel behind its mapper.
pub data Target : Type 0 where
  the_factory : Target
  a_channel : ℕ → Target

pub record Adapters (W : Type 0) : Type 0 where
  pub create_poa : Str → W → Option W
  pub destroy_poa : Str → W → W
  pub activate_id : Str → Target → W → Option W
  pub deactivate_id : Str → W → W
  pub find_id : Str → W → Option Target

pub record Factory (S C W : Type 0) : Type 0 where
  pub orb : W
  pub count : ℕ
  pub allocated : ℕ
  pub channels : List (Entry S C)

-- `%lx` of a number with at most `fuel` hexadecimal digits, in front of a text.
unfoldable pub hex : ℕ → ℕ → Str → Str
hex zero n s = s
hex (suc fuel) n s =
    let d = n % 16 in
    let digit = if ltb d 10 then d + 48 else d + 87 in
    let more = hex fuel (n / 16) (digit ∷ s) in if ltb n 16 then digit ∷ s else more

unfoldable pub new_unique_id : ℕ → ℕ → ℕ → Str
new_unique_id count pid seconds =
    hex 16 (count % 2 ^ 64) []
    ++ (codes "." ++ (int_text pid ++ (codes "." ++ hex 16 (seconds % 2 ^ 64) [])))

-- What create_object() returns or throws.
pub data Created : Type 0 where
  made : ℕ → Created
  no_factory : List KeyPart → Created
  not_valid not_met : List Criterion → Created

-- What a client gets for a name. `nil` is the null reference that _narrow() makes of another object.
pub data NameReply : Type 0 where
  channel : ℕ → NameReply
  nil name_already_used channel_not_found unknown : NameReply

abbrev pub destroy_mapper : {W : Type 0} → Adapters W → Option Str → W → W
destroy_mapper adapters none w = w
destroy_mapper adapters (some id) w = adapters.deactivate_id id w

abbrev pub find : Option Target → NameReply
find none = channel_not_found
find (some the_factory) = nil
find (some (a_channel p)) = channel p

abbrev pub started : {S C W : Type 0} → Option (Channel S C) → W → Factory S C W → Factory S C W
started none w f = record f { orb = w; allocated = f.allocated + 1 }
started (some c) w f = record f {
  orb = w;
  allocated = f.allocated + 1;
  channels = record { pointer = f.allocated; channel = c } ∷ f.channels;
}

abbrev pub reply_of : {S C : Type 0} → List Criterion → ℕ → Option (Channel S C) → Created
reply_of criteria p none = not_valid criteria
reply_of criteria p (some c) = made p

abbrev pub answer_of : Created → NameReply
answer_of (made p) = channel p
answer_of (not_valid []) = unknown
answer_of (not_valid (c ∷ cs)) =
    if str_eq (c.name) (codes "InsName") then name_already_used else unknown
answer_of _ = unknown

abbrev pub named : Str → List Criterion
named name = record { name = codes "InsName"; value = text name } ∷ []

abbrev pub channel_key : List KeyPart
channel_key = record { id = codes "EventChannel"; kind = codes "object interface" } ∷ []

-- What comes behind a call that may throw.
abbrev pub if_made : {A B : Type 0} → Option A → Option B → Option B
if_made none later = none
if_made (some a) later = later

module _ {S C W : Type 0} (adapters : Adapters W) where
  unfoldable pub set_ins_name : ℕ → Str → Channel S C → W → Option (Channel S C) × W
  set_ins_name p [] c w = (some (record c { mapper = none }), destroy_mapper adapters c.mapper w)
  set_ins_name p (v ∷ vs) c w = elim (adapters.activate_id (v ∷ vs) (a_channel p) w) [
    | none ↦ (none, w)
    | some u ↦ (some (record c { mapper = some (v ∷ vs) }), destroy_mapper adapters c.mapper u)
  ]

  unfoldable pub join_channel : Str → Factory S C W → NameReply
  join_channel name f = find (adapters.find_id name f.orb)

  -- The same text as join_channel() in the source.
  unfoldable pub get_channel : Str → Factory S C W → NameReply
  get_channel name f = find (adapters.find_id name f.orb)

module _ {S C E W : Type 0} (admins : Admins S C E) (adapters : Adapters W) where
  -- activate() of the channel at a pointer, `none` if createPoa() or setInsName() throws.
  unfoldable pub activate_channel : ℕ → Str → PersistNode → W → Option (Channel S C) × W
  activate_channel p name n w = elim (adapters.create_poa name w) [
    | none ↦ (none, w)
    | some u ↦
        let c = activate admins name (some n) new_channel in
        set_ins_name adapters p (attr_string (codes "InsName") [] c.properties) c u
  ]

  -- create_object() for criteria that were accepted.
  unfoldable pub create_with :
      ℕ → ℕ → List Criterion → PersistNode → Factory S C W → Created × Factory S C W
  create_with pid seconds criteria n f =
      let named = has_attr (codes "InsName") n in
      let count = if named then f.count else f.count + 1 in
      let id =
        if named
        then attr_string (codes "InsName") [] n
        else new_unique_id (f.count + 1) pid seconds in
      let (c, w) = activate_channel f.allocated id n f.orb in
      (reply_of criteria f.allocated c, started c w (record f { count = count }))

  unfoldable pub create_object :
      ℕ → ℕ → List KeyPart → List Criterion → Factory S C W → Created × Factory S C W
  create_object pid seconds key criteria f =
      if supports key
      then (elim (parse_criteria criteria) [
        | parsed n ↦ create_with pid seconds criteria n f
        | invalid_criteria found ↦ (not_valid found, f)
        | cannot_meet_criteria found ↦ (not_met found, f)
      ])
      else (no_factory key, f)

  unfoldable pub create_channel : ℕ → ℕ → Str → Factory S C W → NameReply × Factory S C W
  unfolding create_object
  create_channel pid seconds name f =
      let (r, g) = create_object pid seconds channel_key (named name) f in (answer_of r, g)

  -- The loop of the constructor over the stored channels; `none` is an exception that leaves it.
  unfoldable pub restore : Children → Factory S C W → Option (Factory S C W)
  restore leaf f = some f
  restore (branch name n rest) f =
      let (c, w) = activate_channel f.allocated name n f.orb in
      let later = restore rest (started c w f) in if_made c later

  -- The constructor, for the channels in the tree of the log.
  unfoldable pub new_factory : Children → W → Option (Factory S C W)
  new_factory stored w =
      let empty : Factory S C W = record { orb = w; count = 0; allocated = 0; channels = [] } in
      elim (restore stored empty) [
        | none ↦ none
        | some f ↦ elim (adapters.activate_id (codes "omniEvents") the_factory f.orb) [
          | none ↦ none
          | some u ↦ some (record f { orb = u })
        ]
      ]

module _ {S C : Type 0} where
  unfoldable pub at_pointer : ℕ → List (Entry S C) → Option (Channel S C)
  at_pointer p [] = none
  at_pointer p (d ∷ ds) =
      let later = at_pointer p ds in if d.pointer == p then some (d.channel) else later

  unfoldable pub drop_pointer : ℕ → List (Entry S C) → List (Entry S C)
  drop_pointer p [] = []
  drop_pointer p (d ∷ ds) =
      let later = drop_pointer p ds in if d.pointer == p then ds else d ∷ later

module _ {S C W : Type 0} where
  -- The end of run_undetached() for a channel that was destroyed, and the destructor that runs when the
  -- POA lets go of the channel.
  unfoldable pub end_channel : Adapters W → ℕ → Factory S C W → Factory S C W
  unfolding at_pointer drop_pointer
  end_channel adapters p f = record f {
    channels = drop_pointer p f.channels;
    orb = elim (at_pointer p f.channels) [
      | none ↦ f.orb
      | some c ↦ destroy_mapper adapters c.mapper (adapters.destroy_poa (poa_name c) f.orb)
    ];
  }
