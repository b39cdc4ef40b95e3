-- ===== src/Factory/Listing.antt =====
-- What the factory says of its channels: output(), delete_all(), exists() and list_channels() of
-- src/EventChannelFactory.cc, with the accessors of EventChannel_i in src/EventChannel.h and list() of
-- EventChannelStore in src/EventChannel.cc, for a client that is alone with the store.
mod Tests
use omni_events.Prelude.{
  ℕ, ◌+◌, ◌%◌, ◌^◌, ◌≤◌, ◌≡◌, refl, ap, sym, ◌∙◌, Bool, true, false, ◌||◌, Option, none, some, List,
  [], ◌∷◌, ◌++◌, map, length, take, arith,
}
use omni_events.Prelude.Text.{Str, codes, str_eq}
use omni_events.PersistNode.{PersistNode, has_attr, attr_string}
use omni_events.PersistNode.Longs.{attr_long}
use omni_events.PersistNode.Longs.Digits.{digits}
use omni_events.Proxy.{Result}
use omni_events.EventChannel.{Admins, Channel, channel_name, output}
use omni_events.EventChannel.Store.{Entry, Store, exists, output_all, empty}
use omni_events.ConsumerAdmin.{max_queue_length}
use omni_events.Iterators.{Iterator, list}
use omni_events.Iterators.Fetch.{Call, requested, fetch_rest, list-fetch, take-all}

module _ {S C : Type 0} where
  unfoldable pub pull_retry_period_ms : Channel S C → ℕ
  pull_retry_period_ms c = attr_long (codes "PullRetryPeriod_ms") 1000 c.properties % 2 ^ 32

  unfoldable pub max_num_proxies : Channel S C → ℕ
  max_num_proxies c = attr_long (codes "MaxNumProxies") 1024 c.properties % 2 ^ 32

  unfoldable pub cycle_period_ns : Channel S C → ℕ
  cycle_period_ns c = attr_long (codes "CyclePeriod_ns") 100000000 c.properties

  unfoldable pub has_mapper : Channel S C → Bool
  has_mapper c = elim c.mapper [ none ↦ false | some id ↦ true ]

-- An EventChannelInfo. Its numbers have 32 bits.
pub record Info : Type 0 where
  pub channel_name : Str
  pub has_mapper : Bool
  pub pull_retry_period : ℕ
  pub max_queue_length : ℕ
  pub max_num_proxies : ℕ
  pub cycle_period : ℕ
  pub filter_id : Str

module _ {S C : Type 0} where
  unfoldable pub info_of : Channel S C → Info
  info_of c = record {
    channel_name = channel_name c;
    has_mapper = has_mapper c;
    pull_retry_period = pull_retry_period_ms c;
    max_queue_length = max_queue_length c.properties;
    max_num_proxies = max_num_proxies c;
    cycle_period = cycle_period_ns c % 2 ^ 32;
    filter_id = attr_string (codes "FilterId") [] c.properties;
  }

  unfoldable pub list_store : Store S C → List Info
  list_store [] = []
  list_store (d ∷ ds) = info_of d.channel ∷ list_store ds

  unfoldable pub list_channels : ℕ → Store S C → List Info × Option (Iterator Info)
  list_channels how_many store = list how_many (list_store store)

  unfoldable pub exists_channel : Str → Store S C → Bool
  exists_channel name store = exists name store

module _ {S C E : Type 0} (admins : Admins S C E) where
  unfoldable pub delete_all : Store S C → Result (Unit {0}) × Store S C
  delete_all store = empty admins store

  -- The port is an unsigned int, of at most ten digits.
  unfoldable pub output_factory : ℕ → Str → Store S C → Str
  output_factory port end_point store =
      codes "ecf port="
      ++ (digits 10 port []
          ++ ((elim end_point as (λ _. Str) [
            | [] ↦ []
            | c ∷ s ↦ codes " endPointNoListen=" ++ (c ∷ s)
          ])
              ++ (codes " ;;\n" ++ output_all (output admins) store)))

-- Some item of a listing has the name.
abbrev pub listed : Str → List Info → Bool
listed name [] = false
listed name (i ∷ is) = str_eq name (i.channel_name) || listed name is

module _ {S C : Type 0} where
  listed-list_store : (name : Str) (ds : Store S C) → listed name (list_store ds) ≡ exists name ds
  unfolding list_store info_of exists
  listed-list_store name [] = refl
  listed-list_store name (d ∷ ds) =
      ap (λ b. str_eq name (channel_name (d.channel)) || b) (listed-list_store name ds)

  length-list_store : (ds : Store S C) → length (list_store ds) ≡ length ds
  unfolding list_store
  length-list_store [] = refl
  length-list_store (d ∷ ds) = omega (arith, length-list_store ds)

  -- The items that list_channels() returns, followed by those that a series of calls on its iterator
  -- returns, are the descriptions of the stored channels, each once and in order, if they are asked for
  -- that many altogether; and exists() is true of a name exactly if one of them has it.
  pub list_channels-exists_channel :
      (name : Str) (count : ℕ) (calls : List Call) (ds : Store S C)
      → length ds ≤ count + requested calls
      → let (first, rest) = list_channels count ds in
        let fetched = first ++ fetch_rest rest calls in
        (fetched ≡ list_store ds) × (exists_channel name ds ≡ listed name fetched)
  unfolding list_channels exists_channel
  list_channels-exists_channel name count calls ds h =
      let enough : length (list_store ds) ≤ count + requested calls =
        omega (arith, length-list_store ds) in
      let all : (list count (list_store ds)).0 ++ fetch_rest ((list count (list_store ds)).1) calls
          ≡ list_store ds =
        list-fetch count (list_store ds) calls
        ∙ take-all (count + requested calls) (list_store ds) enough in
      (all, sym (ap (listed name) all ∙ listed-list_store name ds))
