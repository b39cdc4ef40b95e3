-- ===== src/ConsumerAdmin.antt =====
-- The ConsumerAdmin of a channel: src/ConsumerAdmin.cc.
--
-- Its two proxy managers are created when a client first asks for one, or when the server restarts
-- with proxies of theirs; they are behind the interface `Managers`. A manager's threads, which send()
-- pauses while it appends, read the queue with readers of their own. The number of a TCKind and the
-- kind are the ORB's, `kind_of`.
mod Filtered
mod Arrival
use omni_events.Prelude.{
  ℕ, ◌%◌, ◌^◌, Bool, true, false, Option, none, some, List, [], ◌∷◌, ◌++◌, if◌then◌else◌,
}
use omni_events.Prelude.Text.{Str, codes}
use omni_events.PersistNode.{
  PersistNode, Children, leaf, branch, children, child, has_attr, attr_string,
}
use omni_events.PersistNode.Longs.{attr_long}
use omni_events.Proxy.{Result, ok, throw, M, ◌>>=◌, ◌>>◌}
use omni_events.Queue.{EventQueue, new_queue, set_filter, append}
use omni_events.Queue.Filter.{AnyType, TcKind, Filter, by_tc_kind, by_repository_id, keep}

-- The managers of the push suppliers `P` and of the pull suppliers `L`.
pub record Managers (P L : Type 0) : Type 0 where
  pub new_push_suppliers : P
  pub new_pull_suppliers : L
  pub reincarnate_push : Children → P → P
  pub reincarnate_pull : Children → L → L
  -- disconnect(), which an exception may end: one pull supplier that is not connected does.
  pub disconnect_push : P → Result (Unit {0}) × P
  pub disconnect_pull : L → Result (Unit {0}) × L
  -- What output() writes. An exception of the push suppliers' is caught, and is the text that they
  -- had written before.
  pub output_push : P → Str
  pub output_pull : L → Str

pub record ConsumerAdmin (P L E : Type 0) : Type 0 where
  pub queue : EventQueue E
  pub push_supplier : Option P
  pub pull_supplier : Option L

-- MaxQueueLength, an unsigned int of 32 bits.
abbrev pub max_queue_length : PersistNode → ℕ
max_queue_length properties = attr_long (codes "MaxQueueLength") 1023 properties % 2 ^ 32

-- The filter that the constructor chooses by the properties of the channel.
unfoldable pub chosen_filter : (ℕ → TcKind) → PersistNode → Option Filter
chosen_filter kind_of properties =
    if has_attr (codes "FilterId") properties
    then some (by_repository_id (attr_string (codes "FilterId") [] properties))
    else (if has_attr (codes "FilterKind") properties
        then some (by_tc_kind (kind_of (attr_long (codes "FilterKind") 0 properties)))
        else none)

-- The nodes of a kind of proxies; `none` where there is no such node, or it has no children.
abbrev pub proxies : Str → PersistNode → Option Children
proxies key n = elim (child key n) [
  | none ↦ none
  | some p ↦ elim (children p) [ leaf ↦ none | branch k c cs ↦ some (branch k c cs) ]
]

unfoldable pub append_all : {E : Type 0} → EventQueue E → List E → EventQueue E
append_all q [] = q
append_all q (e ∷ es) = append_all (append q e) es

module _ {P L E : Type 0} where
  -- The constructor; `none` is the failed assertion of the queue's.
  unfoldable pub new_consumer_admin :
      AnyType E → (ℕ → TcKind) → PersistNode → Option (ConsumerAdmin P L E)
  unfolding chosen_filter
  new_consumer_admin any kind_of properties = elim (new_queue (max_queue_length properties)) [
    | none ↦ none
    | some q ↦
        let queue = elim (chosen_filter kind_of properties) as (λ _. EventQueue E) [
          | none ↦ q
          | some f ↦ set_filter (keep any f) q
        ] in
        some (record { queue = queue; push_supplier = none; pull_supplier = none })
  ]

  -- send() of one event, and of the events of a cycle.
  unfoldable pub send : E → ConsumerAdmin P L E → ConsumerAdmin P L E
  send e a = record a { queue = append a.queue e }

  unfoldable pub send_all : List E → ConsumerAdmin P L E → ConsumerAdmin P L E
  send_all es a = record a { queue = append_all a.queue es }

  -- A manager that is not there is created; the object that createObject() returns is the ORB's.
  unfoldable pub obtain_push_supplier : Managers P L → ConsumerAdmin P L E → ConsumerAdmin P L E
  obtain_push_supplier m a = record a {
    push_supplier = elim a.push_supplier [ none ↦ some (m.new_push_suppliers) | some p ↦ some p ];
  }

  unfoldable pub obtain_pull_supplier : Managers P L → ConsumerAdmin P L E → ConsumerAdmin P L E
  obtain_pull_supplier m a = record a {
    pull_supplier = elim a.pull_supplier [ none ↦ some (m.new_pull_suppliers) | some l ↦ some l ];
  }

  disconnect_pulls : Managers P L → M (ConsumerAdmin P L E) (Unit {0})
  disconnect_pulls m a = elim a.pull_supplier [
    | none ↦ (ok tt, a)
    | some l ↦ let (r, k) = m.disconnect_pull l in (r, record a { pull_supplier = some k })
  ]

  disconnect_pushes : Managers P L → M (ConsumerAdmin P L E) (Unit {0})
  disconnect_pushes m a = elim a.push_supplier [
    | none ↦ (ok tt, a)
    | some p ↦ let (r, k) = m.disconnect_push p in (r, record a { push_supplier = some k })
  ]

  unfoldable pub disconnect : Managers P L → M (ConsumerAdmin P L E) (Unit {0})
  unfolding disconnect_pushes disconnect_pulls
  disconnect m = disconnect_pushes m >> disconnect_pulls m

  unfoldable pub reincarnate :
      Managers P L → PersistNode → ConsumerAdmin P L E → ConsumerAdmin P L E
  reincarnate m n a = record a {
    push_supplier = elim (proxies (codes "ProxyPushSupplier") n) [
      | none ↦ a.push_supplier
      | some cs ↦ some (m.reincarnate_push cs m.new_push_suppliers)
    ];
    pull_supplier = elim (proxies (codes "ProxyPullSupplier") n) [
      | none ↦ a.pull_supplier
      | some cs ↦ some (m.reincarnate_pull cs m.new_pull_suppliers)
    ];
  }

  unfoldable pub output : Managers P L → ConsumerAdmin P L E → Str
  output m a =
      let push = elim a.push_supplier as (λ _. Str) [ none ↦ [] | some p ↦ m.output_push p ] in
      let pull = elim a.pull_supplier as (λ _. Str) [ none ↦ [] | some l ↦ m.output_pull l ] in
      push ++ pull
