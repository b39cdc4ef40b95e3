-- ===== src/Proxy/PushConsumer/Table.antt =====
-- The connections of a ProxyPushConsumer, a std::map from object ids: the list of its entries in the
-- order of their ids.
use omni_events.Prelude.{◌≡◌, refl, Bool, Option, none, some, Ordering, sym, subst, inl, inr}
use omni_events.Prelude.Text.{
  Str, compare_str, compare_str-of_eq, compare_str-lt_trans, compare_str-gt_lt, compare_str-cases,
}

-- `_target_sior` is the target in the form that object_to_string() gives it, which stands for it.
pub record Connection : Type 0 where
  pub channel_name : Str
  pub oidstr : Str
  pub target_sior : Str
  pub target_is_proxy : Bool

pub data Connections : Type 0 where
  no_connection : Connections
  entry : Str → Connection → Connections → Connections

unfoldable pub find : Str → Connections → Option Connection
find key no_connection = none
find key (entry k c cs) = elim (compare_str key k) [ Ordering.eq ↦ some c | _ ↦ find key cs ]

-- insert(), which leaves an entry that is there, and `[key]=`, which replaces it.
unfoldable pub insert : Str → Connection → Connections → Connections
insert key c no_connection = entry key c no_connection
insert key c (entry k d cs) = elim (compare_str key k) [
  | Ordering.lt ↦ entry key c (entry k d cs)
  | Ordering.eq ↦ entry k d cs
  | Ordering.gt ↦ entry k d (insert key c cs)
]

-- A change to the object that an entry points to.
unfoldable pub change : Str → Connection → Connections → Connections
change key c no_connection = no_connection
change key c (entry k d cs) = elim (compare_str key k) [
  | Ordering.eq ↦ entry k c cs
  | _ ↦ entry k d (change key c cs)
]

unfoldable pub erase : Str → Connections → Connections
erase key no_connection = no_connection
erase key (entry k c cs) = elim (compare_str key k) [
  | Ordering.eq ↦ cs
  | _ ↦ entry k c (erase key cs)
]

-- The key is below all keys; the entries are in order.
abbrev pub Below : Str → Connections → Type 0
Below key no_connection = Unit {0}
Below key (entry k c cs) = (compare_str key k ≡ Ordering.lt) × Below key cs

abbrev pub Sorted : Connections → Type 0
Sorted no_connection = Unit {0}
Sorted (entry k c cs) = Below k cs × Sorted cs

pub find-below :
    (k j : Str) (d : Connection) (cs : Connections)
    → compare_str k j ≡ Ordering.lt
    → find k (entry j d cs) ≡ find k cs
unfolding find
find-below k j d cs h = rw (h, find) refl

pub find-above :
    (k j : Str) (d : Connection) (cs : Connections)
    → compare_str k j ≡ Ordering.gt
    → find k (entry j d cs) ≡ find k cs
unfolding find
find-above k j d cs h = rw (h, find) refl

pub find-here :
    (k j : Str) (d : Connection) (cs : Connections) → k ≡ j → find k (entry j d cs) ≡ some d
unfolding find
find-here k j d cs e = rw (compare_str-of_eq k j e, find) refl

pub Below-find : (key : Str) (cs : Connections) → Below key cs → find key cs ≡ none
unfolding find
Below-find key no_connection h = refl
Below-find key (entry k c cs) h = rw (h.0, find) (Below-find key cs h.1)

pub Below-trans :
    (a b : Str) (cs : Connections) → compare_str a b ≡ Ordering.lt → Below b cs → Below a cs
Below-trans a b no_connection h k = tt
Below-trans a b (entry j c cs) h k = (compare_str-lt_trans a b j h k.0, Below-trans a b cs h k.1)

Below-insert :
    (key k : Str) (c : Connection) (cs : Connections)
    → compare_str key k ≡ Ordering.lt
    → Below key cs
    → Below key (insert k c cs)
unfolding insert
Below-insert key k c no_connection h b = (h, tt)
Below-insert key k c (entry j d cs) h b = elim (compare_str-cases k j) [
  | inl lt ↦ rw (lt, insert) (h, b)
  | inr (inl e) ↦ rw (compare_str-of_eq k j e, insert) b
  | inr (inr gt) ↦ rw (gt, insert) (b.0, Below-insert key k c cs h b.1)
]

pub insert-Sorted :
    (k : Str) (c : Connection) (cs : Connections) → Sorted cs → Sorted (insert k c cs)
unfolding insert
insert-Sorted k c no_connection h = (tt, tt)
insert-Sorted k c (entry j d cs) h = elim (compare_str-cases k j) [
  | inl lt ↦ rw (lt, insert) ((lt, Below-trans k j cs lt h.0), h)
  | inr (inl e) ↦ rw (compare_str-of_eq k j e, insert) h
  | inr (inr gt) ↦
      rw (gt, insert)
        (Below-insert j k c cs (compare_str-gt_lt k j gt) h.0, insert-Sorted k c cs h.1)
]

Below-change :
    (key k : Str) (c : Connection) (cs : Connections) → Below key cs → Below key (change k c cs)
unfolding change
Below-change key k c no_connection b = tt
Below-change key k c (entry j d cs) b = elim (compare_str-cases k j) [
  | inl lt ↦ rw (lt, change) (b.0, Below-change key k c cs b.1)
  | inr (inl e) ↦ rw (compare_str-of_eq k j e, change) b
  | inr (inr gt) ↦ rw (gt, change) (b.0, Below-change key k c cs b.1)
]

pub change-Sorted :
    (k : Str) (c : Connection) (cs : Connections) → Sorted cs → Sorted (change k c cs)
unfolding change
change-Sorted k c no_connection h = tt
change-Sorted k c (entry j d cs) h = elim (compare_str-cases k j) [
  | inl lt ↦ rw (lt, change) (Below-change j k c cs h.0, change-Sorted k c cs h.1)
  | inr (inl e) ↦ rw (compare_str-of_eq k j e, change) h
  | inr (inr gt) ↦ rw (gt, change) (Below-change j k c cs h.0, change-Sorted k c cs h.1)
]

Below-erase : (key k : Str) (cs : Connections) → Below key cs → Below key (erase k cs)
unfolding erase
Below-erase key k no_connection b = tt
Below-erase key k (entry j d cs) b = elim (compare_str-cases k j) [
  | inl lt ↦ rw (lt, erase) (b.0, Below-erase key k cs b.1)
  | inr (inl e) ↦ rw (compare_str-of_eq k j e, erase) b.1
  | inr (inr gt) ↦ rw (gt, erase) (b.0, Below-erase key k cs b.1)
]

pub erase-Sorted : (k : Str) (cs : Connections) → Sorted cs → Sorted (erase k cs)
unfolding erase
erase-Sorted k no_connection h = tt
erase-Sorted k (entry j d cs) h = elim (compare_str-cases k j) [
  | inl lt ↦ rw (lt, erase) (Below-erase j k cs h.0, erase-Sorted k cs h.1)
  | inr (inl e) ↦ rw (compare_str-of_eq k j e, erase) h.1
  | inr (inr gt) ↦ rw (gt, erase) (Below-erase j k cs h.0, erase-Sorted k cs h.1)
]

pub find-erase : (k : Str) (cs : Connections) → Sorted cs → find k (erase k cs) ≡ none
unfolding erase find
find-erase k no_connection h = refl
find-erase k (entry j d cs) h = elim (compare_str-cases k j) [
  | inl lt ↦ rw (lt, erase) (rw (lt, find) (find-erase k cs h.1))
  | inr (inl e) ↦
      rw (compare_str-of_eq k j e, erase)
        (subst (λ x. find x cs ≡ none) (sym e) (Below-find j cs h.0))
  | inr (inr gt) ↦ rw (gt, erase) (rw (gt, find) (find-erase k cs h.1))
]
