-- ===== src/PersistNode.antt =====
-- The tree of persistent nodes and its text form: class PersistNode, src/PersistNode.h and
-- src/PersistNode.cc.
--
-- A std::map is the list of its entries in the order of their keys. The pointer to the node that
-- readnode() fills is the path of that node in the tree. The characters of the stream are a list
-- of codes; `operator>>` of std::istream skips white space, reads a word, and fails at the end of
-- the stream, where it leaves the string as it is.
pub mod Longs
pub mod Maps
pub mod Ordered
pub mod Paths
pub mod Text
pub mod Parse
use Maps.{Attrs, set_attr, find_attr}
use omni_events.Prelude.{
  ℕ, ◌==◌, Bool, true, false, Option, none, some, List, [], ◌∷◌, ◌++◌, if◌then◌else◌, Ordering,
}
use omni_events.Prelude.Text.{Str, codes, compare_str}

mutual
  pub data PersistNode : Type 0 where
    node : Children → Attrs → PersistNode

  pub data Children : Type 0 where
    leaf : Children
    branch : Str → PersistNode → Children → Children

abbrev pub children : PersistNode → Children
children (node cs ats) = cs

abbrev pub attrs : PersistNode → Attrs
attrs (node cs ats) = ats

abbrev pub empty_node : PersistNode
empty_node = node leaf []

-- `_child.find(key)`, `_child[key]=n` and `_child.erase(key)`.
unfoldable pub find_child : Str → Children → Option PersistNode
find_child key leaf = none
find_child key (branch k n cs) = elim (compare_str key k) [
  | Ordering.eq ↦ some n
  | _ ↦ find_child key cs
]

unfoldable pub set_child : Str → PersistNode → Children → Children
set_child key n leaf = branch key n leaf
set_child key n (branch k m cs) = elim (compare_str key k) [
  | Ordering.lt ↦ branch key n (branch k m cs)
  | Ordering.eq ↦ branch k n cs
  | Ordering.gt ↦ branch k m (set_child key n cs)
]

unfoldable pub erase_child : Str → Children → Children
erase_child key leaf = leaf
erase_child key (branch k n cs) = elim (compare_str key k) [
  | Ordering.eq ↦ cs
  | _ ↦ branch k n (erase_child key cs)
]

-- A name up to its first slash, and the names behind it: the pieces that addnode() and delnode()
-- come to one after the other. A name has one piece at least.
unfoldable pub split_name : Str → Str × List Str
split_name [] = ([], [])
split_name (c ∷ s) =
    let (piece, rest) = split_name s in if c == b'/' then ([], piece ∷ rest) else (c ∷ piece, rest)

abbrev pub or_empty : Option PersistNode → PersistNode
or_empty none = empty_node
or_empty (some n) = n

-- addnode() by the pieces of the name.
unfoldable pub add_path : Str → List Str → PersistNode → PersistNode
add_path key [] (node cs ats) = node (set_child key empty_node cs) ats
add_path key (next ∷ rest) (node cs ats) =
    node (set_child key (add_path next rest (or_empty (find_child key cs))) cs) ats

unfoldable pub delete_path : Str → List Str → PersistNode → PersistNode
delete_path key [] (node cs ats) = node (erase_child key cs) ats
delete_path key (next ∷ rest) (node cs ats) = elim (find_child key cs) [
  | none ↦ node cs ats
  | some n ↦ node (set_child key (delete_path next rest n) cs) ats
]

unfoldable pub addnode : Str → PersistNode → PersistNode
unfolding split_name add_path
addnode name n = let (key, rest) = split_name name in add_path key rest n

unfoldable pub delnode : Str → PersistNode → PersistNode
unfolding split_name delete_path
delnode name n = let (key, rest) = split_name name in delete_path key rest n

-- What a member function does to the node that addnode() returned.
unfoldable pub at_path : (PersistNode → PersistNode) → Str → List Str → PersistNode → PersistNode
at_path f key [] (node cs ats) = elim (find_child key cs) [
  | none ↦ node cs ats
  | some n ↦ node (set_child key (f n) cs) ats
]
at_path f key (next ∷ rest) (node cs ats) = elim (find_child key cs) [
  | none ↦ node cs ats
  | some n ↦ node (set_child key (at_path f next rest n) cs) ats
]

-- The text before and behind the first `=`.
unfoldable pub split_attr : Str → Str × Str
split_attr [] = ([], [])
split_attr (c ∷ s) =
    let (key, value) = split_attr s in if c == b'=' then ([], s) else (c ∷ key, value)

unfoldable pub addattr : Str → PersistNode → PersistNode
unfolding split_attr
addattr keyvalue (node cs ats) =
    let (key, value) = split_attr keyvalue in node cs (set_attr key value ats)

unfoldable pub has_attr : Str → PersistNode → Bool
has_attr key n = elim (find_attr key (attrs n)) [ none ↦ false | some v ↦ true ]

unfoldable pub attr_string : Str → Str → PersistNode → Str
attr_string key fallback n = elim (find_attr key (attrs n)) [ none ↦ fallback | some v ↦ v ]

unfoldable pub child : Str → PersistNode → Option PersistNode
child key n = find_child key (children n)
