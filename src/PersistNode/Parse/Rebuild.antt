-- ===== src/PersistNode/Parse/Rebuild.antt =====
-- The records of a tree, applied one after the other, build the tree again.
use omni_events.Prelude.{◌≡◌, refl, sym, ap, ◌∙◌, [], ◌∷◌, ◌++◌, Ordering}
use mathlib.Core.List.{append_assoc, append-nil}
use omni_events.Prelude.Text.{Str, compare_str}
use omni_events.PersistNode.{
  PersistNode, Children, node, leaf, branch, empty_node, set_child, find_child, or_empty,
}
use omni_events.PersistNode.Maps.{Attrs, set_attr}
use omni_events.PersistNode.Paths.{update_path}
use omni_events.PersistNode.Parse.Records.{attrs_effect}
use omni_events.PersistNode.Parse.Wellformed.{
  BelowAttrs, GoodAttrs, BelowChildren, Good, GoodChildren, addattr-word_of,
}

abbrev pub append_children : Children → Children → Children
append_children leaf ds = ds
append_children (branch k n cs) ds = branch k n (append_children cs ds)

append_children-leaf : (cs : Children) → append_children cs leaf ≡ cs
append_children-leaf leaf = refl
append_children-leaf (branch k n cs) = ap (branch k n) (append_children-leaf cs)

append_children_assoc :
    (cs ds es : Children)
    → append_children (append_children cs ds) es ≡ append_children cs (append_children ds es)
append_children_assoc leaf ds es = refl
append_children_assoc (branch k n cs) ds es = ap (branch k n) (append_children_assoc cs ds es)

-- What the records of a node do to the node at its path, and those of its children to the node.
abbrev mutual
  pub node_effect : PersistNode → PersistNode → PersistNode
  node_effect (node cs ats) old = children_effect cs (attrs_effect ats empty_node)

  pub children_effect : Children → PersistNode → PersistNode
  children_effect leaf m = m
  children_effect (branch k n cs) m = children_effect cs (update_path (node_effect n) k [] m)

-- Each key of the one map is below each key of the other.
abbrev AttrsUpTo : Str → Attrs → Type 0
AttrsUpTo key [] = Unit {0}
AttrsUpTo key ((k, v) ∷ ats) = (compare_str key k ≡ Ordering.gt) × AttrsUpTo key ats

abbrev AttrsBefore : Attrs → Attrs → Type 0
AttrsBefore acc [] = Unit {0}
AttrsBefore acc ((k, v) ∷ ats) = AttrsUpTo k acc × AttrsBefore acc ats

set_attr-last : (k v : Str) (acc : Attrs) → AttrsUpTo k acc → set_attr k v acc ≡ acc ++ (k, v) ∷ []
unfolding set_attr
set_attr-last k v [] h = refl
set_attr-last k v ((j, w) ∷ acc) h = rw (h.0, set_attr) (rw (set_attr-last k v acc h.1))

AttrsUpTo-snoc :
    (key k v : Str) (acc : Attrs)
    → AttrsUpTo key acc
    → compare_str key k ≡ Ordering.gt
    → AttrsUpTo key (acc ++ (k, v) ∷ [])
AttrsUpTo-snoc key k v [] h e = (e, tt)
AttrsUpTo-snoc key k v ((j, w) ∷ acc) h e = (h.0, AttrsUpTo-snoc key k v acc h.1 e)

AttrsBefore-snoc :
    (k v : Str) (acc ats : Attrs)
    → AttrsBefore acc ats
    → BelowAttrs k ats
    → AttrsBefore (acc ++ (k, v) ∷ []) ats
AttrsBefore-snoc k v acc [] h b = tt
AttrsBefore-snoc k v acc ((j, w) ∷ ats) h b =
    (AttrsUpTo-snoc j k v acc h.0 b.0, AttrsBefore-snoc k v acc ats h.1 b.1)

attrs_effect-append :
    (ats acc : Attrs) (cs : Children)
    → GoodAttrs ats
    → AttrsBefore acc ats
    → attrs_effect ats (node cs acc) ≡ node cs (acc ++ ats)
attrs_effect-append [] acc cs g b = ap (node cs) (sym (append-nil acc))
attrs_effect-append ((k, v) ∷ ats) acc cs g b = rw (addattr-word_of k v cs acc g.1) (
    rw (set_attr-last k v acc b.0) (
      attrs_effect-append ats (acc ++ (k, v) ∷ []) cs g.5 (AttrsBefore-snoc k v acc ats b.1 g.4)
      ∙ ap (node cs) (append_assoc acc ((k, v) ∷ []) ats)))

abbrev UpTo : Str → Children → Type 0
UpTo key leaf = Unit {0}
UpTo key (branch k n cs) = (compare_str key k ≡ Ordering.gt) × UpTo key cs

abbrev Before : Children → Children → Type 0
Before acc leaf = Unit {0}
Before acc (branch k n cs) = UpTo k acc × Before acc cs

set_child-last :
    (k : Str) (n : PersistNode) (acc : Children)
    → UpTo k acc
    → set_child k n acc ≡ append_children acc (branch k n leaf)
unfolding set_child
set_child-last k n leaf h = refl
set_child-last k n (branch j m acc) h = rw (h.0, set_child) (rw (set_child-last k n acc h.1))

UpTo-snoc :
    (key k : Str) (n : PersistNode) (acc : Children)
    → UpTo key acc
    → compare_str key k ≡ Ordering.gt
    → UpTo key (append_children acc (branch k n leaf))
UpTo-snoc key k n leaf h e = (e, tt)
UpTo-snoc key k n (branch j m acc) h e = (h.0, UpTo-snoc key k n acc h.1 e)

Before-snoc :
    (k : Str) (n : PersistNode) (acc cs : Children)
    → Before acc cs
    → BelowChildren k cs
    → Before (append_children acc (branch k n leaf)) cs
Before-snoc k n acc leaf h b = tt
Before-snoc k n acc (branch j m cs) h b =
    (UpTo-snoc j k n acc h.0 b.0, Before-snoc k n acc cs h.1 b.1)

AttrsBefore-nil : (ats : Attrs) → AttrsBefore [] ats
AttrsBefore-nil [] = tt
AttrsBefore-nil ((k, v) ∷ ats) = (tt, AttrsBefore-nil ats)

Before-leaf : (cs : Children) → Before leaf cs
Before-leaf leaf = tt
Before-leaf (branch k n cs) = (tt, Before-leaf cs)

mutual
  unfolding update_path

  rebuild : (n old : PersistNode) → Good n → node_effect n old ≡ n
  rebuild (node cs ats) old g =
      rw (attrs_effect-append ats [] leaf g.0 (AttrsBefore-nil ats))
        (rebuild_children cs leaf ats g.1 (Before-leaf cs))

  rebuild_children :
      (cs acc : Children) (ats : Attrs)
      → GoodChildren cs
      → Before acc cs
      → children_effect cs (node acc ats) ≡ node (append_children acc cs) ats
  rebuild_children leaf acc ats g b = ap (λ ds. node ds ats) (sym (append_children-leaf acc))
  rebuild_children (branch k n cs) acc ats g b = rw (rebuild n (or_empty (find_child k acc)) g.3) (
      rw (set_child-last k n acc b.0) (
        rebuild_children cs (append_children acc (branch k n leaf)) ats g.4
          (Before-snoc k n acc cs b.1 g.2)
        ∙ ap (λ ds. node ds ats) (append_children_assoc acc (branch k n leaf) cs)))

-- The records of the children of a root.
pub children_effect-root :
    (cs : Children) → GoodChildren cs → children_effect cs empty_node ≡ node cs []
children_effect-root cs g = rebuild_children cs leaf [] g (Before-leaf cs)
