-- ===== src/PersistNode/Ordered.antt =====
-- The order of the maps in a tree, at every depth, which the changes of a tree keep.
use omni_events.Prelude.{
  ◌≡◌, refl, ap, subst, ◌∙◌, Ordering, Option-cases, none, List, [], ◌∷◌, inl, inr,
}
use omni_events.Prelude.Text.{
  Str, compare_str, compare_str-of_eq, compare_str-cases, compare_str-gt_lt, compare_str-lt_gt,
  compare_str-lt_trans,
}
use omni_events.PersistNode.{
  PersistNode, Children, node, leaf, branch, find_child, set_child, erase_child, or_empty,
  split_name, delete_path, delnode, addattr,
}
use omni_events.PersistNode.Maps.{Attrs}
use omni_events.PersistNode.Parse.Records.{attrs_effect}
use omni_events.PersistNode.Parse.Wellformed.{BelowChildren, word_of}
use omni_events.PersistNode.Paths.{update_path, find_child-set_child, set_child-set_child}

abbrev mutual
  pub Ordered : PersistNode → Type 0
  Ordered (node cs ats) = OrderedChildren cs

  pub OrderedChildren : Children → Type 0
  OrderedChildren leaf = Unit {0}
  OrderedChildren (branch k n cs) = BelowChildren k cs × Ordered n × OrderedChildren cs

pub find_child-below : (k : Str) (cs : Children) → BelowChildren k cs → find_child k cs ≡ none
unfolding find_child
find_child-below k leaf b = refl
find_child-below k (branch j n cs) b =
    rw (compare_str-gt_lt j k b.0, find_child) (find_child-below k cs b.1)

Below-trans :
    (a b : Str) (cs : Children)
    → compare_str b a ≡ Ordering.gt
    → BelowChildren b cs
    → BelowChildren a cs
Below-trans a b leaf h k = tt
Below-trans a b (branch j n cs) h k = (
  compare_str-lt_gt a j
      (compare_str-lt_trans a b j (compare_str-gt_lt b a h) (compare_str-gt_lt j b k.0)),
  Below-trans a b cs h k.1,
)

Below-set_child :
    (a k : Str) (n : PersistNode) (cs : Children)
    → compare_str k a ≡ Ordering.gt
    → BelowChildren a cs
    → BelowChildren a (set_child k n cs)
unfolding set_child
Below-set_child a k n leaf h b = (h, tt)
Below-set_child a k n (branch j m cs) h b = elim (compare_str-cases k j) [
  | inl lt ↦ rw (lt, set_child) (h, b)
  | inr (inl e) ↦ rw (compare_str-of_eq k j e, set_child) b
  | inr (inr gt) ↦ rw (gt, set_child) (b.0, Below-set_child a k n cs h b.1)
]

pub set_child-Ordered :
    (k : Str) (n : PersistNode) (cs : Children)
    → Ordered n
    → OrderedChildren cs
    → OrderedChildren (set_child k n cs)
unfolding set_child
set_child-Ordered k n leaf o s = (tt, o, tt)
set_child-Ordered k n (branch j m cs) o s = elim (compare_str-cases k j) [
  | inl lt ↦
      let below = compare_str-lt_gt k j lt in
      rw (lt, set_child) ((below, Below-trans k j cs below s.0), o, s)
  | inr (inl e) ↦ rw (compare_str-of_eq k j e, set_child) (s.0, o, s.2)
  | inr (inr gt) ↦
      rw (gt, set_child) (Below-set_child j k n cs gt s.0, s.1, set_child-Ordered k n cs o s.2)
]

Below-erase_child :
    (a k : Str) (cs : Children) → BelowChildren a cs → BelowChildren a (erase_child k cs)
unfolding erase_child
Below-erase_child a k leaf b = tt
Below-erase_child a k (branch j m cs) b = elim (compare_str-cases k j) [
  | inl lt ↦ rw (lt, erase_child) (b.0, Below-erase_child a k cs b.1)
  | inr (inl e) ↦ rw (compare_str-of_eq k j e, erase_child) (b.1)
  | inr (inr gt) ↦ rw (gt, erase_child) (b.0, Below-erase_child a k cs b.1)
]

erase_child-Ordered :
    (k : Str) (cs : Children) → OrderedChildren cs → OrderedChildren (erase_child k cs)
unfolding erase_child
erase_child-Ordered k leaf s = tt
erase_child-Ordered k (branch j m cs) s =
    let kept : OrderedChildren (branch j m (erase_child k cs)) =
      (Below-erase_child j k cs s.0, s.1, erase_child-Ordered k cs s.2) in
    elim (compare_str-cases k j) [
      | inl lt ↦ rw (lt, erase_child) kept
      | inr (inl e) ↦ rw (compare_str-of_eq k j e, erase_child) (s.2)
      | inr (inr gt) ↦ rw (gt, erase_child) kept
    ]

find_child-Ordered :
    (k : Str) (cs : Children) → OrderedChildren cs → Ordered (or_empty (find_child k cs))
unfolding find_child
find_child-Ordered k leaf s = tt
find_child-Ordered k (branch j m cs) s = elim (compare_str-cases k j) [
  | inl lt ↦ rw (lt, find_child) (find_child-Ordered k cs s.2)
  | inr (inl e) ↦ rw (compare_str-of_eq k j e, find_child) (s.1)
  | inr (inr gt) ↦ rw (gt, find_child) (find_child-Ordered k cs s.2)
]

addattr-Ordered : (s : Str) (n : PersistNode) → Ordered n → Ordered (addattr s n)
unfolding addattr
addattr-Ordered s (node cs ats) o = o

pub attrs_effect-Ordered :
    (ats : Attrs) (n : PersistNode) → Ordered n → Ordered (attrs_effect ats n)
attrs_effect-Ordered [] n o = o
attrs_effect-Ordered ((k, v) ∷ ats) n o =
    attrs_effect-Ordered ats (addattr (word_of k v) n) (addattr-Ordered (word_of k v) n o)

pub update_path-Ordered :
    (f : PersistNode → PersistNode) (key : Str) (rest : List Str) (n : PersistNode)
    → ((m : PersistNode) → Ordered m → Ordered (f m))
    → Ordered n
    → Ordered (update_path f key rest n)
unfolding update_path
update_path-Ordered f key [] (node cs ats) h o =
    let old = or_empty (find_child key cs) in
    set_child-Ordered key (f old) cs (h old (find_child-Ordered key cs o)) o
update_path-Ordered f key (next ∷ rest) (node cs ats) h o =
    let old = or_empty (find_child key cs) in
    set_child-Ordered key (update_path f next rest old) cs
      (update_path-Ordered f next rest old h (find_child-Ordered key cs o)) o

delete_path-Ordered :
    (key : Str) (rest : List Str) (n : PersistNode) → Ordered n → Ordered (delete_path key rest n)
unfolding delete_path
delete_path-Ordered key [] (node cs ats) o = erase_child-Ordered key cs o
delete_path-Ordered key (next ∷ rest) (node cs ats) o = elim (Option-cases (find_child key cs)) [
  | inl none' ↦ rw (none', delete_path) o
  | inr (n, found) ↦
      let below : Ordered n =
        subst (λ m. Ordered (or_empty m)) found (find_child-Ordered key cs o) in
      rw (found, delete_path)
        (set_child-Ordered key (delete_path next rest n) cs (delete_path-Ordered next rest n below)
          o)
]

erase_child-below : (k : Str) (cs : Children) → BelowChildren k cs → erase_child k cs ≡ cs
unfolding erase_child
erase_child-below k leaf b = refl
erase_child-below k (branch j n cs) b =
    rw (compare_str-gt_lt j k b.0, erase_child) (ap (branch j n) (erase_child-below k cs b.1))

erase_child-again :
    (k : Str) (cs : Children)
    → OrderedChildren cs
    → erase_child k (erase_child k cs) ≡ erase_child k cs
unfolding erase_child
erase_child-again k leaf s = refl
erase_child-again k (branch j m cs) s =
    let again = ap (branch j m) (erase_child-again k cs s.2) in
    elim (compare_str-cases k j) [
      | inl lt ↦ rw (lt, erase_child) (rw (lt, erase_child) again)
      | inr (inl e) ↦
          rw (compare_str-of_eq k j e, erase_child)
            (ap (λ x. erase_child x cs) e ∙ erase_child-below j cs s.0)
      | inr (inr gt) ↦ rw (gt, erase_child) (rw (gt, erase_child) again)
    ]

-- Erasing again what was erased changes nothing.
delete_path-again :
    (key : Str) (rest : List Str) (n : PersistNode)
    → Ordered n
    → delete_path key rest (delete_path key rest n) ≡ delete_path key rest n
unfolding delete_path
delete_path-again key [] (node cs ats) o = ap (λ c. node c ats) (erase_child-again key cs o)
delete_path-again key (next ∷ rest) (node cs ats) o = elim (Option-cases (find_child key cs)) [
  | inl none' ↦ rw (none', delete_path) (rw (none', delete_path) refl)
  | inr (n, found) ↦
      let below : Ordered n =
        subst (λ m. Ordered (or_empty m)) found (find_child-Ordered key cs o) in
      let less = delete_path next rest n in
      rw (found, delete_path)
        (rw (find_child-set_child key less cs, delete_path)
          (rw (set_child-set_child key (delete_path next rest less) less cs)
            (rw (delete_path-again next rest n below))))
]

pub delnode-again :
    (name : Str) (n : PersistNode) → Ordered n → delnode name (delnode name n) ≡ delnode name n
unfolding delnode
delnode-again name n o = delete_path-again (split_name name).0 (split_name name).1 n o

pub delnode-Ordered : (name : Str) (n : PersistNode) → Ordered n → Ordered (delnode name n)
unfolding delnode
delnode-Ordered name n o = delete_path-Ordered (split_name name).0 (split_name name).1 n o
