-- ===== src/PersistNode/Paths.antt =====
-- Changing the node at a path: what addnode() and the pointer that it returns come to.
use omni_events.Prelude.{◌≡◌, ◌≢◌, refl, sym, ◌∙◌, some, List, [], ◌∷◌, ◌++◌, arith, inl, inr}
use omni_events.Prelude.Text.{Str, compare_str_refl, compare_str-of_eq, compare_str-cases}
use omni_events.PersistNode.{
  PersistNode, Children, node, leaf, branch, empty_node, find_child, set_child, add_path, at_path,
  or_empty,
}

pub find_child-set_child :
    (key : Str) (n : PersistNode) (cs : Children) → find_child key (set_child key n cs) ≡ some n
unfolding find_child set_child
find_child-set_child key n leaf = rw (compare_str_refl key, find_child)
find_child-set_child key n (branch k m cs) =
    ground (arith, compare_str_refl key, find_child-set_child key n cs)

pub set_child-set_child :
    (key : Str) (n m : PersistNode) (cs : Children)
    → set_child key n (set_child key m cs) ≡ set_child key n cs
unfolding set_child
set_child-set_child key n m leaf = rw (compare_str_refl key, set_child)
set_child-set_child key n m (branch k x cs) =
    ground (arith, compare_str_refl key, set_child-set_child key n m cs)

pub find_child-skip :
    (a k : Str) (m : PersistNode) (cs : Children)
    → a ≢ k
    → find_child a (branch k m cs) ≡ find_child a cs
unfolding find_child
find_child-skip a k m cs h = elim (compare_str-cases a k) [
  | inl lt ↦ rw (lt, find_child) refl
  | inr (inl e) ↦ elim (h e) [ ]
  | inr (inr gt) ↦ rw (gt, find_child) refl
]

pub find_child-here :
    (a k : Str) (m : PersistNode) (cs : Children) → a ≡ k → find_child a (branch k m cs) ≡ some m
unfolding find_child
find_child-here a k m cs e = rw (compare_str-of_eq a k e, find_child) refl

pub find_child-set_other :
    (a b : Str) (n : PersistNode) (cs : Children)
    → a ≢ b
    → find_child a (set_child b n cs) ≡ find_child a cs
unfolding set_child find_child
find_child-set_other a b n leaf h = find_child-skip a b n leaf h
find_child-set_other a b n (branch k m cs) h = elim (compare_str-cases b k) [
  | inl lt ↦ rw (lt, set_child) (find_child-skip a b n (branch k m cs) h)
  | inr (inl e) ↦
      let apart : a ≢ k = λ q. h (q ∙ sym e) in
      rw (compare_str-of_eq b k e, set_child)
        (find_child-skip a k n cs apart ∙ sym (find_child-skip a k m cs apart))
  | inr (inr gt) ↦
      rw (gt, set_child)
        (elim (compare_str-cases a k) [
          | inr (inl e) ↦
              find_child-here a k m (set_child b n cs) e ∙ sym (find_child-here a k m cs e)
          | inl lt ↦ rw (lt, find_child) (find_child-set_other a b n cs h)
          | inr (inr g) ↦ rw (g, find_child) (find_child-set_other a b n cs h)
        ])
]

-- Change the node at a path, which is made where it is missing.
unfoldable pub update_path :
    (PersistNode → PersistNode) → Str → List Str → PersistNode → PersistNode
update_path f key [] (node cs ats) = node (set_child key (f (or_empty (find_child key cs))) cs) ats
update_path f key (next ∷ rest) (node cs ats) =
    node (set_child key (update_path f next rest (or_empty (find_child key cs))) cs) ats

pub add_path-update_path :
    (key : Str) (rest : List Str) (n : PersistNode)
    → add_path key rest n ≡ update_path (λ _. empty_node) key rest n
unfolding add_path update_path
add_path-update_path key [] (node cs ats) = refl
add_path-update_path key (next ∷ rest) (node cs ats) =
    rw (add_path-update_path next rest (or_empty (find_child key cs)))

pub at_path-update_path :
    (f g : PersistNode → PersistNode) (key : Str) (rest : List Str) (n : PersistNode)
    → at_path f key rest (update_path g key rest n) ≡ update_path (λ m. f (g m)) key rest n
unfolding at_path update_path
at_path-update_path f g key [] (node cs ats) =
    let m = g (or_empty (find_child key cs)) in
    rw (find_child-set_child key m cs, at_path) (rw (set_child-set_child key (f m) m cs))
at_path-update_path f g key (next ∷ rest) (node cs ats) =
    let old = or_empty (find_child key cs) in
    let m = update_path g next rest old in
    rw (find_child-set_child key m cs, at_path)
      (rw (set_child-set_child key (at_path f next rest m) m cs)
        (rw (at_path-update_path f g next rest old)))

pub update_path-update_path :
    (f g : PersistNode → PersistNode) (key : Str) (rest : List Str) (n : PersistNode)
    → update_path f key rest (update_path g key rest n) ≡ update_path (λ m. f (g m)) key rest n
unfolding update_path
update_path-update_path f g key [] (node cs ats) =
    let m = g (or_empty (find_child key cs)) in
    rw (find_child-set_child key m cs) (rw (set_child-set_child key (f m) m cs))
update_path-update_path f g key (next ∷ rest) (node cs ats) =
    let old = or_empty (find_child key cs) in
    let m = update_path g next rest old in
    rw (find_child-set_child key m cs) (
      rw (set_child-set_child key (update_path f next rest m) m cs)
        (rw (update_path-update_path f g next rest old)))

-- A path behind a path.
pub update_path-append :
    (f : PersistNode → PersistNode) (key : Str) (rest : List Str) (k : Str) (n : PersistNode)
    → update_path f key (rest ++ k ∷ []) n ≡ update_path (update_path f k []) key rest n
unfolding update_path
update_path-append f key [] k (node cs ats) = refl
update_path-append f key (next ∷ rest) k (node cs ats) =
    rw (update_path-append f next rest k (or_empty (find_child key cs)))
