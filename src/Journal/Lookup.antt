-- ===== src/Journal/Lookup.antt =====
-- The children of a node in the tree, and what the lines of a journal do to them.
use omni_events.Prelude.{◌≡◌, ◌≢◌, refl, ap, ◌∙◌, List, [], ◌∷◌, ◌++◌, Option-cases, inl, inr}
use omni_events.Prelude.Text.{Str}
use omni_events.PersistNode.{
  PersistNode, Children, node, children, find_child, set_child, erase_child, or_empty, delete_path,
  empty_node,
}
use omni_events.PersistNode.Paths.{update_path, find_child-set_child, find_child-set_other}

-- The children of the node at a path, none where the path ends before: what a chain of child() calls
-- finds that stops at a null pointer.
abbrev pub children_at : Str → List Str → PersistNode → Children
children_at key [] (node cs ats) = children (or_empty (find_child key cs))
children_at key (next ∷ rest) (node cs ats) = children_at next rest (or_empty (find_child key cs))

children-update_path :
    (f : PersistNode → PersistNode) (k : Str) (n : PersistNode)
    → children (update_path f k [] n)
      ≡ set_child k (f (or_empty (find_child k (children n)))) (children n)
unfolding update_path
children-update_path f k (node cs ats) = refl

pub children_at-update_path :
    (f : PersistNode → PersistNode) (key : Str) (rest : List Str) (k : Str) (n : PersistNode)
    → children_at key rest (update_path f key (rest ++ k ∷ []) n)
      ≡ set_child k (f (or_empty (find_child k (children_at key rest n)))) (children_at key rest n)
unfolding update_path
children_at-update_path f key [] k (node cs ats) =
    rw
      (find_child-set_child key (update_path f k [] (or_empty (find_child key cs))) cs, children_at)
      (children-update_path f k (or_empty (find_child key cs)))
children_at-update_path f key (next ∷ rest) k (node cs ats) =
    let old = or_empty (find_child key cs) in
    rw (find_child-set_child key (update_path f next (rest ++ k ∷ []) old) cs, children_at)
      (children_at-update_path f next rest k old)

children_at-update_other :
    (f : PersistNode → PersistNode) (a b : Str) (rest more : List Str) (n : PersistNode)
    → a ≢ b
    → children_at a rest (update_path f b more n) ≡ children_at a rest n
unfolding update_path
children_at-update_other f a b [] [] (node cs ats) h =
    ap (λ o. children (or_empty o)) (find_child-set_other a b (f (or_empty (find_child b cs))) cs h)
children_at-update_other f a b [] (y ∷ more) (node cs ats) h =
    ap (λ o. children (or_empty o))
      (find_child-set_other a b (update_path f y more (or_empty (find_child b cs))) cs h)
children_at-update_other f a b (x ∷ rest) [] (node cs ats) h =
    ap (λ o. children_at x rest (or_empty o))
      (find_child-set_other a b (f (or_empty (find_child b cs))) cs h)
children_at-update_other f a b (x ∷ rest) (y ∷ more) (node cs ats) h =
    ap (λ o. children_at x rest (or_empty o))
      (find_child-set_other a b (update_path f y more (or_empty (find_child b cs))) cs h)

-- A change behind another key leaves the children at a path as they are.
pub children_at-update_apart :
    (f : PersistNode → PersistNode) (key : Str) (path : List Str) (a b : Str) (rest more : List Str)
    (n : PersistNode)
    → a ≢ b
    → children_at key (path ++ a ∷ rest) (update_path f key (path ++ b ∷ more) n)
      ≡ children_at key (path ++ a ∷ rest) n
unfolding update_path
children_at-update_apart f key [] a b rest more (node cs ats) h =
    let old = or_empty (find_child key cs) in
    ap (λ o. children_at a rest (or_empty o))
      (find_child-set_child key (update_path f b more old) cs)
    ∙ children_at-update_other f a b rest more old h
children_at-update_apart f key (next ∷ path) a b rest more (node cs ats) h =
    let old = or_empty (find_child key cs) in
    ap (λ o. children_at next (path ++ a ∷ rest) (or_empty o))
      (find_child-set_child key (update_path f next (path ++ b ∷ more) old) cs)
    ∙ children_at-update_apart f next path a b rest more old h

children-delete_path :
    (k : Str) (n : PersistNode) → children (delete_path k [] n) ≡ erase_child k (children n)
unfolding delete_path
children-delete_path k (node cs ats) = refl

children_at-leaf :
    (key : Str) (rest : List Str) (k : Str)
    → children_at key rest empty_node ≡ erase_child k (children_at key rest empty_node)
unfolding find_child erase_child
children_at-leaf key [] k = refl
children_at-leaf key (next ∷ rest) k = children_at-leaf next rest k

pub children_at-delete_path :
    (key : Str) (rest : List Str) (k : Str) (n : PersistNode)
    → children_at key rest (delete_path key (rest ++ k ∷ []) n)
      ≡ erase_child k (children_at key rest n)
unfolding delete_path erase_child
children_at-delete_path key [] k (node cs ats) = elim (Option-cases (find_child key cs)) [
  | inl e ↦ rw (e, delete_path, children_at) (ap (λ o. children (or_empty o)) e)
  | inr (n, e) ↦
      rw (e, delete_path, children_at)
        (ap (λ o. children (or_empty o)) (find_child-set_child key (delete_path k [] n) cs)
          ∙ children-delete_path k n)
]
children_at-delete_path key (next ∷ rest) k (node cs ats) =
    elim (Option-cases (find_child key cs)) [
      | inl e ↦
          rw (e, delete_path, children_at)
            (ap (λ o. children_at next rest (or_empty o)) e ∙ children_at-leaf next rest k)
      | inr (n, e) ↦
          rw (e, delete_path, children_at)
            (ap (λ o. children_at next rest (or_empty o))
                (find_child-set_child key (delete_path next (rest ++ k ∷ []) n) cs)
              ∙ children_at-delete_path next rest k n)
    ]
