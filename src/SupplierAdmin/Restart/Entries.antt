-- ===== src/SupplierAdmin/Restart/Entries.antt =====
-- The nodes of a SupplierAdmin's proxies in a database: an entry is an object id and its attributes.
use omni_events.Prelude.{◌≡◌, ◌≢◌, refl, ap, ◌∙◌, List, [], ◌∷◌, ◌++◌, arith}
use omni_events.Prelude.Text.{Str, codes}
use omni_events.PersistNode.{
  PersistNode, Children, node, children, child, find_child, set_child, split_name, or_empty,
  empty_node,
}
use omni_events.PersistNode.Maps.{Attrs}
use omni_events.PersistNode.Ordered.{OrderedChildren, set_child-Ordered, attrs_effect-Ordered}
use omni_events.PersistNode.Paths.{update_path}
use omni_events.PersistNode.Parse.Tokens.{Spaceless, Spaceless-append}
use omni_events.PersistNode.Parse.Wellformed.{GoodAttrs, GoodAttrs-GoodWords, split_name-Lacks}
use omni_events.PersistNode.Parse.Records.{attrs_effect}
use omni_events.Journal.{Line, put, apply_line, apply_lines}
use omni_events.Journal.Append.{AllPuts}
use omni_events.Journal.Lookup.{children_at, children_at-update_path, children_at-update_apart}
use omni_events.Journal.Replay.{GoodLines}
use omni_events.Proxy.PushConsumer.Recovery.Lines.{IsPiece, split_name-slash}

abbrev pub Entries : Type 0
Entries = List (Str × Attrs)

-- The name of a proxy of a kind, and the path of its parent.
abbrev pub key : Str → Str → Str → Str
key kind channel oid =
    codes "ecf/" ++ (channel ++ (codes "/SupplierAdmin/" ++ (kind ++ (codes "/" ++ oid))))

abbrev pub path_of : Str → Str → List Str
path_of kind channel = channel ∷ codes "SupplierAdmin" ∷ kind ∷ []

abbrev pub part_of : Str → Str → PersistNode → Children
part_of kind channel root = children_at (codes "ecf") (path_of kind channel) root

abbrev pub lines_of : Str → Str → Entries → List Line
lines_of kind channel [] = []
lines_of kind channel ((oid, ats) ∷ es) = put (key kind channel oid) ats ∷ lines_of kind channel es

abbrev pub put_all : Entries → Children → Children
put_all [] cs = cs
put_all ((oid, ats) ∷ es) cs = put_all es (set_child oid (attrs_effect ats empty_node) cs)

abbrev pub GoodEntries : Entries → Type 0
GoodEntries [] = Unit {0}
GoodEntries ((oid, ats) ∷ es) = IsPiece oid × GoodAttrs ats × GoodEntries es

-- The node that a chain of child() comes to, an empty one where the chain ends before.
abbrev pub node_at : Str → List Str → PersistNode → PersistNode
node_at k [] n = or_empty (child k n)
node_at k (next ∷ rest) n = node_at next rest (or_empty (child k n))

pub children_at-node_at :
    (k : Str) (path : List Str) (last : Str) (n : PersistNode)
    → children_at k (path ++ last ∷ []) n ≡ children (or_empty (child last (node_at k path n)))
unfolding child
children_at-node_at k [] last (node cs ats) = at_last (or_empty (find_child k cs))
  where
    at_last :
        (n : PersistNode)
        → children_at last [] n ≡ children (or_empty (find_child last (children n)))
    at_last (node ds bs) = refl
children_at-node_at k (next ∷ path) last (node cs ats) =
    children_at-node_at next path last (or_empty (find_child k cs))

pub AllPuts-lines_of : (kind channel : Str) (es : Entries) → AllPuts (lines_of kind channel es)
AllPuts-lines_of kind channel [] = tt
AllPuts-lines_of kind channel ((oid, ats) ∷ es) = AllPuts-lines_of kind channel es

module _ (kind channel : Str) (k : IsPiece kind) (h : IsPiece channel) where
  split_name-key :
      (oid : Str)
      → IsPiece oid
      → split_name (key kind channel oid) ≡ (codes "ecf", path_of kind channel ++ oid ∷ [])
  unfolding split_name
  split_name-key oid o =
      rw (split_name-slash channel (codes "SupplierAdmin/" ++ (kind ++ b'/' ∷ oid)) (h.1))
        (rw (split_name-slash kind oid (k.1)) (rw (split_name-Lacks oid (o.1)) refl))

  key-Spaceless : (oid : Str) → IsPiece oid → Spaceless (key kind channel oid)
  key-Spaceless oid o =
      let behind =
        Spaceless-append (codes "/SupplierAdmin/") (kind ++ b'/' ∷ oid) (ground arith)
          (Spaceless-append kind (b'/' ∷ oid) (k.0) (refl, o.0)) in
      Spaceless-append (codes "ecf/") (channel ++ (codes "/SupplierAdmin/" ++ (kind ++ b'/' ∷ oid)))
        (ground arith)
        (Spaceless-append channel (codes "/SupplierAdmin/" ++ (kind ++ b'/' ∷ oid)) (h.0) behind)

  pub lines_of-GoodLines : (es : Entries) → GoodEntries es → GoodLines (lines_of kind channel es)
  lines_of-GoodLines [] g = tt
  lines_of-GoodLines ((oid, ats) ∷ es) g = (
    ((refl, refl, refl), key-Spaceless oid g.0, GoodAttrs-GoodWords ats g.1),
    lines_of-GoodLines es g.2,
  )

  -- The lines put their entries into the part of their kind, and leave other parts as they are.
  pub part_of-lines_of :
      (es : Entries) (root : PersistNode)
      → GoodEntries es
      → part_of kind channel (apply_lines (lines_of kind channel es) root)
        ≡ put_all es (part_of kind channel root)
  unfolding apply_lines apply_line
  part_of-lines_of [] root g = refl
  part_of-lines_of ((oid, ats) ∷ es) root g =
      part_of-lines_of es (apply_line (put (key kind channel oid) ats) root) g.2
      ∙ ap (put_all es) (
          ap
            (λ p.
              part_of kind channel (update_path (λ _. attrs_effect ats empty_node) p.0 p.1 root))
            (split_name-key oid g.0)
          ∙ children_at-update_path (λ _. attrs_effect ats empty_node) (codes "ecf")
              (path_of kind channel) oid root)

  pub part_of-other :
      (other : Str) (es : Entries) (root : PersistNode)
      → other ≢ kind
      → GoodEntries es
      → part_of other channel (apply_lines (lines_of kind channel es) root)
        ≡ part_of other channel root
  unfolding apply_lines apply_line
  part_of-other other [] root n g = refl
  part_of-other other ((oid, ats) ∷ es) root n g =
      part_of-other other es (apply_line (put (key kind channel oid) ats) root) n g.2
      ∙ ap
          (λ p. part_of other channel (update_path (λ _. attrs_effect ats empty_node) p.0 p.1 root))
          (split_name-key oid g.0)
      ∙ children_at-update_apart (λ _. attrs_effect ats empty_node) (codes "ecf")
          (channel ∷ codes "SupplierAdmin" ∷ []) other kind [] (oid ∷ []) root n

-- The children stay in the order of their keys.
pub put_all-Ordered :
    (es : Entries) (cs : Children) → OrderedChildren cs → OrderedChildren (put_all es cs)
put_all-Ordered [] cs o = o
put_all-Ordered ((oid, ats) ∷ es) cs o =
    let n = attrs_effect ats empty_node in
    put_all-Ordered es (set_child oid n cs)
      (set_child-Ordered oid n cs (attrs_effect-Ordered ats empty_node tt) o)
