-- ===== src/Journal/Settled.antt =====
-- The tree that the lines of a journal make, and the second erasure at the end of its text.
mod Tests
use omni_events.Prelude.{◌≡◌, refl, none, some, Option, List, [], ◌∷◌, ◌∙◌, ap}
use omni_events.Prelude.Text.{Str}
use omni_events.PersistNode.{PersistNode, empty_node, delnode, split_name}
use omni_events.PersistNode.Ordered.{
  Ordered, attrs_effect-Ordered, update_path-Ordered, delnode-Ordered, delnode-again,
}
use omni_events.PersistNode.Parse.Records.{attrs_effect}
use omni_events.PersistNode.Text.{parse}
use omni_events.Journal.{
  Line, put, block, drop, blank, journal_text, apply_line, apply_lines, apply_last,
}
use omni_events.Journal.Replay.{GoodLines, parse-journal}

apply_line-Ordered : (l : Line) (root : PersistNode) → Ordered root → Ordered (apply_line l root)
unfolding apply_line
apply_line-Ordered (put name ats) root o =
    update_path-Ordered (λ _. attrs_effect ats empty_node) (split_name name).0 (split_name name).1
      root (λ m p. attrs_effect-Ordered ats empty_node tt) o
apply_line-Ordered (block name ats) root o =
    update_path-Ordered (λ _. attrs_effect ats empty_node) (split_name name).0 (split_name name).1
      root (λ m p. attrs_effect-Ordered ats empty_node tt) o
apply_line-Ordered (drop name) root o = delnode-Ordered name root o
apply_line-Ordered blank root o = o

-- The name that the last line erased is no longer there.
abbrev IsErased : Option Str → PersistNode → Type 0
IsErased none root = Unit {0}
IsErased (some name) root = delnode name root ≡ root

apply_last_lem :
    (last : Option Str) (ls : List Line) (root : PersistNode)
    → Ordered root
    → IsErased last root
    → apply_last last ls (apply_lines ls root) ≡ apply_lines ls root
unfolding apply_last apply_lines apply_line
apply_last_lem none [] root o e = refl
apply_last_lem (some name) [] root o e = e
apply_last_lem last (put name ats ∷ ls) root o e =
    apply_last_lem none ls (apply_line (put name ats) root)
      (apply_line-Ordered (put name ats) root o) tt
apply_last_lem last (block name ats ∷ ls) root o e =
    apply_last_lem none ls (apply_line (block name ats) root)
      (apply_line-Ordered (block name ats) root o) tt
apply_last_lem last (drop name ∷ ls) root o e =
    apply_last_lem (some name) ls (delnode name root) (delnode-Ordered name root o)
      (delnode-again name root o)
apply_last_lem last (blank ∷ ls) root o e = apply_last_lem last ls root o e

-- A journal whose names, keys and values hold no separators of the format, with nodes of one line and of
-- several, erased nodes and empty lines, is read back as the tree that its lines make one after the
-- other: the second erasure at the end of the text changes nothing.
pub parse-journal_text :
    (ls : List Line) → GoodLines ls → parse (journal_text ls []) ≡ some (apply_lines ls empty_node)
parse-journal_text ls g = parse-journal ls g ∙ ap some (apply_last_lem none ls empty_node tt tt)
