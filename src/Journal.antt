-- ===== src/Journal.antt =====
-- The text that the server appends to its database file while it runs: one line for each record
-- that a proxy writes or erases (Proxy::basicOutput() and Proxy::eraseKey() in src/ProxyManager.cc,
-- ProxyPushConsumer_i::Connection::output() in src/ProxyPushConsumer.cc), and the empty line that
-- omniEventsLog::output() in src/omniEventsLog.cc writes behind a checkpoint. A channel writes itself
-- by PersistNode::output(), EventChannel_i::output() in src/EventChannel.cc.
pub mod Append
pub mod Lookup
pub mod Replay
pub mod Settled
use omni_events.Prelude.{ℕ, List, [], ◌∷◌, ◌++◌, Option, none, some}
use omni_events.Prelude.Text.{Str, codes}
use omni_events.PersistNode.{PersistNode, empty_node, delnode, split_name}
use omni_events.PersistNode.Maps.{Attrs}
use omni_events.PersistNode.Paths.{update_path}
use omni_events.PersistNode.Text.{output_attrs}
use omni_events.PersistNode.Parse.Records.{attrs_effect}

-- A record: a node with its attributes in one line, the same in a line for each attribute as
-- PersistNode::output() writes it, a node that is erased, or the empty line behind a checkpoint.
pub data Line : Type 0 where
  put : Str → Attrs → Line
  block : Str → Attrs → Line
  drop : Str → Line
  blank : Line

-- The attributes of a line, in front of the text that follows it.
unfoldable pub line_attrs : Attrs → Str → Str
line_attrs [] rest = codes ";;\n" ++ rest
line_attrs ((k, v) ∷ ats) rest = k ++ b'=' ∷ (v ++ b' ' ∷ line_attrs ats rest)

unfoldable pub line_text : Line → Str → Str
line_text (put name ats) rest = name ++ b' ' ∷ line_attrs ats rest
line_text (block name ats) rest = name ++ 10 ∷ output_attrs ats rest
line_text (drop name) rest = b'-' ∷ (name ++ 10 ∷ rest)
line_text blank rest = 10 ∷ rest

unfoldable pub journal_text : List Line → Str → Str
journal_text [] rest = rest
journal_text (l ∷ ls) rest = line_text l (journal_text ls rest)

-- What a line does to the tree, and what the lines do, one after the other.
unfoldable pub apply_line : Line → PersistNode → PersistNode
apply_line (put name ats) root =
    let (key, path) = split_name name in
    update_path (λ _. attrs_effect ats empty_node) key path root
apply_line (block name ats) root =
    let (key, path) = split_name name in
    update_path (λ _. attrs_effect ats empty_node) key path root
apply_line (drop name) root = delnode name root
apply_line blank root = root

unfoldable pub apply_lines : List Line → PersistNode → PersistNode
apply_lines [] root = root
apply_lines (l ∷ ls) root = apply_lines ls (apply_line l root)

-- The last line, if it erases a node: the reader erases it again at the end of the text.
unfoldable pub apply_last : Option Str → List Line → PersistNode → PersistNode
apply_last none [] root = root
apply_last (some name) [] root = delnode name root
apply_last last (put name ats ∷ ls) root = apply_last none ls root
apply_last last (block name ats ∷ ls) root = apply_last none ls root
apply_last last (drop name ∷ ls) root = apply_last (some name) ls root
apply_last last (blank ∷ ls) root = apply_last last ls root
