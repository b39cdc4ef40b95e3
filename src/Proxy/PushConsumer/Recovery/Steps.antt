-- ===== src/Proxy/PushConsumer/Recovery/Steps.antt =====
-- What one more line of a ProxyPushConsumer does to the connections that the log gives.
use omni_events.Prelude.{◌≡◌, sym, ap, subst, ◌∙◌, none, List, [], ◌∷◌, ◌++◌}
use omni_events.Prelude.Text.{Str, codes}
use omni_events.PersistNode.{
  PersistNode, Children, empty_node, set_child, erase_child, delnode, delete_path,
}
use omni_events.PersistNode.Maps.{Attrs}
use omni_events.PersistNode.Paths.{update_path}
use omni_events.PersistNode.Parse.Tokens.{Spaceless}
use omni_events.PersistNode.Parse.Records.{attrs_effect}
use omni_events.Journal.{Line, put, drop, apply_line, apply_lines, apply_last}
use omni_events.Journal.Append.{apply_lines-snoc, apply_last-put, apply_last-drop, GoodLines-snoc}
use omni_events.Journal.Lookup.{children_at, children_at-update_path, children_at-delete_path}
use omni_events.Journal.Replay.{GoodLines}
use omni_events.Proxy.PushConsumer.{key_text}
use omni_events.Proxy.PushConsumer.Table.{Connection, Connections, erase, Sorted, find-erase}
use omni_events.Proxy.PushConsumer.Recovery.Lines.{
  IsPiece, proxy_path, attrs_of, line_of, node_of, tree_of, split_name-key_text,
  attrs_effect-attrs_of, line_of-GoodLine, key_text-Spaceless, tree_of-erase, erase_child-absent,
}
use omni_events.Proxy.PushConsumer.Recovery.Owned.{Mine}

-- The proxy's part of the tree.
abbrev pub part : Str → PersistNode → Children
part channel root = children_at (codes "ecf") (proxy_path channel) root

apply_line-put :
    (channel oid : Str) (ats : Attrs) (root : PersistNode)
    → IsPiece channel
    → IsPiece oid
    → part channel (apply_line (put (key_text channel oid) ats) root)
      ≡ set_child oid (attrs_effect ats empty_node) (part channel root)
unfolding apply_line
apply_line-put channel oid ats root h k =
    let split = split_name-key_text channel oid h.1 k.1 in
    ap (λ p. part channel (update_path (λ _. attrs_effect ats empty_node) p.0 p.1 root)) split
    ∙ children_at-update_path (λ _. attrs_effect ats empty_node) (codes "ecf") (proxy_path channel)
        oid root

delnode-key_text :
    (channel oid : Str) (root : PersistNode)
    → IsPiece channel
    → IsPiece oid
    → part channel (delnode (key_text channel oid) root) ≡ erase_child oid (part channel root)
unfolding delnode
delnode-key_text channel oid root h k =
    let split = split_name-key_text channel oid h.1 k.1 in
    ap (λ p. part channel (delete_path p.0 p.1 root)) split
    ∙ children_at-delete_path (codes "ecf") (proxy_path channel) oid root

apply_line-drop :
    (channel oid : Str) (root : PersistNode)
    → IsPiece channel
    → IsPiece oid
    → part channel (apply_line (drop (key_text channel oid)) root)
      ≡ erase_child oid (part channel root)
unfolding apply_line
apply_line-drop channel oid root h k = delnode-key_text channel oid root h k

-- The connections that the lines give, with the last line done once and twice.
abbrev pub Gives : Str → List Line → Connections → Type 0
Gives channel ls cs =
    GoodLines ls
    × (part channel (apply_lines ls empty_node) ≡ tree_of cs)
    × (part channel (apply_last none ls (apply_lines ls empty_node)) ≡ tree_of cs)

pub line_of-Mine :
    (channel oid : Str) (c : Connection)
    → Mine channel oid c
    → line_of c ≡ put (key_text channel oid) (attrs_of c)
line_of-Mine channel oid c m =
    ap (λ x. put (key_text x (c.oidstr)) (attrs_of c)) m.0
    ∙ ap (λ x. put (key_text channel x) (attrs_of c)) m.1

pub put-Gives :
    (channel oid : Str) (c : Connection) (ls : List Line) (cs ds : Connections)
    → IsPiece channel
    → Mine channel oid c
    → Gives channel ls cs
    → tree_of ds ≡ set_child oid (node_of c) (tree_of cs)
    → Gives channel (ls ++ line_of c ∷ []) ds
put-Gives channel oid c ls cs ds h m g e =
    let root = apply_lines ls empty_node in
    let good =
      line_of-GoodLine c (subst (λ x. Spaceless x) (sym m.0) h.0)
        (subst (λ x. Spaceless x) (sym m.1) m.3.0) m.2 in
    let done : part channel (apply_lines (ls ++ line_of c ∷ []) empty_node) ≡ tree_of ds =
      ap (part channel) (apply_lines-snoc ls (line_of c) empty_node)
      ∙ ap (λ l. part channel (apply_line l root)) (line_of-Mine channel oid c m)
      ∙ apply_line-put channel oid (attrs_of c) root h m.3
      ∙ ap (λ n. set_child oid n (part channel root)) (attrs_effect-attrs_of c)
      ∙ ap (set_child oid (node_of c)) g.1
      ∙ sym e in
    (
      GoodLines-snoc ls (line_of c) g.0 good,
      done,
      ap (part channel) (
            apply_last-put none ls (key_text (c.channel_name) (c.oidstr)) (attrs_of c)
              (apply_lines (ls ++ line_of c ∷ []) empty_node))
          ∙ done,
    )

pub drop-Gives :
    (channel oid : Str) (ls : List Line) (cs : Connections)
    → IsPiece channel
    → IsPiece oid
    → Sorted cs
    → Gives channel ls cs
    → Gives channel (ls ++ drop (key_text channel oid) ∷ []) (erase oid cs)
drop-Gives channel oid ls cs h k s g =
    let l = drop (key_text channel oid) in
    let root = apply_lines ls empty_node in
    let more = apply_lines (ls ++ l ∷ []) empty_node in
    let done : part channel more ≡ tree_of (erase oid cs) =
      ap (part channel) (apply_lines-snoc ls l empty_node)
      ∙ apply_line-drop channel oid root h k
      ∙ ap (erase_child oid) g.1
      ∙ sym (tree_of-erase oid cs) in
    (
      GoodLines-snoc ls l g.0 (key_text-Spaceless channel oid h.0 k.0),
      done,
      ap (part channel) (apply_last-drop none ls (key_text channel oid) more)
          ∙ delnode-key_text channel oid more h k
          ∙ ap (erase_child oid) done
          ∙ erase_child-absent oid (erase oid cs) (find-erase oid cs s),
    )
