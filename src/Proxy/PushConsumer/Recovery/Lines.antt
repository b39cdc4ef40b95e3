-- ===== src/Proxy/PushConsumer/Recovery/Lines.antt =====
-- The lines that a ProxyPushConsumer writes to the log, and the tree that they come to.
use omni_events.Prelude.{
  ◌≡◌, refl, sym, ap, ◌∙◌, Bool, true, false, none, some, List, [], ◌∷◌, ◌++◌, inl, inr, arith,
}
use omni_events.Prelude.Text.{Str, codes, compare_str, compare_str-of_eq, compare_str-cases}
use omni_events.PersistNode.{
  PersistNode, Children, node, leaf, branch, empty_node, set_child, erase_child, split_name,
  addattr, split_attr,
}
use omni_events.PersistNode.Maps.{Attrs, set_attr}
use omni_events.PersistNode.Parse.Tokens.{Spaceless, Spaceless-append}
use omni_events.PersistNode.Parse.Wellformed.{
  Lacks, GoodAttrs, GoodAttrs-GoodWords, split_name-Lacks,
}
use omni_events.PersistNode.Parse.Records.{attrs_effect}
use omni_events.Journal.{Line, put, drop, line_attrs, line_text}
use omni_events.Journal.Replay.{GoodLine}
use omni_events.Proxy.PushConsumer.{key_text, output_connection, erase_text}
use omni_events.Proxy.PushConsumer.Table.{
  Connection, Connections, no_connection, entry, find, insert, change, erase, Sorted, Below-find,
  Below-trans, find-here, find-below, find-above,
}

-- A text that can be a piece of a name.
abbrev pub IsPiece : Str → Type 0
IsPiece s = Spaceless s × Lacks b'/' s

abbrev pub proxy_path : Str → List Str
proxy_path channel = channel ∷ codes "SupplierAdmin" ∷ codes "ProxyPushConsumer" ∷ []

pub split_name-slash :
    (w t : Str)
    → Lacks b'/' w
    → split_name (w ++ b'/' ∷ t) ≡ (w, (split_name t).0 ∷ (split_name t).1)
unfolding split_name
split_name-slash [] t h = refl
split_name-slash (c ∷ w) t h = rw (split_name-slash w t h.1) (rw h.0 refl)

pub split_name-key_text :
    (channel oid : Str)
    → Lacks b'/' channel
    → Lacks b'/' oid
    → split_name (key_text channel oid) ≡ (codes "ecf", proxy_path channel ++ oid ∷ [])
unfolding split_name
split_name-key_text channel oid h k =
    rw (split_name-slash channel (codes "SupplierAdmin/ProxyPushConsumer/" ++ oid) h)
      (rw (split_name-Lacks oid k) refl)

abbrev pub proxy_attrs : Bool → Attrs
proxy_attrs true = (codes "proxy", codes "1") ∷ []
proxy_attrs false = []

abbrev pub attrs_of : Connection → Attrs
attrs_of c = (codes "IOR", c.target_sior) ∷ proxy_attrs (c.target_is_proxy)

abbrev pub line_of : Connection → Line
line_of c = put (key_text (c.channel_name) (c.oidstr)) (attrs_of c)

output_explicit :
    (channel oid sior : Str) (proxy : Bool)
    → output_connection (record {
      channel_name = channel;
      oidstr = oid;
      target_sior = sior;
      target_is_proxy = proxy;
    })
      ≡ line_text
          (line_of (record {
            channel_name = channel;
            oidstr = oid;
            target_sior = sior;
            target_is_proxy = proxy;
          }))
          []
unfolding output_connection line_text line_attrs
output_explicit channel oid sior true = refl
output_explicit channel oid sior false = refl

pub output_connection-line : (c : Connection) → output_connection c ≡ line_text (line_of c) []
output_connection-line c =
    output_explicit (c.channel_name) (c.oidstr) (c.target_sior) (c.target_is_proxy)

pub erase_text-line :
    (channel oid : Str) → erase_text channel oid ≡ line_text (drop (key_text channel oid)) []
unfolding erase_text line_text
erase_text-line channel oid = refl

pub key_text-Spaceless :
    (channel oid : Str) → Spaceless channel → Spaceless oid → Spaceless (key_text channel oid)
key_text-Spaceless channel oid h k =
    let slashes : Spaceless (codes "/SupplierAdmin/ProxyPushConsumer/") = ground arith in
    Spaceless-append (codes "ecf/") (channel ++ (codes "/SupplierAdmin/ProxyPushConsumer/" ++ oid))
      (ground arith)
      (Spaceless-append channel (codes "/SupplierAdmin/ProxyPushConsumer/" ++ oid) h
        (Spaceless-append (codes "/SupplierAdmin/ProxyPushConsumer/") oid slashes k))

-- The connections as the tree has them.
abbrev pub node_of : Connection → PersistNode
node_of c = node leaf (attrs_of c)

abbrev pub tree_of : Connections → Children
tree_of no_connection = leaf
tree_of (entry k c cs) = branch k (node_of c) (tree_of cs)

pub tree_of-insert :
    (k : Str) (c : Connection) (cs : Connections)
    → find k cs ≡ none
    → tree_of (insert k c cs) ≡ set_child k (node_of c) (tree_of cs)
unfolding insert set_child find
tree_of-insert k c no_connection h = refl
tree_of-insert k c (entry j d cs) h = elim (compare_str-cases k j) [
  | inl lt ↦ rw (lt, insert) (rw (lt, set_child) refl)
  | inr (inl e) ↦ let p = find-here k j d cs e in cc
  | inr (inr gt) ↦
      rw (gt, insert)
        (rw (gt, set_child)
          (ap (branch j (node_of d)) (tree_of-insert k c cs (sym (find-above k j d cs gt) ∙ h))))
]

pub tree_of-change :
    (k : Str) (c d : Connection) (cs : Connections)
    → Sorted cs
    → find k cs ≡ some d
    → tree_of (change k c cs) ≡ set_child k (node_of c) (tree_of cs)
unfolding change set_child find
tree_of-change k c d no_connection h f = cc
tree_of-change k c d (entry j b cs) h f = elim (compare_str-cases k j) [
  | inl lt ↦
      let p = Below-find k cs (Below-trans k j cs lt h.0) in let q = find-below k j b cs lt in cc
  | inr (inl e) ↦ let q = compare_str-of_eq k j e in rw (q, change) (rw (q, set_child) refl)
  | inr (inr gt) ↦
      rw (gt, change)
        (rw (gt, set_child)
          (ap (branch j (node_of b))
            (tree_of-change k c d cs h.1 (sym (find-above k j b cs gt) ∙ f))))
]

pub tree_of-erase : (k : Str) (cs : Connections) → tree_of (erase k cs) ≡ erase_child k (tree_of cs)
unfolding erase erase_child
tree_of-erase k no_connection = refl
tree_of-erase k (entry j d cs) = elim (compare_str-cases k j) [
  | inl lt ↦ rw (lt, erase) (rw (lt, erase_child) (ap (branch j (node_of d)) (tree_of-erase k cs)))
  | inr (inl e) ↦ let q = compare_str-of_eq k j e in rw (q, erase) (rw (q, erase_child) refl)
  | inr (inr gt) ↦
      rw (gt, erase) (rw (gt, erase_child) (ap (branch j (node_of d)) (tree_of-erase k cs)))
]

pub erase_child-absent :
    (k : Str) (cs : Connections) → find k cs ≡ none → erase_child k (tree_of cs) ≡ tree_of cs
unfolding erase_child find
erase_child-absent k no_connection h = refl
erase_child-absent k (entry j d cs) h = elim (compare_str-cases k j) [
  | inl lt ↦
      rw (lt, erase_child)
        (ap (branch j (node_of d)) (erase_child-absent k cs (sym (find-below k j d cs lt) ∙ h)))
  | inr (inl e) ↦ let p = find-here k j d cs e in cc
  | inr (inr gt) ↦
      rw (gt, erase_child)
        (ap (branch j (node_of d)) (erase_child-absent k cs (sym (find-above k j d cs gt) ∙ h)))
]

attrs_explicit :
    (channel oid sior : Str) (proxy : Bool)
    → let c : Connection = record {
      channel_name = channel;
      oidstr = oid;
      target_sior = sior;
      target_is_proxy = proxy;
    } in
      attrs_effect (attrs_of c) empty_node ≡ node_of c
unfolding addattr split_attr set_attr compare_str
attrs_explicit channel oid sior true = refl
attrs_explicit channel oid sior false = refl

pub attrs_effect-attrs_of : (c : Connection) → attrs_effect (attrs_of c) empty_node ≡ node_of c
attrs_effect-attrs_of c =
    attrs_explicit (c.channel_name) (c.oidstr) (c.target_sior) (c.target_is_proxy)

pub attrs-GoodAttrs :
    (sior : Str) (proxy : Bool)
    → Spaceless sior
    → GoodAttrs ((codes "IOR", sior) ∷ proxy_attrs proxy)
unfolding compare_str
attrs-GoodAttrs sior true h =
    let ior : Spaceless (codes "IOR") = (refl, (refl, (refl, tt))) in
    let proxy : Spaceless (codes "proxy") = (refl, (refl, (refl, (refl, (refl, tt))))) in
    let ior_key : Lacks b'=' (codes "IOR") = (refl, (refl, (refl, tt))) in
    let proxy_key : Lacks b'=' (codes "proxy") = (refl, (refl, (refl, (refl, (refl, tt))))) in
    (ior, ior_key, refl, h, (refl, tt), (proxy, proxy_key, refl, (refl, tt), tt, tt))
attrs-GoodAttrs sior false h =
    let ior : Spaceless (codes "IOR") = (refl, (refl, (refl, tt))) in
    let ior_key : Lacks b'=' (codes "IOR") = (refl, (refl, (refl, tt))) in
    (ior, ior_key, refl, h, tt, tt)

pub line_of-GoodLine :
    (c : Connection)
    → Spaceless (c.channel_name)
    → Spaceless (c.oidstr)
    → Spaceless (c.target_sior)
    → GoodLine (line_of c)
line_of-GoodLine c h k l = (
  (refl, refl, refl),
  key_text-Spaceless (c.channel_name) (c.oidstr) h k,
  GoodAttrs-GoodWords (attrs_of c) (attrs-GoodAttrs (c.target_sior) (c.target_is_proxy) l),
)
