-- ===== src/PersistNode/Parse/Records.antt =====
-- How one record of the text, a name with its attributes, is read back.
use omni_events.Prelude.{
  ℕ, zero, suc, ◌≤◌, ◌<◌, ◌≡◌, refl, sym, ap, true, false, none, some, List, [], ◌∷◌, ◌++◌, arith,
  length, length-append,
}
use mathlib.Core.List.{append_assoc}
use omni_events.Prelude.Text.{Str, codes, str_eq}
use omni_events.PersistNode.{PersistNode, empty_node, addnode, addattr, split_name}
use omni_events.PersistNode.Maps.{Attrs}
use omni_events.PersistNode.Paths.{update_path, add_path-update_path, at_path-update_path}
use omni_events.PersistNode.Text.{Stream, use_token, readnode, output_attrs, rounds}
use omni_events.PersistNode.Parse.Tokens.{Blank, Spaceless, IsWord, readtoken-word}
use omni_events.PersistNode.Parse.Wellformed.{
  GoodAttrs, GoodWords, GoodAttrs-GoodWords, StartsName, word_of, word_of-IsWord, word_of-not_end,
}

abbrev pub stream : Str → Stream
stream s = record { rest = s; good = true }

abbrev pub attrs_effect : Attrs → PersistNode → PersistNode
attrs_effect [] n = n
attrs_effect ((k, v) ∷ ats) n = attrs_effect ats (addattr (word_of k v) n)

attr_text : (k v tail : Str) → k ++ b'=' ∷ (v ++ 10 ∷ tail) ≡ word_of k v ++ 10 ∷ tail
attr_text k v tail = sym (append_assoc k (b'=' ∷ v) (10 ∷ tail))

pub length-output_attrs : (ats : Attrs) (rest : Str) → length ats ≤ length (output_attrs ats rest)
unfolding output_attrs
length-output_attrs [] rest = omega arith
length-output_attrs ((k, v) ∷ ats) rest = omega (
  arith,
  length-output_attrs ats rest,
  length-append k (b'=' ∷ (v ++ 10 ∷ output_attrs ats rest)),
  length-append v (10 ∷ output_attrs ats rest),
)

-- The attributes go to the node that the pointer names, and the record's end ends readnode().
readnode-attrs :
    (fuel : ℕ) (ats : Attrs) (rest : Str) (f : PersistNode → PersistNode) (key : Str)
    (path : List Str) (root : PersistNode) (tok : Str)
    → length ats < fuel
    → GoodWords ats
    → readnode fuel
        (stream (10 ∷ output_attrs ats rest))
        (update_path f key path root)
        (some (key, path))
        tok
      ≡ some (record {
        found = true;
        stream = stream (10 ∷ rest);
        root = update_path (λ m. attrs_effect ats (f m)) key path root;
      })
unfolding readnode output_attrs use_token str_eq update_path
readnode-attrs zero ats rest f key path root tok h g = elim h [ ]
readnode-attrs (suc fuel) [] rest f key path root tok h g = rw (
  readtoken-word _ (10 ∷ 32 ∷ []) (codes ";;") 10 rest tok (refl, (refl, tt))
      ((refl, (refl, tt)), refl) refl,
  readnode,
)
readnode-attrs (suc fuel) ((k, v) ∷ ats) rest f key path root tok h g =
    rw
      (ap
        (λ s.
          readnode (suc fuel) (stream (10 ∷ 32 ∷ s)) (update_path f key path root)
            (some (key, path)) tok)
        (attr_text k v (output_attrs ats rest)))
      (rw
        (
          readtoken-word _ (10 ∷ 32 ∷ []) (word_of k v) 10 (output_attrs ats rest) tok
              (refl, (refl, tt)) (word_of-IsWord k v g.0 g.1 g.2) refl,
          readnode,
        )
        (rw (word_of-not_end k v) (
          rw (at_path-update_path (addattr (word_of k v)) f key path root) (
            readnode-attrs fuel ats rest (λ m. addattr (word_of k v) (f m)) key path root
              (word_of k v) (omega arith) g.3))))

-- What a name must be to be read as the name of the node at a path.
pub record NameOf (name key : Str) (path : List Str) : Type 0 where
  pub starts : StartsName name
  pub spaceless : Spaceless name
  pub pieces : split_name name ≡ (key, path)

use_token-name :
    (name key : Str) (path : List Str) (root : PersistNode)
    → NameOf name key path
    → use_token none name root ≡ (update_path (λ _. empty_node) key path root, some (key, path))
unfolding use_token addnode
use_token-name [] key path root h = absurd (h.starts)
use_token-name (c ∷ name) key path root h =
    rw (h.starts.0) (rw (h.pieces) (rw (add_path-update_path key path root)))

pub name-not_end : (name : Str) → StartsName name → str_eq name (codes ";;") ≡ false
unfolding str_eq
name-not_end [] h = refl
name-not_end (c ∷ s) h = let n = h.2 in ground arith

pub name-IsWord : (name : Str) → StartsName name → Spaceless name → IsWord name
name-IsWord [] h s = absurd h
name-IsWord (c ∷ name) h s = (s, h.1)

pub readnode-name :
    (fuel : ℕ) (lead name key : Str) (path : List Str) (ats : Attrs) (rest : Str)
    (root : PersistNode) (tok : Str)
    → Blank lead
    → NameOf name key path
    → GoodWords ats
    → length ats < fuel
    → readnode (suc fuel) (stream (lead ++ (name ++ 10 ∷ output_attrs ats rest))) root none tok
      ≡ some (record {
        found = true;
        stream = stream (10 ∷ rest);
        root = update_path (λ _. attrs_effect ats empty_node) key path root;
      })
unfolding readnode
readnode-name fuel lead name key path ats rest root tok b h g lt =
    rw
      (
        readtoken-word _ lead name 10 (output_attrs ats rest) tok b
            (name-IsWord name (h.starts) (h.spaceless)) refl,
        readnode,
      )
      (rw (name-not_end name (h.starts)) (
        rw (use_token-name name key path root h)
          (readnode-attrs fuel ats rest (λ _. empty_node) key path root name lt g)))

-- A record makes the node at its name's path anew, with its attributes.
pub readnode-record :
    (lead name key : Str) (path : List Str) (ats : Attrs) (rest : Str) (root : PersistNode)
    → Blank lead
    → NameOf name key path
    → GoodAttrs ats
    → let is = stream (lead ++ (name ++ 10 ∷ output_attrs ats rest)) in
      readnode (rounds is) is root none []
      ≡ some (record {
        found = true;
        stream = stream (10 ∷ rest);
        root = update_path (λ _. attrs_effect ats empty_node) key path root;
      })
readnode-record lead name key path ats rest root b h g =
    let text = output_attrs ats rest in
    readnode-name (suc (length (lead ++ (name ++ 10 ∷ text)))) lead name key path ats rest root [] b
      h (GoodAttrs-GoodWords ats g)
      (omega (
        arith,
        length-output_attrs ats rest,
        length-append lead (name ++ 10 ∷ text),
        length-append name (10 ∷ text),
      ))
