-- ===== src/PersistNode/Parse/RoundTrip.antt =====
-- A tree that is written and read back.
mod Tests
use omni_events.Prelude.{
  ℕ, zero, suc, ◌+◌, ◌-◌, ◌≤◌, ◌<◌, ◌≡◌, refl, sym, ap, ◌∙◌, Bool, true, false, none, some, Option,
  List, [], ◌∷◌, ◌++◌, arith, ◌==◌, if◌then◌else◌, length, length-append,
}
use omni_events.Prelude.Text.{Str, codes, str_eq}
use omni_events.PersistNode.{PersistNode, Children, node, leaf, branch, empty_node, split_name}
use omni_events.PersistNode.Maps.{Attrs}
use omni_events.PersistNode.Paths.{update_path, update_path-update_path, update_path-append}
use omni_events.PersistNode.Text.{
  Stream, readnode, readnodes, readtoken, read_word, skip_space, word_at, output, output_children,
  output_attrs, rounds, parse, join,
}
use omni_events.PersistNode.Parse.Tokens.{Blank, Spaceless, Spaceless-append}
use omni_events.PersistNode.Parse.Records.{
  stream, attrs_effect, NameOf, readnode-record, length-output_attrs,
}
use omni_events.PersistNode.Parse.Rebuild.{node_effect, children_effect, children_effect-root}
use omni_events.PersistNode.Parse.Wellformed.{
  Good, GoodChildren, GoodRoots, StartsName, Lacks, split_name-append, split_name-Lacks,
}

-- The rounds of the outer loop that the records of a tree take.
abbrev mutual
  node_rounds : PersistNode → ℕ → ℕ
  node_rounds (node cs ats) f = suc (children_rounds cs f)

  children_rounds : Children → ℕ → ℕ
  children_rounds leaf f = f
  children_rounds (branch k n cs) f = node_rounds n (children_rounds cs f)

join-NameOf :
    (name key k : Str) (path : List Str)
    → NameOf name key path
    → Spaceless k
    → Lacks b'/' k
    → NameOf (join name k) key (path ++ k ∷ [])
join-NameOf [] key k path h s l = absurd (h.starts)
join-NameOf (c ∷ name) key k path h s l = record {
  starts = h.starts;
  spaceless = Spaceless-append (c ∷ name) (b'/' ∷ k) (h.spaceless) (refl, s);
  pieces = split_name-append (c ∷ name) k l ∙ ap (λ p. (p.0, p.1 ++ k ∷ [])) (h.pieces);
}

mutual
  unfolding readnodes output output_children

  read_node :
      (n : PersistNode) (lead name key : Str) (path : List Str) (rest : Str) (root : PersistNode)
      (f : ℕ)
      → Blank lead
      → NameOf name key path
      → Good n
      → readnodes (node_rounds n f) (stream (lead ++ output n name rest)) root
        ≡ readnodes f (stream (10 ∷ rest)) (update_path (node_effect n) key path root)
  read_node n lead [] key path rest root f b h g = absurd (h.starts)
  read_node (node cs ats) lead (c ∷ name) key path rest root f b h g =
      rw
        (
          readnode-record lead (c ∷ name) key path ats (output_children cs (c ∷ name) rest) root b h
              g.0,
          readnodes,
        )
        (read_children cs (c ∷ name) key path rest (λ _. attrs_effect ats empty_node) root f h g.1)

  read_children :
      (cs : Children) (name key : Str) (path : List Str) (rest : Str)
      (g : PersistNode → PersistNode) (root : PersistNode) (f : ℕ)
      → NameOf name key path
      → GoodChildren cs
      → readnodes
          (children_rounds cs f)
          (stream (10 ∷ output_children cs name rest))
          (update_path g key path root)
        ≡ readnodes f
            (stream (10 ∷ rest))
            (update_path (λ m. children_effect cs (g m)) key path root)
  read_children leaf name key path rest g root f h w = refl
  read_children (branch k n cs) name key path rest g root f h w =
      read_node n (10 ∷ []) (join name k) key (path ++ k ∷ []) (output_children cs name rest)
        (update_path g key path root) (children_rounds cs f) (refl, tt)
        (join-NameOf name key k path h w.0 w.1) w.3
      ∙ (ap (readnodes (children_rounds cs f) (stream (10 ∷ output_children cs name rest))) (
            update_path-append (node_effect n) key path k (update_path g key path root)
            ∙ update_path-update_path (update_path (node_effect n) k []) g key path root)
          ∙ read_children cs name key path rest (λ m. update_path (node_effect n) k [] (g m)) root f
              h w.4)

root-NameOf : (k : Str) → StartsName k → Spaceless k → Lacks b'/' k → NameOf k k []
root-NameOf k h s l = record { starts = h; spaceless = s; pieces = split_name-Lacks k l }

read_roots :
    (cs : Children) (root : PersistNode) (f : ℕ)
    → GoodChildren cs
    → GoodRoots cs
    → readnodes (children_rounds cs (suc f)) (stream (10 ∷ output_children cs [] [])) root
      ≡ some (children_effect cs root)
unfolding readnodes output_children readnode readtoken read_word skip_space word_at
read_roots leaf root f g r = refl
read_roots (branch k n cs) root f g r =
    read_node n (10 ∷ []) k k [] (output_children cs [] []) root (children_rounds cs (suc f))
      (refl, tt) (root-NameOf k r.0 g.0 g.1) g.3
    ∙ read_roots cs (update_path (node_effect n) k [] root) f g.4 r.1

mutual
  node_rounds-plus : (n : PersistNode) (f : ℕ) → node_rounds n f ≡ node_rounds n 0 + f
  node_rounds-plus (node cs ats) f = omega (arith, children_rounds-plus cs f)

  children_rounds-plus : (cs : Children) (f : ℕ) → children_rounds cs f ≡ children_rounds cs 0 + f
  children_rounds-plus leaf f = omega arith
  children_rounds-plus (branch k n cs) f = omega (
    arith,
    node_rounds-plus n (children_rounds cs f),
    node_rounds-plus n (children_rounds cs 0),
    children_rounds-plus cs f,
  )

length-attrs_rest : (ats : Attrs) (rest : Str) → length rest ≤ length (output_attrs ats rest)
unfolding output_attrs
length-attrs_rest [] rest = omega arith
length-attrs_rest ((k, v) ∷ ats) rest = omega (
  arith,
  length-attrs_rest ats rest,
  length-append k (b'=' ∷ (v ++ 10 ∷ output_attrs ats rest)),
  length-append v (10 ∷ output_attrs ats rest),
)

mutual
  unfolding output output_children

  node_rounds-length :
      (n : PersistNode) (c : ℕ) (name rest : Str)
      → node_rounds n (length rest) ≤ length (output n (c ∷ name) rest)
  node_rounds-length (node cs ats) c name rest =
      let text = output_children cs (c ∷ name) rest in
      omega (
        arith,
        children_rounds-length cs c name rest,
        length-attrs_rest ats text,
        length-append name (10 ∷ output_attrs ats text),
      )

  children_rounds-length :
      (cs : Children) (c : ℕ) (name rest : Str)
      → children_rounds cs (length rest) ≤ length (output_children cs (c ∷ name) rest)
  children_rounds-length leaf c name rest = omega arith
  children_rounds-length (branch k n cs) c name rest =
      let later = output_children cs (c ∷ name) rest in
      omega (
        arith,
        node_rounds-length n c (name ++ b'/' ∷ k) later,
        children_rounds-length cs c name rest,
        node_rounds-plus n (length later),
        node_rounds-plus n (children_rounds cs (length rest)),
      )

root_rounds-length :
    (cs : Children) (rest : Str)
    → GoodRoots cs
    → children_rounds cs (length rest) ≤ length (output_children cs [] rest)
unfolding output_children
root_rounds-length leaf rest r = omega arith
root_rounds-length (branch [] n cs) rest r = absurd r.0
root_rounds-length (branch (c ∷ k) n cs) rest r =
    let later = output_children cs [] rest in
    omega (
      arith,
      node_rounds-length n c k later,
      root_rounds-length cs rest r.1,
      node_rounds-plus n (length later),
      node_rounds-plus n (children_rounds cs (length rest)),
    )

enough_rounds :
    (cs : Children) (len : ℕ)
    → children_rounds cs 0 ≤ len
    → suc (suc len) ≡ children_rounds cs (suc (suc len - children_rounds cs 0))
enough_rounds cs len h =
    omega (arith, children_rounds-plus cs (suc (suc len - children_rounds cs 0)))

parse_roots :
    (cs : Children) (f : ℕ)
    → GoodChildren cs
    → GoodRoots cs
    → readnodes (children_rounds cs (suc f)) (stream (output_children cs [] [])) empty_node
      ≡ some (children_effect cs empty_node)
unfolding readnodes output_children readnode readtoken read_word skip_space word_at
parse_roots leaf f g r = refl
parse_roots (branch k n cs) f g r =
    read_node n [] k k [] (output_children cs [] []) empty_node (children_rounds cs (suc f)) tt
      (root-NameOf k r.0 g.0 g.1) g.3
    ∙ read_roots cs (update_path (node_effect n) k [] empty_node) f g.4 r.1

-- A tree without attributes at its root is what the reader makes of the text that output() writes
-- of it, if the names and attribute names and values have no white space, the names no slash, the
-- attribute names no '=' and no '#' in front, no name of a child of the root is empty or begins
-- with '-', '#' or ';', and the maps are in order.
pub parse-output :
    (cs : Children)
    → GoodChildren cs
    → GoodRoots cs
    → parse (output (node cs []) [] []) ≡ some (node cs [])
unfolding parse output
parse-output cs g r =
    let text = output_children cs [] [] in
    ap (λ f. readnodes f (stream text) empty_node)
      (enough_rounds cs (length text) (root_rounds-length cs [] r))
    ∙ parse_roots cs (suc (length text) - children_rounds cs 0) g r
    ∙ ap some (children_effect-root cs g)
