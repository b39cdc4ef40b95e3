-- ===== src/Journal/Replay.antt =====
-- The lines of a journal are read back one by one.
use omni_events.Prelude.{
  ℕ, zero, suc, ◌+◌, ◌≤◌, ◌<◌, ◌≡◌, refl, sym, ap, ◌∙◌, true, none, some, Option, List, [], ◌∷◌,
  ◌++◌, arith, if◌then◌else◌, length, length-append,
}
use mathlib.Core.List.{append_assoc}
use omni_events.Prelude.Text.{Str, codes, str_eq}
use omni_events.PersistNode.{PersistNode, empty_node, addattr, split_name, addnode, delnode}
use omni_events.PersistNode.Maps.{Attrs}
use omni_events.PersistNode.Paths.{update_path, at_path-update_path, add_path-update_path}
use omni_events.PersistNode.Text.{
  output_attrs, Stream, Parsed, use_token, readnode, readnodes, rounds, readtoken, parse, read_word,
  skip_space, word_at,
}
use omni_events.PersistNode.Parse.Tokens.{Blank, Spaceless, readtoken-word}
use omni_events.PersistNode.Parse.Wellformed.{
  GoodWords, StartsName, word_of, word_of-IsWord, word_of-not_end,
}
use omni_events.PersistNode.Parse.Records.{
  stream, attrs_effect, readnode-name, NameOf, name-not_end, name-IsWord,
}
use omni_events.Journal.{
  Line, put, block, drop, blank, line_attrs, line_text, journal_text, apply_line, apply_lines,
  apply_last,
}

-- The lines that are read back.
abbrev pub GoodLine : Line → Type 0
GoodLine (put name ats) = StartsName name × Spaceless name × GoodWords ats
GoodLine (block name ats) = StartsName name × Spaceless name × GoodWords ats
GoodLine (drop name) = Spaceless name
GoodLine blank = Unit {0}

abbrev pub GoodLines : List Line → Type 0
GoodLines [] = Unit {0}
GoodLines (l ∷ ls) = GoodLine l × GoodLines ls

pair_text : (k v tail : Str) → k ++ b'=' ∷ (v ++ b' ' ∷ tail) ≡ word_of k v ++ b' ' ∷ tail
pair_text k v tail = sym (append_assoc k (b'=' ∷ v) (b' ' ∷ tail))

readnode-line_attrs :
    (fuel : ℕ) (ats : Attrs) (rest : Str) (f : PersistNode → PersistNode) (key : Str)
    (path : List Str) (root : PersistNode) (tok : Str)
    → length ats < fuel
    → GoodWords ats
    → readnode fuel
        (stream (b' ' ∷ line_attrs ats rest))
        (update_path f key path root)
        (some (key, path))
        tok
      ≡ some (record {
        found = true;
        stream = stream (10 ∷ rest);
        root = update_path (λ m. attrs_effect ats (f m)) key path root;
      })
unfolding readnode line_attrs use_token str_eq update_path
readnode-line_attrs zero ats rest f key path root tok h g = elim h [ ]
readnode-line_attrs (suc fuel) [] rest f key path root tok h g = rw (
  readtoken-word _ (32 ∷ []) (codes ";;") 10 rest tok (refl, tt) ((refl, (refl, tt)), refl) refl,
  readnode,
)
readnode-line_attrs (suc fuel) ((k, v) ∷ ats) rest f key path root tok h g =
    rw
      (ap
        (λ s.
          readnode (suc fuel) (stream (b' ' ∷ s)) (update_path f key path root) (some (key, path))
            tok)
        (pair_text k v (line_attrs ats rest)))
      (rw
        (
          readtoken-word _ (32 ∷ []) (word_of k v) 32 (line_attrs ats rest) tok (refl, tt)
              (word_of-IsWord k v g.0 g.1 g.2) refl,
          readnode,
        )
        (rw (word_of-not_end k v) (
          rw (at_path-update_path (addattr (word_of k v)) f key path root) (
            readnode-line_attrs fuel ats rest (λ m. addattr (word_of k v) (f m)) key path root
              (word_of k v) (omega arith) g.3))))

use_token-put :
    (name : Str) (root : PersistNode)
    → StartsName name
    → use_token none name root ≡ (
      update_path (λ _. empty_node) (split_name name).0 (split_name name).1 root,
      some (split_name name),
    )
unfolding use_token addnode
use_token-put [] root h = absurd h
use_token-put (c ∷ name) root h =
    rw h.0 (rw (add_path-update_path (split_name (c ∷ name)).0 (split_name (c ∷ name)).1 root))

readnode-put :
    (fuel : ℕ) (lead name : Str) (ats : Attrs) (rest : Str) (root : PersistNode) (tok : Str)
    → Blank lead
    → GoodLine (put name ats)
    → length ats < fuel
    → readnode (suc fuel) (stream (lead ++ line_text (put name ats) rest)) root none tok
      ≡ some (record {
        found = true;
        stream = stream (10 ∷ rest);
        root = apply_line (put name ats) root;
      })
unfolding readnode line_text apply_line
readnode-put fuel lead name ats rest root tok b g lt =
    rw
      (
        readtoken-word _ lead name 32 (line_attrs ats rest) tok b (name-IsWord name g.0 g.1) refl,
        readnode,
      )
      (rw (name-not_end name g.0) (
        rw (use_token-put name root g.0) (
          readnode-line_attrs fuel ats rest (λ _. empty_node) (split_name name).0
            (split_name name).1 root name lt g.2)))

readnode-block :
    (fuel : ℕ) (lead name : Str) (ats : Attrs) (rest : Str) (root : PersistNode) (tok : Str)
    → Blank lead
    → GoodLine (block name ats)
    → length ats < fuel
    → readnode (suc fuel) (stream (lead ++ line_text (block name ats) rest)) root none tok
      ≡ some (record {
        found = true;
        stream = stream (10 ∷ rest);
        root = apply_line (block name ats) root;
      })
unfolding line_text apply_line
readnode-block fuel lead name ats rest root tok b g lt =
    let name_of : NameOf name (split_name name).0 (split_name name).1 = record {
      starts = g.0;
      spaceless = g.1;
      pieces = refl;
    } in
    readnode-name fuel lead name (split_name name).0 (split_name name).1 ats rest root tok b name_of
      g.2 lt

readnode-drop :
    (fuel : ℕ) (lead name rest : Str) (root : PersistNode) (tok : Str)
    → Blank lead
    → Spaceless name
    → readnode (suc fuel) (stream (lead ++ line_text (drop name) rest)) root none tok
      ≡ readnode fuel (stream (10 ∷ rest)) (delnode name root) none (b'-' ∷ name)
unfolding readnode line_text use_token str_eq
readnode-drop fuel lead name rest root tok b g =
    rw (readtoken-word _ lead (b'-' ∷ name) 10 rest tok b ((refl, g), refl) refl, readnode) refl

abbrev token_of : Option Str → Str
token_of none = []
token_of (some name) = b'-' ∷ name

-- What the outer loop makes of a round.
abbrev continued : ℕ → Option Parsed → Option PersistNode
continued fuel none = none
continued fuel (some p) = if p.found then readnodes fuel (p.stream) (p.root) else some (p.root)

skip_space-Blank : (lead : Str) → Blank lead → skip_space (lead ++ []) ≡ []
unfolding skip_space
skip_space-Blank [] b = refl
skip_space-Blank (c ∷ lead) b = rw b.0 (skip_space-Blank lead b.1)

Blank-snoc : (lead : Str) → Blank lead → Blank (lead ++ 10 ∷ [])
Blank-snoc [] b = (refl, tt)
Blank-snoc (c ∷ lead) b = (b.0, Blank-snoc lead b.1)

-- The end of the text, behind the white space `lead`.
end_read :
    (lead : Str) (fuel outer : ℕ) (root : PersistNode) (last : Option Str)
    → Blank lead
    → continued outer (readnode (suc (suc fuel)) (stream (lead ++ [])) root none (token_of last))
      ≡ some (apply_last last [] root)
unfolding readnode readtoken read_word word_at apply_last use_token str_eq
end_read lead fuel outer root none b = rw (skip_space-Blank lead b, readnode, readtoken) refl
end_read lead fuel outer root (some name) b = rw (skip_space-Blank lead b, readnode, readtoken) refl

length-line_attrs :
    (ats : Attrs) (rest : Str) → length ats + length rest < length (line_attrs ats rest)
unfolding line_attrs
length-line_attrs [] rest = omega arith
length-line_attrs ((k, v) ∷ ats) rest = omega (
  arith,
  length-line_attrs ats rest,
  length-append k (b'=' ∷ (v ++ b' ' ∷ line_attrs ats rest)),
  length-append v (b' ' ∷ line_attrs ats rest),
)

length-put :
    (name : Str) (ats : Attrs) (rest lead : Str)
    → length ats + length rest + 1 < length (lead ++ line_text (put name ats) rest) + 1
unfolding line_text
length-put name ats rest lead = omega (
  arith,
  length-append lead (name ++ b' ' ∷ line_attrs ats rest),
  length-append name (b' ' ∷ line_attrs ats rest),
  length-line_attrs ats rest,
)

length-output_attrs_rest :
    (ats : Attrs) (rest : Str) → length ats + length rest < length (output_attrs ats rest)
unfolding output_attrs
length-output_attrs_rest [] rest = omega arith
length-output_attrs_rest ((k, v) ∷ ats) rest = omega (
  arith,
  length-output_attrs_rest ats rest,
  length-append k (b'=' ∷ (v ++ 10 ∷ output_attrs ats rest)),
  length-append v (10 ∷ output_attrs ats rest),
)

length-block :
    (name : Str) (ats : Attrs) (rest lead : Str)
    → length ats + length rest + 1 < length (lead ++ line_text (block name ats) rest) + 1
unfolding line_text
length-block name ats rest lead = omega (
  arith,
  length-append lead (name ++ 10 ∷ output_attrs ats rest),
  length-append name (10 ∷ output_attrs ats rest),
  length-output_attrs_rest ats rest,
)

length-drop_line :
    (name rest lead : Str) → length rest + 2 ≤ length (lead ++ line_text (drop name) rest)
unfolding line_text
length-drop_line name rest lead =
    omega (arith, length-append lead (b'-' ∷ (name ++ 10 ∷ rest)), length-append name (10 ∷ rest))

readnodes-continued :
    (outer : ℕ) (is : Stream) (root : PersistNode)
    → readnodes (suc outer) is root ≡ continued outer (readnode (rounds is) is root none [])
unfolding readnodes
readnodes-continued outer is root = refl

lines_read :
    (ls : List Line) (lead : Str) (fuel outer : ℕ) (root : PersistNode) (last : Option Str)
    → Blank lead
    → GoodLines ls
    → length (lead ++ journal_text ls []) + 1 < fuel
    → length ls < outer
    → continued outer
        (readnode fuel (stream (lead ++ journal_text ls [])) root none (token_of last))
      ≡ some (apply_last last ls (apply_lines ls root))
unfolding journal_text line_text apply_lines apply_last apply_line delnode
lines_read ls lead zero outer root last b g f o = absurd (omega arith)
lines_read ls lead (suc zero) outer root last b g f o = absurd (omega arith)
lines_read [] lead (suc (suc fuel)) outer root last b g f o = end_read lead fuel outer root last b
lines_read (put name ats ∷ ls) lead (suc (suc fuel)) (suc outer) root last b g f o =
    let rest = journal_text ls [] in
    rw
      (
        readnode-put (suc fuel) lead name ats rest root (token_of last) b g.0
            (omega (arith, f, length-put name ats rest lead)),
        continued,
      )
      (readnodes-continued outer (stream (10 ∷ rest)) (apply_line (put name ats) root)
        ∙ lines_read ls (10 ∷ []) (rounds (stream (10 ∷ rest))) outer
            (apply_line (put name ats) root) none (refl, tt) g.1 (omega arith) (omega (arith, o)))
lines_read (block name ats ∷ ls) lead (suc (suc fuel)) (suc outer) root last b g f o =
    let rest = journal_text ls [] in
    rw
      (
        readnode-block (suc fuel) lead name ats rest root (token_of last) b g.0
            (omega (arith, f, length-block name ats rest lead)),
        continued,
      )
      (readnodes-continued outer (stream (10 ∷ rest)) (apply_line (block name ats) root)
        ∙ lines_read ls (10 ∷ []) (rounds (stream (10 ∷ rest))) outer
            (apply_line (block name ats) root) none (refl, tt) g.1 (omega arith) (omega (arith, o)))
lines_read (drop name ∷ ls) lead (suc (suc fuel)) outer root last b g f o =
    let rest = journal_text ls [] in
    rw (readnode-drop (suc fuel) lead name rest root (token_of last) b g.0) (
      lines_read ls (10 ∷ []) (suc fuel) outer (delnode name root) (some name) (refl, tt) g.1
        (omega (arith, f, length-drop_line name rest lead)) (omega (arith, o)))
lines_read (blank ∷ ls) lead (suc (suc fuel)) (suc outer) root last b g f o =
    let rest = journal_text ls [] in
    let e = append_assoc lead (10 ∷ []) rest in
    ap (λ t. continued (suc outer) (readnode (suc (suc fuel)) (stream t) root none (token_of last)))
      (sym e)
    ∙ lines_read ls (lead ++ 10 ∷ []) (suc (suc fuel)) (suc outer) root last (Blank-snoc lead b) g.1
        (omega (arith, f, ap (λ t. length t) e)) (omega (arith, o))
lines_read (l ∷ ls) lead (suc (suc fuel)) zero root last b g f o = absurd (omega arith)

length-journal_text : (ls : List Line) → length ls ≤ length (journal_text ls [])
unfolding journal_text line_text
length-journal_text [] = omega arith
length-journal_text (put name ats ∷ ls) =
    omega (arith, length-journal_text ls, length-put name ats (journal_text ls []) [])
length-journal_text (block name ats ∷ ls) =
    omega (arith, length-journal_text ls, length-block name ats (journal_text ls []) [])
length-journal_text (drop name ∷ ls) =
    omega (arith, length-journal_text ls, length-drop_line name (journal_text ls []) [])
length-journal_text (blank ∷ ls) = omega (arith, length-journal_text ls)

-- Lines whose names and attributes have no separator of the format are read back one by one, in
-- their order. Where the last line erases a node, it is erased a second time at the end of the text.
pub parse-journal :
    (ls : List Line)
    → GoodLines ls
    → parse (journal_text ls []) ≡ some (apply_last none ls (apply_lines ls empty_node))
unfolding parse
parse-journal ls g =
    let text = journal_text ls [] in
    readnodes-continued (suc (length text)) (stream text) empty_node
    ∙ lines_read ls [] (rounds (stream text)) (suc (length text)) empty_node none tt g (omega arith)
        (omega (arith, length-journal_text ls))
