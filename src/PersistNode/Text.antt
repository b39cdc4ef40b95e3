-- ===== src/PersistNode/Text.antt =====
-- Reading and writing a PersistNode: output(), readtoken(), readnode() and the constructor that
-- reads a stream (src/PersistNode.cc). A loop takes fuel, one round for each character that is left
-- and two more; `none` is fuel that ran out.
use omni_events.Prelude.{
  ℕ, zero, suc, ◌==◌, leb, Bool, true, false, ◌&&◌, ◌||◌, Option, none, some, List, [], ◌∷◌, ◌++◌,
  if◌then◌else◌, length,
}
use omni_events.Prelude.Text.{Str, codes, str_eq}
use omni_events.PersistNode.{
  PersistNode, Children, node, leaf, branch, empty_node, addnode, delnode, addattr, at_path,
  split_name,
}
use omni_events.PersistNode.Maps.{Attrs}

-- std::isspace.
abbrev pub is_space : ℕ → Bool
is_space c = c == 32 || (leb 9 c && leb c 13)

pub record Stream : Type 0 where
  pub rest : Str
  pub good : Bool

unfoldable pub skip_space : Str → Str
skip_space [] = []
skip_space (c ∷ s) = let later = skip_space s in if is_space c then later else c ∷ s

unfoldable pub take_word : Str → Str × Str
take_word [] = ([], [])
take_word (c ∷ s) = let (w, r) = take_word s in if is_space c then ([], c ∷ s) else (c ∷ w, r)

-- What the stream and the string are after `is>>tok`.
pub record Read : Type 0 where
  pub stream : Stream
  pub tok : Str

unfoldable pub word_at : Str → Str → Read
word_at [] tok = record { stream = record { rest = []; good = false }; tok = tok }
word_at (c ∷ s) tok =
    let (w, r) = take_word (c ∷ s) in record { stream = record { rest = r; good = true }; tok = w }

unfoldable pub read_word : Stream → Str → Read
unfolding word_at
read_word is tok =
    if is.good then word_at (skip_space is.rest) tok else record { stream = is; tok = tok }

unfoldable pub drop_line : Str → Str
drop_line [] = []
drop_line (c ∷ s) = let later = drop_line s in if c == 10 then s else later

-- `is.ignore(INT_MAX,'\n')`, for lines shorter than INT_MAX.
abbrev pub ignore_line : Stream → Stream
ignore_line is = record is { rest = drop_line is.rest }

abbrev pub starts_with_code : ℕ → Str → Bool
starts_with_code c [] = false
starts_with_code c (d ∷ s) = d == c

abbrev pub is_empty : Str → Bool
is_empty [] = true
is_empty (c ∷ s) = false

-- Whether a token was found, and what the stream and the string are then.
unfoldable pub readtoken : ℕ → Stream → Str → Option (Bool × Read)
readtoken zero is tok = none
readtoken (suc fuel) is tok =
    let read = read_word is tok in
    let later = readtoken fuel (ignore_line (read.stream)) (read.tok) in
    if is.good
    then (if is_empty (read.tok)
        then some (false, read)
        else (if starts_with_code b'#' (read.tok) then later else some (true, read)))
    else some (false, record { stream = is; tok = tok })

-- The result of readnode(): whether a node was read, the stream and the tree.
pub record Parsed : Type 0 where
  pub found : Bool
  pub stream : Stream
  pub root : PersistNode

abbrev pub PathTo : Type 0
PathTo = Option (Str × List Str)

abbrev pub is_set : PathTo → Bool
is_set none = false
is_set (some p) = true

abbrev pub rounds : Stream → ℕ
rounds is = suc (suc (length is.rest))

-- What readnode() does with a token: its new tree and node pointer.
unfoldable pub use_token : PathTo → Str → PersistNode → PersistNode × PathTo
use_token (some (key, rest)) tok root = (at_path (addattr tok) key rest root, some (key, rest))
use_token none [] root = (addnode [] root, some (split_name []))
use_token none (c ∷ s) root =
    if c == b'-' then (delnode s root, none) else (addnode (c ∷ s) root, some (split_name (c ∷ s)))

unfoldable pub readnode : ℕ → Stream → PersistNode → PathTo → Str → Option Parsed
readnode zero is root ptr tok = none
readnode (suc fuel) is root ptr tok = elim (readtoken (rounds is) is tok) [
  | none ↦ none
  | some (found, read) ↦
      let (root', ptr') = use_token ptr (read.tok) root in
      let later = readnode fuel (read.stream) root' ptr' (read.tok) in
      if found && (if str_eq (read.tok) (codes ";;") then false else true)
      then later
      else some (record { found = is_set ptr; stream = read.stream; root = root })
]

-- `while( readnode(is) ){}`.
unfoldable pub readnodes : ℕ → Stream → PersistNode → Option PersistNode
readnodes zero is root = none
readnodes (suc fuel) is root = elim (readnode (rounds is) is root none []) [
  | none ↦ none
  | some p ↦
      let later = readnodes fuel (p.stream) (p.root) in if p.found then later else some (p.root)
]

-- The constructor PersistNode(istream& is).
unfoldable pub parse : Str → Option PersistNode
parse s = let is : Stream = record { rest = s; good = true } in readnodes (rounds is) is empty_node

-- What output() writes, in front of the text `rest`.
unfoldable pub output_attrs : Attrs → Str → Str
output_attrs [] rest = codes " ;;\n" ++ rest
output_attrs ((k, v) ∷ ats) rest =
    codes " " ++ (k ++ (codes "=" ++ (v ++ (codes "\n" ++ output_attrs ats rest))))

abbrev pub join : Str → Str → Str
join [] key = key
join (c ∷ name) key = (c ∷ name) ++ (codes "/" ++ key)

unfoldable mutual
  pub output : PersistNode → Str → Str → Str
  output (node cs ats) [] rest = output_children cs [] rest
  output (node cs ats) (c ∷ name) rest =
      (c ∷ name) ++ (codes "\n" ++ output_attrs ats (output_children cs (c ∷ name) rest))

  pub output_children : Children → Str → Str → Str
  output_children leaf name rest = rest
  output_children (branch k n cs) name rest = output n (join name k) (output_children cs name rest)
