-- ===== src/PersistNode/Parse/Totality.antt =====
-- Reading a PersistNode ends: the fuel of each loop is enough.
mod Tests
use omni_events.Prelude.{
  ℕ, zero, suc, ◌+◌, ◌≤◌, ◌<◌, ◌≡◌, ◌≢◌, refl, sym, ap, ◌∙◌, ◌⊎◌, inl, inr, Bool, true, false, ◌&&◌,
  Option, none, some, List, [], ◌∷◌, arith, if◌then◌else◌, Bool-cases, length, ◌==◌, leb,
}
use mathlib.Core.Bool.{false≢true}
use omni_events.Prelude.Text.{Str, codes, str_eq}
use omni_events.PersistNode.{PersistNode, empty_node}
use omni_events.PersistNode.Text.{
  is_space, Stream, skip_space, take_word, Read, word_at, read_word, drop_line, ignore_line,
  starts_with_code, is_empty, readtoken, Parsed, PathTo, is_set, rounds, use_token, readnode,
  readnodes, parse,
}

skip_space-le : (s : Str) → length (skip_space s) ≤ length s
unfolding skip_space
skip_space-le [] = omega arith
skip_space-le (c ∷ s) = ground (arith, skip_space-le s)

take_word-le : (s : Str) → length (take_word s).1 ≤ length s
unfolding take_word
take_word-le [] = omega arith
take_word-le (c ∷ s) = ground (arith, take_word-le s)

drop_line-le : (s : Str) → length (drop_line s) ≤ length s
unfolding drop_line
drop_line-le [] = omega arith
drop_line-le (c ∷ s) = ground (arith, drop_line-le s)

-- What is left to read: the characters, and the end of the stream.
abbrev left : Stream → ℕ
left is = if is.good then suc (length is.rest) else length is.rest

-- A word that was read is paid for by a character, or by the end of the stream.
word_at-left :
    (s tok : Str) → (left (word_at s tok).stream < suc (length s)) ⊎ ((word_at s tok).tok ≡ [])
unfolding word_at take_word
word_at-left [] tok = inl (omega arith)
word_at-left (c ∷ s) tok = elim (Bool-cases (is_space c)) [
  | inl sp ↦ rw sp (inr refl)
  | inr ns ↦ rw ns (inl (omega (arith, take_word-le s)))
]

abbrev at : Str → Bool → Stream
at rest good = record { rest = rest; good = good }

read_word-left :
    (s tok : Str)
    → (left (read_word (at s true) tok).stream < suc (length s))
      ⊎ ((read_word (at s true) tok).tok ≡ [])
unfolding read_word
read_word-left s tok = elim (word_at-left (skip_space s) tok) [
  | inl h ↦ inl (omega (arith, skip_space-le s))
  | inr h ↦ inr h
]

word_at-le : (s tok : Str) → left (word_at s tok).stream ≤ suc (length s)
unfolding word_at
word_at-le [] tok = omega arith
word_at-le (c ∷ s) tok = omega (arith, take_word-le (c ∷ s))

read_word-le : (s tok : Str) → left (read_word (at s true) tok).stream ≤ suc (length s)
unfolding read_word
read_word-le s tok = omega (arith, word_at-le (skip_space s) tok, skip_space-le s)

word_paid :
    (s tok : Str)
    → is_empty (read_word (at s true) tok).tok ≡ false
    → left (read_word (at s true) tok).stream < suc (length s)
word_paid s tok h = elim (read_word-left s tok) [
  | inl p ↦ p
  | inr e ↦ absurd (false≢true (sym h ∙ ap is_empty e))
]

ignore_line-left : (is : Stream) → left (ignore_line is) ≤ left is
ignore_line-left is = ground (arith, drop_line-le is.rest)

-- Reading a token succeeds, and one that was found has been paid for.
abbrev Token : Stream → Option (Bool × Read) → Type 0
Token is o =
    (f : Bool) × (r : Read) × (o ≡ some (f, r))
    × (left (r.stream) ≤ left is)
    × (f ≡ true → left (r.stream) < left is)

readtoken-total :
    (fuel : ℕ) (s : Str) (good : Bool) (tok : Str)
    → left (at s good) < fuel
    → Token (at s good) (readtoken fuel (at s good) tok)
unfolding readtoken
readtoken-total zero s good tok h = elim h [ ]
readtoken-total (suc fuel) s false tok h = (false, _, refl, omega arith, λ e. absurd (false≢true e))
readtoken-total (suc fuel) s true tok h =
    let read = read_word (at s true) tok in
    elim (Bool-cases (is_empty (read.tok))) [
      | inl e ↦ rw e (false, read, refl, read_word-le s tok, λ e'. absurd (false≢true e'))
      | inr ne ↦ elim (Bool-cases (starts_with_code b'#' (read.tok))) [
        | inl c ↦
            let paid = word_paid s tok ne in
            let less = ignore_line-left (read.stream) in
            let next = (ignore_line (read.stream)) in
            let later =
              readtoken-total fuel (next.rest) (next.good) (read.tok) (omega (arith, paid, less)) in
            rw (ne, c)
              (
                later.0,
                later.1,
                later.2,
                (let p = later.3 in omega (arith, p, paid, less)),
                λ e. let p = later.4 e in omega (arith, p, paid, less),
              )
        | inr nc ↦ rw (ne, nc) (true, read, refl, read_word-le s tok, λ _. word_paid s tok ne)
      ]
    ]

and_left : (a b : Bool) → (a && b) ≡ true → a ≡ true
and_left true b h = refl
and_left false b h = h

-- The same for a node, and for the whole stream.
abbrev Node : Stream → PathTo → Option Parsed → Type 0
Node is ptr o =
    (p : Parsed) × (o ≡ some p)
    × (left (p.stream) ≤ left is)
    × (p.found ≡ true → is_set ptr ≡ false → left (p.stream) < left is)

rounds-left : (is : Stream) → left is < rounds is
rounds-left is = ground arith

readnode-total :
    (fuel : ℕ) (is : Stream) (root : PersistNode) (ptr : PathTo) (tok : Str)
    → left is < fuel
    → Node is ptr (readnode fuel is root ptr tok)
unfolding readnode
readnode-total zero is root ptr tok h = elim h [ ]
readnode-total (suc fuel) is root ptr tok h =
    let t = readtoken-total (rounds is) (is.rest) (is.good) tok (rounds-left is) in
    let read = t.1 in
    let used = use_token ptr (read.tok) root in
    elim (Bool-cases (t.0 && (if str_eq (read.tok) (codes ";;") then false else true))) [
      | inr stop ↦
          rw (t.2, readnode)
            (rw stop (
              record { found = is_set ptr; stream = read.stream; root = root },
              refl,
              t.3,
              λ e n. absurd (false≢true (sym n ∙ e)),
            ))
      | inl go ↦
          let less = t.4 (and_left t.0 _ go) in
          let later =
            readnode-total fuel (read.stream) used.0 used.1 (read.tok) (omega (arith, less)) in
          rw (t.2, readnode)
            (rw go (
              later.0,
              later.1,
              (let p = later.2 in omega (arith, p, less)),
              λ e n. (let p = later.2 in omega (arith, p, less)),
            ))
    ]

readnodes-total :
    (fuel : ℕ) (is : Stream) (root : PersistNode)
    → left is < fuel
    → (n : PersistNode) × (readnodes fuel is root ≡ some n)
unfolding readnodes
readnodes-total zero is root h = elim h [ ]
readnodes-total (suc fuel) is root h =
    let p = readnode-total (rounds is) is root none [] (rounds-left is) in
    elim (Bool-cases ((p.0).found)) [
      | inr stop ↦ rw (p.1, readnodes) (rw stop ((p.0).root, refl))
      | inl go ↦
          let less = p.3 go refl in
          let later = readnodes-total fuel ((p.0).stream) ((p.0).root) (omega (arith, less)) in
          rw (p.1, readnodes) (rw go later)
    ]

-- Every text is read to its end, and gives a tree.
pub parse-total : (s : Str) → (n : PersistNode) × (parse s ≡ some n)
unfolding parse
parse-total s =
    let is : Stream = record { rest = s; good = true } in
    readnodes-total (rounds is) is empty_node (rounds-left is)
