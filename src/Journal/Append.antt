-- ===== src/Journal/Append.antt =====
-- One more line at the end of a journal.
use omni_events.Prelude.{◌≡◌, refl, ap, ◌∙◌, none, some, Option, List, [], ◌∷◌, ◌++◌}
use mathlib.Core.List.{append_assoc}
use omni_events.Prelude.Text.{Str}
use omni_events.PersistNode.{PersistNode, delnode}
use omni_events.PersistNode.Maps.{Attrs}
use omni_events.PersistNode.Text.{output_attrs}
use omni_events.Journal.{
  Line, put, block, drop, blank, line_attrs, line_text, journal_text, apply_line, apply_lines,
  apply_last,
}
use omni_events.Journal.Replay.{GoodLine, GoodLines}

line_attrs-append :
    (ats : Attrs) (rest more : Str) → line_attrs ats rest ++ more ≡ line_attrs ats (rest ++ more)
unfolding line_attrs
line_attrs-append [] rest more = refl
line_attrs-append ((k, v) ∷ ats) rest more =
    append_assoc k (b'=' ∷ (v ++ b' ' ∷ line_attrs ats rest)) more
    ∙ ap (λ t. k ++ b'=' ∷ t)
        (append_assoc v (b' ' ∷ line_attrs ats rest) more
          ∙ ap (λ t. v ++ b' ' ∷ t) (line_attrs-append ats rest more))

output_attrs-append :
    (ats : Attrs) (rest more : Str)
    → output_attrs ats rest ++ more ≡ output_attrs ats (rest ++ more)
unfolding output_attrs
output_attrs-append [] rest more = refl
output_attrs-append ((k, v) ∷ ats) rest more =
    ap (λ t. 32 ∷ t)
      (append_assoc k (b'=' ∷ (v ++ 10 ∷ output_attrs ats rest)) more
        ∙ ap (λ t. k ++ b'=' ∷ t)
            (append_assoc v (10 ∷ output_attrs ats rest) more
              ∙ ap (λ t. v ++ 10 ∷ t) (output_attrs-append ats rest more)))

pub line_text-append :
    (l : Line) (rest more : Str) → line_text l rest ++ more ≡ line_text l (rest ++ more)
unfolding line_text
line_text-append (put name ats) rest more =
    append_assoc name (b' ' ∷ line_attrs ats rest) more
    ∙ ap (λ t. name ++ b' ' ∷ t) (line_attrs-append ats rest more)
line_text-append (block name ats) rest more =
    append_assoc name (10 ∷ output_attrs ats rest) more
    ∙ ap (λ t. name ++ 10 ∷ t) (output_attrs-append ats rest more)
line_text-append (drop name) rest more = ap (λ t. b'-' ∷ t) (append_assoc name (10 ∷ rest) more)
line_text-append blank rest more = refl

pub journal_text-snoc :
    (ls : List Line) (l : Line)
    → journal_text ls [] ++ line_text l [] ≡ journal_text (ls ++ l ∷ []) []
unfolding journal_text
journal_text-snoc [] l = refl
journal_text-snoc (k ∷ ls) l =
    line_text-append k (journal_text ls []) (line_text l [])
    ∙ ap (line_text k) (journal_text-snoc ls l)

pub apply_lines-snoc :
    (ls : List Line) (l : Line) (root : PersistNode)
    → apply_lines (ls ++ l ∷ []) root ≡ apply_line l (apply_lines ls root)
unfolding apply_lines
apply_lines-snoc [] l root = refl
apply_lines-snoc (k ∷ ls) l root = apply_lines-snoc ls l (apply_line k root)

pub journal_text-append :
    (ls ks : List Line) (rest : Str)
    → journal_text (ls ++ ks) rest ≡ journal_text ls (journal_text ks rest)
unfolding journal_text
journal_text-append [] ks rest = refl
journal_text-append (l ∷ ls) ks rest = ap (line_text l) (journal_text-append ls ks rest)

pub journal_text-rest :
    (ls : List Line) (more : Str) → journal_text ls [] ++ more ≡ journal_text ls more
unfolding journal_text
journal_text-rest [] more = refl
journal_text-rest (l ∷ ls) more =
    line_text-append l (journal_text ls []) more ∙ ap (line_text l) (journal_text-rest ls more)

pub apply_lines-append :
    (ls ks : List Line) (root : PersistNode)
    → apply_lines (ls ++ ks) root ≡ apply_lines ks (apply_lines ls root)
unfolding apply_lines
apply_lines-append [] ks root = refl
apply_lines-append (l ∷ ls) ks root = apply_lines-append ls ks (apply_line l root)

pub GoodLines-append : (ls ks : List Line) → GoodLines ls → GoodLines ks → GoodLines (ls ++ ks)
GoodLines-append [] ks g h = h
GoodLines-append (l ∷ ls) ks g h = (g.0, GoodLines-append ls ks g.1 h)

-- No line erases a node: lines of a checkpoint.
abbrev pub AllPuts : List Line → Type 0
AllPuts [] = Unit {0}
AllPuts (put name ats ∷ ls) = AllPuts ls
AllPuts (block name ats ∷ ls) = AllPuts ls
AllPuts (drop name ∷ ls) = ⊥
AllPuts (blank ∷ ls) = AllPuts ls

pub AllPuts-append : (ls ks : List Line) → AllPuts ls → AllPuts ks → AllPuts (ls ++ ks)
AllPuts-append [] ks g h = h
AllPuts-append (put name ats ∷ ls) ks g h = AllPuts-append ls ks g h
AllPuts-append (block name ats ∷ ls) ks g h = AllPuts-append ls ks g h
AllPuts-append (drop name ∷ ls) ks g h = elim g [ ]
AllPuts-append (blank ∷ ls) ks g h = AllPuts-append ls ks g h

pub apply_last-AllPuts :
    (ls : List Line) (root : PersistNode) → AllPuts ls → apply_last none ls root ≡ root
unfolding apply_last
apply_last-AllPuts [] root g = refl
apply_last-AllPuts (put name ats ∷ ls) root g = apply_last-AllPuts ls root g
apply_last-AllPuts (block name ats ∷ ls) root g = apply_last-AllPuts ls root g
apply_last-AllPuts (drop name ∷ ls) root g = elim g [ ]
apply_last-AllPuts (blank ∷ ls) root g = apply_last-AllPuts ls root g

pub apply_last-put :
    (last : Option Str) (ls : List Line) (name : Str) (ats : Attrs) (root : PersistNode)
    → apply_last last (ls ++ put name ats ∷ []) root ≡ root
unfolding apply_last
apply_last-put none [] name ats root = refl
apply_last-put (some l) [] name ats root = refl
apply_last-put last (put n a ∷ ls) name ats root = apply_last-put none ls name ats root
apply_last-put last (block n a ∷ ls) name ats root = apply_last-put none ls name ats root
apply_last-put last (drop n ∷ ls) name ats root = apply_last-put (some n) ls name ats root
apply_last-put last (blank ∷ ls) name ats root = apply_last-put last ls name ats root

pub apply_last-drop :
    (last : Option Str) (ls : List Line) (name : Str) (root : PersistNode)
    → apply_last last (ls ++ drop name ∷ []) root ≡ delnode name root
unfolding apply_last
apply_last-drop none [] name root = refl
apply_last-drop (some l) [] name root = refl
apply_last-drop last (put n a ∷ ls) name root = apply_last-drop none ls name root
apply_last-drop last (block n a ∷ ls) name root = apply_last-drop none ls name root
apply_last-drop last (drop n ∷ ls) name root = apply_last-drop (some n) ls name root
apply_last-drop last (blank ∷ ls) name root = apply_last-drop last ls name root

pub GoodLines-snoc :
    (ls : List Line) (l : Line) → GoodLines ls → GoodLine l → GoodLines (ls ++ l ∷ [])
GoodLines-snoc [] l g h = (h, tt)
GoodLines-snoc (k ∷ ls) l g h = (g.0, GoodLines-snoc ls l g.1 h)
