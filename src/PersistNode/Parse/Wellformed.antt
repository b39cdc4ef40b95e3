-- ===== src/PersistNode/Parse/Wellformed.antt =====
-- The trees whose text form can be read back: names and attributes without white space or the
-- separators of the format, in the order of a std::map.
use omni_events.Prelude.{ℕ, ◌≡◌, refl, false, [], ◌∷◌, ◌++◌, arith, ◌==◌, Ordering}
use omni_events.Prelude.Text.{Str, codes, compare_str, str_eq}
use omni_events.PersistNode.{
  PersistNode, Children, node, leaf, branch, split_name, split_attr, addattr,
}
use omni_events.PersistNode.Maps.{Attrs, set_attr}
use omni_events.PersistNode.Parse.Tokens.{Spaceless, IsWord, Spaceless-append}

-- The character does not stand in the text.
abbrev pub Lacks : ℕ → Str → Type 0
Lacks c [] = Unit {0}
Lacks c (d ∷ s) = ((d == c) ≡ false) × Lacks c s

-- The text does not begin with the character.
abbrev pub StartsOff : ℕ → Str → Type 0
StartsOff c [] = Unit {0}
StartsOff c (d ∷ s) = (d == c) ≡ false

-- The key is below all the keys of the map.
abbrev pub BelowAttrs : Str → Attrs → Type 0
BelowAttrs key [] = Unit {0}
BelowAttrs key ((k, v) ∷ ats) = (compare_str k key ≡ Ordering.gt) × BelowAttrs key ats

abbrev pub GoodAttrs : Attrs → Type 0
GoodAttrs [] = Unit {0}
GoodAttrs ((k, v) ∷ ats) =
    Spaceless k × Lacks b'=' k × StartsOff b'#' k × Spaceless v × BelowAttrs k ats × GoodAttrs ats

-- Attributes in any order, each of which is read back as one word.
abbrev pub GoodWords : Attrs → Type 0
GoodWords [] = Unit {0}
GoodWords ((k, v) ∷ ats) = Spaceless k × StartsOff b'#' k × Spaceless v × GoodWords ats

pub GoodAttrs-GoodWords : (ats : Attrs) → GoodAttrs ats → GoodWords ats
GoodAttrs-GoodWords [] g = tt
GoodAttrs-GoodWords ((k, v) ∷ ats) g = (g.0, g.2, g.3, GoodAttrs-GoodWords ats g.5)

abbrev pub BelowChildren : Str → Children → Type 0
BelowChildren key leaf = Unit {0}
BelowChildren key (branch k n cs) = (compare_str k key ≡ Ordering.gt) × BelowChildren key cs

abbrev mutual
  pub Good : PersistNode → Type 0
  Good (node cs ats) = GoodAttrs ats × GoodChildren cs

  pub GoodChildren : Children → Type 0
  GoodChildren leaf = Unit {0}
  GoodChildren (branch k n cs) =
      Spaceless k × Lacks b'/' k × BelowChildren k cs × Good n × GoodChildren cs

-- The first character of a record's name is no sign of another kind of record.
abbrev pub StartsName : Str → Type 0
StartsName [] = ⊥
StartsName (c ∷ s) = ((c == b'-') ≡ false) × ((c == b'#') ≡ false) × ((c == b';') ≡ false)

-- The same at the root, whose children's names begin the records.
abbrev pub GoodRoots : Children → Type 0
GoodRoots leaf = Unit {0}
GoodRoots (branch k n cs) = StartsName k × GoodRoots cs

pub split_name-Lacks : (k : Str) → Lacks b'/' k → split_name k ≡ (k, [])
unfolding split_name
split_name-Lacks [] h = refl
split_name-Lacks (c ∷ k) h = rw (split_name-Lacks k h.1) (rw h.0)

pub split_name-append :
    (s k : Str)
    → Lacks b'/' k
    → split_name (s ++ b'/' ∷ k) ≡ ((split_name s).0, (split_name s).1 ++ k ∷ [])
unfolding split_name
split_name-append [] k h = rw (split_name-Lacks k h)
split_name-append (c ∷ s) k h = ground (arith, split_name-append s k h)

split_attr-append : (k v : Str) → Lacks b'=' k → split_attr (k ++ b'=' ∷ v) ≡ (k, v)
unfolding split_attr
split_attr-append [] v h = refl
split_attr-append (c ∷ k) v h = rw (split_attr-append k v h.1) (rw h.0)

-- An attribute as the word that is read back.
abbrev pub word_of : Str → Str → Str
word_of k v = k ++ b'=' ∷ v

pub addattr-word_of :
    (k v : Str) (cs : Children) (ats : Attrs)
    → Lacks b'=' k
    → addattr (word_of k v) (node cs ats) ≡ node cs (set_attr k v ats)
unfolding addattr
addattr-word_of k v cs ats h = rw (split_attr-append k v h)

pub word_of-IsWord :
    (k v : Str) → Spaceless k → StartsOff b'#' k → Spaceless v → IsWord (word_of k v)
word_of-IsWord [] v h n s = ((refl, s), refl)
word_of-IsWord (c ∷ k) v h n s = ((h.0, Spaceless-append k (b'=' ∷ v) h.1 (refl, s)), n)

pub word_of-not_end : (k v : Str) → str_eq (word_of k v) (codes ";;") ≡ false
unfolding str_eq
word_of-not_end [] v = refl
word_of-not_end (c ∷ []) v = ground arith
word_of-not_end (c ∷ d ∷ []) v = ground arith
word_of-not_end (c ∷ d ∷ e ∷ k) v = ground arith
