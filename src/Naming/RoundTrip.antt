-- ===== src/Naming/RoundTrip.antt =====
-- A name that is printed and read back.
mod Tests
use omni_events.Prelude.{
  ℕ, zero, suc, ◌+◌, ◌<◌, ◌≤◌, ◌≡◌, refl, ap, sym, ◌∙◌, Bool, true, false, ◌||◌, ◌==◌, Option, none,
  some, List, [], ◌∷◌, ◌++◌, if◌then◌else◌, length, length-append, arith,
}
use mathlib.Core.List.{append_assoc, append-nil}
use omni_events.Prelude.Text.{Str, codes}
use omni_events.Naming.{
  NameComponent, print, kind_text, is_separator, skip_separators, split_piece, set_last_kind,
  add_piece, str2name_loop, str2name,
}

-- No character separates.
abbrev pub IsPiece : Str → Type 0
IsPiece [] = Unit {0}
IsPiece (c ∷ s) = (is_separator c ≡ false) × IsPiece s

abbrev pub IsNotEmpty : Str → Type 0
IsNotEmpty [] = ⊥
IsNotEmpty (c ∷ s) = Unit {0}

abbrev pub IsName : List NameComponent → Type 0
IsName [] = Unit {0}
IsName (n ∷ ns) = IsNotEmpty (n.id) × IsPiece (n.id) × IsPiece (n.kind) × IsName ns

-- The text is empty or begins with a separator.
abbrev Separated : Str → Type 0
Separated [] = Unit {0}
Separated (c ∷ s) = is_separator c ≡ true

split_piece-append : (w t : Str) → IsPiece w → Separated t → split_piece (w ++ t) ≡ (w, t)
unfolding split_piece
split_piece-append [] [] h k = refl
split_piece-append [] (c ∷ t) h k = rw k refl
split_piece-append (c ∷ w) t h k = rw (split_piece-append w t h.1 k) (rw h.0 refl)

skip_separators-piece :
    (d c : ℕ) (w : Str)
    → is_separator d ≡ true
    → is_separator c ≡ false
    → skip_separators (d ∷ c ∷ w) ≡ c ∷ w
unfolding skip_separators
skip_separators-piece d c w h k = rw h (rw k refl)

set_last_kind-append :
    (kind : Str) (ns : List NameComponent) (n : NameComponent)
    → set_last_kind kind (ns ++ n ∷ []) ≡ ns ++ record n { kind = kind } ∷ []
unfolding set_last_kind
set_last_kind-append kind [] n = refl
set_last_kind-append kind (m ∷ []) n = refl
set_last_kind-append kind (m ∷ o ∷ ns) n = ap (◌∷◌ m) (set_last_kind-append kind (o ∷ ns) n)

print-Separated : (ns : List NameComponent) → Separated (print ns)
unfolding print
print-Separated [] = tt
print-Separated (n ∷ ns) = refl

-- One round: the piece behind a separator joins the name.
round_more :
    (fuel last sep c d : ℕ) (w t : Str) (name : List NameComponent)
    → is_separator sep ≡ true
    → IsPiece (c ∷ w)
    → is_separator d ≡ true
    → str2name_loop (suc fuel) last name (sep ∷ (c ∷ w) ++ d ∷ t)
      ≡ str2name_loop fuel d (add_piece last (c ∷ w) name) (d ∷ t)
unfolding str2name_loop
round_more fuel last sep c d w t name h p k =
    rw (skip_separators-piece sep c (w ++ d ∷ t) h p.0, str2name_loop)
      (rw (split_piece-append (c ∷ w) (d ∷ t) p k, str2name_loop)
        (ap (λ q. str2name_loop fuel d (add_piece last q.0 name) (d ∷ t))
          (split_piece-append (c ∷ w) (d ∷ t) p k)))

round_last :
    (fuel last sep c : ℕ) (w : Str) (name : List NameComponent)
    → is_separator sep ≡ true
    → IsPiece (c ∷ w)
    → str2name_loop (suc fuel) last name (sep ∷ (c ∷ w) ++ []) ≡ some (add_piece last (c ∷ w) name)
unfolding str2name_loop
round_last fuel last sep c w name h p =
    rw (skip_separators-piece sep c (w ++ []) h p.0, str2name_loop)
      (rw (split_piece-append (c ∷ w) [] p tt, str2name_loop)
        (ap (λ q. some (add_piece last q.0 name)) (split_piece-append (c ∷ w) [] p tt)))

abbrev Reads : List NameComponent → Type 0
Reads ns =
    (fuel : ℕ) (acc : List NameComponent)
    → length ns + length ns < fuel
    → str2name_loop fuel b'/' acc (print ns) ≡ some (acc ++ ns)

component-Reads :
    (id kind : Str) (ns : List NameComponent)
    → IsNotEmpty id
    → IsPiece id
    → IsPiece kind
    → Reads ns
    → Reads (record { id = id; kind = kind } ∷ ns)
unfolding print kind_text add_piece
component-Reads [] kind ns e h k r fuel acc l = absurd e
component-Reads id kind ns e h k r zero acc l = absurd (omega (arith, l))
component-Reads id kind ns e h k r (suc zero) acc l = absurd (omega (arith, l))
component-Reads (c ∷ w) [] [] e h k r (suc fuel) acc l = round_last fuel b'/' b'/' c w acc refl h
component-Reads (c ∷ w) [] (n ∷ ns) e h k r (suc fuel) acc l =
    let one : NameComponent = record { id = c ∷ w; kind = [] } in
    round_more fuel b'/' b'/' c b'/' w (n.id ++ (kind_text (n.kind) ++ print ns)) acc refl h refl
    ∙ r fuel (acc ++ one ∷ []) (omega (arith, l))
    ∙ ap some (append_assoc acc (one ∷ []) (n ∷ ns))
component-Reads (c ∷ w) (k ∷ ks) [] e h p r (suc (suc fuel)) acc l =
    round_more (suc fuel) b'/' b'/' c b'.' w ((k ∷ ks) ++ []) acc refl h refl
    ∙ round_last fuel b'.' b'.' k ks (acc ++ record { id = c ∷ w; kind = [] } ∷ []) refl p
    ∙ ap some (set_last_kind-append (k ∷ ks) acc (record { id = c ∷ w; kind = [] }))
component-Reads (c ∷ w) (k ∷ ks) (n ∷ ns) e h p r (suc (suc fuel)) acc l =
    let rest = n.id ++ (kind_text (n.kind) ++ print ns) in
    let bare : NameComponent = record { id = c ∷ w; kind = [] } in
    let one : NameComponent = record { id = c ∷ w; kind = k ∷ ks } in
    round_more (suc fuel) b'/' b'/' c b'.' w ((k ∷ ks) ++ b'/' ∷ rest) acc refl h refl
    ∙ round_more fuel b'.' b'.' k b'/' ks rest (acc ++ bare ∷ []) refl p refl
    ∙ ap (λ a. str2name_loop fuel b'/' a (b'/' ∷ rest)) (set_last_kind-append (k ∷ ks) acc bare)
    ∙ r fuel (acc ++ one ∷ []) (omega (arith, l))
    ∙ ap some (append_assoc acc (one ∷ []) (n ∷ ns))

IsName-Reads : (ns : List NameComponent) → IsName ns → Reads ns
unfolding print str2name_loop skip_separators
IsName-Reads [] h zero acc l = absurd (omega (arith, l))
IsName-Reads [] h (suc fuel) acc l = ap some (sym (append-nil acc))
IsName-Reads (n ∷ ns) h fuel acc l =
    component-Reads (n.id) (n.kind) ns h.0 h.1 h.2 (IsName-Reads ns h.3) fuel acc l

-- Each component takes two characters.
length-print : (ns : List NameComponent) → IsName ns → length ns + length ns ≤ length (print ns)
unfolding print
length-print [] h = omega arith
length-print (n ∷ ns) h = long (n.id) (n.kind) h.0 (length-print ns h.3)
  where
    long :
        (id kind : Str)
        → IsNotEmpty id
        → length ns + length ns ≤ length (print ns)
        → suc (length ns) + suc (length ns) ≤ suc (length (id ++ (kind_text kind ++ print ns)))
    long [] kind e l = absurd e
    long (c ∷ w) kind e l = omega (
      arith,
      l,
      length-append w (kind_text kind ++ print ns),
      length-append (kind_text kind) (print ns),
    )

-- A name whose ids are not empty, and whose ids and kinds hold no '/' and no '.', is what
-- str2name() makes of the text that operator<< prints of it.
pub str2name-print : (name : List NameComponent) → IsName name → str2name (print name) ≡ some name
unfolding str2name
str2name-print name h =
    IsName-Reads name h (suc (length (print name))) [] (omega (arith, length-print name h))
