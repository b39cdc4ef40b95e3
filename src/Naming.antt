-- ===== src/Naming.antt =====
-- Names of the CORBA Naming Service as text: operator<< and str2name() of src/naming.cc. A component
-- whose kind is null has the empty kind here.
pub mod RoundTrip
pub mod Binding
use omni_events.Prelude.{
  ℕ, zero, suc, ◌==◌, Bool, true, false, ◌||◌, Option, none, some, List, [], ◌∷◌, ◌++◌,
  if◌then◌else◌, length,
}
use omni_events.Prelude.Text.{Str, codes}

pub record NameComponent : Type 0 where
  pub id : Str
  pub kind : Str

unfoldable pub kind_text : Str → Str
kind_text [] = []
kind_text (c ∷ s) = codes "." ++ (c ∷ s)

-- operator<<.
unfoldable pub print : List NameComponent → Str
print [] = []
print (n ∷ ns) = codes "/" ++ (n.id ++ (kind_text (n.kind) ++ print ns))

abbrev pub is_separator : ℕ → Bool
is_separator c = c == b'/' || c == b'.'

-- find_first_not_of("/.").
unfoldable pub skip_separators : Str → Str
skip_separators [] = []
skip_separators (c ∷ s) = let later = skip_separators s in if is_separator c then later else c ∷ s

-- The text before find_first_of("/."), and the text from there on.
unfoldable pub split_piece : Str → Str × Str
split_piece [] = ([], [])
split_piece (c ∷ s) =
    let (piece, rest) = split_piece s in if is_separator c then ([], c ∷ s) else (c ∷ piece, rest)

-- `name[nameLen-1].kind=...`; an empty name has no such component.
unfoldable pub set_last_kind : Str → List NameComponent → List NameComponent
set_last_kind kind [] = []
set_last_kind kind (n ∷ []) = record n { kind = kind } ∷ []
set_last_kind kind (n ∷ m ∷ ns) = n ∷ set_last_kind kind (m ∷ ns)

unfoldable pub add_piece : ℕ → Str → List NameComponent → List NameComponent
add_piece last piece name =
    if last == b'/' then name ++ record { id = piece; kind = [] } ∷ [] else set_last_kind piece name

-- The loop, one round for each piece; `none` is fuel that ran out.
unfoldable pub str2name_loop : ℕ → ℕ → List NameComponent → Str → Option (List NameComponent)
str2name_loop zero last name s = none
str2name_loop (suc fuel) last name s = elim (skip_separators s) [
  | [] ↦ some name
  | c ∷ t ↦
      let (piece, rest) = split_piece (c ∷ t) in
      let longer = add_piece last piece name in
      elim rest [ [] ↦ some longer | sep ∷ u ↦ str2name_loop fuel sep longer (sep ∷ u) ]
]

unfoldable pub str2name : Str → Option (List NameComponent)
str2name s = str2name_loop (suc (length s)) b'/' [] s
