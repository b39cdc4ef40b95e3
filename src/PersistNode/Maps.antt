-- ===== src/PersistNode/Maps.antt =====
-- A std::map from strings to strings, as the list of its entries in the order of their keys.
use omni_events.Prelude.{◌≡◌, refl, Option, none, some, List, [], ◌∷◌, Ordering, arith, false}
use omni_events.Prelude.Text.{Str, compare_str, compare_str_refl, compare_str-eq, is_eq}

abbrev pub Attrs : Type 0
Attrs = List (Str × Str)

-- `_attr[key]=value`.
unfoldable pub set_attr : Str → Str → Attrs → Attrs
set_attr key value [] = (key, value) ∷ []
set_attr key value ((k, v) ∷ ats) = elim (compare_str key k) [
  | Ordering.lt ↦ (key, value) ∷ (k, v) ∷ ats
  | Ordering.eq ↦ (k, value) ∷ ats
  | Ordering.gt ↦ (k, v) ∷ set_attr key value ats
]

unfoldable pub find_attr : Str → Attrs → Option Str
find_attr key [] = none
find_attr key ((k, v) ∷ ats) = elim (compare_str key k) [
  | Ordering.eq ↦ some v
  | _ ↦ find_attr key ats
]

pub find_attr-set_attr :
    (key value : Str) (ats : Attrs) → find_attr key (set_attr key value ats) ≡ some value
unfolding find_attr set_attr
find_attr-set_attr key value [] = rw (compare_str_refl key, find_attr) refl
find_attr-set_attr key value ((k, v) ∷ ats) =
    ground (arith, compare_str_refl key, find_attr-set_attr key value ats)

pub find_attr-set_attr_other :
    (key k value : Str) (ats : Attrs)
    → is_eq (compare_str key k) ≡ false
    → find_attr key (set_attr k value ats) ≡ find_attr key ats
unfolding find_attr set_attr
find_attr-set_attr_other key k value [] h = ground (arith, h)
find_attr-set_attr_other key k value ((j, w) ∷ ats) h =
    ground (arith, h, compare_str-eq k j, find_attr-set_attr_other key k value ats h)
