-- ===== src/Naming/RoundTrip/Tests.antt =====
-- A context with a kind and an object without one.
use omni_events.Prelude.{◌≡◌, refl, List, [], ◌∷◌, some}
use omni_events.Prelude.Text.{codes}
use omni_events.Naming.{NameComponent, print, kind_text, str2name}
use omni_events.Naming.RoundTrip.{str2name-print}

abbrev name : List NameComponent
name = record { id = codes "ab"; kind = codes "c" } ∷ record { id = codes "d"; kind = [] } ∷ []

printed : print name ≡ codes "/ab.c/d"
unfolding print kind_text
printed = refl

str2name-print_example : str2name (print name) ≡ some name
str2name-print_example =
    str2name-print name (tt, ((refl, (refl, tt))), (refl, tt), (tt, (refl, tt), tt, tt))
