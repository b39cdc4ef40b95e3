-- ===== src/Prelude/Text.antt =====
-- Strings as the lists of their character codes, compared as `std::string` compares them.
use Prim.Native.Nat.{ℕ, compare, Ordering}
use Prim.Native.Char.{code}
use Prim.Native.String.{String}
use mathlib.Core.Path.{◌≡◌, refl, subst}
use mathlib.Core.Logic.{◌⊎◌, inl, inr}
use mathlib.Core.Bool.{Bool, true, false, ◌&&◌}
use mathlib.Core.List.{List, [], ◌∷◌}
use native.Mathlib.Omega.{arith}

abbrev pub Str : Type 0
Str = List ℕ

-- The character codes of a text literal.
abbrev pub codes : String → Str
codes String.[] = []
codes (String.◌∷◌ c s) = code c ∷ codes s

-- `operator<` and `operator==` of std::string, as one three-way comparison.
unfoldable pub compare_str : Str → Str → Ordering
compare_str [] [] = Ordering.eq
compare_str [] (b ∷ t) = Ordering.lt
compare_str (a ∷ s) [] = Ordering.gt
compare_str (a ∷ s) (b ∷ t) = elim (compare a b) [
  | Ordering.lt ↦ Ordering.lt
  | Ordering.eq ↦ compare_str s t
  | Ordering.gt ↦ Ordering.gt
]

abbrev pub is_eq : Ordering → Bool
is_eq Ordering.eq = true
is_eq _ = false

unfoldable pub str_eq : Str → Str → Bool
str_eq [] [] = true
str_eq [] (b ∷ t) = false
str_eq (a ∷ s) [] = false
str_eq (a ∷ s) (b ∷ t) = is_eq (compare a b) && str_eq s t

pub str_eq→eq : (s t : Str) → str_eq s t ≡ true → s ≡ t
unfolding str_eq
str_eq→eq [] [] h = refl
str_eq→eq [] (b ∷ t) h = cc
str_eq→eq (a ∷ s) [] h = cc
str_eq→eq (a ∷ s) (b ∷ t) h = ground (arith, str_eq→eq s t)

pub str_eq_refl : (s : Str) → str_eq s s ≡ true
unfolding str_eq
str_eq_refl [] = refl
str_eq_refl (a ∷ s) = ground (arith, str_eq_refl s)

pub compare_str_refl : (s : Str) → compare_str s s ≡ Ordering.eq
unfolding compare_str
compare_str_refl [] = refl
compare_str_refl (a ∷ s) = ground (arith, compare_str_refl s)

pub compare_str-of_eq : (s t : Str) → s ≡ t → compare_str s t ≡ Ordering.eq
compare_str-of_eq s t e = subst (λ x. compare_str s x ≡ Ordering.eq) e (compare_str_refl s)

pub compare_str-eq : (s t : Str) → compare_str s t ≡ Ordering.eq → s ≡ t
unfolding compare_str
compare_str-eq [] [] h = refl
compare_str-eq [] (b ∷ t) h = cc
compare_str-eq (a ∷ s) [] h = cc
compare_str-eq (a ∷ s) (b ∷ t) h = ground (arith, compare_str-eq s t)

pub compare_str-lt_gt : (s t : Str) → compare_str s t ≡ Ordering.lt → compare_str t s ≡ Ordering.gt
unfolding compare_str
compare_str-lt_gt [] [] h = cc
compare_str-lt_gt [] (b ∷ t) h = refl
compare_str-lt_gt (a ∷ s) [] h = cc
compare_str-lt_gt (a ∷ s) (b ∷ t) h = ground (arith, compare_str-lt_gt s t)

pub compare_str-lt_trans :
    (s t u : Str)
    → compare_str s t ≡ Ordering.lt
    → compare_str t u ≡ Ordering.lt
    → compare_str s u ≡ Ordering.lt
unfolding compare_str
compare_str-lt_trans [] [] u h k = cc
compare_str-lt_trans [] (b ∷ t) [] h k = cc
compare_str-lt_trans [] (b ∷ t) (c ∷ u) h k = refl
compare_str-lt_trans (a ∷ s) [] u h k = cc
compare_str-lt_trans (a ∷ s) (b ∷ t) [] h k = cc
compare_str-lt_trans (a ∷ s) (b ∷ t) (c ∷ u) h k = ground (arith, compare_str-lt_trans s t u)

pub compare_str-gt_lt : (s t : Str) → compare_str s t ≡ Ordering.gt → compare_str t s ≡ Ordering.lt
unfolding compare_str
compare_str-gt_lt [] [] h = cc
compare_str-gt_lt [] (b ∷ t) h = cc
compare_str-gt_lt (a ∷ s) [] h = refl
compare_str-gt_lt (a ∷ s) (b ∷ t) h = ground (arith, compare_str-gt_lt s t)

pub compare_str-cases :
    (s t : Str) → (compare_str s t ≡ Ordering.lt) ⊎ ((s ≡ t) ⊎ (compare_str s t ≡ Ordering.gt))
compare_str-cases s t = cases (compare_str s t) refl
  where
    cases :
        (o : Ordering)
        → compare_str s t ≡ o
        → (compare_str s t ≡ Ordering.lt) ⊎ ((s ≡ t) ⊎ (compare_str s t ≡ Ordering.gt))
    cases Ordering.lt e = inl e
    cases Ordering.eq e = inr (inl (compare_str-eq s t e))
    cases Ordering.gt e = inr (inr e)
