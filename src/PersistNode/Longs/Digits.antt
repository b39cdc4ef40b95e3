-- ===== src/PersistNode/Longs/Digits.antt =====
-- Decimal digits, written and read.
use omni_events.Prelude.{
  ℕ, zero, suc, ◌+◌, ◌-◌, ◌*◌, ◌/◌, ◌%◌, ◌^◌, ◌<◌, ◌≡◌, refl, ◌==◌, ◌&&◌, ◌||◌, ltb, leb, [], ◌∷◌,
  if◌then◌else◌, arith, Bool-cases, ltb→lt, lt→ltb, inl, inr, ap, sym, ◌∙◌,
}
use omni_events.Prelude.Text.{Str}

-- The digits of a number of at most `fuel` digits, in front of a text.
unfoldable pub digits : ℕ → ℕ → Str → Str
digits zero n s = s
digits (suc fuel) n s =
    let more = digits fuel (n / 10) ((n % 10 + 48) ∷ s) in if ltb n 10 then (n + 48) ∷ s else more

-- The number that the digits at the beginning of a text stand for, behind those that gave `acc`.
unfoldable pub value_of : ℕ → Str → ℕ
value_of acc [] = acc
value_of acc (c ∷ s) =
    let more = value_of (acc * 10 + (c - 48)) s in if leb 48 c && leb c 57 then more else acc

unfoldable pub atol : Str → ℕ
atol [] = 0
atol (c ∷ s) =
    let later = atol s in
    if c == 32 || (leb 9 c && leb c 13)
    then later
    else (if c == b'-'
        then (2 ^ 64 - value_of 0 s) % 2 ^ 64
        else (if c == b'+' then value_of 0 s else value_of 0 (c ∷ s)))

value_of-digit :
    (acc d : ℕ) (s : Str) → d < 10 → value_of acc ((d + 48) ∷ s) ≡ value_of (acc * 10 + d) s
unfolding value_of
value_of-digit acc d s h = ground arith

abbrev pub pow10 : ℕ → ℕ
pow10 zero = 1
pow10 (suc n) = 10 * pow10 n

value_of-digits :
    (fuel n : ℕ) (s : Str)
    → n < pow10 (suc fuel)
    → value_of 0 (digits (suc fuel) n s) ≡ value_of n s
unfolding digits
value_of-digits zero n s h =
    rw (lt→ltb n 10 (omega (arith, h)))
      (value_of-digit 0 n s (omega (arith, h)) ∙ ap (λ k. value_of k s) (omega arith))
value_of-digits (suc fuel) n s h = elim (Bool-cases (ltb n 10)) [
  | inl y ↦
      let l = ltb→lt n 10 y in
      let e : 0 * 10 + n ≡ n = omega arith in
      rw y (value_of-digit 0 n s l ∙ ap (λ k. value_of k s) e)
  | inr f ↦
      let e : n / 10 * 10 + n % 10 ≡ n = omega arith in
      rw f (
        value_of-digits fuel (n / 10) ((n % 10 + 48) ∷ s) (omega (arith, h))
        ∙ value_of-digit (n / 10) (n % 10) s (omega arith)
        ∙ ap (λ k. value_of k s) e)
]

-- Some digit comes first.
digits-first :
    (fuel n : ℕ) (s : Str) → (d : ℕ) × (t : Str) × (d < 10) × (digits (suc fuel) n s ≡ (d + 48) ∷ t)
unfolding digits
digits-first zero n s = elim (Bool-cases (ltb n 10)) [
  | inl y ↦ (n, s, ltb→lt n 10 y, rw y refl)
  | inr f ↦ (n % 10, s, omega arith, rw f refl)
]
digits-first (suc fuel) n s = elim (Bool-cases (ltb n 10)) [
  | inl y ↦ (n, s, ltb→lt n 10 y, rw y refl)
  | inr f ↦ let (d, t, l, e) = digits-first fuel (n / 10) ((n % 10 + 48) ∷ s) in (d, t, l, rw f e)
]

atol-digit : (d : ℕ) (t : Str) → d < 10 → atol ((d + 48) ∷ t) ≡ value_of 0 ((d + 48) ∷ t)
unfolding atol
atol-digit d t h = ground arith

pub atol-digits : (fuel n : ℕ) → n < pow10 (suc fuel) → atol (digits (suc fuel) n []) ≡ n
unfolding value_of
atol-digits fuel n h =
    let (d, t, l, e) = digits-first fuel n [] in
    ap atol e ∙ atol-digit d t l ∙ ap (value_of 0) (sym e) ∙ value_of-digits fuel n [] h

pub atol-minus :
    (fuel n : ℕ)
    → n < pow10 (suc fuel)
    → 0 < n
    → n < 2 ^ 63
    → atol (b'-' ∷ digits (suc fuel) n []) ≡ 2 ^ 64 - n
unfolding atol value_of
atol-minus fuel n h pos small = rw (value_of-digits fuel n [] h) (omega arith)
