-- ===== src/Iterators/Fetch.antt =====
-- What a client gets from list() and the iterator that it returns.
use Prim.Native.Nat.{min}
use omni_events.Prelude.{
  ℕ, zero, suc, ◌+◌, ◌-◌, ◌≡◌, ◌≤◌, ◌<◌, refl, sym, ap, ◌∙◌, Option, none, some, List, [], ◌∷◌,
  ◌++◌, arith, leb, length, take, drop, get_elem?, Bool-cases, inl, inr, leb→le, length-drop,
}
use mathlib.Core.List.{append-nil}
use omni_events.Iterators.{Iterator, next_one, next_n, list}

pub data Call : Type 0 where
  one : Call
  many : ℕ → Call

abbrev pub requested : List Call → ℕ
requested [] = 0
requested (one ∷ calls) = suc (requested calls)
requested (many k ∷ calls) = k + requested calls

module _ {A : Type 0} where
  abbrev items_of : Option A → List A
  items_of none = []
  items_of (some a) = a ∷ []

  -- The items of a series of calls.
  abbrev pub fetch : Iterator A → List Call → List A
  fetch it [] = []
  fetch it (one ∷ calls) = let (o, next) = next_one it in items_of o ++ fetch next calls
  fetch it (many k ∷ calls) = let (found, xs, next) = next_n k it in xs ++ fetch next calls

  abbrev pub fetch_rest : Option (Iterator A) → List Call → List A
  fetch_rest none calls = []
  fetch_rest (some it) calls = fetch it calls

  drop-plus : (i n : ℕ) (xs : List A) → drop (i + n) xs ≡ drop n (drop i xs)
  drop-plus zero n xs = ap (λ k. drop k xs) (omega arith)
  drop-plus (suc i) zero [] = let e : suc i + 0 ≡ suc i = omega arith in ap (λ k. drop k []) e
  drop-plus (suc i) (suc n) [] =
      let e : suc i + suc n ≡ suc (i + suc n) = omega arith in ap (λ k. drop k []) e
  drop-plus (suc i) n (x ∷ xs) =
      let e : suc i + n ≡ suc (i + n) = omega arith in
      ap (λ k. drop k (x ∷ xs)) e ∙ drop-plus i n xs

  take-drop : (n m : ℕ) (ys : List A) → take n ys ++ take m (drop n ys) ≡ take (n + m) ys
  take-drop zero m ys = ap (λ k. take k ys) (omega arith)
  take-drop (suc n) zero [] = let e : suc n ≡ suc n + 0 = omega arith in ap (λ k. take k []) e
  take-drop (suc n) (suc m) [] =
      let e : suc (n + suc m) ≡ suc n + suc m = omega arith in ap (λ k. take k []) e
  take-drop (suc n) m (y ∷ ys) =
      let e : suc (n + m) ≡ suc n + m = omega arith in
      ap (◌∷◌ y) (take-drop n m ys) ∙ ap (λ k. take k (y ∷ ys)) e

  pub take-all : (n : ℕ) (ys : List A) → length ys ≤ n → take n ys ≡ ys
  take-all zero [] h = refl
  take-all zero (y ∷ ys) h = absurd (omega arith)
  take-all (suc n) [] h = refl
  take-all (suc n) (y ∷ ys) h = ap (◌∷◌ y) (take-all n ys (omega arith))

  -- Taking at most what is there, and then `m` more.
  take-min :
      (k m i : ℕ) (xs : List A)
      → take (min k (length xs - i)) (drop i xs) ++ take m (drop (i + min k (length xs - i)) xs)
        ≡ take (k + m) (drop i xs)
  take-min k m i xs =
      let n = min k (length xs - i) in
      let joined =
        ap (λ ys. take n (drop i xs) ++ take m ys) (drop-plus i n xs) ∙ take-drop n m (drop i xs) in
      let l = length-drop i xs in
      elim (Bool-cases (leb k (length xs - i))) [
        | inl y ↦
            joined ∙ ap (λ j. take (j + m) (drop i xs)) (omega (arith, leb→le k (length xs - i) y))
        | inr n' ↦
            joined
            ∙ take-all (n + m) (drop i xs) (ground arith)
            ∙ sym (take-all (k + m) (drop i xs) (ground arith))
      ]

  drop-all : (i : ℕ) (xs : List A) → length xs ≤ i → drop i xs ≡ []
  drop-all zero [] h = refl
  drop-all zero (x ∷ xs) h = absurd (omega arith)
  drop-all (suc i) [] h = refl
  drop-all (suc i) (x ∷ xs) h = drop-all i xs (omega arith)

  take-nil : (k : ℕ) → take {A = A} k [] ≡ []
  take-nil zero = refl
  take-nil (suc k) = refl

  drop-elem :
      (i m : ℕ) (xs : List A)
      → i < length xs
      → items_of (get_elem? xs i) ++ take m (drop (i + 1) xs) ≡ take (suc m) (drop i xs)
  drop-elem i m [] h = absurd (omega arith)
  drop-elem zero m (x ∷ xs) h =
      let e : 0 + 1 ≡ suc 0 = omega arith in ap (λ k. x ∷ take m (drop k (x ∷ xs))) e
  drop-elem (suc i) m (x ∷ xs) h =
      let e : suc i + 1 ≡ suc (i + 1) = omega arith in
      ap (λ k. items_of (get_elem? xs i) ++ take m (drop k (x ∷ xs))) e
      ∙ drop-elem i m xs (omega arith)

  fetch-requested :
      (xs : List A) (i : ℕ) (calls : List Call)
      → fetch (record { list = xs; offset = i }) calls ≡ take (requested calls) (drop i xs)
  unfolding next_one next_n
  fetch-requested xs i [] = refl
  fetch-requested xs i (one ∷ calls) = elim (Bool-cases (leb (length xs) i)) [
    | inl y ↦ rw y (
        fetch-requested xs i calls
        ∙ ap (take (requested calls)) (drop-all i xs (leb→le (length xs) i y))
        ∙ take-nil (requested calls)
        ∙ sym (ap (take (suc (requested calls))) (drop-all i xs (leb→le (length xs) i y))))
    | inr n ↦ rw n (
        ap (◌++◌ (items_of (get_elem? xs i))) (fetch-requested xs (i + 1) calls)
        ∙ drop-elem i (requested calls) xs (ground (arith, n)))
  ]
  fetch-requested xs i (many k ∷ calls) = elim (Bool-cases (leb (length xs) i)) [
    | inl y ↦ rw y (
        fetch-requested xs i calls
        ∙ ap (take (requested calls)) (drop-all i xs (leb→le (length xs) i y))
        ∙ take-nil (requested calls)
        ∙ sym (
            ap (take (k + requested calls)) (drop-all i xs (leb→le (length xs) i y))
            ∙ take-nil (k + requested calls)))
    | inr n ↦ rw n (
        ap (◌++◌ (take (min k (length xs - i)) (drop i xs)))
          (fetch-requested xs (i + min k (length xs - i)) calls)
        ∙ take-min k (requested calls) i xs)
  ]

  -- What list() returns, followed by what any series of next_one() and next_n() on its iterator
  -- returns, is the beginning of the listed sequence: as many items as were asked for altogether,
  -- each once and in order, and all of them when there are no more.
  pub list-fetch :
      (count : ℕ) (items : List A) (calls : List Call)
      → let (first, rest) = list count items in
        first ++ fetch_rest rest calls ≡ take (count + requested calls) items
  unfolding list next_n
  list-fetch count items calls = elim (Bool-cases (leb (length items) count)) [
    | inl y ↦ rw y (
        append-nil items
        ∙ sym (
            take-all (count + requested calls) items
              (omega (arith, leb→le (length items) count y))))
    | inr n ↦ rw n (fetch-requested items 0 (many count ∷ calls))
  ]
