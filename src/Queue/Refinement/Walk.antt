-- ===== src/Queue/Refinement/Walk.antt =====
-- The slots of an EventQueue between a reader's index and the writer's.
use omni_events.Prelude.{
  ℕ, zero, suc, ◌+◌, ◌%◌, ◌≤◌, ◌<◌, ◌≡◌, refl, sym, ap, ◌∙◌, ◌≢◌, ◌⊎◌, inl, inr, none, some, List,
  [], ◌∷◌, ◌++◌, arith, length, set, get_or, length-set, dec_lt,
}
use omni_events.Queue.{EventQueue, append}
use native.Mathlib.Nat.{mod-eq_of_lt, mod_self}

-- What the constructor establishes and the operations keep.
pub record IsValid {E : Type 0} (q : EventQueue E) : Type 0 where
  pub room : 1 < q.size
  pub slots : length q.queue ≡ q.size
  pub within : q.next < q.size

-- Stepping an index round the buffer.
pub step_mod :
    (i n : ℕ) → i < n → ((i + 1 < n) × ((i + 1) % n ≡ i + 1)) ⊎ ((i + 1 ≡ n) × ((i + 1) % n ≡ 0))
step_mod i n h = elim (dec_lt (i + 1) n) [
  | yes p ↦ inl (p, mod-eq_of_lt p)
  | no p ↦ let e : i + 1 ≡ n = omega arith in inr (e, rw e (mod_self n))
]

-- The step is injective.
pub step_ne : (i j n : ℕ) → i < n → j < n → i ≢ j → (i + 1) % n ≢ (j + 1) % n
step_ne i j n h k ne = ground (arith, step_mod i n, step_mod j n)

pub get_or-set_self {ℓ} :
    {A : Type ℓ} (xs : List A) (i : ℕ) (v d : A) → i < length xs → get_or (set xs i v) i d ≡ v
get_or-set_self [] i v d h = elim h [ ]
get_or-set_self (x ∷ xs) zero v d h = refl
get_or-set_self (x ∷ xs) (suc i) v d h = get_or-set_self xs i v d (omega arith)

pub get_or-set_ne {ℓ} :
    {A : Type ℓ} (xs : List A) (i j : ℕ) (v d : A) → i ≢ j → get_or (set xs i v) j d ≡ get_or xs j d
get_or-set_ne [] i j v d h = refl
get_or-set_ne (x ∷ xs) zero zero v d h = absurd (h refl)
get_or-set_ne (x ∷ xs) zero (suc j) v d h = refl
get_or-set_ne (x ∷ xs) (suc i) zero v d h = refl
get_or-set_ne (x ∷ xs) (suc i) (suc j) v d h = get_or-set_ne xs i j v d (omega arith)

module _ {E : Type 0} where
  -- The slots from `pos` up to the writer's index hold the events of `u`.
  abbrev pub Holds : EventQueue E → ℕ → List E → Type 0
  Holds q pos [] = pos ≡ q.next
  Holds q pos (e ∷ u) =
      (pos < q.size)
      × (pos ≢ q.next)
      × (get_or q.queue pos none ≡ some e)
      × Holds q ((pos + 1) % q.size) u

  pub append-IsValid : (q : EventQueue E) (e : E) → IsValid q → IsValid (append q e)
  unfolding append
  append-IsValid q e v = ground (arith, length-set q.queue q.next (some e), step_mod q.next q.size)

  pub Holds-length :
      (q : EventQueue E) (pos : ℕ) (u : List E)
      → IsValid q
      → Holds q pos u
      → ((pos ≤ q.next) × (pos + length u ≡ q.next))
        ⊎ ((q.next < pos) × (pos + length u ≡ q.next + q.size))
  Holds-length q pos [] v h = inl (omega arith, omega arith)
  Holds-length q pos (e ∷ u) v h =
      ground (arith, step_mod pos q.size, Holds-length q ((pos + 1) % q.size) u v h.3)

  abbrev pub written : EventQueue E → E → EventQueue E
  written q e = record q { next = (q.next + 1) % q.size; queue = set q.queue q.next (some e) }

  -- A reader that the writer has not lapped sees the new event behind the others.
  pub Holds-written :
      (q : EventQueue E) (e : E) (pos : ℕ) (u : List E)
      → IsValid q
      → pos ≢ (q.next + 1) % q.size
      → Holds q pos u
      → Holds (written q e) pos (u ++ e ∷ [])
  Holds-written q e pos [] v fresh h = (
    omega (arith, v.within),
    λ p. fresh p,
    ground (arith, get_or-set_self q.queue q.next (some e) none),
    ap (λ (n : ℕ). (n + 1) % q.size) h,
  )
  Holds-written q e pos (x ∷ u) v fresh h = (
    h.0,
    λ p. fresh p,
    get_or-set_ne q.queue q.next pos (some e) none (λ p. h.1 (sym p)) ∙ h.2,
    Holds-written q e ((pos + 1) % q.size) u v (step_ne pos q.next q.size h.0 v.within h.1) h.3,
  )
