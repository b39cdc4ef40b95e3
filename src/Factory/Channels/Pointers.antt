-- ===== src/Factory/Channels/Pointers.antt =====
-- The channels of a factory by their pointers, and the names that they are mapped by.
use omni_events.Prelude.{
  ℕ, ◌<◌, ◌≡◌, ◌≢◌, refl, ap, sym, ◌∙◌, subst, ◌⊎◌, inl, inr, true, false, ◌==◌, none, some,
  some-injective, List, [], ◌∷◌, arith, Bool-cases,
}
use omni_events.Prelude.Text.{Str}
use omni_events.EventChannel.{Channel}
use omni_events.EventChannel.Store.{Entry}
use omni_events.Factory.Channels.{at_pointer, drop_pointer}

module _ {S C : Type 0} where
  -- The pointers of a list of channels, the newest first, are all different and below a number.
  abbrev pub Below : ℕ → List (Entry S C) → Type 0
  Below n [] = Unit {0}
  Below n (d ∷ ds) = (d.pointer < n) × Below (d.pointer) ds

  -- The channel at the pointer is in the list, and has a mapper with the id.
  abbrev pub Mapped : Str → ℕ → List (Entry S C) → Type 0
  Mapped id p [] = ⊥
  Mapped id p (d ∷ ds) = ((d.pointer ≡ p) × (d.channel.mapper ≡ some id)) ⊎ Mapped id p ds

pub Below-le : {S C : Type 0} (n m : ℕ) (ds : List (Entry S C)) → n < m → Below n ds → Below m ds
Below-le n m [] h b = tt
Below-le n m (d ∷ ds) h (b, rest) = (omega arith, rest)

module _ {S C : Type 0} where
  Mapped-lt : (id : Str) (q n : ℕ) (ds : List (Entry S C)) → Below n ds → Mapped id q ds → q < n
  Mapped-lt id q n [] b m = elim m [ ]
  Mapped-lt id q n (d ∷ ds) (b, rest) (inl (e, m)) = omega (arith, b, e)
  Mapped-lt id q n (d ∷ ds) (b, rest) (inr m) =
      omega (arith, b, Mapped-lt id q (d.pointer) ds rest m)

  drop_pointer-here :
      (p : ℕ) (d : Entry S C) (ds : List (Entry S C))
      → (d.pointer == p) ≡ true
      → drop_pointer p (d ∷ ds) ≡ ds
  unfolding drop_pointer
  drop_pointer-here p d ds y = rw y refl

  drop_pointer-there :
      (p : ℕ) (d : Entry S C) (ds : List (Entry S C))
      → (d.pointer == p) ≡ false
      → drop_pointer p (d ∷ ds) ≡ d ∷ drop_pointer p ds
  unfolding drop_pointer
  drop_pointer-there p d ds f = rw f refl

  at_pointer-here :
      (p : ℕ) (d : Entry S C) (ds : List (Entry S C))
      → (d.pointer == p) ≡ true
      → at_pointer p (d ∷ ds) ≡ some d.channel
  unfolding at_pointer
  at_pointer-here p d ds y = rw y refl

  at_pointer-there :
      (p : ℕ) (d : Entry S C) (ds : List (Entry S C))
      → (d.pointer == p) ≡ false
      → at_pointer p (d ∷ ds) ≡ at_pointer p ds
  unfolding at_pointer
  at_pointer-there p d ds f = rw f refl

  pub drop_pointer-none :
      (p : ℕ) (ds : List (Entry S C)) → at_pointer p ds ≡ none → drop_pointer p ds ≡ ds
  unfolding at_pointer drop_pointer
  drop_pointer-none p [] h = refl
  drop_pointer-none p (d ∷ ds) h = elim (Bool-cases (d.pointer == p)) [
    | inl y ↦ let wrong : some d.channel ≡ none = sym (at_pointer-here p d ds y) ∙ h in cc
    | inr f ↦ rw f (ap (λ x. d ∷ x) (drop_pointer-none p ds (sym (at_pointer-there p d ds f) ∙ h)))
  ]

  -- What is still mapped when a channel has gone was mapped before, and is another channel.
  pub Mapped-drop_pointer :
      (id : Str) (p q n : ℕ) (c : Channel S C) (ds : List (Entry S C))
      → Below n ds
      → at_pointer p ds ≡ some c
      → Mapped id q (drop_pointer p ds)
      → Mapped id q ds × p ≢ q
  unfolding at_pointer drop_pointer
  Mapped-drop_pointer id p q n c [] b e m = elim m [ ]
  Mapped-drop_pointer id p q n c (d ∷ ds) (b, rest) e m = elim (Bool-cases (d.pointer == p)) [
    | inl y ↦
        let k = subst (Mapped id q) (drop_pointer-here p d ds y) m in
        let lt = Mapped-lt id q (d.pointer) ds rest k in (inr k, ground (arith, y, lt))
    | inr f ↦ elim (subst (Mapped id q) (drop_pointer-there p d ds f) m) [
      | inl (g, h) ↦ (inl (g, h), ground (arith, f, g))
      | inr k ↦
          let (a, z) =
            Mapped-drop_pointer id p q (d.pointer) c ds rest (sym (at_pointer-there p d ds f) ∙ e)
              k in
          (inr a, z)
    ]
  ]

  -- What another channel was mapped by stays.
  pub drop_pointer-Mapped :
      (id : Str) (p q : ℕ) (ds : List (Entry S C))
      → p ≢ q
      → Mapped id q ds
      → Mapped id q (drop_pointer p ds)
  unfolding drop_pointer
  drop_pointer-Mapped id p q [] h m = elim m [ ]
  drop_pointer-Mapped id p q (d ∷ ds) h (inl (e, m)) =
      let other : (d.pointer == p) ≡ false = ground arith in rw other (inl (e, m))
  drop_pointer-Mapped id p q (d ∷ ds) h (inr m) = elim (Bool-cases (d.pointer == p)) [
    | inl y ↦ rw y m
    | inr f ↦ rw f (inr (drop_pointer-Mapped id p q ds h m))
  ]

  -- A channel that is mapped is mapped by the id that it has.
  pub at_pointer-Mapped :
      (id : Str) (p n : ℕ) (c : Channel S C) (ds : List (Entry S C))
      → Below n ds
      → at_pointer p ds ≡ some c
      → Mapped id p ds
      → c.mapper ≡ some id
  unfolding at_pointer
  at_pointer-Mapped id p n c [] b e m = elim m [ ]
  at_pointer-Mapped id p n c (d ∷ ds) (b, rest) e m = elim (Bool-cases (d.pointer == p)) [
    | inl y ↦
        let same : d.channel ≡ c = some-injective _ _ (sym (at_pointer-here p d ds y) ∙ e) in
        elim m [
          | inl (g, h) ↦ sym (ap (λ x. x.mapper) same) ∙ h
          | inr k ↦ let lt = Mapped-lt id p (d.pointer) ds rest k in absurd (ground (arith, y, lt))
        ]
    | inr f ↦ elim m [
      | inl (g, h) ↦ absurd (ground (arith, f, g))
      | inr k ↦ at_pointer-Mapped id p (d.pointer) c ds rest (sym (at_pointer-there p d ds f) ∙ e) k
    ]
  ]

  pub Mapped-at_pointer :
      (id : Str) (p : ℕ) (c : Channel S C) (ds : List (Entry S C))
      → at_pointer p ds ≡ some c
      → c.mapper ≡ some id
      → Mapped id p ds
  unfolding at_pointer
  Mapped-at_pointer id p c [] e m = let wrong = e in cc
  Mapped-at_pointer id p c (d ∷ ds) e m = elim (Bool-cases (d.pointer == p)) [
    | inl y ↦
        let same : d.channel ≡ c = some-injective _ _ (sym (at_pointer-here p d ds y) ∙ e) in
        inl (ground arith, ap (λ x. x.mapper) same ∙ m)
    | inr f ↦ inr (Mapped-at_pointer id p c ds (sym (at_pointer-there p d ds f) ∙ e) m)
  ]

  pub Below-drop_pointer :
      (p n : ℕ) (ds : List (Entry S C)) → Below n ds → Below n (drop_pointer p ds)
  unfolding drop_pointer
  Below-drop_pointer p n [] b = tt
  Below-drop_pointer p n (d ∷ ds) (b, rest) = elim (Bool-cases (d.pointer == p)) [
    | inl y ↦ subst (Below n) (sym (drop_pointer-here p d ds y)) (Below-le (d.pointer) n ds b rest)
    | inr f ↦
        subst (Below n) (sym (drop_pointer-there p d ds f))
          (b, Below-drop_pointer p (d.pointer) ds rest)
  ]
