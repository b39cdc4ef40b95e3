-- ===== src/Factory/Channels/Dangling.antt =====
-- The names that clients find channels by stand for the channels that there are.
use omni_events.Prelude.{
  ℕ, ◌+◌, ◌≡◌, refl, ap, sym, ◌∙◌, subst, inl, inr, Option, none, some, some-injective, [], ◌∷◌,
  if◌then◌else◌, arith, Bool-cases, Option-cases,
}
use omni_events.Prelude.Text.{Str, codes, str_eq, str_eq_refl, str_eq→eq}
use omni_events.PersistNode.{PersistNode, attr_string}
use omni_events.EventChannel.{Admins, Channel, new_channel, activate}
use omni_events.Factory.Channels.{
  a_channel, Adapters, Factory, started, set_ins_name, activate_channel, destroy_mapper,
}
use omni_events.Factory.Channels.Names.{IsAdapters}
use omni_events.Factory.Channels.Pointers.{Below, Mapped, Below-le}

-- Every id that stands for a channel is the id of the mapper of a channel that there is, and the other
-- way round.
abbrev pub IsConsistent : {S C W : Type 0} → Adapters W → Factory S C W → Type 0
IsConsistent adapters f =
    Below f.allocated f.channels
    × ((id : Str) (p : ℕ) → adapters.find_id id f.orb ≡ some (a_channel p) → Mapped id p f.channels)
    × ((id : Str) (p : ℕ) → Mapped id p f.channels → adapters.find_id id f.orb ≡ some (a_channel p))

-- The ids after a call that made a mapper with an id, or none.
abbrev pub Ids : {W : Type 0} → Adapters W → ℕ → W → W → Option Str → Type 0
Ids adapters p w v none = (id : Str) → adapters.find_id id v ≡ adapters.find_id id w
Ids adapters p w v (some i) =
    (adapters.find_id i w ≡ none)
    × ((id : Str)
        → adapters.find_id id v
          ≡ (if str_eq id i then some (a_channel p) else adapters.find_id id w))

abbrev pub IdsAfter : {S C W : Type 0} → Adapters W → ℕ → W → Option (Channel S C) × W → Type 0
IdsAfter adapters p w (none, v) = Ids adapters p w v none
IdsAfter adapters p w (some d, v) = Ids adapters p w v d.mapper

module _ {W : Type 0} (adapters : Adapters W) (laws : IsAdapters adapters) where
  Ids-trans :
      (p : ℕ) (w u v : W) (m : Option Str)
      → ((id : Str) → adapters.find_id id u ≡ adapters.find_id id w)
      → Ids adapters p u v m
      → Ids adapters p w v m
  Ids-trans p w u v none same h = λ id. h id ∙ same id
  Ids-trans p w u v (some i) same (h, k) = (
    sym (same i) ∙ h,
    λ id. k id ∙ ap (λ o. if str_eq id i then some (a_channel p) else o) (same id),
  )

  activated-Ids :
      (p : ℕ) (i : Str) (w v : W)
      → adapters.activate_id i (a_channel p) w ≡ some v
      → Ids adapters p w v (some i)
  activated-Ids p i w v e = (
    elim (Option-cases (adapters.find_id i w)) [
      | inl absent ↦ absent
      | inr (t, found) ↦ let wrong = sym (laws.id_taken i (a_channel p) t w found) ∙ e in cc
    ],
    λ id. (laws.id_made i (a_channel p) w v e id).0,
  )

  set_ins_name-Ids :
      {S C : Type 0} (p : ℕ) (v : Str) (c : Channel S C) (w : W)
      → c.mapper ≡ none
      → IdsAfter adapters p w (set_ins_name adapters p v c w)
  unfolding set_ins_name
  set_ins_name-Ids p [] c w h = λ id. ap (λ m. adapters.find_id id (destroy_mapper adapters m w)) h
  set_ins_name-Ids p (x ∷ xs) c w h =
      elim (Option-cases (adapters.activate_id (x ∷ xs) (a_channel p) w)) [
        | inl e ↦ rw (e, set_ins_name) (λ id. refl)
        | inr (u, e) ↦
            rw (e, set_ins_name)
              (subst (λ m. Ids adapters p w (destroy_mapper adapters m u) (some (x ∷ xs))) (sym h)
                (activated-Ids p (x ∷ xs) w u e))
      ]

module _ {S C E W : Type 0} (admins : Admins S C E) (adapters : Adapters W)
    (laws : IsAdapters adapters) where
  IdsAfter-trans :
      (p : ℕ) (w u : W) (r : Option (Channel S C) × W)
      → ((id : Str) → adapters.find_id id u ≡ adapters.find_id id w)
      → IdsAfter adapters p u r
      → IdsAfter adapters p w r
  IdsAfter-trans p w u (none, v) same h = Ids-trans adapters laws p w u v none same h
  IdsAfter-trans p w u (some d, v) same h = Ids-trans adapters laws p w u v d.mapper same h

  pub activate_channel-IdsAfter :
      (p : ℕ) (name : Str) (n : PersistNode) (w : W)
      → IdsAfter adapters p w (activate_channel admins adapters p name n w)
  unfolding activate_channel activate
  activate_channel-IdsAfter p name n w = elim (Option-cases (adapters.create_poa name w)) [
    | inl e ↦ rw (e, activate_channel) (λ id. refl)
    | inr (u, e) ↦
        let c = activate admins name (some n) new_channel in
        let v = attr_string (codes "InsName") [] (c.properties) in
        rw (e, activate_channel)
          (IdsAfter-trans p w u (set_ins_name adapters p v c u)
            (λ id. (laws.poa_made name w u e id).1) (set_ins_name-Ids adapters laws p v c u refl))
  ]

pub some_channel : (p q : ℕ) → some (a_channel p) ≡ some (a_channel q) → p ≡ q
some_channel p q e = cc

module _ {S C W : Type 0} (adapters : Adapters W) where
  forward :
      (f : Factory S C W) (d : Channel S C) (v : W) (m : Option Str)
      → IsConsistent adapters f
      → d.mapper ≡ m
      → Ids adapters f.allocated f.orb v m
      → (id : Str) (p : ℕ) → adapters.find_id id v ≡ some (a_channel p)
      → Mapped id p (record { pointer = f.allocated; channel = d } ∷ f.channels)
  forward f d v none (b, there, back) h same id p e = inr (there id p (sym (same id) ∙ e))
  forward f d v (some i) (b, there, back) h (absent, k) id p e = elim (Bool-cases (str_eq id i)) [
    | inl y ↦
        let q : adapters.find_id id v ≡ some (a_channel f.allocated) = k id ∙ rw y refl in
        inl (some_channel f.allocated p (sym q ∙ e), h ∙ ap some (sym (str_eq→eq id i y)))
    | inr n ↦
        let q : adapters.find_id id v ≡ adapters.find_id id f.orb = k id ∙ rw n refl in
        inr (there id p (sym q ∙ e))
  ]

  backward :
      (f : Factory S C W) (d : Channel S C) (v : W) (m : Option Str)
      → IsConsistent adapters f
      → d.mapper ≡ m
      → Ids adapters f.allocated f.orb v m
      → (id : Str) (p : ℕ)
      → Mapped id p (record { pointer = f.allocated; channel = d } ∷ f.channels)
      → adapters.find_id id v ≡ some (a_channel p)
  backward f d v none c h same id p (inl (e, g)) = let wrong = sym h ∙ g in cc
  backward f d v none (b, there, back) h same id p (inr g) = same id ∙ back id p g
  backward f d v (some i) c h (absent, k) id p (inl (e, g)) =
      let i_id : i ≡ id = some-injective i id (sym h ∙ g) in
      let q : adapters.find_id i v ≡ some (a_channel f.allocated) = k i ∙ rw (str_eq_refl i) refl in
      subst (λ j. adapters.find_id j v ≡ some (a_channel p)) i_id
        (q ∙ ap (λ x. some (a_channel x)) e)
  backward f d v (some i) (b, there, back) h (absent, k) id p (inr g) =
      elim (Bool-cases (str_eq id i)) [
        | inl y ↦
            let wrong : none ≡ some (a_channel p) =
              sym absent
              ∙ subst (λ j. adapters.find_id j f.orb ≡ some (a_channel p)) (str_eq→eq id i y)
                  (back id p g) in
            cc
        | inr n ↦ k id ∙ rw n (back id p g)
      ]

  pub started-IsConsistent :
      (f : Factory S C W) (count : ℕ) (r : Option (Channel S C) × W)
      → IsConsistent adapters f
      → IdsAfter adapters f.allocated f.orb r
      → IsConsistent adapters (started r.0 r.1 (record f { count = count }))
  started-IsConsistent f count (none, v) (b, there, back) same = (
    Below-le f.allocated (f.allocated + 1) f.channels (omega arith) b,
    λ id p e. there id p (sym (same id) ∙ e),
    λ id p m. same id ∙ back id p m,
  )
  started-IsConsistent f count (some d, v) c k =
      ((omega arith, c.0), forward f d v d.mapper c refl k, backward f d v d.mapper c refl k)
