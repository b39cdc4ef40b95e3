-- ===== src/Factory/Channels/Names.antt =====
-- The names of the channels of a factory, as create_channel() and join_channel() treat them.
use omni_events.Prelude.{
  ℕ, ◌+◌, ◌≡◌, refl, ap, sym, ◌∙◌, subst, ◌⊎◌, Bool, true, false, not, ◌&&◌, ◌||◌, Option, none,
  some, some-injective, List, [], ◌∷◌, ◌++◌, if◌then◌else◌, Option-cases, Bool-cases, inl, inr,
}
use omni_events.Prelude.Text.{Str, codes, str_eq, str_eq_refl}
use omni_events.PersistNode.{PersistNode, node, leaf, addattr, split_attr, has_attr, attr_string}
use omni_events.PersistNode.Maps.{set_attr, find_attr}
use omni_events.EventChannel.{Admins, Channel, new_channel, activate}
use omni_events.Factory.{supports, setting_of, apply_setting, parse_rest, parse_criteria}
use omni_events.Factory.Channels.{
  Target, a_channel, Adapters, Factory, NameReply, channel, name_already_used, find, started,
  reply_of, answer_of, set_ins_name, join_channel, activate_channel, create_with, create_object,
  create_channel, named,
}

-- What the CORBA standard says of the calls: the names that are in use, and what stays the same.
pub record IsAdapters {W : Type 0} (adapters : Adapters W) : Type 0 where
  pub has_poa : Str → W → Bool
  pub poa_taken : (n : Str) (w : W) → has_poa n w ≡ true → adapters.create_poa n w ≡ none
  pub poa_free :
      (n : Str) (w : W) → has_poa n w ≡ false → (v : W) × (adapters.create_poa n w ≡ some v)
  pub poa_made :
      (n : Str) (w v : W)
      → adapters.create_poa n w ≡ some v
      → (m : Str)
      → (has_poa m v ≡ (str_eq m n || has_poa m w)) × (adapters.find_id m v ≡ adapters.find_id m w)
  pub id_taken :
      (i : Str) (t u : Target) (w : W)
      → adapters.find_id i w ≡ some u
      → adapters.activate_id i t w ≡ none
  pub id_free :
      (i : Str) (t : Target) (w : W)
      → adapters.find_id i w ≡ none
      → (v : W) × (adapters.activate_id i t w ≡ some v)
  pub id_made :
      (i : Str) (t : Target) (w v : W)
      → adapters.activate_id i t w ≡ some v
      → (j : Str)
      → (adapters.find_id j v ≡ (if str_eq j i then some t else adapters.find_id j w))
        × (has_poa j v ≡ has_poa j w)
  pub poa_ended :
      (n : Str) (w : W) (m : Str)
      → (has_poa m (adapters.destroy_poa n w) ≡ (not (str_eq m n) && has_poa m w))
        × (adapters.find_id m (adapters.destroy_poa n w) ≡ adapters.find_id m w)
  pub id_ended :
      (i : Str) (w : W) (j : Str)
      → (adapters.find_id j (adapters.deactivate_id i w)
          ≡ (if str_eq j i then none else adapters.find_id j w))
        × (has_poa j (adapters.deactivate_id i w) ≡ has_poa j w)

abbrev pub named_node : Str → PersistNode
named_node name = node leaf ((codes "InsName", name) ∷ [])

abbrev outcome_of :
    {S C W : Type 0} → Str → Factory S C W → Option (Channel S C) × W → NameReply × Factory S C W
outcome_of name f r = (answer_of (reply_of (named name) f.allocated r.0), started r.0 r.1 f)

module _ {S C E W : Type 0} (admins : Admins S C E) (adapters : Adapters W) where
  abbrev fresh_channel : Str → Channel S C
  fresh_channel name = activate admins name (some (named_node name)) new_channel

  create_channel-named :
      (pid seconds c : ℕ) (s : Str) (f : Factory S C W)
      → create_channel admins adapters pid seconds (c ∷ s) f ≡ (
          let (r, g) =
            create_with admins adapters pid seconds (named (c ∷ s)) (named_node (c ∷ s)) f in
          (answer_of r, g))
  unfolding create_channel create_object supports parse_criteria parse_rest apply_setting setting_of
      addattr split_attr set_attr create_with str_eq
  create_channel-named pid seconds c s f = refl

  activated :
      (p c : ℕ) (s : Str) (w : W)
      → activate_channel admins adapters p (c ∷ s) (named_node (c ∷ s)) w
        ≡ (elim (adapters.create_poa (c ∷ s) w) [
          | none ↦ (none, w)
          | some u ↦ elim (adapters.activate_id (c ∷ s) (a_channel p) u) [
            | none ↦ (none, u)
            | some v ↦ (some (record (fresh_channel (c ∷ s)) { mapper = some (c ∷ s) }), v)
          ]
        ])
  unfolding activate_channel set_ins_name activate attr_string find_attr
      omni_events.Prelude.Text.compare_str
  activated p c s w = refl

  create_channel-activated :
      (pid seconds c : ℕ) (s : Str) (f : Factory S C W)
      → create_channel admins adapters pid seconds (c ∷ s) f
        ≡ outcome_of
            (c ∷ s)
            f
            (activate_channel admins adapters f.allocated (c ∷ s) (named_node (c ∷ s)) f.orb)
  unfolding create_with has_attr find_attr attr_string omni_events.Prelude.Text.compare_str
  create_channel-activated pid seconds c s f = create_channel-named pid seconds c s f ∙ refl

  -- How create_channel() ends, given how activate() does.
  ends :
      (pid seconds c : ℕ) (s : Str) (f : Factory S C W) (r : Option (Channel S C) × W)
      → activate_channel admins adapters f.allocated (c ∷ s) (named_node (c ∷ s)) f.orb ≡ r
      → create_channel admins adapters pid seconds (c ∷ s) f ≡ outcome_of (c ∷ s) f r
  ends pid seconds c s f r e =
      create_channel-activated pid seconds c s f ∙ ap (outcome_of (c ∷ s) f) e

  -- The three ways in which activate() ends.
  activated-no_poa :
      (p c : ℕ) (s : Str) (w : W)
      → adapters.create_poa (c ∷ s) w ≡ none
      → activate_channel admins adapters p (c ∷ s) (named_node (c ∷ s)) w ≡ (none, w)
  activated-no_poa p c s w e = activated p c s w ∙ rw e refl

  activated-no_id :
      (p c : ℕ) (s : Str) (w u : W)
      → adapters.create_poa (c ∷ s) w ≡ some u
      → adapters.activate_id (c ∷ s) (a_channel p) u ≡ none
      → activate_channel admins adapters p (c ∷ s) (named_node (c ∷ s)) w ≡ (none, u)
  activated-no_id p c s w u e d = activated p c s w ∙ rw e (rw d refl)

-- The name is in use: by a POA, or by an object of the INSPOA.
abbrev pub InUse : {W : Type 0} {adapters : Adapters W} → IsAdapters adapters → Str → W → Type 0
InUse {adapters = adapters} laws name w =
    (laws.has_poa name w ≡ true) ⊎ ((t : Target) × (adapters.find_id name w ≡ some t))

-- What a refused create_channel() leaves: every other name as it was, and this one in use by a POA.
abbrev pub Refused :
    {S C W : Type 0} {adapters : Adapters W}
    → IsAdapters adapters
    → Str
    → Factory S C W
    → NameReply × Factory S C W
    → Type 0
Refused {adapters = adapters} laws name f (r, g) =
    (r ≡ name_already_used)
    × (g.channels ≡ f.channels)
    × ((other : Str) → join_channel adapters other g ≡ join_channel adapters other f)
    × (laws.has_poa name g.orb ≡ true)

-- What a create_channel() that succeeds leaves.
abbrev pub Made :
    {S C W : Type 0} {adapters : Adapters W}
    → IsAdapters adapters
    → Str
    → Factory S C W
    → NameReply × Factory S C W
    → Type 0
Made {adapters = adapters} laws name f (r, g) =
    (r ≡ channel f.allocated)
    × (join_channel adapters name g ≡ r)
    × ((other : Str)
        → str_eq other name ≡ false
        → join_channel adapters other g ≡ join_channel adapters other f)
    × (laws.has_poa name g.orb ≡ true)

module _ {S C E W : Type 0} (admins : Admins S C E) (adapters : Adapters W)
    (laws : IsAdapters adapters) where
  Refused-no_poa :
      (name : Str) (f : Factory S C W)
      → laws.has_poa name f.orb ≡ true
      → Refused laws name f (outcome_of name f (none, f.orb))
  unfolding join_channel str_eq
  Refused-no_poa name f h = (refl, refl, λ other. refl, h)

  Refused-no_id :
      (name : Str) (f : Factory S C W) (u : W)
      → adapters.create_poa name f.orb ≡ some u
      → Refused laws name f (outcome_of name f (none, u))
  unfolding join_channel str_eq
  Refused-no_id name f u e = (
    refl,
    refl,
    λ other. ap find ((laws.poa_made name f.orb u e other).1),
    (laws.poa_made name f.orb u e name).0 ∙ rw (str_eq_refl name) refl,
  )

  -- If a POA or an object of the INSPOA has the name, create_channel() throws NameAlreadyUsed, no channel
  -- is added, and every name is joined to what it was. A POA has the name afterwards, also where only the
  -- INSPOA had it before.
  pub create_channel-taken :
      (pid seconds c : ℕ) (s : Str) (f : Factory S C W)
      → InUse laws (c ∷ s) f.orb
      → Refused laws (c ∷ s) f (create_channel admins adapters pid seconds (c ∷ s) f)
  create_channel-taken pid seconds c s f taken =
      let name = c ∷ s in
      elim (Bool-cases (laws.has_poa name f.orb)) [
        | inl y ↦
            subst (Refused laws name f)
              (sym (
                ends admins adapters pid seconds c s f (none, f.orb)
                  (activated-no_poa admins adapters f.allocated c s f.orb
                    (laws.poa_taken name f.orb y))))
              (Refused-no_poa name f y)
        | inr n ↦
            let (u, e) = laws.poa_free name f.orb n in
            elim taken [
              | inl h ↦ let wrong = sym h ∙ n in cc
              | inr (t, h) ↦
                  subst (Refused laws name f)
                    (sym (
                      ends admins adapters pid seconds c s f (none, u)
                        (activated-no_id admins adapters f.allocated c s f.orb u e (
                          laws.id_taken name (a_channel f.allocated) t u
                            ((laws.poa_made name f.orb u e name).1 ∙ h)))))
                    (Refused-no_id name f u e)
            ]
      ]
