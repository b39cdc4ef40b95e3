-- ===== src/Factory/Channels/Reachable.antt =====
-- Whatever clients create and destroy, in whatever order, beginning with the constructor.
use omni_events.Prelude.{
  ℕ, ◌+◌, ◌≡◌, refl, ap, sym, ◌∙◌, subst, inl, inr, Option, none, some, some-injective, List, [],
  if◌then◌else◌, Bool-cases, Option-cases,
}
use omni_events.Prelude.Text.{Str, codes, str_eq, str_eq→eq}
use omni_events.PersistNode.{PersistNode, Children, leaf, branch, has_attr, attr_string}
use omni_events.EventChannel.{Admins}
use omni_events.Factory.{
  Criterion, KeyPart, Outcome, parsed, invalid_criteria, cannot_meet_criteria, supports,
  parse_criteria,
}
use omni_events.Factory.Channels.{
  Target, a_channel, the_factory, Adapters, Factory, Created, not_valid, not_met, channel, find,
  started, activate_channel, create_with, create_object, join_channel, if_made, restore,
  new_factory, new_unique_id, end_channel,
}
use omni_events.Factory.Channels.Names.{IsAdapters}
use omni_events.Factory.Channels.Pointers.{Mapped}
use omni_events.Factory.Channels.Ending.{end_channel-IsConsistent}
use omni_events.Factory.Channels.Dangling.{
  IsConsistent, activate_channel-IdsAfter, started-IsConsistent,
}

module _ {S C E W : Type 0} (admins : Admins S C E) (adapters : Adapters W) where
  pub data Step : Factory S C W → Factory S C W → Type 0 where
    created :
        (pid seconds : ℕ) (key : List KeyPart) (criteria : List Criterion) (f : Factory S C W)
        → Step f ((create_object admins adapters pid seconds key criteria f).1)
    ended : (p : ℕ) (f : Factory S C W) → Step f (end_channel adapters p f)

  pub data Reach (start : Factory S C W) : Factory S C W → Type 0 where
    here : Reach start start
    next : (f g : Factory S C W) → Reach start f → Step f g → Reach start g

module _ {S C E W : Type 0} (admins : Admins S C E) (adapters : Adapters W)
    (laws : IsAdapters adapters) where
  create_with-IsConsistent :
      (pid seconds : ℕ) (criteria : List Criterion) (n : PersistNode) (f : Factory S C W)
      → IsConsistent adapters f
      → IsConsistent adapters ((create_with admins adapters pid seconds criteria n f).1)
  unfolding create_with
  create_with-IsConsistent pid seconds criteria n f c =
      let named = has_attr (codes "InsName") n in
      let count = if named then f.count else f.count + 1 in
      let id =
        if named
        then attr_string (codes "InsName") [] n
        else new_unique_id (f.count + 1) pid seconds in
      started-IsConsistent adapters f count
        (activate_channel admins adapters f.allocated id n f.orb) c
        (activate_channel-IdsAfter admins adapters laws f.allocated id n f.orb)

  create_object-IsConsistent :
      (pid seconds : ℕ) (key : List KeyPart) (criteria : List Criterion) (f : Factory S C W)
      → IsConsistent adapters f
      → IsConsistent adapters ((create_object admins adapters pid seconds key criteria f).1)
  unfolding create_object
  create_object-IsConsistent pid seconds key criteria f c = elim (Bool-cases (supports key)) [
    | inl y ↦ rw y (by_outcome (parse_criteria criteria))
    | inr n ↦ rw n c
  ]
    where
      by_outcome :
          (o : Outcome)
          → IsConsistent adapters (
              (elim o as (λ _. Created × Factory S C W) [
                | parsed n ↦ create_with admins adapters pid seconds criteria n f
                | invalid_criteria found ↦ (not_valid found, f)
                | cannot_meet_criteria found ↦ (not_met found, f)
              ]).1)
      by_outcome (parsed n) = create_with-IsConsistent pid seconds criteria n f c
      by_outcome (invalid_criteria l) = c
      by_outcome (cannot_meet_criteria l) = c

restored :
    {S C E W : Type 0} (admins : Admins S C E) (adapters : Adapters W) (name : Str)
    (n : PersistNode) (rest : Children) (f : Factory S C W)
    → let (c, w) = activate_channel admins adapters f.allocated name n f.orb in
      restore admins adapters (branch name n rest) f
      ≡ if_made c (restore admins adapters rest (started c w f))
unfolding restore
restored admins adapters name n rest f = refl

module _ {S C E W : Type 0} (admins : Admins S C E) (adapters : Adapters W)
    (laws : IsAdapters adapters) where
  restore-IsConsistent :
      (stored : Children) (f g : Factory S C W)
      → IsConsistent adapters f
      → restore admins adapters stored f ≡ some g
      → IsConsistent adapters g
  unfolding restore
  restore-IsConsistent leaf f g c e = subst (IsConsistent adapters) (some-injective f g e) c
  restore-IsConsistent (branch name n rest) f g c e =
      let r = activate_channel admins adapters f.allocated name n f.orb in
      let next =
        started-IsConsistent adapters f f.count r c
          (activate_channel-IdsAfter admins adapters laws f.allocated name n f.orb) in
      let later = restore admins adapters rest (started r.0 r.1 f) in
      let picked = restored admins adapters name n rest f in
      elim (Option-cases (r.0)) [
        | inl h ↦ let wrong : none ≡ some g = sym (picked ∙ ap (λ o. if_made o later) h) ∙ e in cc
        | inr (d, h) ↦
            restore-IsConsistent rest (started r.0 r.1 f) g next
              (sym (picked ∙ ap (λ o. if_made o later) h) ∙ e)
      ]

  factory_id-IsConsistent :
      (f : Factory S C W) (u : W)
      → IsConsistent adapters f
      → adapters.activate_id (codes "omniEvents") the_factory f.orb ≡ some u
      → IsConsistent adapters (record f { orb = u })
  factory_id-IsConsistent f u (b, there, back) e = (
    b,
    λ id p h. elim (Bool-cases (str_eq id own)) [
      | inl y ↦
          let wrong : some the_factory ≡ some (a_channel p) = sym (made id ∙ rw y refl) ∙ h in cc
      | inr n ↦
          let kept : adapters.find_id id u ≡ adapters.find_id id f.orb = made id ∙ rw n refl in
          there id p (sym kept ∙ h)
    ],
    λ id p m. elim (Bool-cases (str_eq id own)) [
      | inl y ↦
          let wrong : none ≡ some (a_channel p) =
            sym absent
            ∙ subst (λ j. adapters.find_id j f.orb ≡ some (a_channel p)) (str_eq→eq id own y)
                (back id p m) in
          cc
      | inr n ↦ made id ∙ rw n (back id p m)
    ],
  )
    where
      own : Str
      own = codes "omniEvents"

      made :
          (id : Str)
          → adapters.find_id id u
            ≡ (if str_eq id own then some the_factory else adapters.find_id id f.orb)
      made id = (laws.id_made own the_factory f.orb u e id).0

      absent : adapters.find_id own f.orb ≡ none
      absent = elim (Option-cases (adapters.find_id own f.orb)) [
        | inl a ↦ a
        | inr (t, k) ↦ let wrong = sym (laws.id_taken own the_factory t f.orb k) ∙ e in cc
      ]

  new_factory-IsConsistent :
      (stored : Children) (w : W) (g : Factory S C W)
      → ((id : Str) → adapters.find_id id w ≡ none)
      → new_factory admins adapters stored w ≡ some g
      → IsConsistent adapters g
  unfolding new_factory
  new_factory-IsConsistent stored w g nothing e =
      let empty : Factory S C W = record { orb = w; count = 0; allocated = 0; channels = [] } in
      let first : IsConsistent adapters empty = (
        tt,
        λ id p h. let wrong : none ≡ some (a_channel p) = sym (nothing id) ∙ h in cc,
        λ id p m. elim m [ ],
      ) in
      elim (Option-cases (restore admins adapters stored empty)) [
        | inl h ↦ let wrong : none ≡ some g = sym (rw (h, new_factory) refl) ∙ e in cc
        | inr (f, h) ↦
            let c = restore-IsConsistent stored empty f first h in
            elim (Option-cases (adapters.activate_id (codes "omniEvents") the_factory f.orb)) [
              | inl k ↦ let wrong : none ≡ some g = sym (rw (h, new_factory) rw k refl) ∙ e in cc
              | inr (u, k) ↦
                  let same : record f { orb = u } ≡ g =
                    some-injective _ _ (sym (rw (h, new_factory) rw k refl) ∙ e) in
                  subst (IsConsistent adapters) same (factory_id-IsConsistent f u c k)
            ]
      ]

  reach-IsConsistent :
      (f g : Factory S C W)
      → IsConsistent adapters f
      → Reach admins adapters f g
      → IsConsistent adapters g
  reach-IsConsistent f g c here = c
  reach-IsConsistent f g c (next h _ r (created pid seconds key criteria _)) =
      create_object-IsConsistent admins adapters laws pid seconds key criteria h
        (reach-IsConsistent f h c r)
  reach-IsConsistent f g c (next h _ r (ended p _)) =
      end_channel-IsConsistent adapters laws p h (reach-IsConsistent f h c r)

find-channel : (o : Option Target) (p : ℕ) → find o ≡ channel p → o ≡ some (a_channel p)
find-channel none p e = cc
find-channel (some the_factory) p e = cc
find-channel (some (a_channel q)) p e = cc

module _ {S C E W : Type 0} (admins : Admins S C E) (adapters : Adapters W)
    (laws : IsAdapters adapters) where
  -- If the INSPOA was empty before the constructor, and the constructor did not throw: after any calls of
  -- create_object() and any ends of channels, in any order, join_channel() returns a channel for a name
  -- exactly if the channel is still there and its mapper has the name.
  pub join_channel-Mapped :
      (stored : Children) (w : W) (start f : Factory S C W)
      → ((id : Str) → adapters.find_id id w ≡ none)
      → new_factory admins adapters stored w ≡ some start
      → Reach admins adapters start f
      → (name : Str) (p : ℕ)
      → (join_channel adapters name f ≡ channel p → Mapped name p f.channels)
        × (Mapped name p f.channels → join_channel adapters name f ≡ channel p)
  unfolding join_channel
  join_channel-Mapped stored w start f nothing e r name p =
      let (b, there, back) =
        reach-IsConsistent admins adapters laws start f
          (new_factory-IsConsistent admins adapters laws stored w start nothing e) r in
      (
        λ j. there name p (find-channel (adapters.find_id name f.orb) p j),
        λ m. ap find (back name p m),
      )
