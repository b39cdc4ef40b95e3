-- ===== src/Factory/Channels/Ending.antt =====
-- What a channel that was destroyed leaves: nothing that a client could find it by.
use omni_events.Prelude.{
  ℕ, ◌≡◌, ◌≢◌, refl, ap, sym, ◌∙◌, subst, inl, inr, Option, none, some, some-injective,
  if◌then◌else◌, Bool-cases, Option-cases,
}
use omni_events.Prelude.Text.{Str, str_eq, str_eq→eq, str_eq_refl}
use omni_events.EventChannel.{Channel, poa_name}
use omni_events.Factory.Channels.{
  a_channel, Adapters, Factory, destroy_mapper, at_pointer, drop_pointer, end_channel,
}
use omni_events.Factory.Channels.Names.{IsAdapters}
use omni_events.Factory.Channels.Pointers.{
  Mapped, drop_pointer-none, Mapped-drop_pointer, drop_pointer-Mapped, at_pointer-Mapped,
  Mapped-at_pointer, Below-drop_pointer,
}
use omni_events.Factory.Channels.Dangling.{IsConsistent, some_channel}

module _ {W : Type 0} (adapters : Adapters W) (laws : IsAdapters adapters) where
  -- What find_id() gives when the channel `c` at `p` has gone, by the id that `c` was mapped by.
  Gone : Option Str → W → W → Type 0
  Gone none w v = (id : Str) → adapters.find_id id v ≡ adapters.find_id id w
  Gone (some i) w v =
      (id : Str) → adapters.find_id id v ≡ (if str_eq id i then none else adapters.find_id id w)

  destroy_mapper-Gone :
      (name : Str) (m : Option Str) (w : W)
      → Gone m w (destroy_mapper adapters m (adapters.destroy_poa name w))
  unfolding Gone
  destroy_mapper-Gone name none w = λ id. (laws.poa_ended name w id).1
  destroy_mapper-Gone name (some i) w = λ id.
      (laws.id_ended i (adapters.destroy_poa name w) id).0
      ∙ ap (λ o. if str_eq id i then none else o) ((laws.poa_ended name w id).1)

module _ {S C W : Type 0} (adapters : Adapters W) (laws : IsAdapters adapters) where
  forward-Gone :
      (f : Factory S C W) (p : ℕ) (c : Channel S C) (m : Option Str) (v : W)
      → IsConsistent adapters f
      → at_pointer p f.channels ≡ some c
      → c.mapper ≡ m
      → Gone adapters laws m f.orb v
      → (id : Str) (q : ℕ) → adapters.find_id id v ≡ some (a_channel q)
      → Mapped id q (drop_pointer p f.channels)
  unfolding Gone
  forward-Gone f p c none v (b, there, back) at h gone id q e =
      let k = there id q (sym (gone id) ∙ e) in
      let other : p ≢ q = λ same.
        let wrong =
          sym h
          ∙ at_pointer-Mapped id p f.allocated c f.channels b at
              (subst (λ x. Mapped id x f.channels) (sym same) k) in
        cc in
      drop_pointer-Mapped id p q f.channels other k
  forward-Gone f p c (some i) v (b, there, back) at h gone id q e =
      elim (Bool-cases (str_eq id i)) [
        | inl y ↦
            let nothing : adapters.find_id id v ≡ none = gone id ∙ rw y refl in
            let wrong : none ≡ some (a_channel q) = sym nothing ∙ e in cc
        | inr n ↦
            let kept : adapters.find_id id v ≡ adapters.find_id id f.orb = gone id ∙ rw n refl in
            let k = there id q (sym kept ∙ e) in
            let other : p ≢ q = λ same.
              let i_id = some-injective i id (
                sym h
                ∙ at_pointer-Mapped id p f.allocated c f.channels b at
                    (subst (λ x. Mapped id x f.channels) (sym same) k)) in
              let wrong = sym n ∙ ap (str_eq id) i_id ∙ str_eq_refl id in cc in
            drop_pointer-Mapped id p q f.channels other k
      ]

  backward-Gone :
      (f : Factory S C W) (p : ℕ) (c : Channel S C) (m : Option Str) (v : W)
      → IsConsistent adapters f
      → at_pointer p f.channels ≡ some c
      → c.mapper ≡ m
      → Gone adapters laws m f.orb v
      → (id : Str) (q : ℕ) → Mapped id q (drop_pointer p f.channels)
      → adapters.find_id id v ≡ some (a_channel q)
  unfolding Gone
  backward-Gone f p c none v (b, there, back) at h gone id q m =
      gone id ∙ back id q ((Mapped-drop_pointer id p q f.allocated c f.channels b at m).0)
  backward-Gone f p c (some i) v (b, there, back) at h gone id q m =
      let (k, other) = Mapped-drop_pointer id p q f.allocated c f.channels b at m in
      elim (Bool-cases (str_eq id i)) [
        | inl y ↦
            let held = back i p (Mapped-at_pointer i p c f.channels at h) in
            let found =
              subst (λ j. adapters.find_id j f.orb ≡ some (a_channel q)) (str_eq→eq id i y)
                (back id q k) in
            absurd (other (some_channel p q (sym held ∙ found)))
        | inr n ↦ gone id ∙ rw n (back id q k)
      ]

  pub end_channel-IsConsistent :
      (p : ℕ) (f : Factory S C W)
      → IsConsistent adapters f
      → IsConsistent adapters (end_channel adapters p f)
  unfolding end_channel
  end_channel-IsConsistent p f (b, there, back) = elim (Option-cases (at_pointer p f.channels)) [
    | inl e ↦ rw (e, end_channel) (rw (drop_pointer-none p f.channels e) (b, there, back))
    | inr (c, e) ↦
        let gone = destroy_mapper-Gone adapters laws (poa_name c) c.mapper f.orb in
        let v = destroy_mapper adapters c.mapper (adapters.destroy_poa (poa_name c) f.orb) in
        rw (e, end_channel)
          (
            Below-drop_pointer p f.allocated f.channels b,
            forward-Gone f p c c.mapper v (b, there, back) e refl gone,
            backward-Gone f p c c.mapper v (b, there, back) e refl gone,
          )
  ]
