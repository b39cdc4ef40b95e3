-- ===== src/EventChannel/Store.antt =====
-- The channels of a factory: class EventChannelStore, src/EventChannel.cc.
--
-- The std::set of pointers is the list of its entries in the order of the pointers, which are numbers,
-- each with the object that it points to.
mod Tests
use omni_events.Prelude.{
  ==_refl, ℕ, suc, ◌+◌, ◌≡◌, refl, sym, ap, ◌∙◌, ◌==◌, ltb, Bool, true, false, ◌||◌, Bool-cases,
  Option, none, some, List, [], ◌∷◌, ◌++◌, map, length, if◌then◌else◌, inl, inr, arith, ◌⊎◌,
}
use mathlib.Core.List.{append-nil}
use omni_events.Prelude.Text.{Str, codes, str_eq, str_eq_refl}
use omni_events.PersistNode.{PersistNode, has_attr, attr_string}
use omni_events.Proxy.{Result, Exception, ok, throw, object_not_exist}
use omni_events.EventChannel.{Admins, Channel, call, disconnected, destroy, channel_name}

pub record Entry (S C : Type 0) : Type 0 where
  pub pointer : ℕ
  pub channel : Channel S C

abbrev pub Store : Type 0 → Type 0 → Type 0
Store S C = List (Entry S C)

module _ {S C : Type 0} where
  unfoldable pub insert : Entry S C → Store S C → Store S C
  insert e [] = e ∷ []
  insert e (d ∷ ds) =
      let rest = insert e ds in
      if ltb (e.pointer) (d.pointer)
      then e ∷ d ∷ ds
      else (if e.pointer == d.pointer then d ∷ ds else d ∷ rest)

  unfoldable pub erase : ℕ → Store S C → Store S C
  erase p [] = []
  erase p (d ∷ ds) = let rest = erase p ds in if p == d.pointer then ds else d ∷ rest

  unfoldable pub exists : Str → Store S C → Bool
  exists name [] = false
  exists name (d ∷ ds) = str_eq name (channel_name d.channel) || exists name ds

  unfoldable pub output_all : (Channel S C → Str) → Store S C → Str
  output_all output [] = []
  output_all output (d ∷ ds) = output d.channel ++ output_all output ds

module _ {S C E : Type 0} where
  -- empty(): an exception that destroy() throws ends the loop.
  unfoldable pub empty : Admins S C E → Store S C → Result (Unit {0}) × Store S C
  empty admins [] = (ok tt, [])
  empty admins (d ∷ ds) =
      let (rest, later) = empty admins ds in
      let (r, c) = destroy admins d.channel in
      let e : Entry S C = record { pointer = d.pointer; channel = c } in
      elim r [ ok a ↦ (rest, e ∷ later) | throw x ↦ (throw x, e ∷ ds) ]

abbrev pub destroy_entry : {S C E : Type 0} → Admins S C E → Entry S C → Entry S C
destroy_entry admins d = record { pointer = d.pointer; channel = (destroy admins (d.channel)).1 }

module _ {S C E : Type 0} (admins : Admins S C E) where
  -- A channel that was not destroyed, and whose clients can be disconnected.
  abbrev pub Closes : Channel S C → Type 0
  Closes c =
      (c.shutdown_requested ≡ false)
      × ((call admins.disconnect_consumers c.consumer_admin).0 ≡ ok tt)
      × ((call admins.disconnect_suppliers c.supplier_admin).0 ≡ ok tt)

  abbrev pub AllClose : Store S C → Type 0
  AllClose [] = Unit {0}
  AllClose (d ∷ ds) = Closes (d.channel) × AllClose ds

  -- A channel that was destroyed already, or whose consumers or suppliers cannot be disconnected.
  abbrev pub Refuses : Exception → Channel S C → Type 0
  Refuses e c =
      ((c.shutdown_requested ≡ true) × (e ≡ object_not_exist))
      ⊎ ((c.shutdown_requested ≡ false)
          × (((call admins.disconnect_consumers c.consumer_admin).0 ≡ throw e)
              ⊎ (((call admins.disconnect_consumers c.consumer_admin).0 ≡ ok tt)
                  × ((call admins.disconnect_suppliers c.supplier_admin).0 ≡ throw e))))

  disconnected-result :
      (a : Result (Unit {0}) × Option C) (b : Result (Unit {0}) × Option S) (c : Channel S C)
      → a.0 ≡ ok tt
      → (disconnected a b c).0 ≡ b.0
  disconnected-result (ok x, y) b c h = refl
  disconnected-result (throw e, y) b c h = cc

  disconnected-throw :
      (e : Exception) (a : Result (Unit {0}) × Option C) (b : Result (Unit {0}) × Option S)
      (c : Channel S C)
      → a.0 ≡ throw e
      → (disconnected a b c).0 ≡ throw e
  disconnected-throw e (ok x, y) b c h = cc
  disconnected-throw e (throw f, y) b c h = h

  destroy-result :
      (c : Channel S C)
      → c.shutdown_requested ≡ false
      → (destroy admins c).0
        ≡ (disconnected
            (call admins.disconnect_consumers c.consumer_admin)
            (call admins.disconnect_suppliers c.supplier_admin)
            (record c { shutdown_requested = true; holding = false })).0
  unfolding destroy
  destroy-result c h = rw (h, destroy) refl

  destroy-Closes : (c : Channel S C) → Closes c → (destroy admins c).0 ≡ ok tt
  destroy-Closes c (h, a, b) = destroy-result c h ∙ disconnected-result _ _ _ a ∙ b

  destroy-Refuses : (e : Exception) (c : Channel S C) → Refuses e c → (destroy admins c).0 ≡ throw e
  unfolding destroy
  destroy-Refuses e c (inl (h, k)) = rw (h, destroy) (ap throw (sym k))
  destroy-Refuses e c (inr (h, inl a)) = destroy-result c h ∙ disconnected-throw e _ _ _ a
  destroy-Refuses e c (inr (h, inr (a, b))) = destroy-result c h ∙ disconnected-result _ _ _ a ∙ b

  empty-AllClose :
      (ds rest : Store S C) (r : Result (Unit {0})) (later : Store S C)
      → AllClose ds
      → empty admins rest ≡ (r, later)
      → empty admins (ds ++ rest) ≡ (r, map (destroy_entry admins) ds ++ later)
  unfolding empty
  empty-AllClose [] rest r later o e = e
  empty-AllClose (d ∷ ds) rest r later o e =
      let f : Result (Unit {0}) × Store S C → Result (Unit {0}) × Store S C =
        λ p. (p.0, destroy_entry admins d ∷ p.1) in
      rw (destroy-Closes (d.channel) (o.0), empty) (ap f (empty-AllClose ds rest r later (o.1) e))

  empty-none : empty admins [] ≡ (ok tt, [])
  unfolding empty
  empty-none = refl

  empty-Refuses :
      (e : Exception) (d : Entry S C) (ds : Store S C)
      → Refuses e (d.channel)
      → empty admins (d ∷ ds) ≡ (throw e, destroy_entry admins d ∷ ds)
  unfolding empty
  empty-Refuses e d ds h = rw (destroy-Refuses e (d.channel) h, empty) refl

-- empty() destroys every channel if none was destroyed before and the clients of all can be
-- disconnected. Otherwise it does so to those in front of the first that was destroyed before, or whose
-- consumers or suppliers cannot be disconnected, and ends with OBJECT_NOT_EXIST or the exception of the
-- disconnection: the channels behind that one stay as they were.
pub empty-destroys :
    {S C E : Type 0} (admins : Admins S C E) (ds rest : Store S C) (d : Entry S C) (e : Exception)
    → AllClose admins ds
    → Refuses admins e (d.channel)
    → (empty admins ds ≡ (ok tt, map (destroy_entry admins) ds))
      × (empty admins (ds ++ d ∷ rest)
          ≡ (throw e, map (destroy_entry admins) ds ++ destroy_entry admins d ∷ rest))
empty-destroys admins ds rest d e o h = (
  ap (empty admins) (sym (append-nil ds))
      ∙ empty-AllClose admins ds [] (ok tt) [] o (empty-none admins)
      ∙ ap (λ x. (ok tt, x)) (append-nil (map (destroy_entry admins) ds)),
  empty-AllClose admins ds (d ∷ rest) (throw e) (destroy_entry admins d ∷ rest) o
      (empty-Refuses admins e d rest h),
)

or_swap : (a b c : Bool) → (a || (b || c)) ≡ (b || (a || c))
or_swap true true c = refl
or_swap true false c = refl
or_swap false true c = refl
or_swap false false c = refl

module _ {S C : Type 0} where
  -- The pointer is not in the store.
  abbrev pub Absent : ℕ → Store S C → Type 0
  Absent p [] = Unit {0}
  Absent p (d ∷ ds) = ((p == d.pointer) ≡ false) × Absent p ds

  erase-insert :
      (e : Entry S C) (ds : Store S C)
      → Absent (e.pointer) ds
      → erase (e.pointer) (insert e ds) ≡ ds
  unfolding insert erase
  erase-insert e [] h = rw (==_refl (e.pointer), erase) refl
  erase-insert e (d ∷ ds) h = elim (Bool-cases (ltb (e.pointer) (d.pointer))) [
    | inl y ↦ rw (y, insert) rw (==_refl (e.pointer)) refl
    | inr n ↦ rw (n, insert) (rw (h.0, insert) rw (h.0) (ap (λ x. d ∷ x) (erase-insert e ds (h.1))))
  ]

  exists-insert_lem :
      (name : Str) (e : Entry S C) (ds : Store S C)
      → Absent (e.pointer) ds
      → exists name (insert e ds) ≡ (str_eq name (channel_name (e.channel)) || exists name ds)
  unfolding insert exists
  exists-insert_lem name e [] h = refl
  exists-insert_lem name e (d ∷ ds) h = elim (Bool-cases (ltb (e.pointer) (d.pointer))) [
    | inl y ↦ rw (y, insert) refl
    | inr n ↦
        rw (n, insert)
          (rw (h.0, insert)
            (ap (λ x. str_eq name (channel_name (d.channel)) || x)
                (exists-insert_lem name e ds (h.1))
              ∙ or_swap (str_eq name (channel_name (d.channel)))
                  (str_eq name (channel_name (e.channel))) (exists name ds)))
  ]

-- A channel whose pointer is not stored yet is found by its name once it is inserted, beside the
-- channels that were found before; and erasing it leaves the store as it was.
pub exists-insert :
    {S C : Type 0} (name : Str) (e : Entry S C) (ds : Store S C)
    → Absent (e.pointer) ds
    → (exists name (insert e ds) ≡ (str_eq name (channel_name (e.channel)) || exists name ds))
      × (erase (e.pointer) (insert e ds) ≡ ds)
exists-insert name e ds h = (exists-insert_lem name e ds h, erase-insert e ds h)
