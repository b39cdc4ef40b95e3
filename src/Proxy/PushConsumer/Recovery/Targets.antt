-- ===== src/Proxy/PushConsumer/Recovery/Targets.antt =====
-- The stored targets of a proxy's connections, which resolve to their objects.
use omni_events.Prelude.{◌≡◌, sym, subst, ◌∙◌, Option, some, inl, inr}
use omni_events.Prelude.Text.{Str, compare_str-of_eq, compare_str-cases}
use omni_events.Proxy.{Ref}
use omni_events.Proxy.PushConsumer.Table.{
  Connection, Connections, no_connection, entry, find, insert, change, erase, find-here, find-below,
  find-above,
}
use omni_events.Proxy.PushConsumer.Recovery.Restart.{Resolve}

module _ (resolve : Str → Option Ref) where
  abbrev pub Found : Connection → Type 0
  Found c = resolve (c.target_sior) ≡ some (c.target_sior)

  pub insert-Resolve :
      (k : Str) (c : Connection) (cs : Connections)
      → Found c
      → Resolve resolve cs
      → Resolve resolve (insert k c cs)
  unfolding insert
  insert-Resolve k c no_connection f r = (f, tt)
  insert-Resolve k c (entry j d cs) f r = elim (compare_str-cases k j) [
    | inl lt ↦ rw (lt, insert) (f, r)
    | inr (inl e) ↦ rw (compare_str-of_eq k j e, insert) r
    | inr (inr gt) ↦ rw (gt, insert) (r.0, insert-Resolve k c cs f r.1)
  ]

  pub change-Resolve :
      (k : Str) (c : Connection) (cs : Connections)
      → Found c
      → Resolve resolve cs
      → Resolve resolve (change k c cs)
  unfolding change
  change-Resolve k c no_connection f r = tt
  change-Resolve k c (entry j d cs) f r = elim (compare_str-cases k j) [
    | inl lt ↦ rw (lt, change) (r.0, change-Resolve k c cs f r.1)
    | inr (inl e) ↦ rw (compare_str-of_eq k j e, change) (f, r.1)
    | inr (inr gt) ↦ rw (gt, change) (r.0, change-Resolve k c cs f r.1)
  ]

  pub erase-Resolve :
      (k : Str) (cs : Connections) → Resolve resolve cs → Resolve resolve (erase k cs)
  unfolding erase
  erase-Resolve k no_connection r = tt
  erase-Resolve k (entry j d cs) r = elim (compare_str-cases k j) [
    | inl lt ↦ rw (lt, erase) (r.0, erase-Resolve k cs r.1)
    | inr (inl e) ↦ rw (compare_str-of_eq k j e, erase) r.1
    | inr (inr gt) ↦ rw (gt, erase) (r.0, erase-Resolve k cs r.1)
  ]

  pub find-Found :
      (k : Str) (c : Connection) (cs : Connections)
      → Resolve resolve cs
      → find k cs ≡ some c
      → Found c
  unfolding find
  find-Found k c no_connection r h = cc
  find-Found k c (entry j d cs) r h = elim (compare_str-cases k j) [
    | inl lt ↦ find-Found k c cs r.1 (sym (find-below k j d cs lt) ∙ h)
    | inr (inl e) ↦ let same : d ≡ c = cc (find-here k j d cs e, h) in subst (λ x. Found x) same r.0
    | inr (inr gt) ↦ find-Found k c cs r.1 (sym (find-above k j d cs gt) ∙ h)
  ]
