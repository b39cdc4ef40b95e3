-- ===== src/Queue/Reading.antt =====
-- What a reader's unread events say of moreEvents() and nextEvent().
use omni_events.Prelude.{
  ◌≡◌, refl, inl, inr, true, false, some, List, [], ◌∷◌, ◌==◌, Bool-cases, ==_iff,
}
use omni_events.Queue.{EventQueue, Reader, more_events, next_event}
use omni_events.Queue.Refinement.{Refines}

pub unread_next :
    {E : Type 0} (q : EventQueue E) (r : Reader) (e : E) (u : List E)
    → Refines q r (e ∷ u)
    → (more_events r q ≡ true) × ((next_event r q).0 ≡ some e) × Refines q (next_event r q).1 u
unfolding more_events next_event
unread_next q r e u h = elim (Bool-cases (r.next == q.next)) [
  | inl same ↦ absurd (h.1 ((==_iff r.next q.next).0 same))
  | inr other ↦ (rw other, h.2, h.3)
]

pub unread_none :
    {E : Type 0} (q : EventQueue E) (r : Reader) → Refines q r [] → more_events r q ≡ false
unfolding more_events
unread_none q r h = rw (h, (==_iff q.next q.next).1 refl)
