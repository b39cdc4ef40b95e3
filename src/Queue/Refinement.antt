-- ===== src/Queue/Refinement.antt =====
-- EventQueue and its readers refine one bounded list of unread events for each reader: a reader sees
-- the accepted events in order, and loses all that it has not read when the writer laps it.
pub mod Walk
mod Tests
use omni_events.Prelude.{
  ℕ, suc, ◌+◌, ◌%◌, ◌≤◌, ◌<◌, ◌≡◌, refl, ◌≢◌, ◌⊎◌, inl, inr, Bool, true, false, not, Option, none,
  some, List, [], ◌∷◌, ◌++◌, arith, ltb, ◌==◌, if◌then◌else◌, Bool-cases, ==_iff, ap₂, length, set,
  get_or, sym, ap, ◌∙◌, replicate, length-replicate,
}
use omni_events.Queue.{
  EventQueue, Reader, new_queue, set_filter, append, passes, new_reader, more_events, next_event,
}
use Walk.{IsValid, Holds, append-IsValid, Holds-written, Holds-length, written, step_mod}

-- A schedule of the channel's writes and one reader's polls.
pub data Op (E : Type 0) : Type 0 where
  push : E → Op E
  read : Op E

module _ {E : Type 0} where
  -- What a reader promises: the events that it has not read yet, oldest first.
  abbrev pub unread_append : ℕ → Option (E → Bool) → List E → E → List E
  unread_append size filter u e =
      if passes filter e then if ltb (length u + 1) size then u ++ e ∷ [] else [] else u

  abbrev pub unread_poll : List E → Option E × List E
  unread_poll [] = (none, [])
  unread_poll (e ∷ u) = (some e, u)

  -- How the proxies read: nextEvent() is called only when moreEvents() holds.
  abbrev pub poll : EventQueue E → Reader → Option E × Reader
  poll q r = if more_events r q then next_event r q else (none, r)

  abbrev pub Refines : EventQueue E → Reader → List E → Type 0
  Refines q r u = Holds q r.next u

  Holds-below : (q : EventQueue E) (pos : ℕ) (u : List E) → IsValid q → Holds q pos u → pos < q.size
  Holds-below q pos [] v h = omega (arith, v.within)
  Holds-below q pos (e ∷ u) v h = h.0

  -- The writer is about to lap the reader exactly when the list of unread events is full.
  Holds-lapped :
      (q : EventQueue E) (pos : ℕ) (u : List E)
      → IsValid q
      → Holds q pos u
      → (pos ≡ (q.next + 1) % q.size → length u + 1 ≡ q.size)
        × (length u + 1 ≡ q.size → pos ≡ (q.next + 1) % q.size)
        × (length u < q.size)
  Holds-lapped q pos u v h =
      let below = Holds-below q pos u v h in
      let next = v.within in
      ground (arith, below, next, Holds-length q pos u v h, step_mod q.next q.size)

  pub append-Refines :
      (q : EventQueue E) (r : Reader) (u : List E) (e : E)
      → IsValid q
      → Refines q r u
      → Refines (append q e) r (unread_append q.size q.filter u e)
  unfolding append
  append-Refines q r u e v h = elim (Bool-cases (passes q.filter e)) [
    | inr drop ↦ rw drop h
    | inl keep ↦ rw keep (elim (Bool-cases (ltb (length u + 1) q.size)) [
      | inl room ↦
          rw room (
            Holds-written q e r.next u v (λ p. ground (arith, (Holds-lapped q r.next u v h).0 p)) h)
      | inr full ↦ rw full (ground (arith, Holds-lapped q r.next u v h))
    ])
  ]

  poll-Refines :
      (q : EventQueue E) (r : Reader) (u : List E)
      → Refines q r u
      → ((poll q r).0 ≡ (unread_poll u).0) × Refines q (poll q r).1 (unread_poll u).1
  unfolding more_events next_event
  poll-Refines q r [] h = rw (h, (==_iff q.next q.next).1 refl) (refl, refl)
  poll-Refines q r (e ∷ u) h = elim (Bool-cases (r.next == q.next)) [
    | inl same ↦ absurd (h.1 ((==_iff r.next q.next).0 same))
    | inr other ↦ rw other (h.2, h.3)
  ]

  -- What the reader gets, by the code and by the specification.
  abbrev pub run : EventQueue E → Reader → List (Op E) → List (Option E)
  run q r [] = []
  run q r (push e ∷ ops) = run (append q e) r ops
  run q r (read ∷ ops) = (poll q r).0 ∷ run q (poll q r).1 ops

  abbrev pub run_unread : ℕ → Option (E → Bool) → List E → List (Op E) → List (Option E)
  run_unread size filter u [] = []
  run_unread size filter u (push e ∷ ops) =
      run_unread size filter (unread_append size filter u e) ops
  run_unread size filter u (read ∷ ops) =
      (unread_poll u).0 ∷ run_unread size filter (unread_poll u).1 ops

  pub append_keeps :
      (q : EventQueue E) (e : E) → ((append q e).size ≡ q.size) × ((append q e).filter ≡ q.filter)
  unfolding append
  append_keeps q e = ground arith

  run-Refines :
      (q : EventQueue E) (r : Reader) (u : List E) (size : ℕ) (filter : Option (E → Bool))
      (ops : List (Op E))
      → IsValid q
      → Refines q r u
      → q.size ≡ size
      → q.filter ≡ filter
      → run q r ops ≡ run_unread size filter u ops
  run-Refines q r u size filter [] v h es ef = refl
  run-Refines q r u size filter (push e ∷ ops) v h es ef =
      run-Refines (append q e) r (unread_append size filter u e) size filter ops
        (append-IsValid q e v) (rw (← es, ← ef) (append-Refines q r u e v h))
        ((append_keeps q e).0 ∙ es) ((append_keeps q e).1 ∙ ef)
  run-Refines q r u size filter (read ∷ ops) v h es ef =
      let p = poll-Refines q r u h in
      ap₂ ◌∷◌ p.0 (run-Refines q (poll q r).1 (unread_poll u).1 size filter ops v p.1 es ef)

  abbrev pub append_all : EventQueue E → List E → EventQueue E
  append_all q [] = q
  append_all q (e ∷ es) = append_all (append q e) es

  append_all-IsValid : (q : EventQueue E) (es : List E) → IsValid q → IsValid (append_all q es)
  append_all-IsValid q [] v = v
  append_all-IsValid q (e ∷ es) v = append_all-IsValid (append q e) es (append-IsValid q e v)

  append_all-size : (q : EventQueue E) (es : List E) → (append_all q es).size ≡ q.size
  append_all-size q [] = refl
  append_all-size q (e ∷ es) = append_all-size (append q e) es ∙ (append_keeps q e).0

  -- In a queue that satisfies the class invariant, a reader made at any moment gets, under any
  -- later schedule of writes and polls, exactly the events that a FIFO list of unread events gives:
  -- accepted events join it in order, events that the filter rejects do not, and an event that
  -- arrives when `_size - 1` events are unread empties the list.
  pub run-new_reader :
      (q : EventQueue E) (ops : List (Op E))
      → IsValid q
      → run q (new_reader q) ops ≡ run_unread q.size q.filter [] ops
  unfolding new_reader
  run-new_reader q ops v = run-Refines q (new_reader q) [] q.size q.filter ops v refl refl refl

  -- A queue that is made with a positive length satisfies the class invariant with one slot more
  -- than its length, with or without a filter set, and after any events have been appended.
  pub new_queue-IsValid :
      (size : ℕ) (keep : E → Bool) (es : List E)
      → 0 < size
      → (q : EventQueue E) × (new_queue size ≡ some q)
        × IsValid (append_all q es)
        × IsValid (append_all (set_filter keep q) es)
        × ((append_all (set_filter keep q) es).size ≡ size + 1)
  unfolding new_queue set_filter
  new_queue-IsValid size keep es h =
      let l = length-replicate {0} {A = Option E} (size + 1) none in
      let q : EventQueue E = record {
        next = 0;
        size = size + 1;
        queue = replicate (size + 1) none;
        filter = none;
      } in
      let v : IsValid q = record { room = omega arith; slots = l; within = omega arith } in
      let w : IsValid (set_filter keep q) = record {
        room = omega arith;
        slots = l;
        within = omega arith;
      } in
      (
        q,
        ground arith,
        append_all-IsValid q es v,
        append_all-IsValid (set_filter keep q) es w,
        append_all-size (set_filter keep q) es,
      )
