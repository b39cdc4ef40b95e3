-- ===== src/Queue.antt =====
-- The event queue of a channel: src/EventQueue.h and src/EventQueue.cc.
-- The buffer is a list of `_size` slots, and a slot is `none` where the array holds NULL. An event
-- is a value of any type `E`, the pointer to it being owned by its slot. The filter is the virtual
-- method `keep` of the Filter object that the queue owns, if it owns one. A `Reader` keeps its own
-- index into the buffer of the queue that it was made for, which its methods take as an argument.
pub mod Filter
pub mod Refinement
pub mod Reading
use omni_events.Prelude.{
  ℕ, ◌+◌, ◌%◌, Bool, true, false, not, Option, none, some, List, ltb, ◌==◌, if◌then◌else◌, get_or,
  set, replicate,
}

pub record EventQueue (E : Type 0) : Type 0 where
  pub next : ℕ
  pub size : ℕ
  pub queue : List (Option E)
  pub filter : Option (E → Bool)

pub record Reader : Type 0 where
  pub next : ℕ

module _ {E : Type 0} where
  -- The constructor; `none` is its failed `assert(_size>1)`.
  unfoldable pub new_queue : ℕ → Option (EventQueue E)
  new_queue size =
      if ltb 1 (size + 1)
      then some
          (record { next = 0; size = size + 1; queue = replicate (size + 1) none; filter = none })
      else none

  unfoldable pub set_filter : (E → Bool) → EventQueue E → EventQueue E
  set_filter keep q = record q { filter = some keep }

  abbrev pub passes : Option (E → Bool) → E → Bool
  passes none e = true
  passes (some keep) e = keep e

  -- The event in the slot that is written next is deleted.
  unfoldable pub append : EventQueue E → E → EventQueue E
  append q e =
      if passes q.filter e
      then record q { next = (q.next + 1) % q.size; queue = set q.queue q.next (some e) }
      else q

  unfoldable pub new_reader : EventQueue E → Reader
  new_reader q = record { next = q.next }

  unfoldable pub more_events : Reader → EventQueue E → Bool
  more_events r q = not (r.next == q.next)

  -- The event that the reader's index points to, `none` for NULL, and the reader moved on.
  unfoldable pub next_event : Reader → EventQueue E → Option E × Reader
  next_event r q = (get_or q.queue r.next none, record { next = (r.next + 1) % q.size })
