-- ===== src/Queue/Refinement/Tests.antt =====
-- A queue of length two at concrete schedules.
use omni_events.Prelude.{ℕ, ◌≡◌, refl, none, some, List, [], ◌∷◌, arith, ltb}
use omni_events.Queue.{EventQueue, new_reader, append, more_events, next_event}
use omni_events.Queue.Refinement.{Op, push, read, run, run_unread, run-new_reader}
use omni_events.Queue.Refinement.Walk.{IsValid}

-- Two events written to three slots; only numbers below 100 pass.
abbrev two_written : EventQueue ℕ
two_written = record {
  next = 2;
  size = 3;
  queue = some 7 ∷ some 8 ∷ none ∷ [];
  filter = some (λ x. ltb x 100);
}

two_written-IsValid : IsValid two_written
two_written-IsValid = record { room = omega arith; slots = refl; within = omega arith }

-- The third unread event empties the list; the fourth is read.
abbrev lapped : List (Op ℕ)
lapped = push 1 ∷ push 200 ∷ push 2 ∷ push 3 ∷ read ∷ push 4 ∷ read ∷ read ∷ []

lapped_reads : run two_written (new_reader two_written) lapped ≡ none ∷ some 4 ∷ none ∷ []
unfolding append new_reader more_events next_event
lapped_reads = refl

run-new_reader_example :
    run two_written (new_reader two_written) lapped ≡ run_unread 3 (some (λ x. ltb x 100)) [] lapped
run-new_reader_example = run-new_reader two_written lapped two_written-IsValid
