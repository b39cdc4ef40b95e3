-- ===== src/Proxy/PullSupplier/Answers/Tests.antt =====
-- A proxy that is connected and polled while two events are written.
use omni_events.Prelude.{ℕ, ◌≡◌, refl, true, false, none, some, List, [], ◌∷◌, arith, ltb}
use omni_events.Prelude.Text.{codes}
use omni_events.Queue.{EventQueue, append, more_events, next_event}
use omni_events.Proxy.{ok, throw, transient}
use omni_events.Proxy.PullSupplier.{St, pull, try_pull, touch, take_event}
use omni_events.Proxy.PullSupplier.Answers.{
  Step, write, pull_at, try_pull_at, answers, answers_unread, answers-eq-unread,
}

abbrev one_unread : EventQueue ℕ
one_unread = record {
  next = 2;
  size = 3;
  queue = some 7 ∷ some 8 ∷ none ∷ [];
  filter = some (λ x. ltb x 100);
}

abbrev client : St ℕ
client = record {
  core = record { channel = codes "c"; oid = codes "o"; active = true };
  self = record {
    reader = record { next = 1 };
    target = none;
    connected = true;
    timestamp = 0;
    req = false;
  };
  env = record { log = none; sent = [] };
}

abbrev schedule : List (Step ℕ)
schedule = pull_at 1 ∷ pull_at 2 ∷ write 5 ∷ try_pull_at 3 ∷ write 500 ∷ try_pull_at 4 ∷ []

answered :
    answers one_unread client schedule ≡ ok (some 8) ∷ throw transient ∷ ok (some 5) ∷ ok none ∷ []
unfolding append more_events next_event pull try_pull touch take_event
answered = refl

answers-eq-unread_example :
    answers one_unread client schedule
    ≡ answers_unread true 3 (some (λ x. ltb x 100)) (8 ∷ []) schedule
answers-eq-unread_example =
    answers-eq-unread client one_unread (8 ∷ []) schedule
      (record { room = omega arith; slots = refl; within = omega arith })
      (omega arith, omega arith, refl, refl)
