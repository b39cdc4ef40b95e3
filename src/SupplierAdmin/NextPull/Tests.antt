-- ===== src/SupplierAdmin/NextPull/Tests.antt =====
-- A SupplierAdmin whose pull consumers add one event.
use omni_events.Prelude.{ℕ, ◌+◌, ◌≡◌, refl, true, some, [], ◌∷◌, ◌++◌, arith}
use omni_events.SupplierAdmin.{
  Time, Consumers, SupplierAdmin, collect, advance, not_before, catch_up,
}
use omni_events.SupplierAdmin.NextPull.{Pulls, collect-Pulls}

-- The state counts the requests that were triggered.
abbrev counters : Consumers ℕ ℕ
counters = record {
  collect_pulled = λ c queue. (c, queue ++ 2 ∷ []);
  trigger_request = λ c. c + 1;
  trigger_pushed = λ c. c;
  has_pull_consumer = λ c. true;
}

abbrev waiting : SupplierAdmin ℕ ℕ
waiting = record {
  consumers = 5;
  queue = 1 ∷ [];
  next_pull = record { sec = 10; nsec = 900000000 };
}

abbrev later : Time
later = record { sec = 12; nsec = 0 }

abbrev after : SupplierAdmin ℕ ℕ
after = record { consumers = 6; queue = []; next_pull = record { sec = 12; nsec = 400000000 } }

moved :
    catch_up 3 500 later (record { sec = 10; nsec = 900000000 })
    ≡ some (record { sec = 12; nsec = 400000000 })
unfolding catch_up advance not_before
moved = refl

collect-Pulls_example :
    (c : ℕ) × (t : Time) × Pulls counters 500 later 5 (record { sec = 10; nsec = 900000000 }) c t
    × (collect counters 500 later waiting
        ≡ some (1 ∷ 2 ∷ [], record { consumers = c; queue = []; next_pull = t }))
collect-Pulls_example =
    collect-Pulls counters 500 later waiting (omega arith) (omega arith)
      (record { below = omega arith; early = omega arith })
      (record { below = omega arith; early = omega arith }) refl
