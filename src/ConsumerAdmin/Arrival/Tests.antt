-- ===== src/ConsumerAdmin/Arrival/Tests.antt =====
-- Three events and a transfer phase between them.
use omni_events.Prelude.{ℕ, ◌≡◌, refl, none, [], ◌∷◌, List}
use omni_events.Prelude.Text.{codes}
use omni_events.Queue.{EventQueue}
use omni_events.SupplierAdmin.{Time}
use omni_events.Proxy.PushConsumer.{State, new_push_consumer}
use omni_events.ConsumerAdmin.{append_all}
use omni_events.ConsumerAdmin.Arrival.{cycle, Event, pushed, cycled, happen, cycle-happen}

abbrev empty_queue : EventQueue ℕ
empty_queue = record { next = 0; size = 4; queue = none ∷ none ∷ none ∷ none ∷ []; filter = none }

abbrev start : State ℕ
start = record {
  self = new_push_consumer (codes "ch");
  queue = [];
  consumers = empty_queue;
  env = record { log = none; sent = [] };
}

abbrev now : Time
now = record { sec = 5; nsec = 0 }

abbrev events : List (Event ℕ)
events = pushed 1 ∷ pushed 2 ∷ cycled now now ∷ pushed 3 ∷ []

cycle-happen_example :
    let t = cycle 1000 now now (happen 1000 events start) in
    (t.consumers ≡ append_all empty_queue (1 ∷ 2 ∷ 3 ∷ [])) × (t.queue ≡ [])
cycle-happen_example = cycle-happen 1000 now now events start refl
