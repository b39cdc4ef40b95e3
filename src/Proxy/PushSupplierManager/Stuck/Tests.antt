-- ===== src/Proxy/PushSupplierManager/Stuck/Tests.antt =====
-- Three cycles of a manager with two servants, the first of which its client has disconnected.
use omni_events.Prelude.{ℕ, suc, ◌≡◌, false, true, none, some, Option, List, [], ◌∷◌, ◌++◌}
use omni_events.Prelude.Text.{codes}
use omni_events.Queue.{EventQueue, Reader}
use omni_events.Proxy.{Env, ok, key_text, disconnect_push_consumer}
use omni_events.Proxy.PushSupplier.{Reply, delivered, disconnect_push_supplier, key_name}
use omni_events.Proxy.PushSupplierManager.{Servant, yield, again, state_of}
use omni_events.Proxy.PushSupplierManager.Stuck.{
  pushing, dashes, cycles, left_with, disconnect-cycles,
}

abbrev queue : EventQueue ℕ
queue = record { next = 1; size = 2; queue = some 7 ∷ none ∷ []; filter = none }

abbrev reader : Reader
reader = record { next = 1 }

abbrev env : Env ℕ
env = record { log = some []; sent = [] }

-- A servant behind it, whose own push would be answered.
abbrev other : Servant
other = pushing (codes "c") (codes "p") (codes "u") (codes "u") false reader

abbrev rounds : List (List (Option Reply))
rounds = [] ∷ (some delivered ∷ []) ∷ []

disconnect-cycles_example :
    let left =
      disconnect_push_supplier
        (state_of (pushing (codes "c") (codes "o") (codes "t") (codes "t") false reader) env) in
    let s : Servant = record { core = left.1.core; self = left.1.self } in
    let key = key_text (record { channel = codes "c"; oid = codes "o"; active = true }) key_name in
    (left.0 ≡ ok tt)
    × (cycles
          (codes "c")
          (codes "o")
          (codes "t")
          false
          reader
          queue
          (suc 1)
          ((some delivered ∷ []) ∷ rounds)
          (record { servants = s ∷ other ∷ []; env = left.1.env; sleep = 33000; rest = yield })
        ≡ some (
            left_with
              (codes "c")
              (codes "o")
              (codes "t")
              false
              reader
              (other ∷ [])
              (([] ++ (codes "-" ++ (key ++ codes "\n"))) ++ dashes 3)
              ([] ++ record { target = codes "t"; operation = disconnect_push_consumer } ∷ [])
              33000
              again))
disconnect-cycles_example =
    disconnect-cycles (codes "c") (codes "o") (codes "t") false reader (codes "t") queue 1
      (some delivered ∷ []) rounds (other ∷ []) 33000 yield [] []
