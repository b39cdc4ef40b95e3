-- ===== src/Proxy/PushSupplier/Delivery/Tests.antt =====
-- A queue with two events that the proxy has not read.
use omni_events.Prelude.{ℕ, ◌<◌, Option, ◌≡◌, refl, false, none, some, List, [], ◌∷◌, length, arith}
use omni_events.Prelude.Text.{Str, codes}
use omni_events.Queue.{EventQueue, Reader}
use omni_events.Proxy.{Env}
use omni_events.Proxy.PushSupplier.{Reply, delivered, timeout}
use omni_events.Proxy.PushSupplier.Delivery.{
  connected, pump, pump-pushes, NoneRaised, AllAnswered, Accounted, account,
}

abbrev two_unread : EventQueue ℕ
two_unread = record { next = 2; size = 3; queue = some 7 ∷ some 8 ∷ none ∷ []; filter = none }

abbrev unread : List ℕ
unread = 7 ∷ 8 ∷ []

abbrev reader : Reader
reader = record { next = 0 }

abbrev quiet : Env ℕ
quiet = record { log = none; sent = [] }

abbrev consumer : Str
consumer = codes "IOR:01"

-- The first push times out, after a poll that finds no answer.
abbrev replies : List (Option Reply)
replies = none ∷ none ∷ some timeout ∷ some delivered ∷ []

replies-NoneRaised : NoneRaised replies
replies-NoneRaised = (λ h. cc, (λ h. cc, (λ h. cc, (λ h. cc, tt))))

pump-pushes_example :
    Accounted
      (codes "c")
      (codes "o")
      consumer
      consumer
      false
      two_unread
      (unread, [], false)
      quiet
      (pump
        (codes "c")
        (codes "o")
        consumer
        consumer
        false
        two_unread
        replies
        (connected (codes "c") (codes "o") consumer consumer false reader false quiet))
    × (AllAnswered replies
        → length unread < length replies
        → account false unread replies ≡ (unread, [], false))
pump-pushes_example =
    pump-pushes (codes "c") (codes "o") consumer consumer false two_unread replies reader false
      unread quiet replies-NoneRaised
      ((omega arith, omega arith, refl, (omega arith, omega arith, refl, refl)))
