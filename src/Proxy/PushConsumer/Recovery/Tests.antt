-- ===== src/Proxy/PushConsumer/Recovery/Tests.antt =====
-- Restarts at concrete inputs.
use omni_events.Prelude.{ℕ, arith, ◌≡◌, refl, true, false, Option, none, some, List, [], ◌∷◌}
use omni_events.Prelude.Text.{Str, codes, compare_str}
use omni_events.PersistNode.{split_name, find_child, set_child, addattr, split_attr}
use omni_events.PersistNode.Maps.{set_attr}
use omni_events.PersistNode.Paths.{update_path}
use omni_events.Journal.{Line, put, block, journal_text, apply_line, apply_lines, apply_last}
use omni_events.Journal.Replay.{GoodLines}
use omni_events.Queue.{EventQueue}
use omni_events.Proxy.{Ref, Result, throw, object_not_exist}
use omni_events.Proxy.PushConsumer.{
  State, new_push_consumer, callback, connect_push_supplier, disconnect_push_consumer, answer, push,
}
use omni_events.Proxy.PushConsumer.Table.{
  Connection, no_connection, entry, find, insert, change, erase,
}
use omni_events.Proxy.PushConsumer.Recovery.{
  Call, connect, disconnect, federated, pushed, run, restart, restart-run,
}
use omni_events.PersistNode.Parse.Tokens.{Spaceless}
use omni_events.Proxy.PushConsumer.Recovery.Lines.{IsPiece}
use omni_events.Proxy.PushConsumer.Recovery.Late.{late_answer, late_answer-restart}

abbrev empty_queue : EventQueue ℕ
empty_queue = record { next = 0; size = 2; queue = none ∷ none ∷ []; filter = none }

-- The line of the factory and the record of the channel itself.
abbrev earlier : List Line
earlier =
    put (codes "ecf") ((codes "port", codes "1") ∷ (codes "endPointNoListen", codes "x") ∷ [])
    ∷ block (codes "ecf/ch") ((codes "CyclePeriod_ns", codes "9") ∷ [])
    ∷ []

abbrev proxy : State ℕ
proxy = record {
  self = new_push_consumer (codes "ch");
  queue = [];
  consumers = empty_queue;
  env = record { log = some (journal_text earlier []); sent = [] };
}

abbrev resolve : Str → Option Ref
resolve r = some r

abbrev reconnect : Ref → Result (Unit {0})
reconnect r = throw object_not_exist

abbrev calls : List (Call ℕ)
calls =
    connect (codes "b") (codes "IOR:2")
    ∷ pushed 7
    ∷ connect (codes "a") (codes "IOR:1")
    ∷ federated (codes "b")
    ∷ disconnect (codes "a")
    ∷ []

abbrev kept : Connection
kept = record {
  channel_name = codes "ch";
  oidstr = codes "b";
  target_sior = codes "IOR:2";
  target_is_proxy = true;
}

ch-IsPiece : IsPiece (codes "ch")
ch-IsPiece = ((refl, (refl, tt)), (refl, (refl, tt)))

a-IsPiece : IsPiece (codes "a")
a-IsPiece = ((refl, tt), (refl, tt))

b-IsPiece : IsPiece (codes "b")
b-IsPiece = ((refl, tt), (refl, tt))

ior : Spaceless (codes "IOR:2")
ior = (refl, (refl, (refl, (refl, (refl, tt)))))

ior1 : Spaceless (codes "IOR:1")
ior1 = (refl, (refl, (refl, (refl, (refl, tt)))))

good : GoodLines earlier
good = (
  (
    (refl, refl, refl),
    (refl, (refl, (refl, tt))),
    (ground arith, refl, ground arith, (ground arith, refl, ground arith, tt)),
  ),
  (
    (
      (refl, refl, refl),
      (refl, (refl, (refl, (refl, (refl, (refl, tt)))))),
      (ground arith, refl, ground arith, tt),
    ),
    tt,
  ),
)

restart-run_example :
    restart resolve reconnect (codes "ch") (run [] calls proxy) ((run [] calls proxy).env.log)
    ≡ some (entry (codes "b") kept no_connection)
unfolding connect_push_supplier disconnect_push_consumer answer callback push find insert change
    erase compare_str apply_lines apply_last apply_line split_name update_path find_child set_child
    addattr split_attr set_attr
restart-run_example =
    restart-run resolve reconnect [] (codes "ch") earlier calls proxy ch-IsPiece
      ((b-IsPiece, ior), (tt, ((a-IsPiece, ior1), (tt, (tt, tt))))) (refl, (refl, tt)) (λ r. refl)
      refl refl good refl refl

abbrev first_call : List (Call ℕ)
first_call = connect (codes "b") (codes "IOR:2") ∷ []

abbrev plain : Connection
plain = record kept { target_is_proxy = false }

late_answer-restart_example :
    let t = late_answer (codes "b") plain (run [] first_call proxy) in
    (find (codes "b") (t.self.connections) ≡ none)
    × (restart resolve reconnect (codes "ch") t (t.env.log)
        ≡ some (insert (codes "b") kept (t.self.connections)))
unfolding connect_push_supplier find insert compare_str apply_lines apply_last apply_line split_name
    update_path find_child set_child addattr split_attr set_attr
late_answer-restart_example =
    late_answer-restart resolve reconnect [] (codes "ch") earlier first_call proxy (codes "b") plain
      ch-IsPiece ((b-IsPiece, ior), tt) (refl, tt) (λ r. refl) refl refl good refl refl refl
