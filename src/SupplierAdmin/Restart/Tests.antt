-- ===== src/SupplierAdmin/Restart/Tests.antt =====
-- A SupplierAdmin with a federated push connection and two pull consumers, of which one has no supplier.
use omni_events.Prelude.{ℕ, ◌≡◌, refl, true, Option, none, some, List, [], ◌∷◌, arith}
use omni_events.Prelude.Text.{Str, codes, compare_str, str_eq}
use omni_events.PersistNode.{find_child, set_child, addattr, split_attr, split_name}
use omni_events.PersistNode.Maps.{set_attr}
use omni_events.PersistNode.Paths.{update_path}
use omni_events.Journal.{Line, put, block, apply_line, apply_lines}
use omni_events.Queue.{EventQueue}
use omni_events.Proxy.{Ref, Result, ok, throw, object_not_exist, Env}
use omni_events.Proxy.PullConsumer.{new_pull_consumer}
use omni_events.Proxy.PullConsumerManager.{Servant}
use omni_events.Proxy.PushConsumer.Table.{Connection, no_connection, entry}
use omni_events.SupplierAdmin.{Time}
use omni_events.SupplierAdmin.Proxies.{Admin, output}
use omni_events.SupplierAdmin.Restart.{admin_with, restart, restart-output}
use omni_events.SupplierAdmin.Restart.Database.{database, connections, pullers}
use omni_events.SupplierAdmin.Restart.Pulling.{supplier_of, Distinct}

abbrev never : Time
never = record { sec = 0; nsec = 0 }

abbrev quiet : Env ℕ
quiet = record { log = none; sent = [] }

abbrev queue : EventQueue ℕ
queue = record { next = 0; size = 2; queue = none ∷ none ∷ []; filter = none }

abbrev connection : Connection
connection = record {
  channel_name = codes "ch";
  oidstr = codes "a";
  target_sior = codes "IOR:1";
  target_is_proxy = true;
}

abbrev servant : Str → Option Ref → Servant
servant oid target = record {
  core = record { channel = codes "ch"; oid = oid; active = true };
  self = record new_pull_consumer { target = target };
}

abbrev admin : Admin ℕ
admin =
    admin_with (codes "ch") (entry (codes "a") connection no_connection)
      (some (servant (codes "c") (some (codes "IOR:2")) ∷ servant (codes "b") none ∷ [])) queue
      quiet never

abbrev fresh : Admin ℕ
fresh = admin_with (codes "ch") no_connection none queue quiet never

abbrev resolve : Str → Option Ref
resolve [] = none
resolve (c ∷ s) = some (c ∷ s)

abbrev reconnect : Ref → Result (Unit {0})
reconnect r = throw object_not_exist

abbrev earlier : List Line
earlier =
    put (codes "ecf") ((codes "port", codes "1") ∷ (codes "endPointNoListen", codes "x") ∷ [])
    ∷ block (codes "ecf/ch") ((codes "CyclePeriod_ns", codes "9") ∷ [])
    ∷ []

abbrev later : List Line
later = block (codes "ecf/di") [] ∷ []

restart-output_example :
    ((output admin).0 ≡ ok tt)
    × ((c : Admin ℕ) × (restart reconnect resolve resolve
            (codes "ch")
            fresh
            (database earlier (output admin).1 later)
          ≡ some (ok tt, c))
        × (connections c ≡ connections admin)
        × ((oid : Str) → supplier_of oid (pullers c) ≡ supplier_of oid (pullers admin))
        × Distinct (pullers c)
        × (c.queue ≡ [])
        × (c.consumers.sent_on ≡ queue)
        × (c.consumers.env.sent ≡ []))
unfolding find_child set_child addattr split_attr split_name set_attr update_path apply_line
    apply_lines compare_str str_eq
restart-output_example =
    restart-output reconnect resolve resolve (codes "ch") earlier later admin queue quiet never
      (ground arith) (ground arith) (ground arith) (refl, tt) (refl, (refl, tt)) (λ r. refl)
      (ground arith) tt refl refl (ground arith) (ground arith)
