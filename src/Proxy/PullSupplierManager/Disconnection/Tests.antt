-- ===== src/Proxy/PullSupplierManager/Disconnection/Tests.antt =====
-- Three servants, of which the second is not connected.
use omni_events.Prelude.{ℕ, ◌≡◌, refl, true, false, some, none, [], ◌∷◌, ◌++◌}
use omni_events.Prelude.Text.{codes}
use omni_events.Proxy.{throw, object_not_exist, Env}
use omni_events.Proxy.PullSupplier.{disconnect_pull_supplier}
use omni_events.Proxy.PullSupplierManager.{Servant, state_of, servant_of, disconnect_servants}
use omni_events.Proxy.PullSupplierManager.Disconnection.{
  all_disconnected, disconnect_servants-stops,
}

abbrev first : Servant
first = record {
  core = record { channel = codes "ch"; oid = codes "1"; active = true };
  self = record {
    reader = record { next = 0 };
    target = some (codes "IOR:1");
    connected = true;
    timestamp = 3;
    req = false;
  };
}

abbrev second : Servant
second = record first {
  self = record {
    reader = record { next = 0 };
    target = none;
    connected = false;
    timestamp = 3;
    req = false;
  };
}

abbrev env : Env ℕ
env = record { log = some []; sent = [] }

disconnect_servants-stops_example :
    let (gone, after) = all_disconnected 9 (first ∷ []) env in
    let t = (disconnect_pull_supplier 9 (state_of second after)).1 in
    disconnect_servants 9 (first ∷ second ∷ first ∷ []) env
    ≡ (throw object_not_exist, gone ++ servant_of t ∷ first ∷ [], t.env)
disconnect_servants-stops_example =
    disconnect_servants-stops 9 (first ∷ []) (first ∷ []) second env (refl, refl, tt) refl refl
