-- ===== src/Proxy/PullSupplierManager/Eviction/Tests.antt =====
-- Two servants, and a maximum of two.
use omni_events.Prelude.{
  ℕ, ◌≡◌, refl, Bool, true, false, none, some, [], ◌∷◌, ◌++◌, arith, get_elem?, set,
}
use omni_events.Prelude.Text.{codes}
use omni_events.Queue.{EventQueue}
use omni_events.Proxy.{Env, ok}
use omni_events.Proxy.PullSupplierManager.{Servant, new_servant, incarnate}
use omni_events.Proxy.PullSupplierManager.Eviction.{NoneOlder, incarnate-evicts}

abbrev queue : EventQueue ℕ
queue = record { next = 1; size = 2; queue = some 7 ∷ none ∷ []; filter = none }

abbrev at_time : ℕ → Bool → Servant
at_time t connected = record {
  core = record { channel = codes "c"; oid = codes "o"; active = true };
  self = record {
    reader = record { next = 1 };
    target = some (codes "IOR:01");
    connected = connected;
    timestamp = t;
    req = false;
  };
}

incarnate-evicts_example :
    let servants = at_time 9 true ∷ at_time 4 true ∷ [] in
    (k : ℕ) × (old : Servant) × (gone : Servant) × (env : Env ℕ) × (get_elem? servants k ≡ some old)
    × NoneOlder old.self.timestamp servants
    × (gone.core.active ≡ false)
    × (incarnate
          (codes "c")
          20
          2
          queue
          (record { servants = servants; env = record { log = some []; sent = [] } })
        ≡ (
          ok tt,
          record {
            servants = set servants k gone ++ new_servant (codes "c") 20 queue ∷ [];
            env = env;
          },
        ))
incarnate-evicts_example =
    incarnate-evicts (codes "c") 20 2 queue (at_time 9 true) (at_time 4 true ∷ []) (some []) []
      (omega arith) (refl, (refl, tt))
