-- ===== src/Proxy/PullSupplierManager.antt =====
-- The servants of the pull suppliers: incarnate() of class ProxyPullSupplierManager,
-- src/ProxyPullSupplier.cc. The set of servants is a list in the order of the set, a new servant
-- being its last. A servant that is deactivated stays in the set until the POA etherealizes it.
pub mod Eviction
mod Disconnection
use omni_events.Prelude.{
  ℕ, suc, ◌+◌, Bool, true, false, Option, none, some, List, [], ◌∷◌, ◌++◌, if◌then◌else◌, ltb, leb,
  length, get_elem?, set,
}
use omni_events.Prelude.Text.{Str}
use omni_events.Queue.{EventQueue}
use omni_events.Proxy.{Result, ok, throw, object_not_exist, null_pointer, Core, Env, State}
use omni_events.Proxy.PullSupplier.{PullSupplier, St, new_pull_supplier, disconnect_pull_supplier}

pub record Servant : Type 0 where
  pub core : Core
  pub self : PullSupplier

pub record Manager (E : Type 0) : Type 0 where
  pub servants : List Servant
  pub env : Env E

-- The index of the oldest servant, and its age, after those before index `i` gave `best`.
unfoldable pub find_oldest : ℕ → Option (ℕ × ℕ) → List Servant → Option (ℕ × ℕ)
find_oldest i best [] = best
find_oldest i none (s ∷ ss) = find_oldest (i + 1) (some (i, s.self.timestamp)) ss
find_oldest i (some (j, age)) (s ∷ ss) =
    find_oldest (i + 1)
      (if ltb (s.self.timestamp) age then some (i, s.self.timestamp) else some (j, age)) ss

abbrev pub state_of : {E : Type 0} → Servant → Env E → St E
state_of s env = record { core = s.core; self = s.self; env = env }

-- `try{ oldest->disconnect_pull_supplier(); }catch(CORBA::OBJECT_NOT_EXIST&){}`.
unfoldable pub disconnect_quietly :
    {E : Type 0} → ℕ → Servant → Env E → Result (Unit {0}) × Servant × Env E
disconnect_quietly now s env =
    let (r, t) = disconnect_pull_supplier now (state_of s env) in
    (caught r, record { core = t.core; self = t.self }, t.env)
  where
    caught : Result (Unit {0}) → Result (Unit {0})
    caught (throw object_not_exist) = ok tt
    caught r = r

-- No oldest servant is a null pointer, through which the code calls.
unfoldable pub evict : {E : Type 0} → ℕ → Manager E → Result (Unit {0}) × Manager E
evict now m = elim (find_oldest 0 none m.servants) [
  | none ↦ (throw null_pointer, m)
  | some (i, age) ↦ elim (get_elem? m.servants i) [
    | none ↦ (throw null_pointer, m)
    | some s ↦
        let (r, t, env) = disconnect_quietly now s m.env in
        (r, record { servants = set m.servants i t; env = env })
  ]
]

unfoldable pub new_servant : {E : Type 0} → Str → ℕ → EventQueue E → Servant
new_servant channel now q = record {
  core = record { channel = channel; oid = []; active = false };
  self = new_pull_supplier now q;
}

unfoldable pub insert_servant :
    {E : Type 0} → Servant → Result (Unit {0}) × Manager E → Result (Unit {0}) × Manager E
insert_servant s (ok u, m) = (ok u, record m { servants = m.servants ++ s ∷ [] })
insert_servant s (throw x, m) = (throw x, m)

unfoldable pub incarnate :
    {E : Type 0} → Str → ℕ → ℕ → EventQueue E → Manager E → Result (Unit {0}) × Manager E
incarnate channel now max_num_proxies q m =
    let s = new_servant channel now q in
    if leb max_num_proxies (length m.servants)
    then insert_servant s (evict now m)
    else insert_servant s (ok tt, m)

abbrev pub servant_of : {E : Type 0} → St E → Servant
servant_of t = record { core = t.core; self = t.self }

-- disconnect(): an exception of a servant ends the loop. The servants are active in the POA.
unfoldable pub disconnect_servants :
    {E : Type 0} → ℕ → List Servant → Env E → Result (Unit {0}) × List Servant × Env E
disconnect_servants now [] env = (ok tt, [], env)
disconnect_servants now (s ∷ ss) env =
    let (r, t) = disconnect_pull_supplier now (state_of s env) in
    let (rest, later, after) = disconnect_servants now ss t.env in
    elim r [
      | ok a ↦ (rest, servant_of t ∷ later, after)
      | throw x ↦ (throw x, servant_of t ∷ ss, t.env)
    ]
