-- ===== src/Proxy/PushSupplierManager.antt =====
-- The manager of a channel's ProxyPushSuppliers and its thread: class ProxyPushSupplierManager,
-- src/ProxyPushSupplier.cc. A set of servants is the list of them in the set's order. The servants
-- share the ORB and the log, `Env`. The thread holds the manager's mutex except where it waits on the
-- condition, or unlocks it after a busy cycle: `Rest` says which.
pub mod Sleep
pub mod Stuck
use omni_events.Prelude.{
  ℕ, zero, suc, ◌+◌, ◌*◌, ◌≡◌, Bool, true, false, Option, none, some, List, [], ◌∷◌, ◌++◌, ltb,
  if◌then◌else◌,
}
use omni_events.Prelude.Text.{Str}
use omni_events.Queue.{EventQueue}
use omni_events.Proxy.{Exception, Result, ok, throw, Core, Env, State}
use omni_events.Proxy.PushSupplier.{
  PushSupplier, Reply, Flags, St, trigger, new_push_supplier, disconnect_push_supplier,
}

pub record Servant : Type 0 where
  pub core : Core
  pub self : PushSupplier

pub data Rest : Type 0 where
  -- Unlock and lock again.
  yield : Rest
  -- A timed wait of so many nanoseconds.
  timed_wait : ℕ → Rest
  -- A wait for a signal.
  wait : Rest
  -- The next cycle at once, the mutex held throughout.
  again : Rest

abbrev pub firsts : List (Servant × Option Reply) → List Servant
firsts [] = []
firsts ((s, reply) ∷ rest) = s ∷ firsts rest

module _ {E : Type 0} where
  abbrev pub state_of : Servant → Env E → St E
  state_of s env = record { core = s.core; self = s.self; env = env }

  -- The loop over the servants, each with what its request's poll_response() finds. An exception
  -- leaves the rest of the set untouched.
  unfoldable pub trigger_all :
      EventQueue E
      → List (Servant × Option Reply)
      → Flags
      → Env E
      → Result Flags × List Servant × Env E
  trigger_all q [] flags env = (ok flags, [], env)
  trigger_all q ((s, reply) ∷ rest) flags env =
      let (r, t) = trigger q reply flags (state_of s env) in
      let s' : Servant = record { core = t.core; self = t.self } in
      let later = λ (f : Flags).
        (let (r', ss, env') = trigger_all q rest f t.env in
          let out : Result Flags × List Servant × Env E = (r', s' ∷ ss, env') in out) in
      elim r [ ok f ↦ later f | throw e ↦ (throw e, s' ∷ firsts rest, t.env) ]

-- incarnate(), with the name of the POA's parent: a new servant is the last of the set here.
unfoldable pub incarnate : {E : Type 0} → Str → EventQueue E → List Servant → List Servant
incarnate channel q ss =
    ss
    ++ record {
      core = record { channel = channel; oid = []; active = false };
      self = new_push_supplier q;
    }
      ∷ []

-- A servant that is not in the set is reported, and keeps its reference.
unfoldable pub etherealize : ℕ → List Servant → List Servant
etherealize i [] = []
etherealize zero (s ∷ ss) = ss
etherealize (suc i) (s ∷ ss) = s ∷ etherealize i ss

-- disconnect(), of servants that are active: an exception of a servant ends the loop.
unfoldable pub disconnect_servants :
    {E : Type 0} → List Servant → Env E → Result (Unit {0}) × List Servant × Env E
disconnect_servants [] env = (ok tt, [], env)
disconnect_servants (s ∷ ss) env =
    let (r, t) = disconnect_push_supplier (state_of s env) in
    let s' : Servant = record { core = t.core; self = t.self } in
    let (rest, later, after) = disconnect_servants ss t.env in
    elim r [ ok a ↦ (rest, s' ∷ later, after) | throw e ↦ (throw e, s' ∷ ss, t.env) ]

-- _add_ref() of the manager.
unfoldable pub add_ref : ℕ → ℕ
add_ref n = n + 1

-- _remove_ref() of the manager: the count, and whether the thread is waited for; `none` is a count
-- below zero, which is reported.
unfoldable pub remove_ref : ℕ → Option (ℕ × Bool)
remove_ref zero = none
remove_ref (suc zero) = some (0, true)
remove_ref (suc (suc n)) = some (suc n, false)

abbrev pub sleep_time_nanosec_0 : ℕ
sleep_time_nanosec_0 = 0x8000

abbrev pub max_sleep_nanosec : ℕ
max_sleep_nanosec = 0x800000

-- What run_undetached() does at the end of a cycle, and its new `sleepTimeNanosec`.
unfoldable pub end_cycle : Result Flags → ℕ → ℕ × Rest
end_cycle (throw e) sleep = (sleep, again)
end_cycle (ok flags) sleep =
    if flags.busy
    then (sleep_time_nanosec_0, yield)
    else (if flags.waiting
        then (let sleep' = if ltb sleep max_sleep_nanosec then sleep * 2 else sleep in
            let out : ℕ × Rest = (sleep', timed_wait sleep') in out)
        else (sleep, wait))

-- What one cycle leaves behind.
pub record Cycle (E : Type 0) : Type 0 where
  pub servants : List Servant
  pub env : Env E
  pub sleep : ℕ
  pub rest : Rest

-- One cycle of run_undetached(); `none` is the `break` of a manager that has no references left.
unfoldable pub cycle :
    {E : Type 0} → EventQueue E → ℕ → List (Servant × Option Reply) → ℕ → Env E → Option (Cycle E)
unfolding trigger_all end_cycle
cycle q ref_count servants sleep env =
    if ltb ref_count 1
    then none
    else (let (r, ss, env') =
          trigger_all q servants (record { busy = false; waiting = false }) env in
        let (sleep', rest) = end_cycle r sleep in
        some (record { servants = ss; env = env'; sleep = sleep'; rest = rest }))
