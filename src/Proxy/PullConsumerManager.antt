-- ===== src/Proxy/PullConsumerManager.antt =====
-- The servants of the pull consumers: class ProxyPullConsumerManager with reincarnate() and output() of
-- class ProxyPullConsumer_i, src/ProxyPullConsumer.cc, and reincarnate(), output() and etherealize() of
-- class ProxyManager, src/ProxyManager.cc. The set of servants is a list in the order of the set, a
-- new servant being its last. The POA etherealizes a servant some time after it was deactivated.
pub mod Restart
use omni_events.Prelude.{
  ℕ, zero, suc, Bool, true, false, Option, none, some, List, [], ◌∷◌, ◌++◌, if◌then◌else◌,
}
use omni_events.Prelude.Text.{Str, codes}
use omni_events.PersistNode.{PersistNode, Children, leaf, branch, attr_string}
use omni_events.Proxy.{
  Ref, Result, ok, throw, bad_param, servant_not_active, M, ◌>>=◌, ◌>>◌, raise, Core, Env, State,
  activate_object_with_id, basic_text, target_text,
}
use omni_events.Proxy.PullConsumer.{
  PullConsumer, Reply, St, new_pull_consumer, connect_pull_supplier, disconnect_pull_consumer,
  collect, trigger_request, key_name,
}

pub record Servant : Type 0 where
  pub core : Core
  pub self : PullConsumer

pub record Manager (E : Type 0) : Type 0 where
  pub servants : List Servant
  pub queue : List E
  pub env : Env E

abbrev pub servant_of : {E : Type 0} → St E → Servant
servant_of s = record { core = s.core; self = s.self }

abbrev pub state_of : {E : Type 0} → Servant → Env E → St E
state_of s env = record { core = s.core; self = s.self; env = env }

unfoldable pub new_servant : Str → Servant
new_servant channel = record {
  core = record { channel = channel; oid = []; active = false };
  self = new_pull_consumer;
}

abbrev pub event_of : {E : Type 0} → Result (Option E) → List E
event_of (ok (some e)) = e ∷ []
event_of _ = []

abbrev pub as_result : {E : Type 0} → Result (Option E) → Result (Unit {0})
as_result (ok e) = ok tt
as_result (throw x) = throw x

-- A servant that is not in the set is reported.
unfoldable pub etherealize : ℕ → List Servant → List Servant
etherealize i [] = []
etherealize zero (s ∷ ss) = ss
etherealize (suc i) (s ∷ ss) = s ∷ etherealize i ss

module _ {E : Type 0} where
  unfoldable pub incarnate : Str → Manager E → Manager E
  incarnate channel m = record m { servants = m.servants ++ new_servant channel ∷ [] }

  -- A loop over the servants, which an exception ends.
  unfoldable pub for_each :
      M (St E) (Unit {0}) → List Servant → Env E → Result (Unit {0}) × List Servant × Env E
  for_each f [] env = (ok tt, [], env)
  for_each f (s ∷ ss) env =
      let (r, t) = f (state_of s env) in
      let (rest, left, after) = for_each f ss t.env in
      elim r [
        | ok a ↦ (rest, servant_of t ∷ left, after)
        | throw x ↦ (throw x, servant_of t ∷ ss, t.env)
      ]

  abbrev loop : M (St E) (Unit {0}) → Manager E → Result (Unit {0}) × Manager E
  loop f m =
      let (r, servants, env) = for_each f m.servants m.env in
      (r, record m { servants = servants; env = env })

  unfoldable pub trigger_all : Manager E → Result (Unit {0}) × Manager E
  unfolding for_each
  trigger_all = loop trigger_request

  -- disconnect(), of servants that are active.
  unfoldable pub disconnect_all : Manager E → Result (Unit {0}) × Manager E
  unfolding for_each
  disconnect_all = loop disconnect_pull_consumer

  -- collect(), with what poll_response() finds for each of the servants.
  unfoldable pub collect_all :
      List (Option (Reply E))
      → List Servant
      → List E
      → Env E
      → Result (Unit {0}) × List Servant × List E × Env E
  collect_all replies [] queue env = (ok tt, [], queue, env)
  collect_all [] ss queue env = (ok tt, ss, queue, env)
  collect_all (p ∷ ps) (s ∷ ss) queue env =
      let (r, t) = collect p (state_of s env) in
      let (rest, left, more, after) = collect_all ps ss (queue ++ event_of r) t.env in
      elim (as_result r) [
        | ok a ↦ (rest, servant_of t ∷ left, more, after)
        | throw x ↦ (throw x, servant_of t ∷ ss, queue, t.env)
      ]

  -- ProxyPullConsumer_i::reincarnate(); `resolve` is string_to_() with its narrowing, which throws
  -- BAD_PARAM where it is `none`.
  unfoldable pub reincarnate_one : (Str → Option Ref) → Str → PersistNode → M (St E) (Unit {0})
  reincarnate_one resolve oid n s = elim (resolve (attr_string (codes "IOR") [] n)) [
    | none ↦ raise bad_param s
    | some supplier ↦ (activate_object_with_id oid >> connect_pull_supplier (some supplier)) s
  ]

  -- What becomes of the new servant: BAD_PARAM is caught.
  unfoldable pub keep_servant :
      Result (Unit {0}) → Servant → Env E → Manager E → Result (Unit {0}) × Manager E
  keep_servant (ok a) s env m = (ok tt, record m { servants = m.servants ++ s ∷ []; env = env })
  keep_servant (throw bad_param) s env m = (ok tt, record m { env = env })
  keep_servant (throw x) s env m =
      (throw x, record m { servants = m.servants ++ s ∷ []; env = env })

  unfoldable pub reincarnate :
      (Str → Option Ref) → Str → Children → Manager E → Result (Unit {0}) × Manager E
  unfolding keep_servant reincarnate_one
  reincarnate resolve channel leaf m = (ok tt, m)
  reincarnate resolve channel (branch oid n cs) m =
      let (r, s) = reincarnate_one resolve oid n (state_of (new_servant channel) m.env) in
      let (kept, after) = keep_servant r (servant_of s) s.env m in
      let later = reincarnate resolve channel cs after in
      elim kept [ ok a ↦ later | throw x ↦ (throw x, after) ]

-- ProxyPullConsumer_i::output(), the text, if servant_to_id() knows the servant.
unfoldable pub output : Servant → Result Str
output s =
    if s.core.active
    then ok (basic_text s.core key_name (target_text s.self.target []))
    else throw servant_not_active

-- ProxyManager::output(): the text that is written before an exception stays.
unfoldable pub output_all : List Servant → Result (Unit {0}) × Str
unfolding output
output_all [] = (ok tt, [])
output_all (s ∷ ss) =
    let (rest, more) = output_all ss in
    elim (output s) [ ok text ↦ (rest, text ++ more) | throw x ↦ (throw x, []) ]
