-- ===== src/Proxy/PullSupplierManager/Disconnection.antt =====
-- What disconnect() of a ProxyPullSupplierManager does where a consumer never connected.
mod Tests
use omni_events.Prelude.{
  ℕ, ◌≡◌, refl, sym, ap, ◌∙◌, Bool, true, false, Option, none, some, List, [], ◌∷◌, ◌++◌,
}
use omni_events.Prelude.Text.{Str}
use omni_events.Proxy.{
  Ref, Result, ok, throw, object_not_exist, Core, Env, Request, State, erase_key, deactivate_object,
  send_deferred,
}
use omni_events.Proxy.PullSupplier.{PullSupplier, St, touch, disconnect_pull_supplier}
use omni_events.Queue.{Reader}
use omni_events.Proxy.PullSupplierManager.{Servant, state_of, servant_of, disconnect_servants}

abbrev pub Connected : List Servant → Type 0
Connected [] = Unit {0}
Connected (s ∷ ss) = (s.core.active ≡ true) × (s.self.connected ≡ true) × Connected ss

-- The servants after their disconnections, one after the other, and the log and the requests.
abbrev pub all_disconnected : {E : Type 0} → ℕ → List Servant → Env E → List Servant × Env E
all_disconnected now [] env = ([], env)
all_disconnected now (s ∷ ss) env =
    let t = (disconnect_pull_supplier now (state_of s env)).1 in
    let (gone, after) = all_disconnected now ss t.env in (servant_of t ∷ gone, after)

module _ {E : Type 0} (now : ℕ) where
  abbrev active_state :
      Str → Str → Reader → Option Ref → Bool → ℕ → Bool → Option Str → List (Request E) → St E
  active_state channel oid reader target connected timestamp req log sent = record {
    core = record { channel = channel; oid = oid; active = true };
    self = record {
      reader = reader;
      target = target;
      connected = connected;
      timestamp = timestamp;
      req = req;
    };
    env = record { log = log; sent = sent };
  }

  active-eta :
      (s : St E) (connected : Bool)
      → s.core.active ≡ true
      → s.self.connected ≡ connected
      → s
        ≡ active_state
            (s.core.channel)
            (s.core.oid)
            (s.self.reader)
            (s.self.target)
            connected
            (s.self.timestamp)
            (s.self.req)
            (s.env.log)
            (s.env.sent)
  active-eta s connected a c = λ i. record {
    core = record { channel = s.core.channel; oid = s.core.oid; active = a i };
    self = record {
      reader = s.self.reader;
      target = s.self.target;
      connected = c i;
      timestamp = s.self.timestamp;
      req = s.self.req;
    };
    env = s.env;
  }

  explicit-ok :
      (channel oid : Str) (reader : Reader) (target : Option Ref) (timestamp : ℕ) (req : Bool)
      (log : Option Str) (sent : List (Request E))
      → (disconnect_pull_supplier now
          (active_state channel oid reader target true timestamp req log sent)).0
        ≡ ok tt
  unfolding disconnect_pull_supplier touch erase_key deactivate_object send_deferred
  explicit-ok channel oid reader none timestamp req none sent = refl
  explicit-ok channel oid reader none timestamp req (some l) sent = refl
  explicit-ok channel oid reader (some t) timestamp req none sent = refl
  explicit-ok channel oid reader (some t) timestamp req (some l) sent = refl

  explicit-throws :
      (channel oid : Str) (reader : Reader) (target : Option Ref) (timestamp : ℕ) (req : Bool)
      (log : Option Str) (sent : List (Request E))
      → (disconnect_pull_supplier now
          (active_state channel oid reader target false timestamp req log sent)).0
        ≡ throw object_not_exist
  unfolding disconnect_pull_supplier touch erase_key deactivate_object send_deferred
  explicit-throws channel oid reader target timestamp req none sent = refl
  explicit-throws channel oid reader target timestamp req (some l) sent = refl

  disconnect-ok :
      (s : St E)
      → s.core.active ≡ true
      → s.self.connected ≡ true
      → (disconnect_pull_supplier now s).0 ≡ ok tt
  disconnect-ok s a c =
      ap (λ x. (disconnect_pull_supplier now x).0) (active-eta s true a c)
      ∙ explicit-ok (s.core.channel) (s.core.oid) (s.self.reader) (s.self.target) (s.self.timestamp)
          (s.self.req) (s.env.log) (s.env.sent)

  disconnect-throws :
      (s : St E)
      → s.core.active ≡ true
      → s.self.connected ≡ false
      → (disconnect_pull_supplier now s).0 ≡ throw object_not_exist
  disconnect-throws s a c =
      ap (λ x. (disconnect_pull_supplier now x).0) (active-eta s false a c)
      ∙ explicit-throws (s.core.channel) (s.core.oid) (s.self.reader) (s.self.target)
          (s.self.timestamp) (s.self.req) (s.env.log) (s.env.sent)

  servants-ok :
      (ss rest : List Servant) (env : Env E)
      → Connected ss
      → let (gone, after) = all_disconnected now ss env in
        let (r, later, last) = disconnect_servants now rest after in
        disconnect_servants now (ss ++ rest) env ≡ (r, gone ++ later, last)
  unfolding disconnect_servants
  servants-ok [] rest env c = refl
  servants-ok (s ∷ ss) rest env c =
      let t = (disconnect_pull_supplier now (state_of s env)).1 in
      let f : Result (Unit {0}) × List Servant × Env E → Result (Unit {0}) × List Servant × Env E =
        λ p. (p.0, servant_of t ∷ p.1, p.2) in
      rw (disconnect-ok (state_of s env) (c.0) (c.1), disconnect_servants)
        (ap f (servants-ok ss rest (t.env) (c.2)))

  servants-throw :
      (d : Servant) (rest : List Servant) (env : Env E)
      → d.core.active ≡ true
      → d.self.connected ≡ false
      → let t = (disconnect_pull_supplier now (state_of d env)).1 in
        disconnect_servants now (d ∷ rest) env
        ≡ (throw object_not_exist, servant_of t ∷ rest, t.env)
  unfolding disconnect_servants
  servants-throw d rest env a c =
      rw (disconnect-throws (state_of d env) a c, disconnect_servants) refl

-- When the channel is destroyed, disconnect() disconnects the pull suppliers in front of the first that
-- no consumer has connected to. That one ends the loop with OBJECT_NOT_EXIST: the servants behind it
-- stay as they were. All servants up to it are active.
pub disconnect_servants-stops :
    {E : Type 0} (now : ℕ) (ss rest : List Servant) (d : Servant) (env : Env E)
    → Connected ss
    → d.core.active ≡ true
    → d.self.connected ≡ false
    → let (gone, after) = all_disconnected now ss env in
      let t = (disconnect_pull_supplier now (state_of d after)).1 in
      disconnect_servants now (ss ++ d ∷ rest) env
      ≡ (throw object_not_exist, gone ++ servant_of t ∷ rest, t.env)
disconnect_servants-stops now ss rest d env c a u =
    let p = all_disconnected now ss env in
    servants-ok now ss (d ∷ rest) env c
    ∙ ap (λ x. (x.0, p.0 ++ x.1, x.2)) (servants-throw now d rest (p.1) a u)
