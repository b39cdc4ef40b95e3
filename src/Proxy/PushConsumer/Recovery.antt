-- ===== src/Proxy/PushConsumer/Recovery.antt =====
-- A restart of the server between calls to a ProxyPushConsumer: the log that the calls wrote is read,
-- and reincarnate() makes the connections from it.
pub mod Lines
pub mod Owned
pub mod Steps
pub mod Restart
mod Targets
mod Tests
mod Late
use omni_events.Prelude.{
  ◌≡◌, refl, sym, ap, subst, ◌∙◌, Bool, true, false, Option, none, some, List, [], ◌∷◌, ◌++◌, inl,
  inr, Option-cases, Bool-cases,
}
use omni_events.Prelude.Text.{Str, codes}
use omni_events.PersistNode.{PersistNode, Children, leaf, empty_node}
use omni_events.PersistNode.Text.{parse}
use omni_events.PersistNode.Parse.Tokens.{Spaceless}
use omni_events.Journal.{Line, put, drop, line_text, journal_text, apply_lines, apply_last}
use omni_events.Journal.Append.{journal_text-snoc}
use omni_events.Journal.Replay.{GoodLines, parse-journal}
use omni_events.Queue.{EventQueue}
use omni_events.Proxy.{Ref, Result, ok, Env, disconnect_push_supplier, is_a}
use omni_events.Proxy.PushConsumer.{
  PushConsumer, State, new_push_consumer, key_text, output_connection, erase_text, log_text,
  send_to, callback, connect_push_supplier, disconnect_push_consumer, answer, push, trigger, caught,
  reincarnate,
}
use omni_events.Proxy.PushConsumer.Table.{
  Connection, Connections, no_connection, find, insert, change, erase, Sorted, insert-Sorted,
  change-Sorted, erase-Sorted,
}
use Lines.{
  IsPiece, attrs_of, line_of, node_of, tree_of, output_connection-line, erase_text-line,
  tree_of-insert, tree_of-change,
}
use Owned.{Own, insert-Own, change-Own, erase-Own, find-Mine}
use Steps.{part, Gives, put-Gives, drop-Gives}
use Restart.{Resolve, reincarnate-joined}
use Targets.{Found, insert-Resolve, change-Resolve, erase-Resolve, find-Found}

-- What suppliers and the ORB call: `federated` is the answer that the supplier is a ProxyPushSupplier.
pub data Call (E : Type 0) : Type 0 where
  connect : Str → Ref → Call E
  disconnect federated : Str → Call E
  pushed : E → Call E
  triggered : Call E

abbrev pub GoodCall : {E : Type 0} → Call E → Type 0
GoodCall (connect oid supplier) = IsPiece oid × Spaceless supplier
GoodCall call = Unit {0}

abbrev pub GoodCalls : {E : Type 0} → List (Call E) → Type 0
GoodCalls [] = Unit {0}
GoodCalls (call ∷ calls) = GoodCall call × GoodCalls calls

-- string_to_object() gives the object of each supplier's stored IOR.
abbrev pub Resolvable : {E : Type 0} → (Str → Option Ref) → List (Call E) → Type 0
Resolvable resolve [] = Unit {0}
Resolvable resolve (connect oid supplier ∷ calls) =
    (resolve supplier ≡ some supplier) × Resolvable resolve calls
Resolvable resolve (call ∷ calls) = Resolvable resolve calls

abbrev pub step : {E : Type 0} → Str → Call E → State E → State E
step supplier_id (connect oid supplier) s =
    (connect_push_supplier supplier_id oid (some supplier) s).1
step supplier_id (disconnect oid) s = disconnect_push_consumer oid s
step supplier_id (federated oid) s = answer oid (some true) s
step supplier_id (pushed e) s = push e s
step supplier_id triggered s = trigger s

abbrev pub run : {E : Type 0} → Str → List (Call E) → State E → State E
run supplier_id [] s = s
run supplier_id (call ∷ calls) s = run supplier_id calls (step supplier_id call s)

-- The connections of the next server process, which reads this log; `resolve` and `reconnect` are
-- the ORB's.
abbrev pub restart :
    {E : Type 0}
    → (Str → Option Ref)
    → (Ref → Result (Unit {0}))
    → Str
    → State E
    → Option Str
    → Option Connections
restart resolve reconnect channel s none = none
restart resolve reconnect channel s (some text) = elim (parse text) [
  | none ↦ none
  | some root ↦ some (
      (reincarnate resolve reconnect (part channel root)
        (record s { self = new_push_consumer channel })).1.self.connections)
]

-- The log is a journal that gives the connections.
abbrev pub Recorded : {E : Type 0} → Str → State E → Type 0
Recorded channel s =
    (s.self.channel_name ≡ channel)
    × Sorted (s.self.connections)
    × Own channel (s.self.connections)
    × ((ls : List Line) × (s.env.log ≡ some (journal_text ls []))
        × Gives channel ls (s.self.connections))

module _ {E : Type 0} (channel : Str) (h : IsPiece channel) (supplier_id : Str) where
  pub log_text-snoc :
      (text : Str) (l : Line) (ls : List Line) (env : Env E)
      → env.log ≡ some (journal_text ls [])
      → text ≡ line_text l []
      → (log_text text env).log ≡ some (journal_text (ls ++ l ∷ []) [])
  log_text-snoc text l ls env e t =
      rw (e, log_text)
        (ap (λ x. some (journal_text ls [] ++ x)) t ∙ ap some (journal_text-snoc ls l))

  connect-Recorded :
      (oid supplier : Str) (s : State E)
      → IsPiece oid
      → Spaceless supplier
      → Recorded channel s
      → Recorded channel (connect_push_supplier supplier_id oid (some supplier) s).1
  unfolding connect_push_supplier
  connect-Recorded oid supplier s k p (name, sorted, own, (ls, log, gives)) =
      elim (Option-cases (find oid (s.self.connections))) [
        | inr (old, f) ↦ rw (f, connect_push_supplier) (name, sorted, own, (ls, log, gives))
        | inl f ↦
            let c : Connection = record {
              channel_name = s.self.channel_name;
              oidstr = oid;
              target_sior = supplier;
              target_is_proxy = false;
            } in
            rw (f, connect_push_supplier)
              (
                name,
                insert-Sorted oid c (s.self.connections) sorted,
                insert-Own channel oid c (s.self.connections) (name, refl, p, k) own,
                (
                  ls ++ line_of c ∷ [],
                  log_text-snoc (output_connection c) (line_of c) ls
                      (send_to supplier (is_a supplier_id) (s.env)) log (output_connection-line c),
                  put-Gives channel oid c ls (s.self.connections)
                      (insert oid c (s.self.connections)) h (name, refl, p, k) gives
                      (tree_of-insert oid c (s.self.connections) f),
                ),
              )
      ]

  pub disconnect-Recorded :
      (oid : Str) (s : State E)
      → Recorded channel s
      → Recorded channel (step supplier_id (disconnect oid) s)
  unfolding disconnect_push_consumer
  disconnect-Recorded oid s (name, sorted, own, (ls, log, gives)) =
      elim (Option-cases (find oid (s.self.connections))) [
        | inl f ↦ rw (f, disconnect_push_consumer) (name, sorted, own, (ls, log, gives))
        | inr (c, f) ↦
            let mine = find-Mine channel oid c (s.self.connections) own f in
            let text = ap (λ x. erase_text x oid) name ∙ erase_text-line channel oid in
            rw (f, disconnect_push_consumer)
              (
                name,
                erase-Sorted oid (s.self.connections) sorted,
                erase-Own channel oid (s.self.connections) own,
                (
                  ls ++ drop (key_text channel oid) ∷ [],
                  log_text-snoc (erase_text (s.self.channel_name) oid) (drop (key_text channel oid))
                      ls (send_to (c.target_sior) disconnect_push_supplier (s.env)) log text,
                  drop-Gives channel oid ls (s.self.connections) h mine.3 sorted gives,
                ),
              )
      ]

  federated-Recorded :
      (oid : Str) (s : State E)
      → Recorded channel s
      → Recorded channel (step supplier_id (federated oid) s)
  unfolding answer callback
  federated-Recorded oid s (name, sorted, own, (ls, log, gives)) =
      elim (Option-cases (find oid (s.self.connections))) [
        | inl f ↦ rw (f, answer) (name, sorted, own, (ls, log, gives))
        | inr (c, f) ↦
            let m = find-Mine channel oid c (s.self.connections) own f in
            let d : Connection = record c { target_is_proxy = true } in
            rw (f, answer)
              (
                name,
                change-Sorted oid d (s.self.connections) sorted,
                change-Own channel oid d (s.self.connections) (m.0, m.1, m.2, m.3) own,
                (
                  ls ++ line_of d ∷ [],
                  log_text-snoc (output_connection d) (line_of d) ls (s.env) log
                      (output_connection-line d),
                  put-Gives channel oid d ls (s.self.connections)
                      (change oid d (s.self.connections)) h (m.0, m.1, m.2, m.3) gives
                      (tree_of-change oid d c (s.self.connections) sorted f),
                ),
              )
      ]

  push-Recorded : (e : E) (s : State E) → Recorded channel s → Recorded channel (push e s)
  unfolding push
  push-Recorded e s r = elim (Bool-cases (s.self.use_local_queue)) [
    | inl y ↦ rw (y, push) r
    | inr n ↦ rw (n, push) r
  ]

  step-Recorded :
      (call : Call E) (s : State E)
      → GoodCall call
      → Recorded channel s
      → Recorded channel (step supplier_id call s)
  unfolding trigger
  step-Recorded (connect oid supplier) s g r = connect-Recorded oid supplier s g.0 g.1 r
  step-Recorded (disconnect oid) s g r = disconnect-Recorded oid s r
  step-Recorded (federated oid) s g r = federated-Recorded oid s r
  step-Recorded (pushed e) s g r = push-Recorded e s r
  step-Recorded triggered s g r = r

  pub run-Recorded :
      (calls : List (Call E)) (s : State E)
      → GoodCalls calls
      → Recorded channel s
      → Recorded channel (run supplier_id calls s)
  run-Recorded [] s g r = r
  run-Recorded (call ∷ calls) s g r =
      run-Recorded calls (step supplier_id call s) g.1 (step-Recorded call s g.0 r)

  pub restart-Recorded :
      (resolve : Str → Option Ref) (reconnect : Ref → Result (Unit {0})) (s : State E)
      → Resolve resolve (s.self.connections)
      → ((r : Str) → caught (reconnect r) ≡ ok tt)
      → Recorded channel s
      → restart resolve reconnect channel s (s.env.log) ≡ some (s.self.connections)
  restart-Recorded resolve reconnect s r k (name, sorted, own, (ls, log, gives)) =
      let read =
        reincarnate-joined resolve reconnect channel no_connection (s.self.connections) false
          (s.queue) (s.consumers) (s.env) r k own sorted in
      rw (log, restart)
        (rw (parse-journal ls gives.0, restart)
          (rw gives.2 (ap (λ x. some (x.1.self.connections)) read)))

module _ {E : Type 0} (resolve : Str → Option Ref) (supplier_id : Str) where
  pub disconnect-Resolve :
      (oid : Str) (s : State E)
      → Resolve resolve (s.self.connections)
      → Resolve resolve ((disconnect_push_consumer oid s).self.connections)
  unfolding disconnect_push_consumer
  disconnect-Resolve oid s r = elim (Option-cases (find oid (s.self.connections))) [
    | inl f ↦ rw (f, disconnect_push_consumer) r
    | inr (c, f) ↦
        rw (f, disconnect_push_consumer) (erase-Resolve resolve oid (s.self.connections) r)
  ]

  connect-Resolve :
      (oid supplier : Str) (s : State E)
      → resolve supplier ≡ some supplier
      → Resolve resolve (s.self.connections)
      → Resolve resolve
          ((connect_push_supplier supplier_id oid (some supplier) s).1.self.connections)
  unfolding connect_push_supplier
  connect-Resolve oid supplier s g r = elim (Option-cases (find oid (s.self.connections))) [
    | inr (old, f) ↦ rw (f, connect_push_supplier) r
    | inl f ↦
        let c : Connection = record {
          channel_name = s.self.channel_name;
          oidstr = oid;
          target_sior = supplier;
          target_is_proxy = false;
        } in
        rw (f, connect_push_supplier) (insert-Resolve resolve oid c (s.self.connections) g r)
  ]

  federated-Resolve :
      (oid : Str) (s : State E)
      → Resolve resolve (s.self.connections)
      → Resolve resolve ((answer oid (some true) s).self.connections)
  unfolding answer callback
  federated-Resolve oid s r = elim (Option-cases (find oid (s.self.connections))) [
    | inl f ↦ rw (f, answer) r
    | inr (c, f) ↦
        let d : Connection = record c { target_is_proxy = true } in
        rw (f, answer)
          (change-Resolve resolve oid d (s.self.connections)
            (find-Found resolve oid c (s.self.connections) r f) r)
  ]

  push-connections : (e : E) (s : State E) → (push e s).self.connections ≡ s.self.connections
  unfolding push
  push-connections e s = elim (Bool-cases (s.self.use_local_queue)) [
    | inl y ↦ rw (y, push) refl
    | inr n ↦ rw (n, push) refl
  ]

  pub run-Resolve :
      (calls : List (Call E)) (s : State E)
      → Resolvable resolve calls
      → Resolve resolve (s.self.connections)
      → Resolve resolve ((run supplier_id calls s).self.connections)
  unfolding trigger
  run-Resolve [] s g r = r
  run-Resolve (connect oid supplier ∷ calls) s g r =
      run-Resolve calls (step supplier_id (connect oid supplier) s) g.1
        (connect-Resolve oid supplier s g.0 r)
  run-Resolve (disconnect oid ∷ calls) s g r =
      run-Resolve calls (disconnect_push_consumer oid s) g (disconnect-Resolve oid s r)
  run-Resolve (federated oid ∷ calls) s g r =
      run-Resolve calls (answer oid (some true) s) g (federated-Resolve oid s r)
  run-Resolve (pushed e ∷ calls) s g r =
      run-Resolve calls (push e s) g
        (subst (λ cs. Resolve resolve cs) (sym (push-connections e s)) r)
  run-Resolve (triggered ∷ calls) s g r = run-Resolve calls (trigger s) g r

pub new-Recorded :
    {E : Type 0} (channel : Str) (earlier : List Line) (s : State E)
    → s.self ≡ new_push_consumer channel
    → s.env.log ≡ some (journal_text earlier [])
    → GoodLines earlier
    → part channel (apply_lines earlier empty_node) ≡ leaf
    → part channel (apply_last none earlier (apply_lines earlier empty_node)) ≡ leaf
    → Recorded channel s
new-Recorded channel earlier s new log good once twice = (
  ap (λ p. p.channel_name) new,
  subst (λ p. Sorted (p.connections)) (sym new) tt,
  subst (λ p. Own channel (p.connections)) (sym new) tt,
  (
    earlier,
    log,
    (
      good,
      once ∙ ap (λ p. tree_of (p.connections)) (sym new),
      twice ∙ ap (λ p. tree_of (p.connections)) (sym new),
    ),
  ),
)

-- A new ProxyPushConsumer of a channel whose log has no connection of it yet gets connects,
-- disconnects, answers that a connected supplier is a ProxyPushSupplier, pushes and cycles in any order.
-- Then the next process reads in its log exactly the connections that are in memory: with their ids,
-- targets and federation flags, none that was disconnected and none twice. The names of the calls have
-- no white space and no slash, the IOR of each supplier that connects resolves to its object, and a
-- remote proxy that is called again raises nothing that reincarnate() does not catch. Answers to
-- connections that are gone are not among the calls.
pub restart-run :
    {E : Type 0} (resolve : Str → Option Ref) (reconnect : Ref → Result (Unit {0}))
    (supplier_id channel : Str) (earlier : List Line) (calls : List (Call E)) (s : State E)
    → IsPiece channel
    → GoodCalls calls
    → Resolvable resolve calls
    → ((r : Str) → caught (reconnect r) ≡ ok tt)
    → s.self ≡ new_push_consumer channel
    → s.env.log ≡ some (journal_text earlier [])
    → GoodLines earlier
    → part channel (apply_lines earlier empty_node) ≡ leaf
    → part channel (apply_last none earlier (apply_lines earlier empty_node)) ≡ leaf
    → let t = run supplier_id calls s in
      restart resolve reconnect channel t (t.env.log) ≡ some (t.self.connections)
restart-run resolve reconnect supplier_id channel earlier calls s h g r k new log good once twice =
    let fresh = new-Recorded channel earlier s new log good once twice in
    let t = run supplier_id calls s in
    let found =
      run-Resolve resolve supplier_id calls s r
        (subst (λ p. Resolve resolve (p.connections)) (sym new) tt) in
    restart-Recorded channel h supplier_id resolve reconnect t found k
      (run-Recorded channel h supplier_id calls s g fresh)
