-- ===== src/Proxy/PushConsumer/Recovery/Late.antt =====
-- The answer to _is_a() that reaches a Connection after its supplier has disconnected: the Orb still
-- holds the Connection, whose callback() writes to the log.
use omni_events.Prelude.{
  ◌≡◌, refl, sym, ap, subst, ◌∙◌, true, Option, none, some, List, [], ◌∷◌, ◌++◌,
}
use omni_events.Prelude.Text.{Str}
use omni_events.PersistNode.{leaf, empty_node}
use omni_events.Journal.{Line, journal_text, apply_lines, apply_last}
use omni_events.Journal.Replay.{GoodLines}
use omni_events.Proxy.{Ref, Result, ok}
use omni_events.Proxy.PushConsumer.{
  State, new_push_consumer, output_connection, callback, disconnect_push_consumer, caught,
}
use omni_events.Proxy.PushConsumer.Table.{
  Connection, find, insert, erase, insert-Sorted, find-erase,
}
use omni_events.Proxy.PushConsumer.Recovery.{
  Call, GoodCalls, run, restart, Recorded, log_text-snoc, disconnect-Recorded, restart-Recorded,
  run-Recorded, new-Recorded, Resolvable, run-Resolve, disconnect-Resolve,
}
use omni_events.Proxy.PushConsumer.Recovery.Restart.{Resolve}
use omni_events.Proxy.PushConsumer.Recovery.Targets.{insert-Resolve, find-Found}
use omni_events.Proxy.PushConsumer.Recovery.Lines.{
  IsPiece, line_of, output_connection-line, tree_of-insert,
}
use omni_events.Proxy.PushConsumer.Recovery.Owned.{Mine, insert-Own, find-Mine}
use omni_events.Proxy.PushConsumer.Recovery.Steps.{part, put-Gives}

-- A supplier disconnects, and its Connection gets the answer that it is a ProxyPushSupplier.
abbrev pub late_answer : {E : Type 0} → Str → Connection → State E → State E
late_answer oid c s =
    let t = disconnect_push_consumer oid s in record t { env = (callback (some true) c t.env).1 }

abbrev pub federated_connection : Connection → Connection
federated_connection c = record c { target_is_proxy = true }

module _ {E : Type 0} (channel : Str) (h : IsPiece channel) (oid : Str) (c : Connection) where
  erased :
      (s : State E)
      → find oid (s.self.connections) ≡ some c
      → (disconnect_push_consumer oid s).self.connections ≡ erase oid (s.self.connections)
  unfolding disconnect_push_consumer
  erased s f = rw (f, disconnect_push_consumer) refl

  -- With the connection back in its place, the log says what is in memory.
  resurrected-Recorded :
      (t : State E)
      → Recorded channel t
      → Mine channel oid c
      → find oid (t.self.connections) ≡ none
      → Recorded channel (record t {
        self = record (t.self) {
          connections = insert oid (federated_connection c) (t.self.connections);
        };
        env = (callback (some true) c t.env).1;
      })
  unfolding callback
  resurrected-Recorded t (name, sorted, own, (ls, log, gives)) m f =
      let d = federated_connection c in
      let cs = t.self.connections in
      let mine : Mine channel oid d = (m.0, m.1, m.2, m.3) in
      (
        name,
        insert-Sorted oid d cs sorted,
        insert-Own channel oid d cs mine own,
        (
          ls ++ line_of d ∷ [],
          log_text-snoc channel h [] (output_connection d) (line_of d) ls (t.env) log
              (output_connection-line d),
          put-Gives channel oid d ls cs (insert oid d cs) h mine gives (tree_of-insert oid d cs f),
        ),
      )

-- After any calls to a new ProxyPushConsumer, a supplier disconnects before the answer to _is_a() is
-- there, and the answer then says that it is a ProxyPushSupplier. The process has the connection no
-- more, but the next process reads it in the log and has it again, as a federated one. The names of the
-- calls have no white space and no slash, the IOR of each supplier that connects resolves to its object,
-- a remote proxy that is called again raises nothing that reincarnate() does not catch, and the log had
-- no connection of the proxy before the calls.
pub late_answer-restart :
    {E : Type 0} (resolve : Str → Option Ref) (reconnect : Ref → Result (Unit {0}))
    (supplier_id channel : Str) (earlier : List Line) (calls : List (Call E)) (s : State E)
    (oid : Str) (c : Connection)
    → IsPiece channel
    → GoodCalls calls
    → Resolvable resolve calls
    → ((r : Str) → caught (reconnect r) ≡ ok tt)
    → s.self ≡ new_push_consumer channel
    → s.env.log ≡ some (journal_text earlier [])
    → GoodLines earlier
    → part channel (apply_lines earlier empty_node) ≡ leaf
    → part channel (apply_last none earlier (apply_lines earlier empty_node)) ≡ leaf
    → find oid ((run supplier_id calls s).self.connections) ≡ some c
    → let t = late_answer oid c (run supplier_id calls s) in
      (find oid (t.self.connections) ≡ none)
      × (restart resolve reconnect channel t (t.env.log)
          ≡ some (insert oid (federated_connection c) (t.self.connections)))
late_answer-restart resolve reconnect supplier_id channel earlier calls s oid c h g r k new log good
      once twice f =
    let u = run supplier_id calls s in
    let ru =
      run-Recorded channel h supplier_id calls s g
        (new-Recorded channel earlier s new log good once twice) in
    let t = disconnect_push_consumer oid u in
    let rt = disconnect-Recorded channel h supplier_id oid u ru in
    let absent : find oid (t.self.connections) ≡ none =
      ap (find oid) (erased channel h oid c u f) ∙ find-erase oid (u.self.connections) ru.1 in
    let found =
      run-Resolve resolve supplier_id calls s r
        (subst (λ p. Resolve resolve (p.connections)) (sym new) tt) in
    let back =
      insert-Resolve resolve oid (federated_connection c) (t.self.connections)
        (find-Found resolve oid c (u.self.connections) found f)
        (disconnect-Resolve resolve supplier_id oid u found) in
    let m = find-Mine channel oid c (u.self.connections) ru.2 f in
    (
      absent,
      restart-Recorded channel h supplier_id resolve reconnect
          (record t {
            self = record (t.self) {
              connections = insert oid (federated_connection c) (t.self.connections);
            };
            env = (callback (some true) c t.env).1;
          })
          back k (resurrected-Recorded channel h oid c t rt m absent),
    )
