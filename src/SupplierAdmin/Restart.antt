-- ===== src/SupplierAdmin/Restart.antt =====
-- A restart of the server between a checkpoint and the SupplierAdmin that is made from it.
mod Entries
mod Pushing
mod Pulling
mod Suppliers
mod Database
mod Tests
use omni_events.Prelude.{◌≡◌, refl, sym, ap, subst, ◌∙◌, false, Option, none, some, List, [], ◌∷◌}
use omni_events.Prelude.Text.{Str, codes}
use omni_events.PersistNode.{
  PersistNode, Children, leaf, branch, empty_node, children, child, or_empty, find_child,
}
use omni_events.PersistNode.Text.{parse}
use omni_events.Journal.{Line, apply_lines}
use omni_events.Journal.Append.{AllPuts}
use omni_events.Journal.Replay.{GoodLines}
use omni_events.Queue.{EventQueue}
use omni_events.Proxy.{Ref, Result, ok, throw, Env, ◌>>◌}
use omni_events.Proxy.PushConsumer.{new_push_consumer, caught}
use omni_events.Proxy.PushConsumer.Table.{Connections, no_connection, entry, Sorted}
use omni_events.Proxy.PushConsumer.Recovery.Lines.{IsPiece, tree_of}
use omni_events.Proxy.PushConsumer.Recovery.Owned.{Own}
use omni_events.Proxy.PushConsumer.Recovery.Restart.{Resolve, reincarnate-joined}
use omni_events.Proxy.PullConsumerManager.Restart.{restored, lines, with_line, reincarnate-grown}
use omni_events.Proxy.PullConsumerManager.{Servant}
use omni_events.SupplierAdmin.{Time}
use omni_events.SupplierAdmin.Proxies.{
  Admin, servants, reincarnate_pushed, reincarnate_pulled, reincarnate, output, pulling,
  with_pushing, with_pulling,
}
use Entries.{part_of, node_at, children_at-node_at, put_all, put_all-Ordered}
use Pushing.{push_kind}
use Pulling.{pull_kind, pull_entries, AllResolve, Distinct, supplier_of}
use Suppliers.{stored_supplier-put_all, supplier_of-restored, restored-Distinct}
use Database.{
  database, Elsewhere, Storable, connections, pullers, output-ok, parse-database, push_part,
  pull_part, tree,
}

-- A SupplierAdmin of the next process, with these connections and servants.
abbrev pub admin_with :
    {E : Type 0} → Str → Connections → Option (List Servant) → EventQueue E → Env E → Time → Admin E
admin_with channel cs ss sent_on env next_pull = record {
  consumers = record {
    push_consumer = record { channel_name = channel; connections = cs; use_local_queue = false };
    pull_consumer = ss;
    sent_on = sent_on;
    env = env;
  };
  queue = [];
  next_pull = next_pull;
}

-- What activate() of EventChannel_i does with the SupplierAdmin's node in a database.
abbrev pub restart :
    {E : Type 0}
    → (Ref → Result (Unit {0}))
    → (Str → Option Ref)
    → (Str → Option Ref)
    → Str
    → Admin E
    → Str
    → Option (Result (Unit {0}) × Admin E)
restart reconnect push_supplier pull_supplier channel a text = elim (parse text) [
  | none ↦ none
  | some root ↦ some (
      reincarnate reconnect push_supplier pull_supplier
        (node_at (codes "ecf") (channel ∷ codes "SupplierAdmin" ∷ []) root) a)
]

module _ {E : Type 0} (reconnect : Ref → Result (Unit {0}))
    (push_supplier pull_supplier : Str → Option Ref) (channel : Str) (sent_on : EventQueue E)
    (env : Env E) (next_pull : Time) where
  reincarnate_pushed-tree_of :
      (cs : Connections)
      → Sorted cs
      → Own channel cs
      → Resolve push_supplier cs
      → ((r : Ref) → caught (reconnect r) ≡ ok tt)
      → reincarnate_pushed reconnect push_supplier pull_supplier
          (tree_of cs)
          (admin_with channel no_connection none sent_on env next_pull)
        ≡ (ok tt, admin_with channel cs none sent_on env next_pull)
  unfolding reincarnate_pushed
  reincarnate_pushed-tree_of no_connection s o r k = refl
  reincarnate_pushed-tree_of (entry j c cs) s o r k =
      ap
        (λ p. (p.0, with_pushing p.1 (admin_with channel no_connection none sent_on env next_pull)))
        (reincarnate-joined push_supplier reconnect channel no_connection (entry j c cs) false []
          sent_on env r k o s)

  -- The SupplierAdmin once the pull consumers are made again from their nodes.
  abbrev revived : Children → Connections → Admin E
  revived leaf cs = admin_with channel cs none sent_on env next_pull
  revived (branch k n ns) cs =
      admin_with channel cs (some (restored pull_supplier channel (branch k n ns))) sent_on
        (record {
          log = with_line env.log (lines pull_supplier channel (branch k n ns));
          sent = env.sent;
        })
        next_pull

  reincarnate_pulled-revived :
      (ns : Children) (cs : Connections)
      → reincarnate_pulled reconnect push_supplier pull_supplier ns
          (admin_with channel cs none sent_on env next_pull)
        ≡ (ok tt, revived ns cs)
  unfolding reincarnate_pulled
  reincarnate_pulled-revived leaf cs = refl
  reincarnate_pulled-revived (branch k n ns) cs =
      let a = admin_with channel cs none sent_on env next_pull in
      ap (λ p. (p.0, with_pulling p.1 a))
        (reincarnate-grown pull_supplier channel (branch k n ns) (pulling [] a))

  -- What a SupplierAdmin has that was made from the nodes `ns` and the connections `cs`.
  abbrev pub Revived : Children → Connections → Admin E → Type 0
  Revived ns cs c =
      (connections c ≡ cs)
      × (c.consumers.push_consumer.channel_name ≡ channel)
      × (pullers c ≡ restored pull_supplier channel ns)
      × (c.queue ≡ [])
      × (c.consumers.sent_on ≡ sent_on)
      × (c.consumers.env.sent ≡ env.sent)

  revived-Revived : (ns : Children) (cs : Connections) → Revived ns cs (revived ns cs)
  revived-Revived leaf cs = (refl, refl, refl, refl, refl, refl)
  revived-Revived (branch k n ns) cs = (refl, refl, refl, refl, refl, refl)

  reincarnate-parts :
      (n : PersistNode) (cs : Connections) (ns : Children)
      → Sorted cs
      → Own channel cs
      → Resolve push_supplier cs
      → ((r : Ref) → caught (reconnect r) ≡ ok tt)
      → children (or_empty (child push_kind n)) ≡ tree_of cs
      → children (or_empty (child pull_kind n)) ≡ ns
      → reincarnate reconnect push_supplier pull_supplier n
          (admin_with channel no_connection none sent_on env next_pull)
        ≡ (ok tt, revived ns cs)
  unfolding reincarnate
  reincarnate-parts n cs ns s o r k pushed pulled =
      let fresh : Admin E = admin_with channel no_connection none sent_on env next_pull in
      let pull = λ (ms : Children). reincarnate_pulled reconnect push_supplier pull_supplier ms in
      ap
        (λ ms.
          (reincarnate_pushed reconnect push_supplier pull_supplier ms
              >> pull (children (or_empty (child pull_kind n))))
            fresh)
        pushed
      ∙ ap
          (λ ms.
            (reincarnate_pushed reconnect push_supplier pull_supplier (tree_of cs) >> pull ms)
              fresh)
          pulled
      ∙ ap (λ p. (elim (p.0) [ ok a ↦ pull ns p.1 | throw x ↦ (throw x, p.1) ]))
          (reincarnate_pushed-tree_of cs s o r k)
      ∙ reincarnate_pulled-revived ns cs

-- The output() of a SupplierAdmin returns. A server that starts on a database with that text behind
-- earlier lines, which put no proxies of this SupplierAdmin, and in front of lines of other channels
-- makes a new SupplierAdmin that has the same push connections, with ids, targets and federation
-- flags, and has for each id of a pull consumer the supplier that the old one has, if it has one, and no
-- two pull consumers with one id. No event is queued or sent on and no request sent.
-- The names in the database have no separators of its format, no two pull consumers have one id and
-- all are active, every stored IOR resolves to its object and an absent one to none, and a remote proxy
-- that is called again raises nothing that reincarnate() does not catch.
pub restart-output :
    {E : Type 0} (reconnect : Ref → Result (Unit {0}))
    (push_supplier pull_supplier : Str → Option Ref) (channel : Str) (earlier later : List Line)
    (a : Admin E) (sent_on : EventQueue E) (env : Env E) (next_pull : Time)
    → IsPiece channel
    → Storable channel a
    → Distinct (pullers a)
    → Resolve push_supplier (connections a)
    → AllResolve pull_supplier (pullers a)
    → ((r : Ref) → caught (reconnect r) ≡ ok tt)
    → GoodLines earlier
    → AllPuts earlier
    → part_of push_kind channel (apply_lines earlier empty_node) ≡ leaf
    → part_of pull_kind channel (apply_lines earlier empty_node) ≡ leaf
    → GoodLines later
    → Elsewhere channel later
    → ((output a).0 ≡ ok tt)
      × ((c : Admin E) × (restart reconnect push_supplier pull_supplier channel
              (admin_with channel no_connection none sent_on env next_pull)
              (database earlier (output a).1 later)
            ≡ some (ok tt, c))
          × (connections c ≡ connections a)
          × ((oid : Str) → supplier_of oid (pullers c) ≡ supplier_of oid (pullers a))
          × Distinct (pullers c)
          × (c.queue ≡ [])
          × (c.consumers.sent_on ≡ sent_on)
          × (c.consumers.env.sent ≡ env.sent))
unfolding find_child
restart-output reconnect push_supplier pull_supplier channel earlier later a sent_on env next_pull h
      s d r q k g p lp ll f e =
    let cs = connections a in
    let ns = put_all (pull_entries (pullers a)) leaf in
    let sorted = put_all-Ordered (pull_entries (pullers a)) leaf tt in
    let root = tree channel h a s earlier later g f p e in
    let path = channel ∷ codes "SupplierAdmin" ∷ [] in
    let n = node_at (codes "ecf") path root in
    let made =
      reincarnate-parts reconnect push_supplier pull_supplier channel sent_on env next_pull n cs ns
        s.0 s.1 r k
        (sym (children_at-node_at (codes "ecf") path push_kind root)
          ∙ push_part channel h a s earlier later g f p e lp)
        (sym (children_at-node_at (codes "ecf") path pull_kind root)
          ∙ pull_part channel h a s earlier later g f p e ll) in
    let c = revived reconnect push_supplier pull_supplier channel sent_on env next_pull ns cs in
    let facts =
      revived-Revived reconnect push_supplier pull_supplier channel sent_on env next_pull ns cs in
    (
      output-ok channel h a s,
      (
        c,
        rw (parse-database channel h a s earlier later g f p e, restart) (ap some made),
        facts.0,
        λ oid.
            ap (supplier_of oid) facts.2
            ∙ supplier_of-restored pull_supplier channel oid ns sorted
            ∙ stored_supplier-put_all pull_supplier oid (pullers a) leaf d q,
        subst (λ ss. Distinct ss) (sym facts.2) (restored-Distinct pull_supplier channel ns sorted),
        facts.3,
        facts.4,
        facts.5,
      ),
    )
