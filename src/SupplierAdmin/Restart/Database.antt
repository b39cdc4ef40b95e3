-- ===== src/SupplierAdmin/Restart/Database.antt =====
-- The database that a checkpoint writes, as far as a channel's SupplierAdmin is concerned: lines in
-- front of its own, its own, and lines of other channels.
use omni_events.Prelude.{
  ◌≡◌, ◌≢◌, refl, sym, ap, ◌∙◌, Option, none, some, List, [], ◌∷◌, ◌++◌, arith, true, false,
}
use mathlib.Core.List.{append-nil, append_assoc}
use omni_events.Prelude.Text.{Str, codes, str_eq}
use omni_events.PersistNode.{PersistNode, leaf, empty_node, split_name}
use omni_events.PersistNode.Paths.{update_path}
use omni_events.PersistNode.Text.{parse}
use omni_events.PersistNode.Parse.Records.{attrs_effect}
use omni_events.Journal.{Line, put, block, drop, blank, journal_text, apply_line, apply_lines}
use omni_events.Journal.Append.{
  AllPuts, AllPuts-append, GoodLines-append, journal_text-append, journal_text-rest,
  apply_lines-append, apply_last-AllPuts,
}
use omni_events.Journal.Lookup.{children_at-update_apart}
use omni_events.Journal.Replay.{GoodLines, parse-journal}
use omni_events.Proxy.{ok}
use omni_events.Proxy.PushConsumer.{output_all}
use omni_events.Proxy.PushConsumer.Table.{Connections, no_connection, Sorted}
use omni_events.Proxy.PushConsumer.Recovery.Lines.{IsPiece, tree_of}
use omni_events.Proxy.PushConsumer.Recovery.Owned.{Own}
use omni_events.Proxy.PullConsumerManager.{Servant}
use omni_events.SupplierAdmin.Proxies.{Admin, servants, output, output_pulled}
use omni_events.SupplierAdmin.Restart.Entries.{
  lines_of, part_of, put_all, AllPuts-lines_of, lines_of-GoodLines, part_of-lines_of, part_of-other,
}
use omni_events.SupplierAdmin.Restart.Pushing as Pushing
use omni_events.SupplierAdmin.Restart.Pushing.{
  push_kind, push_entries, push_entries-Good, put_all-push_entries,
}
use omni_events.SupplierAdmin.Restart.Pulling as Pulling
use omni_events.SupplierAdmin.Restart.Pulling.{
  pull_kind, pull_entries, pull_entries-Good, AllStored,
}

abbrev pub database : List Line → Str → List Line → Str
database earlier text later = journal_text earlier (text ++ journal_text later [])

-- A name behind `ecf` and another channel.
abbrev pub Apart : Str → Str × List Str → Type 0
Apart channel (k, []) = ⊥
Apart channel (k, c ∷ rest) = (k ≡ codes "ecf") × (channel ≢ c)

-- The lines put nodes of other channels.
abbrev pub Elsewhere : Str → List Line → Type 0
Elsewhere channel [] = Unit {0}
Elsewhere channel (put name ats ∷ ls) = Apart channel (split_name name) × Elsewhere channel ls
Elsewhere channel (block name ats ∷ ls) = Apart channel (split_name name) × Elsewhere channel ls
Elsewhere channel (drop name ∷ ls) = ⊥
Elsewhere channel (blank ∷ ls) = Elsewhere channel ls

Elsewhere-AllPuts : (channel : Str) (ls : List Line) → Elsewhere channel ls → AllPuts ls
Elsewhere-AllPuts channel [] e = tt
Elsewhere-AllPuts channel (put name ats ∷ ls) e = Elsewhere-AllPuts channel ls e.1
Elsewhere-AllPuts channel (block name ats ∷ ls) e = Elsewhere-AllPuts channel ls e.1
Elsewhere-AllPuts channel (drop name ∷ ls) e = elim e [ ]
Elsewhere-AllPuts channel (blank ∷ ls) e = Elsewhere-AllPuts channel ls e

part_of-Apart :
    (kind channel : Str) (f : PersistNode → PersistNode) (p : Str × List Str) (root : PersistNode)
    → Apart channel p
    → part_of kind channel (update_path f p.0 p.1 root) ≡ part_of kind channel root
part_of-Apart kind channel f (k, []) root a = elim a [ ]
part_of-Apart kind channel f (k, c ∷ rest) root a =
    ap (λ x. part_of kind channel (update_path f x (c ∷ rest) root)) a.0
    ∙ children_at-update_apart f (codes "ecf") [] channel c (codes "SupplierAdmin" ∷ kind ∷ []) rest
        root a.1

part_of-Elsewhere :
    (kind channel : Str) (ls : List Line) (root : PersistNode)
    → Elsewhere channel ls
    → part_of kind channel (apply_lines ls root) ≡ part_of kind channel root
unfolding apply_lines apply_line
part_of-Elsewhere kind channel [] root e = refl
part_of-Elsewhere kind channel (put name ats ∷ ls) root e =
    part_of-Elsewhere kind channel ls (apply_line (put name ats) root) e.1
    ∙ part_of-Apart kind channel (λ _. attrs_effect ats empty_node) (split_name name) root e.0
part_of-Elsewhere kind channel (block name ats ∷ ls) root e =
    part_of-Elsewhere kind channel ls (apply_line (block name ats) root) e.1
    ∙ part_of-Apart kind channel (λ _. attrs_effect ats empty_node) (split_name name) root e.0
part_of-Elsewhere kind channel (drop name ∷ ls) root e = elim e [ ]
part_of-Elsewhere kind channel (blank ∷ ls) root e = part_of-Elsewhere kind channel ls root e

push_kind-IsPiece : IsPiece push_kind
push_kind-IsPiece = (ground arith, ground arith)

pull_kind-IsPiece : IsPiece pull_kind
pull_kind-IsPiece = (ground arith, ground arith)

push_ne_pull : push_kind ≢ pull_kind
unfolding str_eq
push_ne_pull e = let p : true ≡ false = ap (str_eq push_kind) e in cc

abbrev pub connections : {E : Type 0} → Admin E → Connections
connections a = a.consumers.push_consumer.connections

abbrev pub pullers : {E : Type 0} → Admin E → List Servant
pullers a = servants a.consumers.pull_consumer

-- What the state has to satisfy for its lines to be read back.
abbrev pub Storable : {E : Type 0} → Str → Admin E → Type 0
Storable channel a =
    Sorted (connections a) × Own channel (connections a) × AllStored channel (pullers a)

output_pulled-lines_of :
    (channel pushed : Str) (o : Option (List Servant))
    → AllStored channel (servants o)
    → output_pulled pushed o
      ≡ (ok tt, pushed ++ journal_text (lines_of pull_kind channel (pull_entries (servants o))) [])
unfolding output_pulled journal_text
output_pulled-lines_of channel pushed none g = ap (λ t. (ok tt, t)) (sym (append-nil pushed))
output_pulled-lines_of channel pushed (some ss) g =
    ap (λ p. (p.0, pushed ++ p.1)) (Pulling.output_all-lines_of channel ss g)

module _ {E : Type 0} (channel : Str) (h : IsPiece channel) (a : Admin E)
    (s : Storable channel a) where
  abbrev pushes : List Line
  pushes = lines_of push_kind channel (push_entries (connections a))

  abbrev pulls : List Line
  pulls = lines_of pull_kind channel (pull_entries (pullers a))

  output-lines_of : output a ≡ (ok tt, journal_text pushes [] ++ journal_text pulls [])
  unfolding output
  output-lines_of =
      output_pulled-lines_of channel (output_all (connections a)) (a.consumers.pull_consumer) s.2
      ∙ ap (λ t. (ok tt, t ++ journal_text pulls []))
          (Pushing.output_all-lines_of channel (connections a) s.1)

  pub output-ok : (output a).0 ≡ ok tt
  output-ok = ap (λ p. p.0) output-lines_of

  module _ (earlier later : List Line) (g : GoodLines earlier) (f : GoodLines later)
      (p : AllPuts earlier) (e : Elsewhere channel later) where
    abbrev all_lines : List Line
    all_lines = earlier ++ (pushes ++ (pulls ++ later))

    database-all_lines : database earlier (output a).1 later ≡ journal_text all_lines []
    database-all_lines =
        let own = journal_text pushes [] ++ journal_text pulls [] in
        let rest = journal_text later [] in
        ap (λ q. database earlier q.1 later) output-lines_of
        ∙ ap (journal_text earlier) (
            append_assoc (journal_text pushes []) (journal_text pulls []) rest
            ∙ ap (λ t. journal_text pushes [] ++ t) (journal_text-rest pulls rest)
            ∙ journal_text-rest pushes (journal_text pulls rest)
            ∙ ap (journal_text pushes) (sym (journal_text-append pulls later []))
            ∙ sym (journal_text-append pushes (pulls ++ later) []))
        ∙ sym (journal_text-append earlier (pushes ++ (pulls ++ later)) [])

    abbrev pub tree : PersistNode
    tree = apply_lines all_lines empty_node

    -- Reading the database gives the tree of its lines.
    pub parse-database : parse (database earlier (output a).1 later) ≡ some tree
    parse-database =
        let good = GoodLines-append earlier (pushes ++ (pulls ++ later)) g (
          GoodLines-append pushes (pulls ++ later)
            (lines_of-GoodLines push_kind channel push_kind-IsPiece h (push_entries (connections a))
              (push_entries-Good channel (connections a) s.1))
            (GoodLines-append pulls later
              (lines_of-GoodLines pull_kind channel pull_kind-IsPiece h (pull_entries (pullers a))
                (pull_entries-Good channel (pullers a) s.2))
              f)) in
        let puts = AllPuts-append earlier (pushes ++ (pulls ++ later)) p (
          AllPuts-append pushes (pulls ++ later)
            (AllPuts-lines_of push_kind channel (push_entries (connections a)))
            (AllPuts-append pulls later
              (AllPuts-lines_of pull_kind channel (pull_entries (pullers a)))
              (Elsewhere-AllPuts channel later e))) in
        ap parse database-all_lines
        ∙ parse-journal all_lines good
        ∙ ap some (apply_last-AllPuts all_lines tree puts)

    abbrev before : PersistNode
    before = apply_lines earlier empty_node

    tree-lines : tree ≡ apply_lines later (apply_lines pulls (apply_lines pushes before))
    tree-lines =
        apply_lines-append earlier (pushes ++ (pulls ++ later)) empty_node
        ∙ apply_lines-append pushes (pulls ++ later) before
        ∙ apply_lines-append pulls later (apply_lines pushes before)

    pub push_part :
        part_of push_kind channel before ≡ leaf
        → part_of push_kind channel tree ≡ tree_of (connections a)
    push_part l =
        ap (part_of push_kind channel) tree-lines
        ∙ part_of-Elsewhere push_kind channel later (apply_lines pulls (apply_lines pushes before))
            e
        ∙ part_of-other pull_kind channel pull_kind-IsPiece h push_kind (pull_entries (pullers a))
            (apply_lines pushes before) push_ne_pull (pull_entries-Good channel (pullers a) s.2)
        ∙ part_of-lines_of push_kind channel push_kind-IsPiece h (push_entries (connections a))
            before (push_entries-Good channel (connections a) s.1)
        ∙ ap (put_all (push_entries (connections a))) l
        ∙ put_all-push_entries no_connection (connections a) s.0

    pub pull_part :
        part_of pull_kind channel before ≡ leaf
        → part_of pull_kind channel tree ≡ put_all (pull_entries (pullers a)) leaf
    pull_part l =
        ap (part_of pull_kind channel) tree-lines
        ∙ part_of-Elsewhere pull_kind channel later (apply_lines pulls (apply_lines pushes before))
            e
        ∙ part_of-lines_of pull_kind channel pull_kind-IsPiece h (pull_entries (pullers a))
            (apply_lines pushes before) (pull_entries-Good channel (pullers a) s.2)
        ∙ ap (put_all (pull_entries (pullers a))) (
            part_of-other push_kind channel push_kind-IsPiece h pull_kind
              (push_entries (connections a)) before (λ q. push_ne_pull (sym q))
              (push_entries-Good channel (connections a) s.1)
            ∙ l)
