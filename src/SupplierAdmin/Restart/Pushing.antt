-- ===== src/SupplierAdmin/Restart/Pushing.antt =====
-- The connections of the push consumers in a database.
use omni_events.Prelude.{◌≡◌, refl, sym, ap, subst, ◌∙◌, [], ◌∷◌, ◌++◌}
use omni_events.Prelude.Text.{Str, codes}
use omni_events.PersistNode.{set_child}
use omni_events.Journal.{put, line_text, journal_text}
use omni_events.Journal.Append.{line_text-append}
use omni_events.Proxy.PushConsumer.{key_text, output_all}
use omni_events.Proxy.PushConsumer.Table.{Connections, no_connection, entry, Sorted}
use omni_events.Proxy.PushConsumer.Recovery.Lines.{
  attrs_of, node_of, tree_of, output_connection-line, tree_of-insert, attrs_effect-attrs_of,
  attrs-GoodAttrs,
}
use omni_events.Proxy.PushConsumer.Recovery.Owned.{Own}
use omni_events.Proxy.PushConsumer.Recovery.Steps.{line_of-Mine}
use omni_events.Proxy.PushConsumer.Recovery.Restart.{
  joined, joined-entry, joined-no_connection, find-behind, insert-behind,
}
use omni_events.SupplierAdmin.Restart.Entries.{Entries, GoodEntries, lines_of, put_all}

abbrev pub push_entries : Connections → Entries
push_entries no_connection = []
push_entries (entry k c cs) = (k, attrs_of c) ∷ push_entries cs

abbrev pub push_kind : Str
push_kind = codes "ProxyPushConsumer"

pub push_entries-Good :
    (channel : Str) (cs : Connections) → Own channel cs → GoodEntries (push_entries cs)
push_entries-Good channel no_connection o = tt
push_entries-Good channel (entry k c cs) o = (
  o.0.3,
  attrs-GoodAttrs (c.target_sior) (c.target_is_proxy) o.0.2,
  push_entries-Good channel cs o.1,
)

pub output_all-lines_of :
    (channel : Str) (cs : Connections)
    → Own channel cs
    → output_all cs ≡ journal_text (lines_of push_kind channel (push_entries cs)) []
unfolding output_all journal_text
output_all-lines_of channel no_connection o = refl
output_all-lines_of channel (entry k c cs) o =
    let rest = journal_text (lines_of push_kind channel (push_entries cs)) [] in
    ap (λ t. t ++ output_all cs)
      (output_connection-line c ∙ ap (λ l. line_text l []) (line_of-Mine channel k c o.0))
    ∙ ap (λ t. line_text (put (key_text channel k) (attrs_of c)) [] ++ t)
        (output_all-lines_of channel cs o.1)
    ∙ line_text-append (put (key_text channel k) (attrs_of c)) [] rest

pub put_all-push_entries :
    (bs cs : Connections)
    → Sorted (joined bs cs)
    → put_all (push_entries cs) (tree_of bs) ≡ tree_of (joined bs cs)
put_all-push_entries bs no_connection s = ap tree_of (sym (joined-no_connection bs))
put_all-push_entries bs (entry k c cs) s =
    let next = joined bs (entry k c no_connection) in
    let one : set_child k (node_of c) (tree_of bs) ≡ tree_of next =
      sym (tree_of-insert k c bs (find-behind bs k c cs s))
      ∙ ap tree_of (insert-behind bs k c cs s) in
    ap (λ n. put_all (push_entries cs) (set_child k n (tree_of bs))) (attrs_effect-attrs_of c)
    ∙ ap (put_all (push_entries cs)) one
    ∙ put_all-push_entries next cs (subst (λ x. Sorted x) (sym (joined-entry bs k c cs)) s)
    ∙ ap tree_of (joined-entry bs k c cs)
