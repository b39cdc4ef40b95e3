-- ===== src/ConsumerAdmin/Filtered/Tests.antt =====
-- A channel with a FilterId.
use omni_events.Prelude.{ℕ, ◌≡◌, refl, ◌==◌, none, [], ◌∷◌, if◌then◌else◌}
use omni_events.Prelude.Text.{codes, compare_str}
use omni_events.PersistNode.{PersistNode, node, leaf, has_attr, attr_string}
use omni_events.PersistNode.Maps.{find_attr}
use omni_events.PersistNode.Longs.{attr_long}
use omni_events.PersistNode.Longs.Digits.{atol, value_of}
use omni_events.Queue.{EventQueue, new_queue, set_filter}
use omni_events.Queue.Filter.{AnyType, tk_struct, tk_any, Filter, by_repository_id, keep}
use omni_events.ConsumerAdmin.{
  ConsumerAdmin, chosen_filter, new_consumer_admin, append_all, send_all,
}
use omni_events.ConsumerAdmin.Filtered.{kept, Selected, send_all-chosen_filter}

-- An event is a number, whose type is a structure; 7 has the id `x`.
abbrev any : AnyType ℕ
any = record { kind = λ e. tk_struct; id = λ e. if e == 7 then codes "x" else codes "y" }

abbrev properties : PersistNode
properties = node leaf ((codes "FilterId", codes "x") ∷ (codes "MaxQueueLength", codes "2") ∷ [])

abbrev by_x : Filter
by_x = by_repository_id (codes "x")

abbrev queue : EventQueue ℕ
queue = record { next = 0; size = 3; queue = none ∷ none ∷ none ∷ []; filter = none }

abbrev admin : ConsumerAdmin ℕ ℕ ℕ
admin = record {
  queue = set_filter (keep any by_x) queue;
  push_supplier = none;
  pull_supplier = none;
}

send_all-chosen_filter_example :
    let admitted = kept (keep any by_x) (5 ∷ 7 ∷ 6 ∷ []) in
    ((send_all (5 ∷ 7 ∷ 6 ∷ []) admin).queue
      ≡ set_filter (keep any by_x) (append_all queue admitted))
    × Selected any by_x (5 ∷ 7 ∷ 6 ∷ []) admitted
unfolding chosen_filter has_attr attr_string find_attr attr_long atol value_of compare_str new_queue
    new_consumer_admin
send_all-chosen_filter_example =
    send_all-chosen_filter any (λ n. tk_any) properties by_x (5 ∷ 7 ∷ 6 ∷ []) admin queue refl refl
      refl
