-- ===== src/Factory/Period/Tests.antt =====
-- The deprecated criterion before and behind the one in milliseconds.
use omni_events.Prelude.{◌≡◌, refl, List, [], ◌∷◌, some}
use omni_events.Prelude.Text.{codes, str_eq, compare_str}
use omni_events.PersistNode.{PersistNode, node, leaf, has_attr}
use omni_events.PersistNode.Maps.{set_attr, find_attr}
use omni_events.PersistNode.Longs.{addattr_long, int_text}
use omni_events.PersistNode.Longs.Digits.{digits}
use omni_events.Factory.{
  Criterion, ulong, parsed, setting_of, apply_setting, parse_rest, parse_criteria,
}
use omni_events.Factory.Period.{parse_criteria-period}
use omni_events.Factory.Period.Steps.{period_of, period, last_ms, first_seconds}

abbrev criteria : List Criterion
criteria =
    record { name = codes "PullRetryPeriod"; value = ulong 5 }
    ∷ record { name = codes "PullRetryPeriod_ms"; value = ulong 100 }
    ∷ record { name = codes "MaxQueueLength"; value = ulong 0 }
    ∷ record { name = codes "PullRetryPeriod"; value = ulong 7 }
    ∷ []

abbrev tree : PersistNode
tree = node leaf ((codes "PullRetryPeriod_ms", codes "100") ∷ [])

accepted : parse_criteria criteria ≡ parsed tree
unfolding parse_criteria parse_rest apply_setting setting_of str_eq addattr_long int_text digits
    set_attr compare_str has_attr find_attr
accepted = refl

parse_criteria-period_example : period_of tree ≡ period (last_ms criteria) (first_seconds criteria)
parse_criteria-period_example = parse_criteria-period criteria tree accepted

-- A period that does not fit becomes 0.
overflow : period (last_ms []) (some 536870912) ≡ some (codes "0")
unfolding int_text digits
overflow = refl
