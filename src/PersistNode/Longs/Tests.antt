-- ===== src/PersistNode/Longs/Tests.antt =====
-- A cycle period of three seconds.
use omni_events.Prelude.{◌-◌, ◌^◌, ◌≡◌, refl, ltb, if◌then◌else◌, arith}
use omni_events.Prelude.Text.{codes}
use omni_events.PersistNode.{empty_node}
use omni_events.PersistNode.Longs.{addattr_long, attr_long, int_text, attr_long-addattr_long}
use omni_events.PersistNode.Longs.Digits.{digits}

three_seconds : int_text 3000000000 ≡ codes "-1294967296"
unfolding int_text digits
three_seconds = refl

one_second : int_text 1000000000 ≡ codes "1000000000"
unfolding int_text digits
one_second = refl

attr_long-addattr_long_example :
    attr_long
      (codes "CyclePeriod_ns")
      100000000
      (addattr_long (codes "CyclePeriod_ns") 3000000000 empty_node)
    ≡ (if ltb 3000000000 (2 ^ 31) then 3000000000 else 2 ^ 64 - (2 ^ 32 - 3000000000))
attr_long-addattr_long_example =
    attr_long-addattr_long (codes "CyclePeriod_ns") 3000000000 100000000 empty_node (omega arith)
