-- ===== src/PersistNode/Parse/Totality/Tests.antt =====
-- A text whose last record has no end.
use omni_events.Prelude.{◌≡◌, some}
use omni_events.Prelude.Text.{codes}
use omni_events.PersistNode.{PersistNode}
use omni_events.PersistNode.Text.{parse}
use omni_events.PersistNode.Parse.Totality.{parse-total}

parse-total_example :
    (n : PersistNode) × (parse (codes "# comment\necf\n port=11169 ;;\n-ecf\necf/a x=") ≡ some n)
parse-total_example = parse-total (codes "# comment\necf\n port=11169 ;;\n-ecf\necf/a x=")
