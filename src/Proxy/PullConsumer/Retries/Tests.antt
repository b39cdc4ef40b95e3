-- ===== src/Proxy/PullConsumer/Retries/Tests.antt =====
-- A proxy and a supplier that raises exceptions.
use omni_events.Prelude.{ℕ, ◌≡◌, refl, true, some, List, [], ◌∷◌, arith}
use omni_events.Prelude.Text.{Str, codes}
use omni_events.Proxy.{Env, ok, throw, assertion}
use omni_events.Proxy.PullConsumer.{
  pull_mode, Reply, raised, returned, collect, trigger_request, disconnect_pull_consumer,
}
use omni_events.Proxy.PullConsumer.Retries.{
  connected, rounds, fails, Outcome, pushed, values, rounds-Outcome, pushed-eq-values,
  disconnect-collect_assertion,
}

abbrev channel : Str
channel = codes "c"

abbrev oid : Str
oid = codes "o"

abbrev supplier : Str
supplier = codes "IOR:01"

abbrev log_only : Env ℕ
log_only = record { log = some []; sent = [] }

abbrev replies : List (Reply ℕ)
replies = returned 5 (some true) ∷ raised ∷ raised ∷ returned 6 (some true) ∷ raised ∷ []

rounds-Outcome_example :
    Outcome channel oid supplier
      (fails 1 replies)
      (rounds (connected channel oid supplier pull_mode 1 log_only) replies)
rounds-Outcome_example =
    rounds-Outcome channel oid supplier pull_mode 1 log_only replies (omega arith)

pushed-eq-values_example :
    pushed channel oid supplier (connected channel oid supplier pull_mode 0 log_only) replies
    ≡ values replies
pushed-eq-values_example =
    pushed-eq-values channel oid supplier pull_mode log_only replies refl (refl, (refl, tt))

disconnect-collect_assertion_example :
    let asked = (trigger_request (connected channel oid supplier pull_mode 3 log_only)).1 in
    let left = disconnect_pull_consumer asked in
    (left.0 ≡ ok tt) × ((collect (some raised) left.1).0 ≡ throw assertion)
disconnect-collect_assertion_example =
    disconnect-collect_assertion channel oid supplier pull_mode log_only
