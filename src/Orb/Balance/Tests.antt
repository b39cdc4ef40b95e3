-- ===== src/Orb/Balance/Tests.antt =====
-- Three requests, two of them with a callback, and one that is never answered.
use omni_events.Prelude.{ℕ, ◌≡◌, ◌==◌, refl, false, some, none, List, [], ◌∷◌, if◌then◌else◌}
use omni_events.Orb.{Orb, Answer, returned, pending, clean_up}
use omni_events.Orb.Balance.{
  Op, submit, round, shut_down, apply_all, tally, adds, removes, releases, clean_up-apply_all,
}

abbrev start : Orb
start = record { shutdown_requested = false; deferred_requests = []; effects = [] }

abbrev answers : ℕ → Answer
answers r = if r == 2 then pending else returned

abbrev ops : List Op
ops =
    submit 1 (some 9)
    ∷ submit 2 (some 9)
    ∷ submit 3 none
    ∷ round answers
    ∷ shut_down
    ∷ submit 4 (some 9)
    ∷ []

clean_up-apply_all_example :
    let t = clean_up (apply_all ops start) in
    (tally (removes 9) (t.effects) ≡ tally (adds 9) (t.effects))
    × (tally (releases 2) (t.effects) ≡ 1)
    × (t.deferred_requests ≡ [])
clean_up-apply_all_example = clean_up-apply_all 9 2 ops start refl refl
