-- ===== src/Iterators/References/Tests.antt =====
-- Two iterators: one is called while the sweep releases both, the other is destroyed.
use omni_events.Prelude.{ℕ, ◌+◌, ◌≡◌, List, [], ◌∷◌}
use omni_events.Prelude.Text.{codes}
use omni_events.Iterators.{release_all}
use omni_events.Iterators.References.{
  Step, register, invoke, complete, collect, after_all, empty, tracked, invoked,
  after_all-references,
}

abbrev steps : List Step
steps =
    register 0 (codes "a") 1 60 (codes "destroy")
    ∷ register 1 (codes "b") 2 60 (codes "destroy")
    ∷ invoke 5 (codes "a") (codes "next_n")
    ∷ invoke 6 (codes "b") (codes "destroy")
    ∷ collect (λ i. 100)
    ∷ complete 0
    ∷ []

abbrev others : ℕ → ℕ
others t = 0

after_all-references_example :
    let s = after_all steps (empty others) in
    (s.locator.refs 1 ≡ others 1 + tracked 1 s.locator.active_map + invoked 1 s.requests)
    × (release_all s.locator.active_map s.locator.refs 1 ≡ others 1 + invoked 1 s.requests)
after_all-references_example = after_all-references others 1 steps
