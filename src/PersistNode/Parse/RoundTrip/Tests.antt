-- ===== src/PersistNode/Parse/RoundTrip/Tests.antt =====
-- The tree of a factory with one channel.
use omni_events.Prelude.{◌≡◌, refl, some, [], ◌∷◌}
use omni_events.Prelude.Text.{codes, compare_str}
use omni_events.PersistNode.{Children, node, leaf, branch}
use omni_events.PersistNode.Text.{parse, output}
use omni_events.PersistNode.Parse.Wellformed.{GoodChildren}
use omni_events.PersistNode.Parse.RoundTrip.{parse-output}

abbrev factory : Children
factory =
    branch (codes "ecf")
      (node (branch (codes "a") (node leaf ((codes "x", codes "1") ∷ [])) leaf)
        ((codes "n", codes "v=w") ∷ (codes "p", []) ∷ []))
      leaf

factory-GoodChildren : GoodChildren factory
unfolding compare_str
factory-GoodChildren = (
  (refl, (refl, (refl, tt))),
  (refl, (refl, (refl, tt))),
  tt,
  (
    (
      (refl, tt),
      (refl, tt),
      refl,
      (refl, (refl, (refl, tt))),
      (refl, tt),
      ((refl, tt), (refl, tt), refl, tt, tt, tt),
    ),
    ((refl, tt), (refl, tt), tt, (((refl, tt), (refl, tt), refl, (refl, tt), tt, tt), tt), tt),
  ),
  tt,
)

parse-output_example : parse (output (node factory []) [] []) ≡ some (node factory [])
parse-output_example = parse-output factory factory-GoodChildren ((refl, refl, refl), tt)
