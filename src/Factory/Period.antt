-- ===== src/Factory/Period.antt =====
-- Which pull retry period a channel gets from the criteria it is created with.
pub mod Steps
mod Tests
use omni_events.Prelude.{
  ◌≡◌, refl, ap, sym, ◌∙◌, ◌⊎◌, inl, inr, Option, none, some, List, [], ◌∷◌, ℕ,
}
use omni_events.Prelude.Text.{Str}
use omni_events.PersistNode.{PersistNode, empty_node}
use omni_events.PersistNode.Maps.{find_attr}
use omni_events.Factory.{
  Criterion, Outcome, parsed, invalid_criteria, cannot_meet_criteria, setting_of, apply_setting,
  parse_rest, parse_criteria,
}
use Steps.{
  period_of, or_else, number_in, last_ms, first_seconds, period, finally, next, finally-next,
  tree_of, apply_setting-period,
}

Outcome-cases :
    (o : Outcome)
    → ((m : PersistNode) × (o ≡ parsed m))
      ⊎ (((l : List Criterion) × (o ≡ invalid_criteria l))
          ⊎ ((l : List Criterion) × (o ≡ cannot_meet_criteria l)))
Outcome-cases (parsed m) = inl (m, refl)
Outcome-cases (invalid_criteria l) = inr (inl (l, refl))
Outcome-cases (cannot_meet_criteria l) = inr (inr (l, refl))

finally-none : (now : Option Str) → finally none now none ≡ now
finally-none none = refl
finally-none (some t) = refl

finally-period : (ms seconds : Option ℕ) → finally ms none seconds ≡ period ms seconds
finally-period (some v) seconds = refl
finally-period none seconds = refl

parse_rest-period :
    (all cs : List Criterion) (n m : PersistNode)
    → parse_rest all cs n ≡ parsed m
    → period_of m ≡ finally (last_ms cs) (period_of n) (first_seconds cs)
unfolding parse_rest
parse_rest-period all [] n m e =
    ap (λ o. period_of (tree_of o)) (sym e) ∙ sym (finally-none (period_of n))
parse_rest-period all (c ∷ cs) n m e =
    let s = setting_of (c.name) in
    elim (Outcome-cases (apply_setting s (c.value) all n)) [
      | inl (k, p) ↦
          let q : parse_rest all (c ∷ cs) n ≡ parse_rest all cs k = rw (p, parse_rest) refl in
          parse_rest-period all cs k m (sym q ∙ e)
          ∙ ap (λ t. finally (last_ms cs) t (first_seconds cs))
              (apply_setting-period s (c.value) all n k p)
          ∙ finally-next (last_ms cs) (number_in s (c.value)) (period_of n) (first_seconds cs)
      | inr (inl (l, p)) ↦
          let q : parse_rest all (c ∷ cs) n ≡ invalid_criteria l = rw (p, parse_rest) refl in
          let wrong = sym q ∙ e in cc
      | inr (inr (l, p)) ↦
          let q : parse_rest all (c ∷ cs) n ≡ cannot_meet_criteria l = rw (p, parse_rest) refl in
          let wrong = sym q ∙ e in cc
    ]

-- If the criteria are accepted, the attribute PullRetryPeriod_ms of the channel is the number in the
-- last criterion of that name, wherever it stands. Without one it is a thousand times the number in
-- the first PullRetryPeriod, modulo 2 ^ 32, and without both it is not set.
pub parse_criteria-period :
    (criteria : List Criterion) (m : PersistNode)
    → parse_criteria criteria ≡ parsed m
    → period_of m ≡ period (last_ms criteria) (first_seconds criteria)
unfolding parse_criteria find_attr
parse_criteria-period criteria m e =
    parse_rest-period criteria criteria empty_node m e
    ∙ finally-period (last_ms criteria) (first_seconds criteria)
