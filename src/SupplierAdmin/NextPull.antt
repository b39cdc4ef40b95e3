-- ===== src/SupplierAdmin/NextPull.antt =====
-- When a SupplierAdmin next asks its pull suppliers for events.
mod Tests
use omni_events.Prelude.{
  ℕ, zero, suc, ◌+◌, ◌-◌, ◌*◌, ◌/◌, ◌%◌, ◌^◌, ◌≤◌, ◌<◌, ◌≡◌, refl, ap, ◌∙◌, Bool, true, false, ◌&&◌,
  ◌||◌, Option, none, some, List, [], ltb, leb, leb→le, Bool-cases, inl, inr, ◌==◌, if◌then◌else◌,
  arith,
}
use omni_events.SupplierAdmin.{
  Time, Consumers, SupplierAdmin, pull_some, collect_pulls, collect, first_pull, new_supplier_admin,
  billion, million, not_before, advance, catch_up, nanoseconds,
}

pub record IsTime (t : Time) : Type 0 where
  pub below : t.nsec < 1000000000
  pub early : t.sec < 9223372036854775808

not_before-nanoseconds :
    (a b : Time)
    → a.nsec < 1000000000
    → b.nsec < 1000000000
    → not_before a b ≡ leb (nanoseconds b) (nanoseconds a)
unfolding not_before
not_before-nanoseconds a b h k = ground arith

advance-nanoseconds :
    (p : ℕ) (t : Time)
    → p < 4294967296
    → IsTime t
    → (nanoseconds (advance p t) ≡ nanoseconds t + p * 1000000) × ((advance p t).nsec < 1000000000)
unfolding advance
advance-nanoseconds p t h k = let i = k.below in let j = k.early in (omega arith, omega arith)

-- The first time of the grid through `t` with the period `p` that is after `now`.
pub record NextOnGrid (p : ℕ) (now t r : Time) : Type 0 where
  pub steps : ℕ
  pub on_grid : nanoseconds r ≡ nanoseconds t + suc steps * (p * 1000000)
  pub after : nanoseconds now < nanoseconds r
  pub first : nanoseconds r ≤ nanoseconds now + p * 1000000
  pub normal : r.nsec < 1000000000

catch_up-NextOnGrid :
    (fuel p : ℕ) (now t : Time)
    → 0 < p
    → p < 4294967296
    → IsTime now
    → IsTime t
    → nanoseconds t ≤ nanoseconds now
    → nanoseconds now < nanoseconds t + fuel
    → (r : Time) × (catch_up fuel p now t ≡ some r) × NextOnGrid p now t r
unfolding catch_up
catch_up-NextOnGrid zero p now t pos small h k le lt = absurd (omega arith)
catch_up-NextOnGrid (suc fuel) p now t pos small h k le lt =
    let moved = advance p t in
    let m = advance-nanoseconds p t small k in
    let same = not_before-nanoseconds now moved (h.below) m.1 in
    elim (Bool-cases (leb (nanoseconds moved) (nanoseconds now))) [
      | inl y ↦
          let l = leb→le (nanoseconds moved) (nanoseconds now) y in
          let i : IsTime moved = record { below = m.1; early = omega (arith, h.early, h.below) } in
          let (r, e, g) =
            catch_up-NextOnGrid fuel p now moved pos small h i l (omega (arith, m.0)) in
          (
            r,
            rw same (rw y e),
            record {
              steps = suc (g.steps);
              on_grid = grind (arith, g.on_grid, m.0);
              after = g.after;
              first = g.first;
              normal = g.normal;
            },
          )
      | inr n ↦ (
        moved,
        rw same (rw n refl),
        record {
          steps = 0;
          on_grid = omega (arith, m.0);
          after = ground (arith, n);
          first = omega (arith, m.0);
          normal = m.1;
        },
      )
    ]

module _ {C E : Type 0} (managers : Consumers C E) (p : ℕ) where
  -- How collect() treats the pull suppliers at the time `now`: what their manager's state and
  -- `_nextPull` become.
  pub data Pulls (now : Time) (c : C) (t : Time) : C → Time → Type 0 where
    every_cycle : t.sec ≡ 0 → Pulls now c t (managers.trigger_request c) t
    due :
        (r : Time)
        → nanoseconds t ≤ nanoseconds now
        → NextOnGrid p now t r
        → Pulls now c t (managers.trigger_request c) r
    early : nanoseconds now < nanoseconds t → Pulls now c t c t

  pull_some-Pulls :
      (now t : Time) (c : C)
      → 0 < p
      → p < 4294967296
      → IsTime now
      → IsTime t
      → (c' : C) × (t' : Time) × (pull_some managers p c now t ≡ some (c', t'))
        × Pulls now c t c' t'
  unfolding pull_some
  pull_some-Pulls now t c pos small h k =
      let same = not_before-nanoseconds now t (h.below) (k.below) in
      elim (Bool-cases (t.sec == 0)) [
        | inl z ↦ (managers.trigger_request c, t, rw z refl, every_cycle (ground (arith, z)))
        | inr nz ↦ elim (Bool-cases (leb (nanoseconds t) (nanoseconds now))) [
          | inl y ↦
              let le = leb→le (nanoseconds t) (nanoseconds now) y in
              let (r, e, g) =
                catch_up-NextOnGrid (suc (nanoseconds now)) p now t pos small h k le
                  (omega arith) in
              (managers.trigger_request c, r, rw nz (rw same (rw y (rw e refl))), due r le g)
          | inr n ↦ (c, t, rw nz (rw same (rw n refl)), early (ground (arith, n)))
        ]
      ]

  -- With a pull retry period above 0 of 32 bits and times before 2^63 seconds, collect() returns. It
  -- hands out the events that were queued, pushed ones among them, and those that the pull consumers
  -- add, in that order, leaves the queue empty and triggers the push consumer. The pull suppliers are
  -- asked in every cycle where `_nextPull` is 0, else when `_nextPull` has come, and then `_nextPull`
  -- moves by whole periods to the first time after now; before that they are not asked and `_nextPull`
  -- stays.
  pub collect-Pulls :
      (now : Time) (a : SupplierAdmin C E)
      → 0 < p
      → p < 4294967296
      → IsTime now
      → IsTime a.next_pull
      → managers.has_pull_consumer a.consumers ≡ true
      → let pulled = managers.collect_pulled a.consumers a.queue in
        (c : C) × (t : Time) × Pulls now pulled.0 a.next_pull c t
        × (collect managers p now a
            ≡ some (
              pulled.1,
              record { consumers = managers.trigger_pushed c; queue = []; next_pull = t },
            ))
  unfolding collect collect_pulls
  collect-Pulls now a pos small h k has =
      let pulled = managers.collect_pulled a.consumers a.queue in
      let (c, t, e, g) = pull_some-Pulls now a.next_pull pulled.0 pos small h k in
      (c, t, g, rw (has, collect, collect_pulls) (rw (e, collect, collect_pulls) refl))
