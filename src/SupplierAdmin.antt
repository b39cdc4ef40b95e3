-- ===== src/SupplierAdmin.antt =====
-- The SupplierAdmin of a channel: src/SupplierAdmin.cc.
--
-- A time is the pair of unsigned longs, of 64 bits here, that omni_thread::get_time() fills, and is
-- an argument of the code that asks for it. The two proxy managers that the SupplierAdmin drives are
-- behind the interface `Consumers`: they keep a state of their own and append to the queue that
-- they were made with. The pull consumers' manager is created when a client first asks for it.
pub mod NextPull
pub mod Proxies
mod Restart
use omni_events.Prelude.{
  ℕ, zero, suc, ◌+◌, ◌*◌, ◌/◌, ◌%◌, ◌^◌, Bool, true, false, ◌&&◌, ◌||◌, Option, none, some, List,
  [], ltb, leb, ◌==◌, if◌then◌else◌,
}

pub record Time : Type 0 where
  pub sec : ℕ
  pub nsec : ℕ

abbrev pub billion : ℕ
billion = 1000000000

abbrev pub million : ℕ
million = 1000000

-- `a>=b` of two pairs.
unfoldable pub not_before : Time → Time → Bool
not_before a b = ltb (b.sec) (a.sec) || (a.sec == b.sec && leb (b.nsec) (a.nsec))

-- The body of the loop that moves `_nextPull` on.
unfoldable pub advance : ℕ → Time → Time
advance p t =
    let nsec = (t.nsec + p % 1000 * million) % 2 ^ 64 in
    record { sec = (t.sec + (p / 1000 + nsec / billion) % 2 ^ 64) % 2 ^ 64; nsec = nsec % billion }

-- `do{ ... } while(now>=_nextPull)`; `none` is fuel that ran out.
unfoldable pub catch_up : ℕ → ℕ → Time → Time → Option Time
catch_up zero p now t = none
catch_up (suc fuel) p now t =
    let moved = advance p t in
    let later = catch_up fuel p now moved in if not_before now moved then later else some moved

-- The calls that the SupplierAdmin makes of its managers.
pub record Consumers (C E : Type 0) : Type 0 where
  pub collect_pulled : C → List E → C × List E
  pub trigger_request : C → C
  -- trigger() of the push consumer, which resets its flag.
  pub trigger_pushed : C → C
  pub has_pull_consumer : C → Bool

pub record SupplierAdmin (C E : Type 0) : Type 0 where
  pub consumers : C
  pub queue : List E
  pub next_pull : Time

-- The constructor's choice of `_nextPull`.
unfoldable pub first_pull : ℕ → ℕ → Time → Time
first_pull pull_retry_period_ms cycle_period_ns now =
    if ltb (cycle_period_ns / million) pull_retry_period_ms
    then now
    else record { sec = 0; nsec = 0 }

abbrev pub nanoseconds : Time → ℕ
nanoseconds t = t.sec * billion + t.nsec

module _ {C E : Type 0} (managers : Consumers C E) (pull_retry_period_ms : ℕ) where
  unfoldable pub new_supplier_admin : ℕ → Time → C → SupplierAdmin C E
  new_supplier_admin cycle_period_ns now c = record {
    consumers = c;
    queue = [];
    next_pull = first_pull pull_retry_period_ms cycle_period_ns now;
  }

  -- What collect() does with the pull consumers: their state, and `_nextPull` after it.
  unfoldable pub pull_some : C → Time → Time → Option (C × Time)
  pull_some c now next_pull =
      let moved = catch_up (suc (nanoseconds now)) pull_retry_period_ms now next_pull in
      if next_pull.sec == 0
      then some (managers.trigger_request c, next_pull)
      else (if not_before now next_pull
          then elim moved [ none ↦ none | some t ↦ some (managers.trigger_request c, t) ]
          else some (c, next_pull))

  -- What collect() does before it triggers the push consumers: their managers' state, the queue and
  -- `_nextPull`.
  unfoldable pub collect_pulls : Time → SupplierAdmin C E → Option (C × List E × Time)
  collect_pulls now a =
      let pulled = managers.collect_pulled a.consumers a.queue in
      let asked : Option (C × List E × Time) = (elim (pull_some pulled.0 now a.next_pull) [
        | none ↦ none
        | some (c, t) ↦ some (c, pulled.1, t)
      ]) in
      let unasked : Option (C × List E × Time) = some (a.consumers, a.queue, a.next_pull) in
      if managers.has_pull_consumer a.consumers then asked else unasked

  -- The events that were collected, and the object afterwards.
  unfoldable pub collect : Time → SupplierAdmin C E → Option (List E × SupplierAdmin C E)
  collect now a = elim (collect_pulls now a) [
    | none ↦ none
    | some (c, queue, next_pull) ↦
        some (
          queue,
          record { consumers = managers.trigger_pushed c; queue = []; next_pull = next_pull },
        )
  ]
