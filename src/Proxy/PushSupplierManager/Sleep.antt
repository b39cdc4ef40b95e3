-- ===== src/Proxy/PushSupplierManager/Sleep.antt =====
-- How long the manager's thread sleeps between cycles in which nothing happens.
use omni_events.Prelude.{
  ℕ, zero, suc, ◌*◌, ◌^◌, ◌≤◌, ◌≡◌, refl, ap, ◌∙◌, ◌-◌, true, false, arith, leb, leb→le, Bool-cases,
  inl, inr, if◌then◌else◌,
}
use omni_events.Proxy.{ok}
use omni_events.Proxy.PushSupplier.{Flags}
use omni_events.Proxy.PushSupplierManager.{
  timed_wait, end_cycle, sleep_time_nanosec_0, max_sleep_nanosec,
}

abbrev waiting_only : Flags
waiting_only = record { busy = false; waiting = true }

-- The sleep time after `k` cycles that find every request unanswered, behind a busy one.
abbrev sleep_after : ℕ → ℕ
sleep_after zero = sleep_time_nanosec_0
sleep_after (suc k) = (end_cycle (ok waiting_only) (sleep_after k)).0

sleep_max :
    (j : ℕ) → sleep_after (suc (suc (suc (suc (suc (suc (suc (suc j)))))))) ≡ max_sleep_nanosec
unfolding end_cycle
sleep_max zero = refl
sleep_max (suc j) = rw (sleep_max j)

sleep_from_8 : (k : ℕ) → 8 ≤ k → sleep_after k ≡ max_sleep_nanosec
sleep_from_8 k h =
    let e : k ≡ suc (suc (suc (suc (suc (suc (suc (suc (k - 8)))))))) = omega arith in
    ap sleep_after e ∙ sleep_max (k - 8)

sleep_small : (k : ℕ) → k ≤ 8 → sleep_after k ≡ sleep_time_nanosec_0 * 2 ^ k
unfolding end_cycle
sleep_small zero h = refl
sleep_small (suc zero) h = refl
sleep_small (suc (suc zero)) h = refl
sleep_small (suc (suc (suc zero))) h = refl
sleep_small (suc (suc (suc (suc zero)))) h = refl
sleep_small (suc (suc (suc (suc (suc zero))))) h = refl
sleep_small (suc (suc (suc (suc (suc (suc zero)))))) h = refl
sleep_small (suc (suc (suc (suc (suc (suc (suc zero))))))) h = refl
sleep_small (suc (suc (suc (suc (suc (suc (suc (suc zero)))))))) h = refl
sleep_small (suc (suc (suc (suc (suc (suc (suc (suc (suc k))))))))) h = absurd (omega arith)

-- From 33 microseconds on, each such cycle doubles the sleep, and after eight of them it stays at
-- 8.4 milliseconds; the thread waits for as long as the new sleep time, with the mutex released.
sleep_after-doubles :
    (k : ℕ)
    → (sleep_after k ≡ (if leb k 8 then sleep_time_nanosec_0 * 2 ^ k else max_sleep_nanosec))
      × ((end_cycle (ok waiting_only) (sleep_after k)).1 ≡ timed_wait (sleep_after (suc k)))
unfolding end_cycle
sleep_after-doubles k = elim (Bool-cases (leb k 8)) [
  | inl y ↦ (rw y (sleep_small k (leb→le k 8 y)), refl)
  | inr n ↦ (rw n (sleep_from_8 k (ground (arith, n))), refl)
]
