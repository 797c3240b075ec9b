-- ===== src/Task/Sleep.antt =====
-- DataTask::sleepUntilNextCycle of src/DataTask.cpp. `stopped` is the stop flag as the n-th test of
-- the loop reads it. A nap takes at most 100 ms, so interval / 100 + 2 tests are enough fuel.
pub mod Bounds
use collector_service.Prelude.{
  Bool, Option, if◌then◌else◌, leb, ltb, negsuc, none, pos, some, suc, zero, ℕ, ℤ, ◌+◌, ◌-◌, ◌/◌,
  ◌||◌,
}

-- std::max(sampleIntervalMs, 100)
unfoldable pub interval_of : ℤ → ℕ
interval_of (pos n) = if ltb n 100 then 100 else n
interval_of (negsuc n) = 100

-- One nap: what is left of the interval, but at most a step.
unfoldable pub nap : ℕ → ℕ → ℕ
nap interval slept = if ltb (interval - slept) 100 then interval - slept else 100

-- The loop from its n-th test on: how many naps it took and how long it slept; `none` is out of
-- fuel.
unfoldable pub sleep_loop : (ℕ → Bool) → ℕ → ℕ → ℕ → ℕ → Option (ℕ × ℕ)
unfolding nap
sleep_loop stopped zero interval naps slept = none
sleep_loop stopped (suc fuel) interval naps slept =
    let rest = sleep_loop stopped fuel interval (suc naps) (slept + nap interval slept) in
    if stopped naps || leb interval slept then some (naps, slept) else rest

unfoldable pub sleep_until_next_cycle : (ℕ → Bool) → ℤ → Option (ℕ × ℕ)
unfolding interval_of sleep_loop
sleep_until_next_cycle stopped sample_interval_ms =
    let interval = interval_of sample_interval_ms in
    sleep_loop stopped (interval / 100 + 2) interval 0 0
