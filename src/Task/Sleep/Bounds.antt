-- ===== src/Task/Sleep/Bounds.antt =====
-- The sleep between two rounds ends.
-- The sleep ended after `naps` naps: it took the whole interval, or the flag was up.
use collector_service.Task.Sleep.{nap, sleep_loop, interval_of, sleep_until_next_cycle}
use collector_service.Prelude.{
  Bool, Bool-cases, arith, inl, inr, leb, refl, some, suc, true, zero, ℕ, ◌*◌, ◌+◌, ◌/◌, ◌≡◌, ◌≤◌,
  ◌⊎◌, ltb, ℤ, ◌-◌, ◌<◌,
}

abbrev pub IsSleep : (ℕ → Bool) → ℕ → ℕ × ℕ → Type 0
IsSleep stopped interval (naps, slept) =
    (slept ≤ interval)
    × (slept ≤ 100 * naps)
    × (naps ≤ interval / 100 + 1)
    × ((slept ≡ interval) ⊎ (stopped naps ≡ true))

-- As long as the loop goes on, each nap but the last takes 100 ms.
abbrev pub OnTheWay : ℕ → ℕ → ℕ → Type 0
OnTheWay interval naps slept =
    (slept ≤ interval)
    × (slept ≤ 100 * naps)
    × ((slept ≡ 100 * naps) ⊎ (slept ≡ interval))
    × (naps ≤ interval / 100 + 1)

nap-OnTheWay :
    (interval naps slept : ℕ)
    → OnTheWay interval naps slept
    → slept < interval
    → OnTheWay interval (suc naps) (slept + nap interval slept)
unfolding nap
nap-OnTheWay interval naps slept (below, most, way, count) short =
    let full : slept ≡ 100 * naps = elim way [ inl e ↦ e | inr e ↦ absurd (omega arith) ] in
    elim (Bool-cases (ltb (interval - slept) 100)) [
      | inl last ↦
          let left : interval - slept < 100 = ground arith in
          rw last (omega arith, omega arith, inr (omega arith), omega arith)
      | inr more ↦
          let left : 100 ≤ interval - slept = ground arith in
          rw more (omega arith, omega arith, inl (omega arith), omega arith)
    ]

sleep_loop-ends :
    (stopped : ℕ → Bool) (fuel interval naps slept : ℕ)
    → OnTheWay interval naps slept
    → interval / 100 + 2 ≤ fuel + naps
    → (r : ℕ × ℕ) × (sleep_loop stopped fuel interval naps slept ≡ some r)
      × IsSleep stopped interval r
unfolding sleep_loop nap
sleep_loop-ends stopped zero interval naps slept h f = absurd (omega arith)
sleep_loop-ends stopped (suc fuel) interval naps slept h f = elim (Bool-cases (stopped naps)) [
  | inl up ↦ ((naps, slept), rw up refl, (h.0, h.1, h.3, inr up))
  | inr down ↦ elim (Bool-cases (leb interval slept)) [
    | inl over ↦ ((naps, slept), rw (down, over) refl, (h.0, h.1, h.3, inl (ground arith)))
    | inr short ↦
        let (r, e, ok_r) =
          sleep_loop-ends stopped fuel interval (suc naps) (slept + nap interval slept)
            (nap-OnTheWay interval naps slept h (ground arith)) (omega arith) in
        (r, rw (down, short) e, ok_r)
  ]
]

-- The sleep between two rounds ends after at most interval / 100 + 1 naps of at most 100 ms each,
-- where the interval is the device's, but at least 100 ms; it takes the whole interval, or ends
-- because the stop flag is up.
pub sleep_until_next_cycle-ends :
    (stopped : ℕ → Bool) (sample_interval_ms : ℤ)
    → (r : ℕ × ℕ) × (sleep_until_next_cycle stopped sample_interval_ms ≡ some r)
      × IsSleep stopped (interval_of sample_interval_ms) r
unfolding sleep_until_next_cycle
sleep_until_next_cycle-ends stopped ms =
    sleep_loop-ends stopped (interval_of ms / 100 + 2) (interval_of ms) 0 0
      (omega arith, omega arith, inl refl, omega arith) (omega arith)
