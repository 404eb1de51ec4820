-- ===== src/Clock/Difference.antt =====
-- The two halves of a time difference, taken together, and the range of the drop rate.
use packter.Base.{ℕ, ◌+◌, ◌-◌, ◌*◌, ◌≤◌, ◌<◌, ◌≡◌, ◌/◌, arith}
use packter.Base.Int.{pos}
use packter.Agent.{Timeval}
use packter.Clock.{rate, diff_sec, diff_usec}

-- A time in microseconds.
abbrev pub micros : Timeval → ℕ
micros t = t.sec * 1000000 + t.usec

-- `usec` of a valid time is below one million.
abbrev pub IsTime : Timeval → Type 0
IsTime t = t.usec < 1000000

-- For valid times the two differences add up, in microseconds, to the time from b to a, which is 0 when a is not after b.
pub diff_total :
    (a b : Timeval)
    → IsTime a
    → IsTime b
    → diff_sec a b * 1000000 + diff_usec a b ≡ micros a - micros b
unfolding diff_sec diff_usec
diff_total a b ha hb = ground arith

pub diff_millis :
    (a b : Timeval)
    → IsTime a
    → IsTime b
    → diff_sec a b * 1000 + diff_usec a b / 1000 ≡ (micros a - micros b) / 1000
diff_millis a b ha hb = omega (arith, diff_total a b ha hb)

-- Whatever `rand` answers, a rate lies from 1 to the limit.
pub rate_bounds :
    (limit r : ℕ) → 0 < limit → (1 ≤ rate (pos limit) r) × (rate (pos limit) r ≤ limit)
unfolding rate
rate_bounds limit r h = ground arith

-- Under the limit 1 the rate is always 1: nothing is dropped.
pub rate_one : (r : ℕ) → rate (pos 1) r ≡ 1
unfolding rate
rate_one r = omega arith
