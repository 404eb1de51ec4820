-- ===== src/Replay/Elapsed.antt =====
-- How long a replay takes, against the times of the dump.
use packter.Base.{◌+◌, ◌<◌, ◌≤◌, ◌^◌, ◌≡◌, arith, List, [], ◌∷◌, Text, false}
use packter.Base.Int.{pos, negsuc}
use packter.Agent.{Env}
use packter.Config.{fgets}
use packter.Replay.{is_zero, is_unset, replay, c_strings}
use packter.Replay.Acts.{Act, perform, naps, sum}
use packter.Replay.Batches.{times, waits, replay-sends}
use packter.Replay.Pause.{Time, IsTime, micros_of, pause-elapsed}

-- Each time is one of the clock, none is before the one in front of it, and less than 2 ^ 32
-- microseconds lie between them.
abbrev pub Follow : Time → List Time → Type 0
Follow now [] = Unit {0}
Follow now (t ∷ ts) =
    IsTime t × (micros_of now ≤ micros_of t) × (micros_of t < micros_of now + 2 ^ 32) × Follow t ts

abbrev pub last_time : Time → List Time → Time
last_time now [] = now
last_time now (t ∷ ts) = last_time t ts

set_time : (t : Time) → IsTime t → 0 < micros_of t → is_unset t ≡ false
unfolding is_unset is_zero micros_of
set_time (pos sec, pos usec) h some_time = ground arith
set_time (pos sec, negsuc n) h some_time = absurd h
set_time (negsuc n, usec) h some_time = absurd h

-- Once a time has been taken, the pauses add up to what lies between it and the last one.
sum-waits :
    (now : Time) (ts : List Time)
    → IsTime now
    → 0 < micros_of now
    → Follow now ts
    → sum (waits now ts) + micros_of now ≡ micros_of (last_time now ts)
unfolding sum waits
sum-waits now [] h some_time f = omega arith
sum-waits now (t ∷ ts) h some_time (is, ordered, near, rest) =
    let set = set_time now h some_time in
    let later = sum-waits t ts is (omega arith) rest in
    let nap = pause-elapsed t now is h ordered near in rw (waits, set) (omega (arith, later, nap))

-- A dump whose TIME lines carry times of the clock, the first of them not 0, none before the one in front of it, and less than 2 ^ 32 microseconds apart, is replayed in real time: the pauses add up to exactly the time between its first and its last TIME line.
pub replay-elapsed :
    (env : Env) (file : Text) (t : Time) (ts : List Time)
    → times (c_strings (fgets 1022 1022 file)) ≡ t ∷ ts
    → IsTime t
    → 0 < micros_of t
    → Follow t ts
    → (acts : List Act) × (replay env file ≡ perform env acts)
      × (sum (naps acts) + micros_of t ≡ micros_of (last_time t ts))
unfolding waits is_unset is_zero
replay-elapsed env file t ts lines is some_time f =
    let (acts, run, whole, short, timed) = replay-sends env file in
    (acts, run, rw (timed, lines) (sum-waits t ts is some_time f))
