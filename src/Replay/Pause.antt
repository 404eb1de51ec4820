-- ===== src/Replay/Pause.antt =====
-- How long agent/src/pt_replay.c sleeps between two TIME lines, by packter_diff_sec and
-- packter_diff_usec of agent/lib/util.c on the times that stand in the dump, which may be negative.
use packter.Base.{ℕ, ◌+◌, ◌-◌, ◌*◌, ◌%◌, ◌^◌, ◌<◌, ◌≤◌, ◌≡◌, arith, Bool, ltb, leb, if◌then◌else◌}
use packter.Base.Int.{ℤ, pos, negsuc}

-- A struct timeval: seconds and microseconds.
abbrev pub Time : Type 0
Time = ℤ × ℤ

-- a - b where a is larger, and 0 otherwise
unfoldable pub excess : ℤ → ℤ → ℕ
excess (pos a) (pos b) = a - b
excess (pos a) (negsuc b) = a + b + 1
excess (negsuc a) (pos b) = 0
excess (negsuc a) (negsuc b) = b - a

-- a < b
unfoldable pub is_less : ℤ → ℤ → Bool
unfolding excess
is_less a b = ltb 0 (excess b a)

-- packter_diff_sec
unfoldable pub pause_sec : Time → Time → ℕ
unfolding is_less excess
pause_sec (sec, usec) (sec', usec') =
    if is_less sec sec'
    then 0
    else if is_less sec' sec
    then if is_less usec' usec then excess sec sec' else excess sec sec' - 1
    else 0

-- packter_diff_usec; the cast to `unsigned long` makes a huge number of a negative difference.
unfoldable pub pause_usec : Time → Time → ℕ
unfolding is_less excess
pause_usec (sec, usec) (sec', usec') =
    if is_less sec sec'
    then 0
    else if is_less sec' sec
    then (if is_less usec' usec
        then excess usec usec'
        else if leb (excess usec' usec) (1000 * 1000)
        then 1000 * 1000 - excess usec' usec
        else 2 ^ 64 - (excess usec' usec - 1000 * 1000) % 2 ^ 64)
    else if is_less usec' usec
    then excess usec usec'
    else 0

-- The argument of usleep, whose type `useconds_t` has 32 bits.
unfoldable pub pause : Time → Time → ℕ
unfolding pause_sec pause_usec
pause text now = (pause_sec text now * 1000 * 1000 + pause_usec text now) % 2 ^ 32

-- A time that is not negative, in microseconds.
unfoldable pub micros_of : Time → ℕ
micros_of (pos sec, pos usec) = sec * 1000000 + usec
micros_of (pos sec, negsuc n) = 0
micros_of (negsuc n, usec) = 0

-- A time of the clock: not negative, with fewer than a million microseconds.
abbrev pub IsTime : Time → Type 0
IsTime (pos sec, pos usec) = usec < 1000000
IsTime (pos sec, negsuc n) = ⊥
IsTime (negsuc n, usec) = ⊥

-- Before the cast, over the four cases of the two comparisons.
uncut :
    (sec usec sec' usec' : ℕ)
    → usec < 1000000
    → usec' < 1000000
    → sec' * 1000000 + usec' ≤ sec * 1000000 + usec
    → pause_sec (pos sec, pos usec) (pos sec', pos usec') * 1000 * 1000
        + pause_usec (pos sec, pos usec) (pos sec', pos usec')
        + (sec' * 1000000 + usec')
      ≡ sec * 1000000 + usec
unfolding pause_sec pause_usec is_less excess
uncut sec usec sec' usec' h k ordered = ground arith

-- A pause of less than 2 ^ 32 microseconds is as long as what it stands for.
pub pause-elapsed :
    (text now : Time)
    → IsTime text
    → IsTime now
    → micros_of now ≤ micros_of text
    → micros_of text < micros_of now + 2 ^ 32
    → pause text now + micros_of now ≡ micros_of text
unfolding pause micros_of
pause-elapsed (pos sec, pos usec) (pos sec', pos usec') h k ordered near =
    omega (arith, uncut sec usec sec' usec' h k ordered)
pause-elapsed (pos sec, negsuc n) now h k ordered near = absurd h
pause-elapsed (negsuc n, usec) now h k ordered near = absurd h
pause-elapsed (pos sec, pos usec) (pos sec', negsuc n) h k ordered near = absurd k
pause-elapsed (pos sec, pos usec) (negsuc n, usec') h k ordered near = absurd k
