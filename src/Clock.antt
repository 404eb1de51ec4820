-- ===== src/Clock.antt =====
-- agent/lib/util.c: the time differences and the drop rate. The privilege drop is Startup.Privileges.
pub mod Difference
use packter.Base.{ℕ, ◌+◌, ◌-◌, ◌*◌, ◌%◌, Bool, ltb, leb, ◌==◌, if◌then◌else◌}
use packter.Base.Int.{ℤ, pos, negsuc}
use packter.Agent.{Timeval}

-- packter_rate, with what `rand()` answers
unfoldable pub rate : ℤ → ℕ → ℕ
rate (pos limit) r = if ltb limit 1 then 1 else r % limit + 1
rate (negsuc n) r = 1

-- packter_diff_sec
unfoldable pub diff_sec : Timeval → Timeval → ℕ
diff_sec a b =
    if ltb a.sec b.sec
    then 0
    else if a.sec == b.sec
    then 0
    else if leb a.usec b.usec
    then a.sec - b.sec - 1
    else a.sec - b.sec

-- packter_diff_usec
unfoldable pub diff_usec : Timeval → Timeval → ℕ
diff_usec a b =
    if ltb a.sec b.sec
    then 0
    else if a.sec == b.sec
    then if leb a.usec b.usec then 0 else a.usec - b.usec
    else if leb a.usec b.usec
    then 1000 * 1000 + a.usec - b.usec
    else a.usec - b.usec
