-- ===== src/Replay.antt =====
-- agent/src/pt_replay.c: a text dump is sent again. Between two TIME lines it
-- sends what it has collected, and sleeps.
pub mod Pause
pub mod Acts
pub mod Batches
pub mod Direct
pub mod Main
pub mod Elapsed
use packter.Base.{
  ℕ, zero, suc, ◌+◌, ◌-◌, ◌*◌, List, [], ◌∷◌, ◌++◌, Option, none, some, Text, codes, Bool, true,
  false, not, ◌&&◌, ◌||◌, ltb, leb, ◌==◌, if◌then◌else◌, is_filled, length, take, drop, text_eq,
}
use packter.Base.Int.{ℤ, pos, negsuc}
use packter.Base.Scan.{scan_long}
use packter.Agent.{Env, World}
use packter.Agent.Exec.{Exec, ◌>>◌, pure, skip}
use packter.Config.{fgets, c_string}
use packter.Mesg.{bufsiz}
use packter.Agent.{slept}
use packter.Replay.Pause.{pause}
use packter.Send.{Action, send, push}

-- PACKTER_BUFSIZ_LONG
abbrev pub bufsiz_long : ℕ
bufsiz_long = 16384

-- sscanf(buf, "TIME %ld %ld", &sec, &usec) == 2
unfoldable pub scan_time : Text → Option (ℤ × ℤ)
unfolding scan_long
scan_time buf =
    if text_eq (take 4 buf) (codes "TIME")
    then elim (scan_long (drop 4 buf)) [
      | none ↦ none
      | some (sec, t) ↦ elim (scan_long t) [ none ↦ none | some (usec, rest) ↦ some (sec, usec) ]
    ]
    else none

-- `now.tv_sec == 0 && now.tv_usec == 0`
unfoldable pub is_zero : ℤ → Bool
is_zero (pos n) = n == 0
is_zero (negsuc n) = false

unfoldable pub is_unset : ℤ × ℤ → Bool
is_unset (sec, usec) = is_zero sec && is_zero usec

-- `if (mesg[0] != '\0')` a send
unfoldable pub send_filled : Env → Text → Action
send_filled env mesg = if is_filled mesg then send env mesg else skip

-- The loop over the lines, with `now` and what stands in `mesg`, and the send behind it.
unfoldable pub replay_lines : Env → List Text → ℤ × ℤ → Text → Action
replay_lines env [] now mesg = send_filled env mesg
replay_lines env (buf ∷ lines) now mesg = elim (scan_time buf) [
  | some time ↦ elim (is_unset now) [
    | true ↦ replay_lines env lines time mesg
    | false ↦
        send_filled env mesg >> (push (slept (pause time now)) >> replay_lines env lines time [])
  ]
  | none ↦ elim (leb bufsiz_long (length mesg + length buf)) [
    | true ↦ send env mesg >> replay_lines env lines now buf
    | false ↦ replay_lines env lines now (mesg ++ buf)
  ]
]

unfoldable pub c_strings : List Text → List Text
c_strings [] = []
c_strings (line ∷ lines) = c_string line ∷ c_strings lines

-- replay, on the content of a file that opens
unfoldable pub replay : Env → Text → Action
replay env file =
    replay_lines env (c_strings (fgets (bufsiz - 2) (bufsiz - 2) file)) (pos 0, pos 0) []
