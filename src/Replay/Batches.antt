-- ===== src/Replay/Batches.antt =====
-- The messages and pauses of a replay, against the lines of the dump.
use packter.Base.{
  ℕ, zero, suc, newline, ◌==◌, ◌+◌, ◌<◌, ◌≤◌, ◌≡◌, refl, sym, ap, ◌∙◌, arith, List, [], ◌∷◌, ◌++◌,
  append_assoc, Option, none, some, Text, true, false, leb, if◌then◌else◌, is_filled, length,
  length-append, All, inl, inr, Bool-cases, Option-cases, leb→lt,
}
use packter.Base.Int.{pos}
use packter.Agent.{Env, World}
use packter.Agent.Exec.{◌>>◌, ◌>>=◌, pure, skip}
use packter.Config.{fgets, c_string}
use packter.Send.{Action, send}
use packter.Replay.Acts.{Act, says, pauses, perform, messages, naps}
use packter.Replay.Pause.{Time, pause}
use packter.Replay.{bufsiz_long, scan_time, is_unset, send_filled, replay_lines, c_strings, replay}

unfoldable pub glued : List Text → Text
glued [] = []
glued (m ∷ ms) = m ++ glued ms

-- The lines that are no TIME lines.
unfoldable pub data_lines : List Text → List Text
data_lines [] = []
data_lines (buf ∷ lines) = elim (scan_time buf) [
  | some time ↦ data_lines lines
  | none ↦ buf ∷ data_lines lines
]

-- The times of the TIME lines.
unfoldable pub times : List Text → List Time
times [] = []
times (buf ∷ lines) = elim (scan_time buf) [ some time ↦ time ∷ times lines | none ↦ times lines ]

-- The pauses between them. A time of 0 is not taken for one.
unfoldable pub waits : Time → List Time → List ℕ
waits now [] = []
waits now (t ∷ ts) = elim (is_unset now) [ true ↦ waits t ts | false ↦ pause t now ∷ waits t ts ]

then-skip : (m : Action) → (m >> skip) ≡ m
unfolding ◌>>◌ ◌>>=◌ skip pure
then-skip m = λ i w. after (m w) i
  where
    after :
        (o : Option (Unit {0} × World)) → (elim o [ none ↦ none | some (a, w) ↦ some (tt, w) ]) ≡ o
    after none = refl
    after (some (a, w)) = refl

-- What `mesg` makes of the acts that come behind it.
unfoldable filled_before : Text → List Act → List Act
filled_before mesg acts = if is_filled mesg then says mesg ∷ acts else acts

perform-filled :
    (env : Env) (mesg : Text) (acts : List Act)
    → (send_filled env mesg >> perform env acts) ≡ perform env (filled_before mesg acts)
unfolding send_filled filled_before perform ◌>>◌ ◌>>=◌ skip pure
perform-filled env [] acts = refl
perform-filled env (c ∷ mesg) acts = refl

glued-filled :
    (mesg : Text) (acts : List Act)
    → glued (messages (filled_before mesg acts)) ≡ mesg ++ glued (messages acts)
unfolding filled_before glued messages
glued-filled [] acts = refl
glued-filled (c ∷ mesg) acts = refl

naps-filled : (mesg : Text) (acts : List Act) → naps (filled_before mesg acts) ≡ naps acts
unfolding filled_before naps
naps-filled [] acts = refl
naps-filled (c ∷ mesg) acts = refl

abbrev pub IsShort : Text → Type 0
IsShort m = length m < bufsiz_long

All-filled :
    (mesg : Text) (acts : List Act)
    → IsShort mesg
    → All IsShort (messages acts)
    → All IsShort (messages (filled_before mesg acts))
unfolding filled_before messages
All-filled [] acts h k = k
All-filled (c ∷ mesg) acts h k = (h, k)

last : (env : Env) (mesg : Text) → send_filled env mesg ≡ perform env (filled_before mesg [])
unfolding send_filled filled_before perform
last env [] = refl
last env (c ∷ mesg) = sym (then-skip (send env (c ∷ mesg)))

-- The acts of the lines from here on: what they say, and how they pause.
record Performs (env : Env) (lines : List Text) (now : Time) (mesg : Text) : Type 0 where
  acts : List Act
  run : replay_lines env lines now mesg ≡ perform env acts
  whole : glued (messages acts) ≡ mesg ++ glued (data_lines lines)
  short : All IsShort (messages acts)
  timed : naps acts ≡ waits now (times lines)

replay_lines-Performs :
    (env : Env) (lines : List Text) (now : Time) (mesg : Text)
    → IsShort mesg
    → All IsShort lines
    → Performs env lines now mesg
unfolding replay_lines data_lines glued perform times waits messages naps
replay_lines-Performs env [] now mesg h k = record {
  acts = filled_before mesg [];
  run = last env mesg;
  whole = glued-filled mesg [];
  short = All-filled mesg [] h tt;
  timed = naps-filled mesg [];
}
replay_lines-Performs env (buf ∷ lines) now mesg h k = elim (Option-cases (scan_time buf)) [
  | inr (time, e) ↦ elim (Bool-cases (is_unset now)) [
    | inl fresh ↦
        let r = replay_lines-Performs env lines time mesg h k.1 in
        record {
          acts = r.acts;
          run = rw (replay_lines, e, fresh) r.run;
          whole = rw (data_lines, e) r.whole;
          short = r.short;
          timed = rw (times, e, waits, fresh) r.timed;
        }
    | inr set ↦
        let r = replay_lines-Performs env lines time [] (omega arith) k.1 in
        let acts = pauses (pause time now) ∷ r.acts in
        record {
          acts = filled_before mesg acts;
          run = rw (replay_lines, e, set, r.run) (perform-filled env mesg acts);
          whole = rw (data_lines, e) (glued-filled mesg acts ∙ ap (λ t. mesg ++ t) r.whole);
          short = All-filled mesg acts h r.short;
          timed =
              rw (times, e, waits, set)
                (naps-filled mesg acts ∙ ap (λ l. pause time now ∷ l) r.timed);
        }
  ]
  | inl e ↦ elim (Bool-cases (leb bufsiz_long (length mesg + length buf))) [
    | inl full ↦
        let r = replay_lines-Performs env lines now buf k.0 k.1 in
        record {
          acts = says mesg ∷ r.acts;
          run = rw (replay_lines, e, full, r.run) refl;
          whole = rw (data_lines, e) (ap (λ t. mesg ++ t) r.whole);
          short = (h, r.short);
          timed = rw (times, e) r.timed;
        }
    | inr room ↦
        let r =
          replay_lines-Performs env lines now (mesg ++ buf)
            (omega (arith, length-append mesg buf, leb→lt _ _ room)) k.1 in
        record {
          acts = r.acts;
          run = rw (replay_lines, e, room) r.run;
          whole = rw (data_lines, e) (r.whole ∙ append_assoc mesg buf _);
          short = r.short;
          timed = rw (times, e) r.timed;
        }
  ]
]

-- The length of the lines that `fgets` answers: the first has `room + 1` bytes at most.
abbrev AreLines : ℕ → ℕ → List Text → Type 0
AreLines size room [] = Unit {0}
AreLines size room (line ∷ lines) =
    (length line ≤ suc room) × All (λ (l : Text). length l ≤ suc size) lines

AreLines-All :
    (size room : ℕ) (lines : List Text)
    → room ≤ size
    → AreLines size room lines
    → All (λ (l : Text). length l ≤ suc size) lines
AreLines-All size room [] h k = tt
AreLines-All size room (line ∷ lines) h k = (omega (arith, k.0), k.1)

fgets-AreLines : (size room : ℕ) (t : Text) → AreLines size room (fgets size room t)
unfolding fgets
fgets-AreLines size room [] = tt
fgets-AreLines size zero (c ∷ t) = (
  omega arith,
  AreLines-All size size (fgets size size t) (omega arith) (fgets-AreLines size size t),
)
fgets-AreLines size (suc room) (c ∷ t) = elim (Bool-cases (c == newline)) [
  | inl e ↦
      rw (fgets, e)
        (
          omega arith,
          AreLines-All size size (fgets size size t) (omega arith) (fgets-AreLines size size t),
        )
  | inr e ↦ rw (fgets, e) (onto (fgets size room t) (fgets-AreLines size room t))
]
  where
    onto :
        (lines : List Text)
        → AreLines size room lines
        → AreLines size
            (suc room)
            (elim lines [ [] ↦ (c ∷ []) ∷ [] | line ∷ lines ↦ (c ∷ line) ∷ lines ])
    onto [] h = (omega arith, tt)
    onto (line ∷ lines) h = (omega (arith, h.0), h.1)

length-c_string : (t : Text) → length (c_string t) ≤ length t
unfolding c_string
length-c_string [] = omega arith
length-c_string (c ∷ t) = elim (Bool-cases (c == 0)) [
  | inl e ↦ rw (c_string, e) (omega arith)
  | inr e ↦ rw (c_string, e) (omega (arith, length-c_string t))
]

c_strings-IsShort :
    (lines : List Text) → All (λ (l : Text). length l ≤ 1023) lines → All IsShort (c_strings lines)
unfolding c_strings
c_strings-IsShort [] h = tt
c_strings-IsShort (line ∷ lines) h =
    (omega (arith, h.0, length-c_string line), c_strings-IsShort lines h.1)

replay-Performs :
    (env : Env) (file : Text) → Performs env (c_strings (fgets 1022 1022 file)) (pos 0, pos 0) []
replay-Performs env file =
    replay_lines-Performs env (c_strings (fgets 1022 1022 file)) (pos 0, pos 0) [] (omega arith)
      (c_strings-IsShort (fgets 1022 1022 file) (
        AreLines-All 1022 1022 (fgets 1022 1022 file) (omega arith)
          (fgets-AreLines 1022 1022 file)))

-- A replay is a list of messages and pauses. Each message fits the buffer that collects it, and they hold, one behind the other, all lines of the file that are no TIME lines, in order and whole; the pauses are those between the TIME lines, in order.
pub replay-sends :
    (env : Env) (file : Text)
    → (acts : List Act) × (replay env file ≡ perform env acts)
      × (glued (messages acts) ≡ glued (data_lines (c_strings (fgets 1022 1022 file))))
      × All IsShort (messages acts)
      × (naps acts ≡ waits (pos 0, pos 0) (times (c_strings (fgets 1022 1022 file))))
unfolding replay
replay-sends env file =
    let r = replay-Performs env file in (r.acts, r.run, r.whole, r.short, r.timed)
