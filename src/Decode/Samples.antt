-- ===== src/Decode/Samples.antt =====
-- packter_sflow_read of agent/lib/sflow.c. A uint32_t from 2 ^ 31 on is a negative `int`.
use packter.Base.{
  ℕ, zero, suc, ◌+◌, ◌-◌, ◌%◌, ◌^◌, List, [], ◌∷◌, ◌++◌, Option, none, some, Text, codes, newline,
  decimal, not, ◌||◌, ltb, leb, ◌==◌, if◌then◌else◌, drop,
}
use packter.Agent.{Env, World, printed}
use packter.Agent.Exec.{Exec, ◌>>=◌, ◌>>◌, pure, skip, lift, gets, when}
use packter.Decode.Sets.{ignore_version}
use packter.Send.{Action, push, ask_clock}
use packter.Wire.{be32}

-- packter_ether_frame, which the sampled frames go to.
abbrev pub FrameHandler : Type 0
FrameHandler = List ℕ → ℕ → Text → Action

-- How often `for (i = 0; i < n; i++)` runs for an `int` n read from the wire.
unfoldable pub rounds_of : ℕ → ℕ
rounds_of n = if ltb n (2 ^ 31) then n else 0

-- `padding`, for a sample length that is not negative
unfoldable pub padding : ℕ → ℕ
padding samplelen = if ltb 0 (samplelen % 4) then 4 - samplelen % 4 else 0

-- The extension records from offset `at` on: the offset behind them, or `none` for the `return` at
-- an unknown one. Both kinds that are known are 20 bytes long.
unfoldable pub extensions : ℕ → List ℕ → ℕ → ℕ → Exec World (Option ℕ)
extensions zero buf len at = pure (some at)
extensions (suc n) buf len at = if ltb len (at + 4) then pure (some at) else (do
  kind ← lift (be32 buf at)
  if kind == 1 || kind == 2 || kind == 3 then extensions n buf len (at + 20) else pure none)

-- The next sample, unless the extensions ended in the `return`.
unfoldable pub resume : (ℕ → Action) → Option ℕ → Action
resume rest none = skip
resume rest (some at) = rest at

-- The loop over the samples.
unfoldable pub samples : ℕ → Env → FrameHandler → List ℕ → ℕ → ℕ → Action
samples zero env frame buf len at = skip
samples (suc n) env frame buf len at = if ltb len (at + 48) then skip else (do
  samplelen ← lift (be32 buf (at + 40))
  let from = at + 48
  if leb (2 ^ 31) samplelen || ltb (len - from) samplelen then skip else (do
    now ← ask_clock env
    done ← frame (drop from buf) samplelen []
    let behind = from + samplelen + padding samplelen
    if ltb len (behind + 4) then skip else (do
      exnum ← lift (be32 buf behind)
      next ← extensions (rounds_of exnum) buf len (behind + 4)
      resume (samples n env frame buf len) next)))

-- "version:<v>:<counter>, seq:<seq>, uptime:<t>, sample:<n>"
unfoldable pub header_line : ℕ → ℕ → ℕ → ℕ → ℕ → Text
header_line version counter seq uptime count =
    codes "version:"
    ++ (decimal version
        ++ (codes ":"
            ++ (decimal counter
                ++ (codes ", seq:"
                    ++ (decimal seq
                        ++ (codes ", uptime:"
                            ++ (decimal uptime
                                ++ (codes ", sample:" ++ (decimal count ++ (newline ∷ []))))))))))

unfoldable pub debug_header : List ℕ → ℕ → Action
debug_header buf version = do
  counter ← lift (be32 buf 4)
  seq ← lift (be32 buf 12)
  uptime ← lift (be32 buf 16)
  count ← lift (be32 buf 20)
  push (printed (header_line version counter seq uptime count))

-- packter_sflow_read
unfoldable pub sflow_read : Env → FrameHandler → List ℕ → ℕ → Action
sflow_read env frame buf len = if ltb len 24 then skip else (do
  version ← lift (be32 buf 0)
  debug ← gets (λ w. w.ctx.debug)
  when debug (debug_header buf version)
  if not (version == 4)
      then ignore_version (codes "sflow") version (codes "v4")
      else (do num ← lift (be32 buf 20); samples (rounds_of num) env frame buf len 24))
