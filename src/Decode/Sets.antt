-- ===== src/Decode/Sets.antt =====
-- packter_netflow_read and packter_ipfix_read: the message header and the loop over the sets.
use packter.Base.{
  ℕ, zero, suc, ◌-◌, List, [], ◌∷◌, ◌++◌, none, Text, codes, newline, decimal, Bool, true, false,
  not, ◌&&◌, ◌||◌, ltb, leb, ◌==◌, if◌then◌else◌, drop,
}
use packter.Agent.{Env, printed}
use packter.Agent.Exec.{◌>>=◌, skip, lift, gets, when}
use packter.Flow.Templates.{template_set}
use packter.Flow.Records.{flow_set}
use packter.Send.{Action, push}
use packter.Wire.{be16, be32}

-- The ids of the two template sets
abbrev pub template_id : Bool → ℕ
template_id is_ipfix = if is_ipfix then 2 else 0

abbrev pub options_id : Bool → ℕ
options_id is_ipfix = if is_ipfix then 3 else 1

-- What becomes of one set.
unfoldable pub read_set : Env → Bool → List ℕ → ℕ → ℕ → ℕ → Action
read_set env is_ipfix buf setlen id domain =
    if id == template_id is_ipfix
    then template_set buf setlen domain is_ipfix
    else if id == options_id is_ipfix
    then skip
    else if leb 256 id
    then flow_set env buf setlen domain
    else skip

-- `while (len > 0)`; out of fuel it does not return.
unfoldable pub read_sets : ℕ → Env → Bool → List ℕ → ℕ → ℕ → Action
read_sets zero env is_ipfix buf len domain = if ltb 0 len then lift none else skip
read_sets (suc fuel) env is_ipfix buf len domain =
    if not (ltb 0 len) || ltb len 4 then skip else (do
      setlen ← lift (be16 buf 2)
      if ltb setlen 4 || ltb len setlen then skip else (do
        id ← lift (be16 buf 0)
        done ← read_set env is_ipfix buf setlen id domain
        read_sets fuel env is_ipfix (drop setlen buf) (len - setlen) domain))

-- "<kind>: ignoring datagram version <v> (only <known> supported)"
unfoldable pub ignoring_line : Text → ℕ → Text → Text
ignoring_line kind version known =
    kind
    ++ (codes ": ignoring datagram version "
        ++ (decimal version
            ++ (codes " (only " ++ (known ++ (codes " supported)" ++ (newline ∷ []))))))

unfoldable pub ignore_version : Text → ℕ → Text → Action
ignore_version kind version known = do
  debug ← gets (λ w. w.ctx.debug)
  when debug (push (printed (ignoring_line kind version known)))

-- packter_netflow_read; each set takes four bytes at least, so `len` rounds are enough.
unfoldable pub netflow_read : Env → List ℕ → ℕ → Action
netflow_read env buf len = if ltb len 20 then skip else (do
  version ← lift (be16 buf 0)
  if not (version == 9)
      then ignore_version (codes "netflow") version (codes "v9")
      else (do srcid ← lift (be32 buf 16); read_sets len env false (drop 20 buf) (len - 20) srcid))

-- The length that the header declares, where it is shorter than what was received.
unfoldable pub message_len : ℕ → ℕ → ℕ
message_len msglen len = if leb 16 msglen && ltb msglen len then msglen else len

-- packter_ipfix_read
unfoldable pub ipfix_read : Env → List ℕ → ℕ → Action
ipfix_read env buf len = if ltb len 16 then skip else (do
  version ← lift (be16 buf 0)
  if not (version == 10) then ignore_version (codes "ipfix") version (codes "v10") else (do
    domain ← lift (be32 buf 12)
    msglen ← lift (be16 buf 2)
    read_sets len env true (drop 16 buf) (message_len msglen len - 16) domain))
