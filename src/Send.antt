-- ===== src/Send.antt =====
-- agent/lib/send.c: the authentication line, emission, bulk mode and the rate limit. The address
-- that a datagram goes to, and what `sendto` answers, are not part of the model.
pub mod Key
pub mod Emission
pub mod Safety
pub mod View
pub mod Signed
pub mod Stream
pub mod Delivery
pub mod Limit
use packter.Base.{
  ℕ, suc, ◌+◌, ◌-◌, ◌*◌, ◌/◌, List, [], ◌∷◌, ◌++◌, Option, none, some, Text, codes, newline,
  snprintf, decimal, text_eq, is_filled, Bool, true, false, not, ◌&&◌, ltb, leb, if◌then◌else◌,
  length, take, drop,
}
use packter.Base.Int.{ℤ, pos, negsuc, pred, is_one}
use packter.Base.Hex.{hex}
use packter.Agent.{Ctx, Env, World, Output, sent, printed, Timeval}
use packter.Agent.Exec.{Exec, ◌>>=◌, ◌>>◌, pure, skip, lift, gets, modify, when}
use packter.Clock.{rate, diff_sec, diff_usec}
use packter.Digest.Hmac.{pt_hmac_sha256}
use packter.Mesg.{header, se, bufsiz}

abbrev pub Action : Type 0
Action = Exec World (Unit {0})

-- PACKTER_BULK_PAYLOAD, and the size of `framed` in `emit`
abbrev pub bulk_payload : ℕ
bulk_payload = 1320

abbrev pub framed_size : ℕ
framed_size = 256 + 16384

-- PACKTER_AGENT_HEADER and the blank behind it
unfoldable pub agent_header : Text
agent_header = codes "PACKTERAGENT "

-- `snprintf(buf, n, …)` whose answer is used as a length: a text that is cut would leave a gap of
-- unset bytes, which counts as a fault.
unfoldable pub fitting : ℕ → Text → Option Text
fitting n t = if ltb (length t) n then some t else none

-- A `memcpy` of n bytes where there is room for `room`.
unfoldable pub copies : ℕ → ℕ → Option (Unit {0})
copies n room = if leb n room then some tt else none

-- `<id>,<ts>`
unfoldable pub id_and_time : Ctx → ℕ → Text
id_and_time ctx ts = ctx.agent_id ++ (b',' ∷ decimal ts)

-- agent_line, from the time that `time(NULL)` answers
unfoldable pub agent_line : Ctx → ℕ → List ℕ → Option Text
agent_line ctx ts payload =
    if is_filled ctx.psk
    then elim (fitting 128 (id_and_time ctx ts ++ (newline ∷ []))) [
      | none ↦ none
      | some signed ↦
          let message = signed ++ take (128 + 65536 - length signed) payload in
          fitting 256 (
            agent_header
            ++ (id_and_time ctx ts
                ++ (b',' ∷ (hex (pt_hmac_sha256 ctx.psk message) ++ (newline ∷ [])))))
    ]
    else fitting 256 (agent_header ++ (ctx.agent_id ++ (newline ∷ [])))

-- gettimeofday, time
unfoldable pub ask_clock : Env → Exec World Timeval
ask_clock env w = some (env.now w.clock_reads, record w { clock_reads = w.clock_reads + 1 })

unfoldable pub push : Output → Action
push o = modify (λ w. record w { out = w.out ++ (o ∷ []) })

unfoldable pub set_bulk : List ℕ → Action
set_bulk buf = modify (λ w. record w { ctx = record (w.ctx) { bulk_buf = buf } })

unfoldable pub set_bulk_first : Timeval → Action
set_bulk_first t = modify (λ w. record w { ctx = record (w.ctx) { bulk_first = t } })

unfoldable pub set_rate : ℤ → Action
set_rate r = modify (λ w. record w { ctx = record (w.ctx) { rate = r } })

-- The datagram for a message: the authentication line in front, where there is an agent id.
unfoldable pub frame : Env → List ℕ → Exec World (List ℕ)
frame env mesg = do
  ctx ← gets (λ w. w.ctx)
  if is_filled ctx.agent_id
      then (do
        now ← ask_clock env
        line ← lift (agent_line ctx now.sec mesg)
        pure (line ++ take (framed_size - length line) mesg))
      else pure mesg

-- "TIME <sec> <usec>\n"
unfoldable pub time_line : Timeval → Text
time_line t = codes "TIME " ++ (decimal t.sec ++ (b' ' ∷ (decimal t.usec ++ (newline ∷ []))))

unfoldable pub emit : Env → List ℕ → Action
emit env mesg = do
  framed ← frame env mesg
  notsend ← gets (λ w. w.ctx.notsend)
  if notsend
      then (do now ← ask_clock env; push (printed (time_line now)); push (printed framed))
      else push (sent framed)

-- packter_flush; `frame` of the source has the header's size with its NUL, and the payload.
unfoldable pub flush : Env → Action
flush env = do
  buf ← gets (λ w. w.ctx.bulk_buf)
  when (is_filled buf) (do
    room ← lift (copies (length buf) (9 + bulk_payload - length header))
    emit env (header ++ buf)
    set_bulk [])

unfoldable pub bulk_window_expired : Env → Exec World Bool
bulk_window_expired env = do
  ctx ← gets (λ w. w.ctx)
  if is_filled ctx.bulk_buf
      then (do
        now ← ask_clock env
        pure (
            leb ctx.bulk_ms
              (diff_sec now ctx.bulk_first * 1000 + diff_usec now ctx.bulk_first / 1000)))
      else pure false

-- `strncmp(mesg, PACKTER_HEADER, 8) == 0`
unfoldable pub is_fly : Text → Bool
is_fly mesg = text_eq (take (length header) mesg) header

-- packter_rate on the context's limit; `rand` is called for limits from 1 on.
unfoldable pub next_rate : Env → Exec World ℕ
next_rate env w =
    let calls : ℕ = elim w.ctx.rate_limit [
      | pos n ↦ if ltb n 1 then w.rand_calls else w.rand_calls + 1
      | negsuc n ↦ w.rand_calls
    ] in
    some (rate w.ctx.rate_limit (env.rand w.rand_calls), record w { rand_calls = calls })

-- The buffer is flushed first when the record does not fit behind what it holds.
unfoldable pub make_room : Env → Text → Action
make_room env rec = do
  held ← gets (λ w. w.ctx.bulk_buf)
  when (ltb bulk_payload (length held + length rec)) (flush env)

-- The record joins the buffer; the first one starts the window, and an expired window is flushed.
unfoldable pub store_record : Env → Text → Action
store_record env rec = do
  buf ← gets (λ w. w.ctx.bulk_buf)
  when (not (is_filled buf)) (do now ← ask_clock env; set_bulk_first now)
  room ← lift (copies (length rec) (bulk_payload - length buf))
  set_bulk (buf ++ rec)
  expired ← bulk_window_expired env
  when expired (flush env)

-- A record of at most the payload's size joins the buffer.
unfoldable pub append_record : Env → Text → Action
append_record env rec = make_room env rec >> store_record env rec

-- What packter_send does with a message that the rate limit lets through.
unfoldable pub deliver : Env → Text → Action
deliver env mesg = do
  bulk_ms ← gets (λ w. w.ctx.bulk_ms)
  if ltb 0 bulk_ms && is_fly mesg
      then (let rec = drop (length header) mesg in
          if ltb bulk_payload (length rec)
          then flush env >> emit env mesg
          else append_record env rec)
      else flush env >> emit env mesg

-- packter_send
unfoldable pub send : Env → Text → Action
send env mesg = do
  ctx ← gets (λ w. w.ctx)
  if is_one ctx.rate
      then (do
        r ← next_rate env
        set_rate (pos r)
        when ctx.debug (push (printed mesg))
        deliver env mesg)
      else set_rate (pred ctx.rate)

-- packter_send_se
unfoldable pub send_se : Env → ℕ → Action
send_se env flag = send env (snprintf bufsiz (se ++ (codes "se" ++ (decimal flag ++ codes ".wav"))))
