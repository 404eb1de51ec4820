-- ===== src/Examples/Texts.antt =====
-- Witnesses for what is sent, read and digested.
use packter.Base.{
  ℕ, ◌+◌, ◌*◌, ◌-◌, ◌^◌, ◌%◌, ◌≡◌, refl, List, [], ◌∷◌, ◌++◌, Text, codes, newline, some, false,
  arith, length, text_eq, if◌then◌else◌, All,
}
use packter.Base.Int.{pos, pred, is_one}
use packter.Agent.{World, Ctx, ctx_init}
use packter.Clock.{rate, diff_sec, diff_usec}
use packter.Clock.Difference.{micros, diff_total}
use packter.Config.{config_parse, config_line, fgets, c_string, is_space, is_blank}
use packter.Config.Laws.{first_value, config_parse-first}
use packter.Config.Print.{config_line-print}
use packter.Dict
use packter.Digest.Word.{absorb, digest_state}
use packter.Digest.Padding.{padding, digest_state-padded}
use packter.Digest.Md5
use packter.Examples.{nobody, env, start, start-IsSound, start-IsPlain}
use packter.Base.Scan.{
  scan_long, signed, unsigned, digits, skip_white, is_white, is_digit, starts_digit, negate,
}
use packter.Replay.{replay, c_strings, scan_time}
use packter.Replay.Acts.{Act, perform, messages, naps, sum}
use packter.Replay.Batches.{glued, data_lines, times, waits, IsShort, replay-sends}
use packter.Replay.Elapsed.{replay-elapsed}
use packter.Replay.Pause.{micros_of}
use packter.Send.Key.{load_psk, load_psk-line}
use packter.Send.{send, agent_line}
use packter.Send.Emission.{IsSound, agent_line-total}
use packter.Send.Safety.{send-total}
use packter.Send.View.{payload, payloads, stream, IsPlain}
use packter.Send.Delivery.{send_all, joined, send-stream, send_all-payloads}

-- A record that the agent sends.
abbrev ball : Text
ball = codes "PACKTER" ++ (newline ∷ (codes "192.0.2.1,192.0.2.2,53,4242,3," ++ (newline ∷ [])))

send-total_example :
    (end : Unit {0} × World) × (send env ball start ≡ some end) × IsSound false end.1
send-total_example = send-total env false ball start start-IsSound

send-stream_example :
    (w' : World) × (send env ball start ≡ some (tt, w'))
    × (stream w' ≡ (if is_one (pos 1) then stream start ++ payload ball else stream start))
    × ((x : ℕ) × IsPlain (if is_one (pos 1) then pos (rate (pos 1) x) else pred (pos 1)) (pos 1) w')
send-stream_example = send-stream env ball start (pos 1) (pos 1) start-IsPlain

send_all-payloads_example :
    (w' : World) × (send_all env (ball ∷ ball ∷ []) start ≡ some (tt, w'))
    × (payloads w'.out ≡ stream start ++ joined (ball ∷ ball ∷ []))
    × (w'.ctx.bulk_buf ≡ [])
send_all-payloads_example = send_all-payloads env (ball ∷ ball ∷ []) start start-IsPlain

abbrev keyed : Ctx
keyed = record ctx_init { agent_id = codes "gate-1"; psk = codes "secret" }

agent_line-total_example : (line : Text) × (agent_line keyed 43200 ball ≡ some line)
agent_line-total_example = agent_line-total keyed 43200 ball (omega arith) (omega arith)

diff_total_example :
    diff_sec (record { sec = 5; usec = 100 }) (record { sec = 3; usec = 200 }) * 1000000
      + diff_usec (record { sec = 5; usec = 100 }) (record { sec = 3; usec = 200 })
    ≡ micros (record { sec = 5; usec = 100 }) - micros (record { sec = 3; usec = 200 })
diff_total_example =
    diff_total (record { sec = 5; usec = 100 }) (record { sec = 3; usec = 200 }) (omega arith)
      (omega arith)

digest_state-padded_example :
    (digest_state Md5.block Md5.le_len Md5.initial ball
      ≡ (absorb Md5.block
          (length ball + 2)
          Md5.initial
          (ball ++ padding (length ball) (Md5.le_len (length ball * 8 % 2 ^ 64)))).0)
    × (length
          (absorb Md5.block
            (length ball + 2)
            Md5.initial
            (ball ++ padding (length ball) (Md5.le_len (length ball * 8 % 2 ^ 64)))).1
        ≡ 0)
digest_state-padded_example =
    digest_state-padded Md5.block Md5.le_len Md5.initial ball
      (λ n. unfold Md5.le_len Md5.le_bytes in refl)

-- A configuration with a comment and a key that comes twice.
abbrev conf : Text
conf =
    codes "# monitor"
    ++ (newline ∷ (codes "TH_WARMUP=5" ++ (newline ∷ (codes "TH_WARMUP=9" ++ (newline ∷ [])))))

config_parse-first_example :
    Dict.get (config_parse Dict.init conf) (codes "TH_WARMUP")
    ≡ first_value (codes "TH_WARMUP") (fgets 1022 1022 conf)
config_parse-first_example = config_parse-first conf (codes "TH_WARMUP")

config_line-print_example :
    config_line (codes "TH" ++ (b'=' ∷ (codes "a " ++ (b'b' ∷ newline ∷ []))))
    ≡ some (codes "TH", codes "a " ++ (b'b' ∷ []))
config_line-print_example =
    config_line-print b'T' (codes "H") (codes "a ") b'b' refl (refl, (refl, tt))
      (unfold is_space is_blank in refl) ((refl, refl, refl), tt)
      ((refl, refl, refl), ((refl, refl, refl), tt)) (unfold is_space is_blank in refl)

abbrev dump : Text
dump = codes "TIME 1 0" ++ (newline ∷ ball)

replay-sends_example :
    (acts : List Act) × (replay env dump ≡ perform env acts)
    × (glued (messages acts) ≡ glued (data_lines (c_strings (fgets 1022 1022 dump))))
    × All IsShort (messages acts)
    × (naps acts ≡ waits (pos 0, pos 0) (times (c_strings (fgets 1022 1022 dump))))
replay-sends_example = replay-sends env dump

-- Two times, two and a half seconds apart.
abbrev timed_dump : Text
timed_dump = dump ++ codes "TIME 3 500000"

times-timed_dump :
    times (c_strings (fgets 1022 1022 timed_dump)) ≡ (pos 1, pos 0) ∷ (pos 3, pos 500000) ∷ []
unfolding times c_strings fgets scan_time scan_long c_string text_eq signed unsigned digits
    skip_white is_white is_digit starts_digit negate
times-timed_dump = refl

replay-elapsed_example :
    (acts : List Act) × (replay env timed_dump ≡ perform env acts)
    × (sum (naps acts) + micros_of (pos 1, pos 0) ≡ micros_of (pos 3, pos 500000))
unfolding micros_of
replay-elapsed_example =
    replay-elapsed env timed_dump (pos 1, pos 0) ((pos 3, pos 500000) ∷ []) times-timed_dump
      (omega arith) (omega arith) (omega arith, omega arith, omega arith, tt)

load_psk-line_example :
    load_psk (codes "secret" ++ (newline ∷ codes "more")) ≡ some (codes "secret")
load_psk-line_example =
    load_psk-line b's' (codes "ecret") (codes "more") (omega arith)
      (refl, (refl, (refl, (refl, (refl, (refl, tt))))))
