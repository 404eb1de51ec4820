-- ===== src/Proto.antt =====
-- agent/lib/proto.c: from a captured frame to PACKTER records. A packet is the list of the captured
-- bytes from its first on, and `len` the length that the code goes by.
pub mod Walk
pub mod Handlers
pub mod Safety
use Prim.Native.Nat.{bit_and}
use packter.Base.{
  ℕ, zero, suc, ◌+◌, ◌-◌, ◌*◌, ◌/◌, ◌%◌, List, [], ◌∷◌, ◌++◌, Option, none, some, Text, codes,
  snprintf, decimal, is_filled, Bool, true, false, not, ◌&&◌, ◌||◌, ltb, leb, ◌==◌, if◌then◌else◌,
  drop,
}
use packter.Agent.{Ctx, Env, World, Trans, off, sflow, netflow, ipfix}
use packter.Agent.Exec.{Exec, ◌>>=◌, ◌>>◌, pure, skip, lift, gets, modify, when}
use packter.Mesg.{bufsiz, packter_mesg}
use packter.Send.{Action, send, send_se}
use packter.Trace.{hash_ip4, hash_ip6, ip4_hdrlen}
use packter.Wire.{byte, be16, span}
use Walk.{ip6_upper_layer}

-- packter_tcp_flag_adjust
unfoldable pub tcp_flag_adjust : ℕ → ℕ → ℕ
tcp_flag_adjust flag tcp_flags =
    if not (bit_and tcp_flags 0x02 == 0)
    then flag + 1
    else if not (bit_and tcp_flags 0x05 == 0)
    then flag + 2
    else flag

-- `describe`: what stands in `mesgbuf` afterwards
unfoldable pub describe : Text → Text → Text
describe mesgbuf body =
    snprintf bufsiz
      (if is_filled mesgbuf then (b'"' ∷ []) ++ (mesgbuf ++ (codes "\" " ++ body)) else body)

-- "<kind> src:<srcip>(<sport>) dst:<dstip>(<dport>)"
unfoldable pub ports_text : Text → Text → ℕ → Text → ℕ → Text
ports_text kind srcip sport dstip dport = snprintf bufsiz (
    kind
    ++ (codes " src:"
        ++ (srcip
            ++ (codes "("
                ++ (decimal sport
                    ++ (codes ") dst:"
                        ++ (dstip ++ (codes "(" ++ (decimal dport ++ codes ")")))))))))

-- "<label> src:<srcip> dst:<dstip> (type:<type> code:<code>)"
unfoldable pub icmp_text : Text → Text → Text → ℕ → ℕ → Text
icmp_text label srcip dstip type code = snprintf bufsiz (
    label
    ++ (codes " src:"
        ++ (srcip
            ++ (codes " dst:"
                ++ (dstip
                    ++ (codes " (type:"
                        ++ (decimal type ++ (codes " code:" ++ (decimal code ++ codes ")")))))))))

-- emit_record
unfoldable pub emit_record : Env → Text → Text → ℕ → ℕ → ℕ → Text → Action
emit_record env srcip dstip data1 data2 flag mesgbuf = do
  ctx ← gets (λ w. w.ctx)
  let mesg = packter_mesg env ctx srcip dstip data1 data2 flag mesgbuf
  when (is_filled mesg) (send env mesg)
  sound ← gets (λ w. w.ctx.enable_sound)
  when sound (send_se env flag)

-- The description is written by the chain itself, and not by -T or -S.
unfoldable pub describes : Ctx → Bool
describes ctx = not ctx.trace && not ctx.snort_report

unfoldable pub handle_tcp : Env → List ℕ → ℕ → Text → Text → ℕ → Text → Action
handle_tcp env p len srcip dstip flag mesgbuf = if ltb len 20 then skip else (do
  flags ← lift (byte p 13)
  sport ← lift (be16 p 0)
  dport ← lift (be16 p 2)
  ctx ← gets (λ w. w.ctx)
  emit_record env srcip dstip sport dport (tcp_flag_adjust flag flags) (
      if describes ctx
      then describe mesgbuf (ports_text (codes "TCP") srcip sport dstip dport)
      else mesgbuf))

-- `ctx->translate != PT_TRANS_NONE`
unfoldable pub translates : Trans → Bool
translates off = false
translates sflow = true
translates netflow = true
translates ipfix = true

unfoldable pub set_suspend : Bool → Action
set_suspend b = modify (λ w. record w { ctx = record (w.ctx) { translate_suspend = b } })

-- packter_flow_decode, which calls back into this chain, is an argument.
abbrev pub Decoder : Type 0
Decoder = Trans → List ℕ → ℕ → Action

unfoldable pub handle_udp : Env → Decoder → List ℕ → ℕ → Text → Text → ℕ → Text → Action
handle_udp env decode p len srcip dstip flag mesgbuf = if ltb len 8 then skip else (do
  ctx ← gets (λ w. w.ctx)
  if translates ctx.translate && not ctx.translate_suspend
      then when (ltb 0 (len - 8))
          (set_suspend true >> (decode ctx.translate (drop 8 p) (len - 8) >> set_suspend false))
      else (do
        sport ← lift (be16 p 0)
        dport ← lift (be16 p 2)
        emit_record env srcip dstip sport dport flag
            (if describes ctx then ports_text (codes "UDP") srcip sport dstip dport else mesgbuf)))

unfoldable pub handle_icmp : Env → List ℕ → ℕ → Text → Text → ℕ → Text → Action
handle_icmp env p len srcip dstip flag mesgbuf = if ltb len 2 then skip else (do
  type ← lift (byte p 0)
  code ← lift (byte p 1)
  ctx ← gets (λ w. w.ctx)
  emit_record env srcip dstip (type * 256) (code * 256) flag (
      if describes ctx
      then icmp_text (if flag == 9 then codes "ICMPv6" else codes "ICMPv4") srcip dstip type code
      else mesgbuf))

-- packter_ip4 from the check of the header length on
unfoldable pub ip4_body : Env → Decoder → List ℕ → ℕ → ℕ → Text → Action
ip4_body env decode p len hdrlen mesgbuf = do
  src ← lift (span p 12 4)
  dst ← lift (span p 16 4)
  trace ← gets (λ w. w.ctx.trace)
  desc ← if trace then lift (hash_ip4 p len) else pure mesgbuf
  proto ← lift (byte p 9)
  let srcip = env.inet_ntop4 src
  let dstip = env.inet_ntop4 dst
  if proto == 6
      then handle_tcp env (drop hdrlen p) (len - hdrlen) srcip dstip 0 desc
      else if proto == 17
      then handle_udp env decode (drop hdrlen p) (len - hdrlen) srcip dstip 3 desc
      else if proto == 1
      then handle_icmp env (drop hdrlen p) (len - hdrlen) srcip dstip 4 desc
      else skip

-- packter_ip4
unfoldable pub ip4 : Env → Decoder → List ℕ → ℕ → Text → Action
ip4 env decode p len mesgbuf = if ltb len 20 then skip else (do
  vhl ← lift (byte p 0)
  if not (vhl / 16 == 4)
      then skip
      else if ltb (ip4_hdrlen vhl) 20 || ltb len (ip4_hdrlen vhl)
      then skip
      else ip4_body env decode p len (ip4_hdrlen vhl) mesgbuf)

-- packter_ip6 from the answer of ip6_upper_layer on; `none` is -1.
unfoldable pub ip6_body : Env → Decoder → List ℕ → ℕ → Text → Text → Text → Option (ℕ × ℕ) → Action
ip6_body env decode p len srcip dstip desc none = skip
ip6_body env decode p len srcip dstip desc (some (proto, at)) =
    if proto == 6
    then handle_tcp env (drop at p) (len - at) srcip dstip 5 desc
    else if proto == 17
    then handle_udp env decode (drop at p) (len - at) srcip dstip 8 desc
    else if proto == 58
    then handle_icmp env (drop at p) (len - at) srcip dstip 9 desc
    else skip

-- packter_ip6
unfoldable pub ip6 : Env → Decoder → List ℕ → ℕ → Text → Action
ip6 env decode p len mesgbuf = if ltb len 40 then skip else (do
  trace ← gets (λ w. w.ctx.trace)
  desc ← if trace then lift (hash_ip6 p len) else pure mesgbuf
  src ← lift (span p 8 16)
  dst ← lift (span p 24 16)
  upper ← lift (ip6_upper_layer p len)
  ip6_body env decode p len (env.inet_ntop6 src) (env.inet_ntop6 dst) desc upper)

-- The switch at the end of packter_ether_frame
unfoldable pub ether_payload : Env → Decoder → List ℕ → ℕ → ℕ → ℕ → Text → Action
ether_payload env decode p caplen ether_type skiplen mesgbuf =
    if ltb caplen skiplen
    then skip
    else if ether_type == 0x0800
    then ip4 env decode (drop skiplen p) (caplen - skiplen) mesgbuf
    else if ether_type == 0x86dd
    then ip6 env decode (drop skiplen p) (caplen - skiplen) mesgbuf
    else skip

-- packter_ether_frame
unfoldable pub ether_frame : Env → Decoder → List ℕ → ℕ → Text → Action
ether_frame env decode p caplen mesgbuf = if ltb caplen 14 then skip else (do
  ether_type ← lift (be16 p 12)
  if ether_type == 0x8100
      then if ltb caplen 18 then skip else (do
        inner_type ← lift (be16 p 16)
        ether_payload env decode p caplen inner_type 18 mesgbuf)
      else ether_payload env decode p caplen ether_type 14 mesgbuf)

-- packter_lback_frame
unfoldable pub lback_frame : Env → Decoder → List ℕ → ℕ → Text → Action
lback_frame env decode p caplen mesgbuf =
    if ltb caplen 4 then skip else ip4 env decode (drop 4 p) (caplen - 4) mesgbuf
