-- ===== src/Flow/Records.antt =====
-- nf_flow_set of agent/lib/nf_common.c: a data set becomes one PACKTER record per flow.
use packter.Base.{
  ℕ, zero, suc, ◌+◌, ◌/◌, ◌%◌, List, [], ◌∷◌, ◌++◌, Option, none, some, Text, codes, newline,
  decimal, Bool, true, false, not, ◌&&◌, ◌||◌, ltb, leb, ◌==◌, if◌then◌else◌, drop,
}
use packter.Agent.{Env, Template, printed}
use packter.Agent.Exec.{◌>>=◌, pure, skip, lift, gets, when}
use packter.Dict
use packter.Flow.Templates.{template_key}
use packter.Proto.{tcp_flag_adjust, ports_text, icmp_text, emit_record}
use packter.Send.{Action, push}
use packter.Wire.{byte, be16, span}

-- FLD_OK(o, sz)
unfoldable pub fld_ok : Template → Option ℕ → ℕ → Bool
fld_ok np o sz = elim o [ none ↦ false | some i ↦ leb (i + sz) np.record_len ]

-- A read at a field of the record, with the offset NF_ABSENT as a fault.
unfoldable pub at_field : {A : Type 0} → Option ℕ → (ℕ → Option A) → Option A
at_field none read = none
at_field (some i) read = read i

-- `ipsz`
unfoldable pub ipsz : Template → ℕ
ipsz np = if np.isv6 then 16 else 4

-- The case of TCP: the flag is adjusted by the header's flags where the template has them.
unfoldable pub tcp_flow : Env → Template → List ℕ → Text → Text → Action
tcp_flow env np rec srcip dstip =
    if not (fld_ok np np.l4_src 2) || not (fld_ok np np.l4_dst 2) then skip else (do
      sport ← lift (at_field np.l4_src (be16 rec))
      dport ← lift (at_field np.l4_dst (be16 rec))
      let flag = if np.isv6 then 5 else 0
      flags ← if fld_ok np np.tcp_flags 1 then lift (at_field np.tcp_flags (byte rec)) else pure 0
      emit_record env srcip dstip sport dport
          (if fld_ok np np.tcp_flags 1 then tcp_flag_adjust flag flags else flag)
          (ports_text (codes "TCP") srcip sport dstip dport))

unfoldable pub udp_flow : Env → Template → List ℕ → Text → Text → Action
udp_flow env np rec srcip dstip =
    if not (fld_ok np np.l4_src 2) || not (fld_ok np np.l4_dst 2) then skip else (do
      sport ← lift (at_field np.l4_src (be16 rec))
      dport ← lift (at_field np.l4_dst (be16 rec))
      emit_record env srcip dstip sport dport (if np.isv6 then 8 else 3)
          (ports_text (codes "UDP") srcip sport dstip dport))

-- The cases of ICMP and ICMPv6: type and code are both ports.
unfoldable pub icmp_flow : Env → Template → List ℕ → Bool → Text → Text → Action
icmp_flow env np rec six srcip dstip = if not (fld_ok np np.icmp 2) then skip else (do
  port ← lift (at_field np.icmp (be16 rec))
  emit_record env srcip dstip port port (if six then 9 else 4) (
      icmp_text (if six then codes "ICMPv6" else codes "ICMPv4") srcip dstip (port / 256)
        (port % 256)))

-- "unknown protocol: <proto>"
unfoldable pub unknown_line : ℕ → Text
unknown_line proto = codes "unknown protocol: " ++ (decimal proto ++ (newline ∷ []))

-- The switch on the protocol.
unfoldable pub flow_by_proto : Env → Template → List ℕ → ℕ → Text → Text → Action
flow_by_proto env np rec proto srcip dstip =
    if proto == 6
    then tcp_flow env np rec srcip dstip
    else if proto == 17
    then udp_flow env np rec srcip dstip
    else if proto == 1
    then icmp_flow env np rec false srcip dstip
    else if proto == 58
    then icmp_flow env np rec true srcip dstip
    else (do debug ← gets (λ w. w.ctx.debug); when debug (push (printed (unknown_line proto))))

-- The body of the loop for the record at `rec`. `inet_ntop` into a buffer of INET6_ADDRSTRLEN bytes
-- does not fail.
unfoldable pub flow_record : Env → Template → List ℕ → Action
flow_record env np rec =
    if not (fld_ok np np.l3_src (ipsz np))
      || not (fld_ok np np.l3_dst (ipsz np))
      || not (fld_ok np np.proto 1)
    then skip
    else (do
      src ← lift (at_field np.l3_src (λ i. span rec i (ipsz np)))
      dst ← lift (at_field np.l3_dst (λ i. span rec i (ipsz np)))
      proto ← lift (at_field np.proto (byte rec))
      let srcip = if np.isv6 then env.inet_ntop6 src else env.inet_ntop4 src
      let dstip = if np.isv6 then env.inet_ntop6 dst else env.inet_ntop4 dst
      flow_by_proto env np rec proto srcip dstip)

-- `while (off + np->record_len <= setlen)`; out of fuel it does not return.
unfoldable pub flow_loop : ℕ → Env → Template → List ℕ → ℕ → ℕ → Action
flow_loop zero env np buf setlen at = if leb (at + np.record_len) setlen then lift none else skip
flow_loop (suc fuel) env np buf setlen at =
    let rest = flow_loop fuel env np buf setlen (at + np.record_len) in
    if leb (at + np.record_len) setlen
    then (do u ← flow_record env np (drop at buf); rest)
    else skip

unfoldable pub is_some {ℓ} : {A : Type ℓ} → Option A → Bool
is_some none = false
is_some (some a) = true

-- The test for an unusable template, negated
unfoldable pub is_usable : Template → Bool
is_usable np = is_some np.l3_src && is_some np.l3_dst && is_some np.proto && ltb 0 np.record_len

-- "flow: template <key> not usable"
unfoldable pub unusable_line : Text → Text
unusable_line key = codes "flow: template " ++ (key ++ (codes " not usable" ++ (newline ∷ [])))

-- What becomes of the set once its template was looked up. A round takes a byte at least, so
-- `setlen` rounds are enough.
unfoldable pub flow_found : Env → List ℕ → ℕ → Text → Option Template → Action
flow_found env buf setlen key none = skip
flow_found env buf setlen key (some np) =
    if is_usable np
    then flow_loop setlen env np buf setlen 4
    else (do debug ← gets (λ w. w.ctx.debug); when debug (push (printed (unusable_line key))))

-- nf_flow_set; pt_map_get on a null pointer is a fault.
unfoldable pub flow_set : Env → List ℕ → ℕ → ℕ → Action
flow_set env buf setlen key_id = if ltb setlen 4 then skip else (do
  id ← lift (be16 buf 0)
  templates ← gets (λ w. w.templates)
  map ← lift templates
  flow_found env buf setlen (template_key key_id id) (Dict.get map (template_key key_id id)))
