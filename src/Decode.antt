-- ===== src/Decode.antt =====
-- The readers of flow-export datagrams (agent/lib/netflow.c, ipfix.c, sflow.c) and their dispatch
-- (agent/lib/collector.c), tied together with the capture chain.
pub mod Sets
pub mod Samples
pub mod Sampled
pub mod Sequence
pub mod Safety
use packter.Base.{ℕ, zero, suc, List, none, Text}
use packter.Agent.{Env, World, Trans, off, sflow, netflow, ipfix}
use packter.Agent.Exec.{Exec, skip, lift}
use packter.Proto.{Decoder, ether_frame}
use packter.Send.{Action}
use Sets.{netflow_read, ipfix_read}
use Samples.{sflow_read}

-- packter_flow_decode, where calls of itself, through packter_ether_frame and handle_udp, may nest
-- `depth` deep; a deeper one does not return.
unfoldable pub flow_decode : ℕ → Env → Decoder
flow_decode zero env proto buf len = lift none
flow_decode (suc depth) env off buf len = skip
flow_decode (suc depth) env sflow buf len =
    sflow_read env (ether_frame env (flow_decode depth env)) buf len
flow_decode (suc depth) env netflow buf len = netflow_read env buf len
flow_decode (suc depth) env ipfix buf len = ipfix_read env buf len

-- What a collector does with a datagram, and the capture with a frame: the calls nest at most twice.
unfoldable pub decode_datagram : Env → Decoder
unfolding flow_decode
decode_datagram env = flow_decode 2 env

unfoldable pub capture_frame : Env → List ℕ → ℕ → Text → Action
unfolding flow_decode
capture_frame env = ether_frame env (flow_decode 1 env)
