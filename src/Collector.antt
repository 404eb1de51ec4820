-- ===== src/Collector.antt =====
-- packter_collector_run of agent/lib/collector.c: how pt_sflow, pt_netflow and pt_ipfix start, and their
-- loop over what the socket receives.
pub mod Start
pub mod Loop
use packter.Base.{
  ℕ, List, [], ◌∷◌, some, Text, codes, Bool, true, false, ltb, ◌==◌, if◌then◌else◌, length,
  snprintf, take,
}
use packter.Base.Int.{ℤ, pos}
use packter.Base.Scan.{atoi}
use packter.Agent.{Env, World, Trans, sflow, netflow, ipfix}
use packter.Agent.Exec.{◌>>◌, skip}
use packter.Decode.{decode_datagram}
use packter.Mesg.{bufsiz}
use packter.Replay.{bufsiz_long}
use packter.Send.{Action}
use packter.Startup.{Outcome, runs, exits, success, ◌>>=◌, Creds, Host}
use packter.Startup.Listen.{Listener, udp_listen}
use packter.Startup.Options.{
  Setup, fresh, set_ctx, common_option, read_options, check_options, connect_viewer, started,
}
use packter.Startup.Privileges.{drop_privs}

-- Only a collector of sFlow knows -T.
unfoldable pub optstr : Bool → Text
optstr has_trace =
    if has_trace then codes "v:p:b:l:R:T:B:f:u:g:A:K:nsdh?" else codes "v:p:b:l:R:B:f:u:g:A:K:nsdh?"

-- The switch; every letter that is not a case prints the usage and exits.
unfoldable pub collector_option : Host → ℕ → Text → Setup → Outcome Setup
collector_option host op optarg s = common_option host op optarg s (
    if op == b'b'
    then runs (record s { bind_addr = optarg })
    else if op == b'l'
    then runs (record s { bind_port = atoi optarg })
    else if op == b'T'
    then set_ctx s (record (s.ctx) { trace = true; trace_server = snprintf bufsiz optarg })
    else exits success)

-- A collector in front of its loop.
pub record Collector : Type 0 where
  pub world : World
  pub listener : Listener
  pub creds : Creds

abbrev pub loopback : Text
loopback = codes "127.0.0.1"

-- main of agent/src/pt_sflow.c, pt_netflow.c and pt_ipfix.c: each is packter_collector_run with the
-- protocol, the default port, and whether -T is known.
pub record Tool : Type 0 where
  pub proto : Trans
  pub default_port : ℤ
  pub has_trace : Bool

abbrev pub pt_sflow : Tool
pt_sflow = record { proto = sflow; default_port = pos 6343; has_trace = true }

abbrev pub pt_netflow : Tool
pt_netflow = record { proto = netflow; default_port = pos 2055; has_trace = false }

abbrev pub pt_ipfix : Tool
pt_ipfix = record { proto = ipfix; default_port = pos 4739; has_trace = false }

-- packter_collector_run up to the loop
unfoldable pub collector_start : Host → Env → Tool → List Text → Creds → Outcome Collector
collector_start host env tool argv creds = do
  s ←
      read_options (collector_option host) (host.getopt (optstr tool.has_trace) argv)
        (fresh loopback tool.default_port)
  checked ← check_options env s.ctx
  ctx ← connect_viewer host s checked
  creds' ← drop_privs host s.user s.group creds
  listener ← udp_listen host (some s.bind_addr) s.bind_port
  runs (record { world = started (some []) ctx; listener = listener; creds = creds' })

-- What `recv` answers: an error, or a datagram.
pub data Received : Type 0 where
  failed : Received
  arrived : List ℕ → Received

-- One round: an error and an empty datagram are skipped, a longer one is cut to the buffer.
unfoldable pub receive : Env → Trans → Received → Action
receive env proto failed = skip
receive env proto (arrived datagram) =
    let buf = take bufsiz_long datagram in
    if ltb (length buf) 1 then skip else decode_datagram env proto buf (length buf)

-- The loop, over what is received.
unfoldable pub receive_all : Env → Trans → List Received → Action
receive_all env proto [] = skip
receive_all env proto (r ∷ rest) = receive env proto r >> receive_all env proto rest
