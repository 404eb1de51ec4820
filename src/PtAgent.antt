-- ===== src/PtAgent.antt =====
-- main of agent/src/pt_agent.c: the options, the start, and the run on a capture or on Snort's alerts.
pub mod Run
use packter.Base.{
  ℕ, List, Option, none, some, Text, codes, text_eq, Bool, true, ◌==◌, if◌then◌else◌, is_filled,
  snprintf,
}
use packter.Base.Int.{ℤ, pos, negsuc}
use packter.Agent.{Ctx, Env, World, Trans, sflow, netflow, ipfix}
use packter.Agent.Exec.{Exec, ◌>>◌, pure}
use packter.Agent.Exec
use packter.Capture.{Pcap, Ending, returned, waits, exited, packter_pcap}
use packter.Mesg.{bufsiz}
use packter.Send.{flush}
use packter.Snort.{AlertSocket, packter_snort}
use packter.Startup.{Outcome, runs, exits, success, ◌>>=◌, Creds, Host}
use packter.Startup.Options.{
  Setup, fresh, set_ctx, common_option, read_options, check_options, connect_viewer, started,
}
use packter.Startup.Privileges.{drop_privs}

unfoldable pub agent_optstr : Text
agent_optstr = codes "v:i:r:p:R:T:G:B:t:f:u:g:A:K:nUsSdh?"

-- The three values that -t takes.
unfoldable pub trans_of : Text → Option Trans
trans_of optarg =
    if text_eq optarg (codes "sflow")
    then some sflow
    else if text_eq optarg (codes "netflow")
    then some netflow
    else if text_eq optarg (codes "ipfix")
    then some ipfix
    else none

-- The cases that only pt_agent has; an empty argument of -T or -G, a wrong one of -t, and every other
-- letter print the usage and exit.
unfoldable pub own_option : ℕ → Text → Setup → Outcome Setup
own_option op optarg s =
    if op == b'i'
    then runs (record s { device = some optarg })
    else if op == b'r'
    then runs (record s { dumpfile = some optarg })
    else if op == b'U'
    then runs (record s { snort = true })
    else if op == b'S'
    then set_ctx s (record (s.ctx) { snort_report = true })
    else if op == b't'
    then elim (trans_of optarg) [
      | none ↦ exits success
      | some translate ↦ set_ctx s (record (s.ctx) { translate = translate })
    ]
    else if op == b'T'
    then if is_filled optarg
      then set_ctx s (record (s.ctx) { trace = true; trace_server = snprintf bufsiz optarg })
      else exits success
    else if op == b'G'
    then if is_filled optarg
      then set_ctx s (record (s.ctx) { geoip = true; geoip_datfile = snprintf bufsiz optarg })
      else exits success
    else exits success

unfoldable pub agent_option : Host → ℕ → Text → Setup → Outcome Setup
agent_option host op optarg s = common_option host op optarg s (own_option op optarg s)

-- `flagbase` is at least 0.
unfoldable pub at_least_zero : ℤ → ℤ
at_least_zero (pos n) = pos n
at_least_zero (negsuc n) = pos 0

unfoldable pub clamp_flagbase : Ctx → Ctx
clamp_flagbase ctx = record ctx { flagbase = at_least_zero ctx.flagbase }

-- Without -n the viewer is connected; with it there is no socket.
unfoldable pub agent_viewer : Host → Setup → Ctx → Outcome Ctx
agent_viewer host s ctx =
    connect_viewer host s (if ctx.notsend then record ctx { sock = negsuc 0 } else ctx)

-- The agent in front of its run.
pub record PtAgent : Type 0 where
  pub setup : Setup
  pub filter : Option Text
  pub world : World
  pub creds : Creds

-- main up to the run
unfoldable pub agent_start : Host → Env → List Text → Creds → Outcome PtAgent
agent_start host env argv creds = do
  s ← read_options (agent_option host) (host.getopt agent_optstr argv) (fresh (codes "") (pos 0))
  checked ← check_options env (clamp_flagbase s.ctx)
  ctx ← agent_viewer host s checked
  creds' ← drop_privs host s.user s.group creds
  runs (record {
    setup = s;
    filter = host.operand agent_optstr argv;
    world = started none ctx;
    creds = creds';
  })

-- Where the run returns, main flushes and returns.
unfoldable pub agent_end : Env → Ending → Exec World Ending
agent_end env returned = flush env >> pure returned
agent_end env waits = pure waits
agent_end env (exited status) = pure (exited status)

-- The run of main, on Snort's socket or on a capture.
unfoldable pub agent_run : Env → Pcap → AlertSocket → PtAgent → Exec World Ending
agent_run env pcap sock a =
    Exec.◌>>=◌
      (if a.setup.snort
        then packter_snort env sock a.filter
        else packter_pcap env pcap a.setup.dumpfile a.setup.device a.filter)
      (agent_end env)
