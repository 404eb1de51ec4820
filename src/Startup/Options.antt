-- ===== src/Startup/Options.antt =====
-- The command lines of agent/src/pt_agent.c and agent/lib/collector.c: the options that both know, the
-- loop over what getopt answers, and the checks behind it.
use packter.Base.{
  ℕ, List, [], ◌∷◌, Option, none, some, Text, Bool, true, false, not, ◌&&◌, ltb, ◌==◌,
  if◌then◌else◌, is_filled, snprintf,
}
use packter.Base.Int.{ℤ, pos, negsuc}
use packter.Base.Scan.{atoi}
use packter.Agent.{Ctx, Env, World, Template, ctx_init}
use packter.Clock.{rate}
use packter.Send.Key.{load_psk}
use packter.Startup.Viewer.{packter_connect}
use packter.Startup.{Outcome, runs, exits, success, failure, ◌>>=◌, require, Host}

-- The context and the other variables that the options set. `bind_addr` and `bind_port` are the
-- collectors', `device`, `dumpfile` and `snort` are pt_agent's.
pub record Setup : Type 0 where
  pub ctx : Ctx
  pub ip : Option Text
  pub port : ℤ
  pub user : Option Text
  pub group : Option Text
  pub bind_addr : Text
  pub bind_port : ℤ
  pub device : Option Text
  pub dumpfile : Option Text
  pub snort : Bool

-- The variables before the first option.
unfoldable pub fresh : Text → ℤ → Setup
fresh bind_addr bind_port = record {
  ctx = ctx_init;
  ip = none;
  port = pos 0;
  user = none;
  group = none;
  bind_addr = bind_addr;
  bind_port = bind_port;
  device = none;
  dumpfile = none;
  snort = false;
}

abbrev pub set_ctx : Setup → Ctx → Outcome Setup
set_ctx s ctx = runs (record s { ctx = ctx })

-- PACKTER_AGENT_ID_MAX
abbrev pub agent_id_max : ℕ
agent_id_max = 64

-- `bulk_ms`, which only counts from 1 on.
unfoldable pub window_ms : ℤ → ℕ
window_ms (pos n) = n
window_ms (negsuc n) = 0

-- packter_load_psk on a file name
unfoldable pub psk_option : Host → Text → Setup → Outcome Setup
psk_option host file s = do
  content ← require (host.fopen file)
  psk ← require (load_psk content)
  set_ctx s (record (s.ctx) { psk = psk })

-- The cases that both switches have; every other letter is left to `rest`.
unfoldable pub common_option : Host → ℕ → Text → Setup → Outcome Setup → Outcome Setup
unfolding window_ms psk_option
common_option host op optarg s rest =
    if op == b'f'
    then set_ctx s (record (s.ctx) { flagbase = atoi optarg })
    else if op == b'd'
    then set_ctx s (record (s.ctx) { debug = true })
    else if op == b'v'
    then runs (record s { ip = some optarg })
    else if op == b'p'
    then runs (record s { port = atoi optarg })
    else if op == b's'
    then set_ctx s (record (s.ctx) { enable_sound = true })
    else if op == b'u'
    then runs (record s { user = some optarg })
    else if op == b'g'
    then runs (record s { group = some optarg })
    else if op == b'n'
    then set_ctx s (record (s.ctx) { notsend = true })
    else if op == b'R'
    then set_ctx s (record (s.ctx) { rate_limit = atoi optarg })
    else if op == b'B'
    then set_ctx s (record (s.ctx) { bulk_ms = window_ms (atoi optarg) })
    else if op == b'A'
    then set_ctx s (record (s.ctx) { agent_id = snprintf agent_id_max optarg })
    else if op == b'K'
    then psk_option host optarg s
    else rest

-- The loop over what getopt answers, with the switch of a tool.
unfoldable pub read_options :
    (ℕ → Text → Setup → Outcome Setup) → List (ℕ × Text) → Setup → Outcome Setup
read_options switch [] s = runs s
read_options switch ((op, optarg) ∷ rest) s = do
  s' ← switch op optarg s
  read_options switch rest s'

-- `rate_limit` is at least 1.
unfoldable pub at_least_one : ℤ → ℤ
at_least_one (pos n) = if ltb n 1 then pos 1 else pos n
at_least_one (negsuc n) = pos 1

-- `-K` requires `-A`; then the limit is clamped, and the first rate is drawn (the second `rand`).
unfoldable pub check_options : Env → Ctx → Outcome Ctx
unfolding at_least_one
check_options env ctx =
    if is_filled ctx.psk && not (is_filled ctx.agent_id)
    then exits failure
    else runs (record ctx {
      rate_limit = at_least_one ctx.rate_limit;
      rate = pos (rate (at_least_one ctx.rate_limit) (env.rand 1));
    })

-- The viewer has to be named, and packter_connect has to answer a socket.
unfoldable pub require_viewer : Host → Setup → Ctx → Outcome Ctx
require_viewer host s ctx = elim s.ip [
  | none ↦ exits success
  | some ip ↦
      let (connected, ok) = packter_connect host ip s.port ctx in
      if ok then runs connected else exits failure
]

-- With -n nothing is connected.
unfoldable pub connect_viewer : Host → Setup → Ctx → Outcome Ctx
unfolding require_viewer
connect_viewer host s ctx = if ctx.notsend then runs ctx else require_viewer host s ctx

-- The state when a tool has started, with the template map that it has: `ctx_init` asked the clock and
-- `rand` once each.
unfoldable pub started : Option (List (Text × Template)) → Ctx → World
started templates ctx = record {
  ctx = ctx;
  templates = templates;
  out = [];
  clock_reads = 1;
  rand_calls = 2;
}
