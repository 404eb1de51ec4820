-- ===== src/Examples/Tools.antt =====
-- Witnesses for pt_agent and the replay tool from their command lines on.
use packter.Base.{
  ℕ, ◌≡◌, refl, arith, List, [], ◌∷◌, none, some, Text, codes, true, false, All, snprintf,
  decimal_int, decimal, text_eq,
}
use packter.Base.Int.{pos}
use packter.Agent.{Ctx, World, ctx_init, sflow}
use packter.Capture.{Pcap, Ending, returned}
use packter.Capture.Flushed.{IsDone}
use packter.PtAgent.{
  PtAgent, agent_optstr, agent_option, own_option, clamp_flagbase, at_least_zero, trans_of,
  agent_viewer, agent_start, agent_run,
}
use packter.PtAgent.Run.{agent_run-AllSigned, agent_run-total}
use packter.Replay.{c_strings}
use packter.Replay.Batches.{glued, data_lines, IsShort}
use packter.Replay.Main.{replay_option, replay_start, replay_run, replay_run-datagrams}
use packter.Send.Signed.{translator, AllSigned}
use packter.Send.View.{datagrams}
use packter.Snort.{AlertSocket}
use packter.Config.{fgets, c_string}
use packter.Send.Key.{load_psk, checked, chomp}
use packter.Clock.{rate}
use packter.Startup.Privileges.{drop_group, drop_user, drop_login_group, drop_privs}
use packter.Startup.Viewer.{port_or, try_addresses, packter_connect}
use packter.Startup.Options.{
  fresh, common_option, psk_option, window_ms, read_options, at_least_one, check_options,
  require_viewer, connect_viewer,
}
use packter.Base.Scan.{
  atoi, to_long, to_int, scan_long, signed, unsigned, digits, skip_white, is_white, is_digit,
  starts_digit, negate,
}
use packter.Examples.{env, frame}
use packter.Startup.{runs}
use packter.Startup.Options.{started}
use packter.Examples.Started.{root, host}

abbrev agent_given : List (ℕ × Text)
agent_given =
    (b'v', codes "viewer")
    ∷ (b'B', codes "50")
    ∷ (b'A', codes "gate-1")
    ∷ (b'K', codes "gate.key")
    ∷ (b't', codes "sflow")
    ∷ (b'r', codes "dump")
    ∷ []

abbrev agent_ctx : Ctx
agent_ctx = record ctx_init {
  bulk_ms = 50;
  translate = sflow;
  agent_id = codes "gate-1";
  psk = codes "PACKTER";
}

abbrev agent : PtAgent
agent = record {
  setup = record {
    ctx = agent_ctx;
    ip = some (codes "viewer");
    port = pos 0;
    user = none;
    group = none;
    bind_addr = [];
    bind_port = pos 0;
    device = none;
    dumpfile = some (codes "dump");
    snort = false;
  };
  filter = none;
  world = started none (record agent_ctx { sock = pos 3; addr = 192 ∷ 0 ∷ 2 ∷ 7 ∷ [] });
  creds = root;
}

agent_started : agent_start (host agent_given) env [] root ≡ runs agent
unfolding load_psk fgets checked chomp c_string agent_start agent_optstr agent_option own_option
    trans_of text_eq clamp_flagbase at_least_zero agent_viewer fresh common_option psk_option
    window_ms read_options at_least_one check_options require_viewer connect_viewer started
    drop_group drop_user drop_login_group drop_privs port_or try_addresses packter_connect ctx_init
    atoi scan_long to_long to_int signed unsigned digits skip_white is_white is_digit starts_digit
    negate rate snprintf decimal_int decimal
agent_started = refl

-- An Ethernet capture of one frame.
abbrev pub pcap : Pcap
pcap = record {
  open_offline = λ path. true;
  findalldevs = none;
  open_live = λ device len. false;
  compile = λ filter. true;
  setfilter = true;
  datalink = pos 1;
  frames = record { p = frame; caplen = 42 } ∷ [];
  loop_ends = true;
}

abbrev no_alerts : AlertSocket
no_alerts = record { opens = false; binds = λ path. false; received = [] }

agent_run-total_example :
    (end : Ending × World) × (agent_run env pcap no_alerts agent agent.world ≡ some end)
    × IsDone ⦃own = translator agent.world.ctx⦄ end.0 end.1
agent_run-total_example =
    agent_run-total (host agent_given) env [] root agent pcap no_alerts agent_started
      (λ snort. absurd cc) (omega arith) tt

agent_run-AllSigned_example :
    (end : Ending × World) × (agent_run env pcap no_alerts agent agent.world ≡ some end)
    × AllSigned (codes "gate-1") (codes "PACKTER") end.1.out
unfolding started
agent_run-AllSigned_example =
    agent_run-AllSigned (host agent_given) env [] root agent pcap no_alerts agent_started
      (λ snort. absurd cc) (omega arith) tt

abbrev replay_given : List (ℕ × Text)
replay_given = (b'v', codes "viewer") ∷ (b'r', codes "dump") ∷ []

abbrev replay_world : World
replay_world = record {
  ctx = record ctx_init { sock = pos 3; addr = 192 ∷ 0 ∷ 2 ∷ 7 ∷ [] };
  templates = none;
  out = [];
  clock_reads = 1;
  rand_calls = 1;
}

replay_started : replay_start (host replay_given) [] root ≡ runs (codes "dump", replay_world)
unfolding replay_start replay_option fresh read_options require_viewer drop_group drop_user
    drop_privs port_or try_addresses packter_connect ctx_init snprintf decimal_int decimal
replay_started = refl

replay_run-datagrams_example :
    (w' : World) × (replay_run (host replay_given) env (codes "dump") replay_world
      ≡ some (returned, w'))
    × (glued (datagrams w'.out)
        ≡ glued (data_lines (c_strings (fgets 1022 1022 (codes "PACKTER")))))
    × All IsShort (datagrams w'.out)
replay_run-datagrams_example =
    replay_run-datagrams (host replay_given) env [] root (codes "dump") (codes "PACKTER")
      replay_world replay_started refl
