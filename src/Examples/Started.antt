-- ===== src/Examples/Started.antt =====
-- Witnesses for the collectors from their command lines on, and for what the tools share there.
use packter.Base.{
  ℕ, ◌≡◌, refl, arith, List, [], ◌∷◌, none, some, Text, codes, true, false, if◌then◌else◌, snprintf,
  decimal_int, decimal,
}
use packter.Base.Int.{pos, negsuc}
use packter.Agent.{Ctx, World, ctx_init}
use packter.Collector.{
  Collector, optstr, collector_option, collector_start, pt_sflow, arrived, failed, receive_all,
}
use packter.Collector.Loop.{receive_all-AllSigned, receive_all-total}
use packter.Collector.Start.{collector_start-loopback, mapped_loopback}
use packter.Send.Emission.{IsSound}
use packter.Send.Signed.{owner, AllSigned}
use packter.Config.{fgets, c_string}
use packter.Send.Key.{load_psk, checked, chomp}
use packter.Clock.{rate}
use packter.Startup.Listen.{listen_address, udp_listen, u16, v4_mapped}
use packter.Startup.Privileges.{
  drop_group, drop_user, drop_login_group, drop_privs, wanted, drop_privs-wanted,
}
use packter.Startup.Viewer.{port_or, try_addresses, packter_connect}
use packter.Startup.Viewer.First.{Connected, resolved, packter_connect-first}
use packter.Startup.Options.{
  fresh, common_option, psk_option, window_ms, read_options, at_least_one, check_options,
  require_viewer, connect_viewer,
}
use packter.Base.Scan.{
  atoi, to_long, to_int, scan_long, signed, unsigned, digits, skip_white, is_white, is_digit,
  starts_digit, negate,
}
use packter.Examples.{env}
use packter.Startup.{require, inet, inet6, other, Creds, Host, runs}
use packter.Startup.Options.{started}

abbrev pub root : Creds
root = record { uid = 0; gid = 0 }

-- A machine that serves every system call, and answers these options.
abbrev pub host : List (ℕ × Text) → Host
host given = record {
  getopt = λ optstr argv. given;
  operand = λ optstr argv. none;
  fopen = λ path. some (codes "PACKTER");
  getgrnam = λ name. some 65534;
  getpwnam = λ name. some (65534, 100);
  setgid = λ g c. some (record { uid = c.uid; gid = g });
  setuid = λ u c. some (record { uid = u; gid = c.gid });
  getaddrinfo = λ name port. some (other ∷ inet6 [] ∷ inet (192 ∷ 0 ∷ 2 ∷ 7 ∷ []) ∷ []);
  socket = λ v6 calls. if v6 then negsuc 0 else pos 3;
  listen_socket = pos 4;
  inet_pton4 = λ text. some (127 ∷ 0 ∷ 0 ∷ 1 ∷ []);
  inet_pton6 = λ text. none;
  bind = λ address port. true;
}

abbrev given : List (ℕ × Text)
given =
    (b'v', codes "viewer")
    ∷ (b'B', codes "50")
    ∷ (b'A', codes "gate-1")
    ∷ (b'K', codes "gate.key")
    ∷ (b'u', codes "nobody")
    ∷ []

abbrev viewer_ctx : Ctx
viewer_ctx = record ctx_init {
  bulk_ms = 50;
  agent_id = codes "gate-1";
  psk = codes "PACKTER";
  sock = pos 3;
  addr = 192 ∷ 0 ∷ 2 ∷ 7 ∷ [];
}

-- The user that is asked for, and the user's group.
drop_privs-wanted_example :
    drop_privs (host given) (some (codes "nobody")) none root
    ≡ require (wanted (host given) (some (codes "nobody")) none root)
drop_privs-wanted_example =
    drop_privs-wanted (host given) (some (codes "nobody")) none root
      (record { gid_served = λ g c e. refl; uid_served = λ u c e. refl }) refl

-- The second of two candidates, behind an address of another family.
packter_connect-first_example :
    Connected
      (host given)
      0
      (resolved (host given) (codes "viewer") (pos 0))
      (packter_connect (host given) (codes "viewer") (pos 0) ctx_init)
packter_connect-first_example = packter_connect-first (host given) (codes "viewer") (pos 0) ctx_init

abbrev collector : Collector
collector = record {
  world = started (some []) viewer_ctx;
  listener = record { address = mapped_loopback; port = 6343 };
  creds = record { uid = 65534; gid = 100 };
}

collector_started : collector_start (host given) env pt_sflow [] root ≡ runs collector
unfolding load_psk fgets checked chomp c_string collector_start optstr collector_option fresh
    common_option psk_option window_ms read_options at_least_one check_options require_viewer
    connect_viewer started drop_group drop_user drop_login_group drop_privs port_or try_addresses
    packter_connect listen_address udp_listen u16 v4_mapped ctx_init atoi scan_long to_long to_int
    signed unsigned digits skip_white is_white is_digit starts_digit negate rate snprintf
    decimal_int decimal
collector_started = refl

collector_start-loopback_example : collector.listener.address ≡ mapped_loopback
collector_start-loopback_example =
    collector_start-loopback (host given) env pt_sflow [] root collector
      (record { six = refl; four = refl }) (omega arith) collector_started

receive_all-total_example :
    (end : Unit {0} × World) × (receive_all env pt_sflow.proto
        (failed ∷ arrived (0 ∷ 9 ∷ []) ∷ [])
        collector.world
      ≡ some end)
    × IsSound ⦃own = owner collector.world.ctx⦄ false end.1
receive_all-total_example =
    receive_all-total (host given) env pt_sflow [] root collector
      (failed ∷ arrived (0 ∷ 9 ∷ []) ∷ []) collector_started

receive_all-AllSigned_example :
    (end : Unit {0} × World) × (receive_all env pt_sflow.proto
        (failed ∷ arrived (0 ∷ 9 ∷ []) ∷ [])
        collector.world
      ≡ some end)
    × AllSigned (codes "gate-1") (codes "PACKTER") end.1.out
unfolding started
receive_all-AllSigned_example =
    receive_all-AllSigned (host given) env pt_sflow [] root collector
      (failed ∷ arrived (0 ∷ 9 ∷ []) ∷ []) collector_started
