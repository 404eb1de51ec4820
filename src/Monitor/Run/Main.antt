-- ===== src/Monitor/Run/Main.antt =====
-- main of agent/src/pt_thmon.c: the options, the tunables, the capture, and its end.
use packter.Base.{
  ℕ, List, [], ◌∷◌, ◌++◌, Option, none, some, Text, codes, newline, Bool, true, false, ◌&&◌, ◌||◌,
  ◌==◌, if◌then◌else◌,
}
use packter.Base.Int.{ℤ, pos, negsuc}
use packter.Base.Scan.{atoi}
use packter.Agent.{Ctx, Env, World, ctx_init, printed}
use packter.Agent.Exec
use packter.Agent.Exec.{Exec, ◌>>◌, pure}
use packter.Capture.{Pcap, Ending, returned, exited, device_or, snaplen}
use packter.Config.{config_parse}
use packter.Monitor.{count_init}
use packter.Monitor.Analysis.{Charts, Tuning}
use packter.Monitor.Ewma.{Floats, Ewma, zero_f}
use packter.Monitor.Run.{Monitor, tune, Event, monitor_all}
use packter.Startup.{Outcome, runs, exits, success, failure, ◌>>=◌, Host}
use packter.Startup.Options.{window_ms}
use packter.Startup.Viewer.{packter_connect}

-- The context and the other variables that the options set.
pub record Watch (fl : Floats) : Type 0 where
  pub ctx : Ctx
  pub ip : Option Text
  pub port : ℤ
  pub device : Option Text
  pub dumpfile : Option Text
  pub configfile : Text
  pub tuning : Tuning fl
  pub count_max : ℕ

-- PACKTER_THCONFIG
unfoldable pub thconfig : Text
thconfig = codes "/usr/local/etc/packter.conf"

module _ (fl : Floats) where
  -- The thresholds before the options: -1.
  unfoldable unset : fl.F
  unset = fl.of_int (negsuc 0)

  unfoldable pub fresh_tuning : Tuning fl
  unfolding unset zero_f
  fresh_tuning = record {
    rate_syn = unset;
    rate_fin = unset;
    rate_rst = unset;
    rate_icmp = unset;
    rate_udp = unset;
    rate_pps = unset;
    warmup = 0;
    lambda = zero_f fl;
    ewma_k = zero_f fl;
    cusum_k = zero_f fl;
    cusum_h = zero_f fl;
    interval = pos 30;
    config = [];
  }

  -- The variables before the first option: PT_THCOUNT, PT_INTERVAL.
  unfoldable pub fresh_watch : Watch fl
  fresh_watch = record {
    ctx = ctx_init;
    ip = none;
    port = pos 0;
    device = none;
    dumpfile = none;
    configfile = thconfig;
    tuning = fresh_tuning;
    count_max = 500;
  }

  abbrev set_tuning : Watch fl → Tuning fl → Outcome (Watch fl)
  set_tuning s tn = runs (record s { tuning = tn })

  -- The thresholds of -S, -F, -R, -I, -U and -P; every other letter is left to `rest`.
  unfoldable pub cap_option : ℕ → Text → Watch fl → Outcome (Watch fl) → Outcome (Watch fl)
  cap_option op optarg s rest =
      if op == b'S'
      then set_tuning s (record (s.tuning) { rate_syn = fl.parse optarg })
      else if op == b'F'
      then set_tuning s (record (s.tuning) { rate_fin = fl.parse optarg })
      else if op == b'R'
      then set_tuning s (record (s.tuning) { rate_rst = fl.parse optarg })
      else if op == b'I'
      then set_tuning s (record (s.tuning) { rate_icmp = fl.parse optarg })
      else if op == b'U'
      then set_tuning s (record (s.tuning) { rate_udp = fl.parse optarg })
      else if op == b'P'
      then set_tuning s (record (s.tuning) { rate_pps = fl.parse optarg })
      else rest

  -- The switch. A window of fewer than one frame is full with its first one, as one of 0 frames is.
  unfoldable pub thmon_option : ℕ → Text → Watch fl → Outcome (Watch fl)
  unfolding cap_option
  thmon_option op optarg s =
      if op == b'f'
      then runs (record s { ctx = record (s.ctx) { flagbase = atoi optarg } })
      else if op == b'd'
      then runs (record s { ctx = record (s.ctx) { debug = true } })
      else if op == b'v'
      then runs (record s { ip = some optarg })
      else if op == b'p'
      then runs (record s { port = atoi optarg })
      else if op == b'i'
      then runs (record s { device = some optarg })
      else if op == b'r'
      then runs (record s { dumpfile = some optarg })
      else if op == b'C'
      then runs (record s { count_max = window_ms (atoi optarg) })
      else if op == b'w'
      then set_tuning s (record (s.tuning) { interval = atoi optarg })
      else if op == b's'
      then runs (record s { ctx = record (s.ctx) { enable_sound = true } })
      else if op == b'c'
      then runs (record s { configfile = optarg })
      else cap_option op optarg s (exits success)

  -- The loop over what getopt answers.
  unfoldable pub read_watch : List (ℕ × Text) → Watch fl → Outcome (Watch fl)
  unfolding thmon_option
  read_watch [] s = runs s
  read_watch ((op, optarg) ∷ rest) s = do s' ← thmon_option op optarg s; read_watch rest s'

  -- `th` after count_init, with the baselines that the static storage holds: all zero.
  unfoldable pub fresh_ewma : Ewma fl
  unfolding zero_f
  fresh_ewma = record { mean = zero_f fl; var = zero_f fl; ready = false }

  unfoldable pub fresh_charts : Charts fl
  unfolding fresh_ewma zero_f
  fresh_charts = record {
    e_syn = fresh_ewma;
    e_fin = fresh_ewma;
    e_rst = fresh_ewma;
    e_icmp = fresh_ewma;
    e_udp = fresh_ewma;
    e_pps = fresh_ewma;
    e_imbal = fresh_ewma;
    cusum_g = zero_f fl;
    windows = 0;
    cooldown_until_sec = 0;
  }

  unfoldable pub fresh_monitor : Watch fl → Text → Monitor fl
  unfolding fresh_charts
  fresh_monitor s file = record {
    counts = count_init;
    start = record { sec = 0; usec = 0 };
    charts = fresh_charts;
    tuning = tune fl (config_parse [] file) s.tuning;
    count_max = s.count_max;
  }

  -- The viewer has to be named, the configuration to be readable, and packter_connect to answer.
  unfoldable pub thmon_open : Host → Watch fl → Outcome (Monitor fl × Ctx)
  unfolding fresh_monitor
  thmon_open host s = elim s.ip [
    | none ↦ exits success
    | some ip ↦ elim (host.fopen s.configfile) [
      | none ↦ exits success
      | some file ↦
          let (connected, ok) = packter_connect host ip s.port s.ctx in
          if ok then runs (fresh_monitor s file, connected) else exits failure
    ]
  ]

-- From the dump file, or live
unfoldable pub open_watch : Pcap → Option Text → Option Text → Bool
open_watch pcap (some dumpfile) device = pcap.open_offline dumpfile
open_watch pcap none device = elim (device_or pcap device) [
  | none ↦ false
  | some name ↦ pcap.open_live name snaplen
]

unfoldable pub thmon_optstr : Text
thmon_optstr = codes "v:i:r:p:S:F:R:I:U:P:C:w:c:f:sdh?"

-- The monitor in front of its capture.
pub record Watching (fl : Floats) : Type 0 where
  pub watch : Watch fl
  pub filter : Option Text
  pub monitor : Monitor fl
  pub world : World

module _ (fl : Floats) where
  -- What main prints: whether there are hard caps beside the adaptive detection.
  unfoldable pub active_line : Tuning fl → Text
  active_line tn =
      codes "thmon: adaptive detection active (CUSUM on SYN/FIN-RST imbalance + EWMA bands)"
      ++ ((if fl.is_less (zero_f fl) tn.rate_syn
              || fl.is_less (zero_f fl) tn.rate_fin
              || fl.is_less (zero_f fl) tn.rate_rst
              || fl.is_less (zero_f fl) tn.rate_icmp
              || fl.is_less (zero_f fl) tn.rate_udp
              || fl.is_less (zero_f fl) tn.rate_pps
            then codes ", plus -S/-F/-R/-I/-U/-P hard caps"
            else [])
          ++ (newline ∷ []))

  -- main up to the capture; `ctx_init` asked the clock and `rand` once each.
  unfoldable pub thmon_start : Host → List Text → Outcome (Watching fl)
  unfolding read_watch thmon_open
  thmon_start host argv = do
    s ← read_watch fl (host.getopt thmon_optstr argv) (fresh_watch fl)
    (m, ctx) ← thmon_open fl host s
    runs (record {
      watch = s;
      filter = host.operand thmon_optstr argv;
      monitor = m;
      world = record {
        ctx = ctx;
        templates = none;
        out = printed (active_line s.tuning) ∷ [];
        clock_reads = 1;
        rand_calls = 1;
      };
    })

  -- The capture of main; `events` are the frames that pcap_loop delivers, with the signals in between.
  unfoldable pub thmon_run : Env → Pcap → List Event → Watching fl → Exec World Ending
  unfolding open_watch
  thmon_run env pcap events t =
      if open_watch pcap t.watch.dumpfile t.watch.device && pcap.compile t.filter && pcap.setfilter
      then Exec.◌>>=◌ (monitor_all fl env events t.monitor)
          (λ m. if pcap.loop_ends then pure returned else pure (exited failure))
      else pure (exited failure)
