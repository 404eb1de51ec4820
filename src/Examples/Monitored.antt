-- ===== src/Examples/Monitored.antt =====
-- Witnesses for the traffic monitor at work, the sampling of the send path and the lookups.
use packter.Base.{
  ℕ, ◌+◌, ◌<◌, ◌≤◌, ◌≡◌, ◌≢◌, refl, arith, List, [], ◌∷◌, ◌++◌, none, some, codes, newline, true,
  false, length, ltb, lt→ltb, if◌then◌else◌, Text, decimal, snprintf,
}
use packter.Base.Int.{pos}
use packter.Agent.{World, ctx_init, printed}
use packter.Agent.Exec.{◌>>=◌, ◌>>◌, pure, modify}
use packter.Capture.{Ending, waits}
use packter.Dict.{clear}
use packter.Examples.{nobody, env, frame, noon, start, start-IsSound}
use packter.Examples.Started.{host}
use packter.Examples.Tools.{pcap}
use packter.Examples.Watched.{thousandths, charts, tuning}
use packter.Geoip.{Mmdb, lookups, with_geoip, location, coordinates, is_usable, lookups-open}
use packter.Monitor.{Counts, count_init}
use packter.Monitor.Alert.{generate_alert, open_alert}
use packter.Monitor.Analysis.{
  texts, alarms, measure, tell, chart, is_over_cap, quiet, ratio, syn_alarm, is_shifted,
  is_observing, blank,
}
use packter.Monitor.Ewma.{zero_f}
use packter.Monitor.Counting.{count_init-IsWindow}
use packter.Monitor.Run.{Monitor, captured, hangup, monitor_event, monitor_all, reload, set_config}
use packter.Monitor.Run.Cooldown.{monitor_all-cooldown}
use packter.Monitor.Run.Main.{
  Watch, Watching, fresh_watch, fresh_monitor, read_watch, thmon_option, thmon_open, thmon_start,
  thmon_run, active_line,
}
use packter.Monitor.Run.Reach.{State, IsWatching, event, here, next, Reach-progress}
use packter.Monitor.Run.Total.{thmon_run-total}
use packter.Send.{push}
use packter.Send.Delivery.{sends}
use packter.Send.Emission.{IsSound}
use packter.Send.Signed.{sender}
use packter.Send.Limit.{sends-limit}
use packter.Send.View.{payload, stream, datagrams, IsPlain}
use packter.Startup.{runs}
use packter.Startup.Viewer.{port_or, try_addresses, packter_connect}

-- Windows of 500 frames, paused for as long as the clock of the example says noon.
abbrev paused : Monitor thousandths
paused = record {
  counts = count_init;
  start = noon;
  charts = record charts { cooldown_until_sec = 50000 };
  tuning = tuning;
  count_max = 500;
}

paused-IsWatching : IsWatching paused start
unfolding count_init
paused-IsWatching = (count_init-IsWindow, omega arith, start-IsSound)

-- After a reload of a file that cannot be opened.
abbrev reloaded : State thousandths
reloaded = (
  paused,
  record start { out = printed (codes "reload configfile failed" ++ (newline ∷ [])) ∷ [] },
)

reload_fails : monitor_event thousandths env (hangup none) paused start ≡ some reloaded
unfolding monitor_event reload set_config push ◌>>=◌ ◌>>◌ pure start modify clear
reload_fails = refl

Reach-progress_example :
    IsWatching reloaded.0 reloaded.1
    × ((u : State thousandths) × (monitor_event thousandths env
            (captured frame 42)
            reloaded.0
            reloaded.1
          ≡ some u))
Reach-progress_example =
    Reach-progress thousandths env (paused, start) reloaded (captured frame 42) paused-IsWatching
      (next here (event (hangup none) tt reload_fails))
      (omega arith, omega arith, λ cut. absurd (omega arith))

abbrev one_udp : Counts
unfolding count_init
one_udp = record count_init { all = 1; udp = 1 }

-- A window of one frame, paused as long, whose UDP alone is over a threshold.
abbrev alarmed : Monitor thousandths
alarmed = record {
  counts = count_init;
  start = noon;
  charts = record charts { cooldown_until_sec = 50000 };
  tuning = record tuning { rate_udp = 1 };
  count_max = 1;
}

-- Without the pause, the frame brings an alert.
alarmed-alert :
    (texts thousandths alarmed.tuning (measure thousandths one_udp noon noon) (
      alarms thousandths alarmed.tuning
        (record charts { windows = 1 })
        (measure thousandths one_udp noon noon))).alert
    ≡ true
unfolding texts alarms measure count_init tell chart is_over_cap zero_f quiet ratio generate_alert
    syn_alarm is_shifted is_observing blank open_alert
alarmed-alert = refl

alarmed-IsWatching : IsWatching alarmed start
unfolding count_init
alarmed-IsWatching = (count_init-IsWindow, omega arith, start-IsSound)

monitor_all-cooldown_example :
    (r : State thousandths) × (monitor_all thousandths env
        (captured frame 42 ∷ hangup none ∷ captured frame 42 ∷ [])
        alarmed
        start
      ≡ some r)
    × (datagrams r.1.out ≡ datagrams start.out)
    × (r.0.charts.cooldown_until_sec ≡ 50000)
monitor_all-cooldown_example =
    monitor_all-cooldown thousandths env (captured frame 42 ∷ hangup none ∷ captured frame 42 ∷ [])
      alarmed start
      (
        (omega arith, omega arith, λ cut. absurd (omega arith)),
        (tt, ((omega arith, omega arith, λ cut. absurd (omega arith)), tt)),
      )
      alarmed-IsWatching (λ k above below. omega arith)

abbrev watch : Watch thousandths
watch = record (fresh_watch thousandths) {
  ip = some (codes "viewer");
  dumpfile = some (codes "dump");
}

abbrev watching : Watching thousandths
watching = record {
  watch = watch;
  filter = none;
  monitor = fresh_monitor thousandths watch (codes "PACKTER");
  world = record {
    ctx = record ctx_init { sock = pos 3; addr = 192 ∷ 0 ∷ 2 ∷ 7 ∷ [] };
    templates = none;
    out = printed (active_line thousandths watch.tuning) ∷ [];
    clock_reads = 1;
    rand_calls = 1;
  };
}

watching_started :
    thmon_start thousandths (host ((b'v', codes "viewer") ∷ (b'r', codes "dump") ∷ [])) []
    ≡ runs watching
unfolding thmon_start read_watch thmon_option thmon_open fresh_watch port_or try_addresses
    packter_connect ctx_init
watching_started = refl

thmon_run-total_example :
    (end : Ending × World) × (thmon_run thousandths env pcap
        (captured frame 42 ∷ hangup none ∷ [])
        watching
        watching.world
      ≡ some end)
    × (end.0 ≢ waits)
    × IsSound ⦃own = sender watching.world.ctx⦄ false end.1
thmon_run-total_example =
    thmon_run-total thousandths (host ((b'v', codes "viewer") ∷ (b'r', codes "dump") ∷ [])) env []
      watching pcap (captured frame 42 ∷ hangup none ∷ []) watching_started
      ((omega arith, omega arith, λ cut. absurd (omega arith)), (tt, tt))

-- Every third message, more or less.
abbrev sampled : World
sampled = record start { ctx = record ctx_init { bulk_ms = 50; rate = pos 3; rate_limit = pos 3 } }

sampled-IsPlain : IsPlain (pos 3) (pos 3) sampled
unfolding ctx_init
sampled-IsPlain = record {
  fits = omega arith;
  steady = record { anonymous = refl; sending = refl; rate_is = refl; limit_is = refl };
}

abbrev balls : List Text
balls = codes "10.0.0.1" ∷ codes "10.0.0.2" ∷ codes "10.0.0.3" ∷ codes "10.0.0.4" ∷ []

sends-limit_example :
    (held : List Text) × (m : Text) × (rest : List Text) × (balls ≡ held ++ (m ∷ rest))
    × (length held + 1 ≡ 3)
    × (length held < 3)
    × ((w' : World) × (sends env (held ++ (m ∷ [])) sampled ≡ some (tt, w'))
        × (stream w' ≡ stream sampled ++ payload m)
        × ((r' : ℕ) × (1 ≤ r') × (r' ≤ 3) × IsPlain (pos r') (pos 3) w'))
sends-limit_example =
    sends-limit env balls 3 3 sampled (omega arith) (omega arith) (omega arith) sampled-IsPlain

-- A database that can be opened from the second attempt on, and is another file from the third on.
abbrev cities : Mmdb
cities = record {
  mmdb_open = λ attempt file. if ltb attempt 1 then none else some attempt;
  lookup_string = λ mmdb host. elim host [ [] ↦ none | c ∷ cs ↦ some mmdb ];
  latitude =
      λ mmdb n. some (record { has_data = true; is_double = true; printed = decimal (34 + mmdb) });
  longitude =
      λ mmdb n. some (record { has_data = true; is_double = true; printed = decimal (135 + mmdb) });
}

closed : (k : ℕ) → k < 1 → cities.mmdb_open k (codes "city.mmdb") ≡ none
closed k below = rw (lt→ltb k 1 below) refl

lookups-open_example :
    lookups cities
      (codes "city.mmdb")
      0
      none
      (codes "10.0.0.1" ∷ codes "10.0.0.1" ∷ [] ∷ codes "10.0.0.1" ∷ [])
    ≡ none ∷ some (codes "35,136") ∷ none ∷ some (codes "35,136") ∷ []
unfolding with_geoip location coordinates is_usable snprintf decimal
lookups-open_example =
    lookups-open cities (codes "city.mmdb") env 0 1 (codes "10.0.0.1" ∷ [])
      (codes "10.0.0.1" ∷ [] ∷ codes "10.0.0.1" ∷ []) (λ k above below. closed k below) refl
