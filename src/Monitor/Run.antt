-- ===== src/Monitor/Run.antt =====
-- The traffic monitor of agent/src/pt_thmon.c at work: thmon_cb with the clock and the analysis,
-- sig_handler, and main with its options and tunables.
pub mod Reach
pub mod Cooldown
pub mod Main
pub mod Total
use packter.Base.{
  ℕ, List, [], ◌∷◌, ◌++◌, Option, none, some, Text, codes, newline, Bool, true, false, ltb, leb,
  ◌==◌, if◌then◌else◌, is_filled,
}
use packter.Base.Int.{ℤ, pos, negsuc}
use packter.Base.Scan.{atoi}
use packter.Agent.{Env, World, Timeval, printed}
use packter.Agent.Exec.{Exec, ◌>>=◌, ◌>>◌, pure, lift}
use packter.Config.{config_parse}
use packter.Dict
use packter.Monitor.{Counts, count_init, count_frame}
use packter.Monitor.Analysis.{Charts, Tuning}
use packter.Monitor.Ewma.{Floats}
use packter.Monitor.Window.{analyze}
use packter.Send.{Action, ask_clock, push}
use packter.Startup.{Host}

-- `th`, with the tunables and the configuration.
pub record Monitor (fl : Floats) : Type 0 where
  pub counts : Counts
  pub start : Timeval
  pub charts : Charts fl
  pub tuning : Tuning fl
  pub count_max : ℕ

module _ (fl : Floats) where
  -- The first frame of a window starts its clock.
  unfoldable pub window_start : Env → Monitor fl → Exec World Timeval
  window_start env m = if m.counts.all == 0 then ask_clock env else pure m.start

  -- A full window is analysed, and the counters begin anew.
  unfoldable pub close_window : Env → Monitor fl → Counts → Timeval → Exec World (Monitor fl)
  close_window env m th start =
      if leb m.count_max th.all
      then (do
        charts ← analyze fl env m.tuning th start m.charts
        pure (record m { counts = count_init; start = start; charts = charts }))
      else pure (record m { counts = th; start = start })

  -- From what the frame makes of the counters on; `none` is a frame that is not counted.
  unfoldable pub after_count : Env → Option Counts → Monitor fl → Exec World (Monitor fl)
  after_count env none m = pure m
  after_count env (some th) m = do start ← window_start env m; close_window env m th start

  -- thmon_cb
  unfoldable pub monitor_frame : Env → List ℕ → ℕ → Monitor fl → Exec World (Monitor fl)
  monitor_frame env p caplen m = elim (count_frame p caplen m.counts) [
    | none ↦ lift none
    | some counted ↦ after_count env counted m
  ]

  unfoldable pub set_config : Monitor fl → List (Text × Text) → Monitor fl
  set_config m config = record m { tuning = record (m.tuning) { config = config } }

  -- sig_handler on SIGHUP, with what the file holds now: the old configuration is gone either way.
  unfoldable pub reload : Option Text → Monitor fl → Exec World (Monitor fl)
  unfolding set_config
  reload none m = do
    push (printed (codes "reload configfile failed" ++ (newline ∷ [])))
    pure (set_config m (Dict.clear m.tuning.config))
  reload (some file) m = do
    push (printed (codes "reload configfile succeeded" ++ (newline ∷ [])))
    pure (set_config m (config_parse (Dict.clear m.tuning.config) file))

  -- conf_float
  unfoldable pub conf_float : List (Text × Text) → Text → fl.F → fl.F
  conf_float config key default = elim (Dict.get config key) [
    | none ↦ default
    | some v ↦ if is_filled v then fl.parse v else default
  ]

  -- The tunables that main reads from the configuration.
  unfoldable pub tune : List (Text × Text) → Tuning fl → Tuning fl
  unfolding conf_float
  tune config tn = record tn {
    config = config;
    warmup = fl.truncate (conf_float config (codes "TH_WARMUP") (fl.fraction 8 1));
    lambda = conf_float config (codes "TH_LAMBDA") (fl.fraction 3 10);
    ewma_k = conf_float config (codes "TH_EWMA_K") (fl.fraction 3 1);
    cusum_k = conf_float config (codes "TH_CUSUM_K") (fl.fraction 5 10);
    cusum_h = conf_float config (codes "TH_CUSUM_H") (fl.fraction 5 1);
  }

-- What happens to the monitor: a frame is captured, or SIGHUP comes and the file holds this.
pub data Event : Type 0 where
  captured : List ℕ → ℕ → Event
  hangup : Option Text → Event

module _ (fl : Floats) where
  unfoldable pub monitor_event : Env → Event → Monitor fl → Exec World (Monitor fl)
  monitor_event env (captured p caplen) m = monitor_frame fl env p caplen m
  monitor_event env (hangup file) m = reload fl file m

  -- pcap_loop of main, with the signals between two frames.
  unfoldable pub monitor_all : Env → List Event → Monitor fl → Exec World (Monitor fl)
  monitor_all env [] m = pure m
  monitor_all env (e ∷ rest) m = do m' ← monitor_event env e m; monitor_all env rest m'
