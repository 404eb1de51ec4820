-- ===== src/Monitor/Run/Total.antt =====
-- A whole run of agent/src/pt_thmon.c, from its command line to the end of its capture.
use packter.Base.{
  ℕ, ◌≡◌, ◌≢◌, refl, arith, List, [], ◌∷◌, Option, none, some, Text, true, false, ◌&&◌, ◌==◌,
  if◌then◌else◌, All,
}
use packter.Agent.{Ctx, Env, World, Output, ctx_init, off}
use packter.Agent.Exec.{◌>>=◌, pure}
use packter.Agent.Keeps.{Runs, Runs-bind, Runs-if, Runs-pure}
use packter.Capture.{Pcap, Ending, returned, waits, exited}
use packter.Monitor.{count_init}
use packter.Monitor.Counting.{count_init-IsWindow}
use packter.Monitor.Ewma.{Floats}
use packter.Monitor.Run.{Monitor, Event, monitor_all}
use packter.Monitor.Run.Main.{
  thmon_optstr, Watch, cap_option, thmon_option, read_watch, fresh_watch, fresh_monitor, thmon_open,
  thmon_start, thmon_run, Watching, open_watch,
}
use packter.Monitor.Run.Reach.{IsWatching, IsWhole, monitor_event-IsWatching}
use packter.Send.Emission.{IsSound}
use packter.Send.View.{datagrams}
use packter.Send.Signed.{AllSigned, Owner, sender, needs_cache}
use packter.Startup.{runs, exits, success, failure, Host}
use packter.Startup.Ensures.{Ensures, Ensures-runs, Ensures-exits, Ensures-if, Ensures-bind}
use packter.Startup.Limits.{
  IsWithin, same-IsWithin, ctx_init-IsWithin, IsWithin-viewer, idle-IsSound,
}
use packter.Startup.Viewer.{packter_connect}
use packter.Startup.Viewer.Kept.{IgnoresViewer, packter_connect-kept}

module _ (fl : Floats) where
  -- The context is within its limits, and the monitor translates nothing.
  abbrev Sends : Ctx → Type 0
  Sends ctx = IsWithin ctx × (ctx.translate ≡ off)

  abbrev CtxWithin : Watch fl → Type 0
  CtxWithin s = Sends s.ctx

  ctx_init-Sends : Sends ctx_init
  unfolding ctx_init
  ctx_init-Sends = (ctx_init-IsWithin, refl)

  Sends-viewer : IgnoresViewer Sends
  Sends-viewer ctx v6 fd a a6 h = (IsWithin-viewer ctx v6 fd a a6 h.0, h.1)

  cap_option-kept :
      (op : ℕ) (optarg : Text) (s : Watch fl)
      → CtxWithin s
      → Ensures CtxWithin (cap_option fl op optarg s (exits success))
  unfolding cap_option
  cap_option-kept op optarg s h =
      Ensures-if (op == b'S') _ _ (λ _. Ensures-runs _ h)
        λ _.
          Ensures-if (op == b'F') _ _ (λ _. Ensures-runs _ h)
            λ _.
              Ensures-if (op == b'R') _ _ (λ _. Ensures-runs _ h)
                λ _.
                  Ensures-if (op == b'I') _ _ (λ _. Ensures-runs _ h)
                    λ _.
                      Ensures-if (op == b'U') _ _ (λ _. Ensures-runs _ h)
                        λ _.
                          Ensures-if (op == b'P') _ _ (λ _. Ensures-runs _ h)
                            (λ _. Ensures-exits success)

  thmon_option-kept :
      (op : ℕ) (optarg : Text) (s : Watch fl)
      → CtxWithin s
      → Ensures CtxWithin (thmon_option fl op optarg s)
  unfolding thmon_option
  thmon_option-kept op optarg s h =
      let same = Ensures-runs {P = CtxWithin} in
      Ensures-if (op == b'f') _ _ (λ _. same _ (same-IsWithin s.ctx _ h.0 refl refl refl refl, h.1))
        λ _.
          Ensures-if (op == b'd') _ _
            (λ _. same _ (same-IsWithin s.ctx _ h.0 refl refl refl refl, h.1))
            λ _.
              Ensures-if (op == b'v') _ _ (λ _. same _ h)
                λ _.
                  Ensures-if (op == b'p') _ _ (λ _. same _ h)
                    λ _.
                      Ensures-if (op == b'i') _ _ (λ _. same _ h)
                        λ _.
                          Ensures-if (op == b'r') _ _ (λ _. same _ h)
                            λ _.
                              Ensures-if (op == b'C') _ _ (λ _. same _ h)
                                λ _.
                                  Ensures-if (op == b'w') _ _ (λ _. same _ h)
                                    λ _.
                                      Ensures-if (op == b's') _ _
                                        (λ _.
                                          same _
                                            (same-IsWithin s.ctx _ h.0 refl refl refl refl, h.1))
                                        λ _.
                                          Ensures-if (op == b'c') _ _ (λ _. same _ h)
                                            (λ _. cap_option-kept op optarg s h)

  read_watch-kept :
      (given : List (ℕ × Text)) (s : Watch fl)
      → CtxWithin s
      → Ensures CtxWithin (read_watch fl given s)
  unfolding read_watch
  read_watch-kept [] s h = Ensures-runs s h
  read_watch-kept ((op, optarg) ∷ rest) s h =
      Ensures-bind (thmon_option fl op optarg s) _ (thmon_option-kept op optarg s h)
        (λ s' h'. read_watch-kept rest s' h')

  -- The counters begin at 0, and the context is within its limits.
  abbrev Opens : Monitor fl × Ctx → Type 0
  Opens (m, ctx) = (m.counts ≡ count_init) × Sends ctx

  thmon_open-Opens :
      (host : Host) (s : Watch fl) → CtxWithin s → Ensures Opens (thmon_open fl host s)
  unfolding thmon_open fresh_monitor
  thmon_open-Opens host s h = named s.ip
    where
      readable :
          (ip : Text) (content : Option Text)
          → Ensures Opens (elim content [
            | none ↦ exits success
            | some file ↦
                let (connected, ok) = packter_connect host ip s.port s.ctx in
                if ok then runs (fresh_monitor fl s file, connected) else exits failure
          ])
      readable ip none = Ensures-exits success
      readable ip (some file) =
          let h' = packter_connect-kept Sends host ip s.port s.ctx Sends-viewer h in
          Ensures-if (packter_connect host ip s.port s.ctx).1 _ _ (λ _. Ensures-runs _ (refl, h'))
            (λ _. Ensures-exits failure)

      named :
          (ip : Option Text)
          → Ensures Opens (elim ip [
            | none ↦ exits success
            | some name ↦ elim (host.fopen s.configfile) [
              | none ↦ exits success
              | some file ↦
                  let (connected, ok) = packter_connect host name s.port s.ctx in
                  if ok then runs (fresh_monitor fl s file, connected) else exits failure
            ]
          ])
      named none = Ensures-exits success
      named (some name) = readable name (host.fopen s.configfile)

  idle-IsWatching :
      (m : Monitor fl) (ctx : Ctx) (out : List Output)
      → m.counts ≡ count_init
      → Sends ctx
      → AllSigned ctx.agent_id ctx.psk out
      → IsWatching ⦃own = sender ctx⦄ m
          (record { ctx = ctx; templates = none; out = out; clock_reads = 1; rand_calls = 1 })
  unfolding count_init needs_cache
  idle-IsWatching m ctx out counts within unsent = (
    rw counts count_init-IsWindow,
    rw counts (omega arith),
    idle-IsSound (sender ctx) ctx none out 1 1 within.0 refl refl (λ e. absurd cc)
        (λ e. never within.1 e) unsent,
  )
    where
      never : ctx.translate ≡ off → needs_cache ctx.translate ≡ true → false ≡ true
      never is e = rw is at (e)

  abbrev Starts : Watching fl → Type 0
  Starts t = IsWatching ⦃own = sender t.world.ctx⦄ t.monitor t.world

  thmon_start-Starts : (host : Host) (argv : List Text) → Ensures Starts (thmon_start fl host argv)
  unfolding thmon_start fresh_watch datagrams
  thmon_start-Starts host argv =
      Ensures-bind _ _
        (read_watch-kept (host.getopt thmon_optstr argv) (fresh_watch fl) ctx_init-Sends)
        λ s h.
          Ensures-bind _ _ (thmon_open-Opens host s h)
            (λ (m, ctx) (counts, within). Ensures-runs _ (idle-IsWatching m ctx _ counts within tt))

  monitor_all-IsWatching :
      ⦃own : Owner⦄ (env : Env) (events : List Event) (m : Monitor fl) (w : World)
      → All IsWhole events
      → IsWatching m w
      → (r : Monitor fl × World) × (monitor_all fl env events m w ≡ some r) × IsWatching r.0 r.1
  unfolding monitor_all ◌>>=◌ pure
  monitor_all-IsWatching env [] m w whole h = ((m, w), refl, h)
  monitor_all-IsWatching env (e ∷ rest) m w whole h =
      let (r, run, h') = monitor_event-IsWatching fl env e m w whole.0 h in
      let (r', run', h'') = monitor_all-IsWatching env rest r.0 r.1 whole.1 h' in
      (r', rw (monitor_all, ◌>>=◌, run) run', h'')

  -- The capture has ended, and the send path is sound.
  abbrev HasEnded : ⦃own : Owner⦄ → Ending → World → Type 0
  HasEnded ⦃own⦄ ending w = (ending ≢ waits) × IsSound false w

  thmon_run-HasEnded :
      ⦃own : Owner⦄ (env : Env) (pcap : Pcap) (events : List Event) (t : Watching fl)
      → All IsWhole events
      → Runs (IsWatching t.monitor) (thmon_run fl env pcap events t) HasEnded
  unfolding thmon_run
  thmon_run-HasEnded env pcap events t whole =
      Runs-if
        (open_watch pcap t.watch.dumpfile t.watch.device && pcap.compile t.filter && pcap.setfilter)
        _ _
        (λ _.
          Runs-bind IsWatching _ _
            (record { at = λ w h. monitor_all-IsWatching env events t.monitor w whole h })
            λ m.
              Runs-if pcap.loop_ends _ _ (λ _. Runs-pure returned (λ w h. ((λ e. cc), h.2)))
                (λ _. Runs-pure (exited failure) (λ w h. ((λ e. cc), h.2))))
        (λ _. Runs-pure (exited failure) (λ w h. ((λ e. cc), h.2)))

-- A monitor that has started, on any command line and configuration, runs to the end of its capture without a fault, whatever frames come and however often its configuration is reloaded: it returns, or exits where the capture could not be opened or broke off. The state that is left is sound. No VLAN frame may be cut below its 18 bytes.
pub thmon_run-total :
    (fl : Floats) (host : Host) (env : Env) (argv : List Text) (t : Watching fl) (pcap : Pcap)
    (events : List Event)
    → thmon_start fl host argv ≡ runs t
    → All IsWhole events
    → (end : Ending × World) × (thmon_run fl env pcap events t t.world ≡ some end)
      × (end.0 ≢ waits)
      × IsSound ⦃own = sender t.world.ctx⦄ false end.1
thmon_run-total fl host env argv t pcap events started whole =
    let (end, run, (over, sound)) =
      (thmon_run-HasEnded fl ⦃own = sender t.world.ctx⦄ env pcap events t whole).at t.world
        ((thmon_start-Starts fl host argv).returned t started) in
    (end, run, over, sound)
