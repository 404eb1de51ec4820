-- ===== src/Monitor/Run/Cooldown.antt =====
-- The pause behind an alert of agent/src/pt_thmon.c (option -w).
use packter.Base.{
  ℕ, ◌+◌, ◌*◌, ◌<◌, ◌≤◌, ◌≡◌, refl, sym, subst, ◌∙◌, arith, List, [], ◌∷◌, ◌++◌, append-nil, Option,
  none, some, Text, Bool, true, false, leb, lt→ltb, ◌==◌, length, inl, inr, Bool-cases, All,
  if◌then◌else◌,
}
use packter.Agent.{Env, World, Timeval, printed}
use packter.Agent.Exec.{Exec, ◌>>=◌, ◌>>◌, pure, modify}
use packter.Monitor.{Counts, count_init}
use packter.Monitor.Alert.{Texts}
use packter.Monitor.Analysis.{Charts, Tuning, adapt, measure, alarms, texts}
use packter.Monitor.Counting.{count_frame-total}
use packter.Monitor.Ewma.{Floats}
use packter.Monitor.Run.{
  Monitor, window_start, close_window, after_count, monitor_frame, reload, set_config, Event,
  captured, hangup, monitor_event, monitor_all,
}
use packter.Send.Signed.{Owner}
use packter.Monitor.Run.Reach.{State, IsWatching, IsWhole, monitor_event-IsWatching}
use packter.Monitor.Window.{conclude, analyze, report}
use packter.Send.{ask_clock, push}
use packter.Send.View.{datagrams, datagrams-append}

-- Nothing was sent, the pause ends when it did, and the clock was read `reads` times at most.
record IsQuiet {fl : Floats} (reads until : ℕ) (w : World) (r : State fl) : Type 0 where
  unsent : datagrams r.1.out ≡ datagrams w.out
  paused : r.0.charts.cooldown_until_sec ≡ until
  read_on : w.clock_reads ≤ r.1.clock_reads
  read_few : r.1.clock_reads ≤ w.clock_reads + reads

-- Each of the next `reads` answers of the clock comes before `until`.
abbrev pub ReadsBefore : Env → ℕ → ℕ → ℕ → Type 0
ReadsBefore env until from reads = (k : ℕ) → from ≤ k → k < from + reads → (env.now k).sec < until

module _ (fl : Floats) (env : Env) where
  -- Before the pause has ended, an alert is dropped.
  conclude-cooling :
      (tn : Tuning fl) (stop : Timeval) (c : Charts fl) (t : Texts)
      → stop.sec < c.cooldown_until_sec
      → conclude fl env tn stop c t ≡ pure c
  unfolding conclude
  conclude-cooling tn stop c t before =
      rw (lt→ltb stop.sec c.cooldown_until_sec before) (either t.alert)
    where
      either :
          (alert : Bool)
          → ◌≡◌ {A = Exec World (Charts fl)} (if alert then pure c else pure c) (pure c)
      either true = refl
      either false = refl

  analyze-cooling :
      (tn : Tuning fl) (th : Counts) (start : Timeval) (c : Charts fl) (w : World)
      → (env.now w.clock_reads).sec < c.cooldown_until_sec
      → (c' : Charts fl) × (w' : World) × (analyze fl env tn th start c w ≡ some (c', w'))
        × (datagrams w'.out ≡ datagrams w.out)
        × (c'.cooldown_until_sec ≡ c.cooldown_until_sec)
        × (w'.clock_reads ≡ w.clock_reads + 1)
  unfolding analyze ask_clock push ◌>>=◌ ◌>>◌ pure modify adapt datagrams
  analyze-cooling tn th start c w before =
      let stop = env.now w.clock_reads in
      let m = measure fl th start stop in
      let counted : Charts fl = record c { windows = c.windows + 1 } in
      let a = alarms fl tn counted m in
      let told = printed (report fl tn th counted m) in
      (
        adapt fl tn m a counted,
        record w { clock_reads = w.clock_reads + 1; out = w.out ++ (told ∷ []) },
        rw (conclude-cooling tn stop (adapt fl tn m a counted) (texts fl tn m a) before) refl,
        simp (datagrams-append, append-nil),
        refl,
        refl,
      )

  close_window-IsQuiet :
      (m : Monitor fl) (th : Counts) (start : Timeval) (w : World)
      → (env.now w.clock_reads).sec < m.charts.cooldown_until_sec
      → (r : State fl) × (close_window fl env m th start w ≡ some r)
        × IsQuiet 1 m.charts.cooldown_until_sec w r
  unfolding close_window ◌>>=◌ pure
  close_window-IsQuiet m th start w before = elim (Bool-cases (leb m.count_max th.all)) [
    | inl full ↦
        let (c', w', run, unsent, paused, reads) =
          analyze-cooling m.tuning th start m.charts w before in
        (
          (record m { counts = count_init; start = start; charts = c' }, w'),
          rw (full, ◌>>=◌, run) refl,
          record {
            unsent = unsent;
            paused = paused;
            read_on = omega (arith, reads);
            read_few = omega (arith, reads);
          },
        )
    | inr room ↦ (
      (record m { counts = th; start = start }, w),
      rw room refl,
      record { unsent = refl; paused = refl; read_on = omega arith; read_few = omega arith },
    )
  ]

  -- One more read of the clock in front.
  IsQuiet-clock :
      (until : ℕ) (w : World) (r : State fl)
      → IsQuiet 1 until (record w { clock_reads = w.clock_reads + 1 }) r
      → IsQuiet 2 until w r
  IsQuiet-clock until w r q = record {
    unsent = q.unsent;
    paused = q.paused;
    read_on = omega (arith, q.read_on);
    read_few = omega (arith, q.read_few);
  }

  IsQuiet-weaken :
      (until : ℕ) (w : World) (r : State fl) → IsQuiet 1 until w r → IsQuiet 2 until w r
  IsQuiet-weaken until w r q = record {
    unsent = q.unsent;
    paused = q.paused;
    read_on = q.read_on;
    read_few = omega (arith, q.read_few);
  }

  after_count-IsQuiet :
      (m : Monitor fl) (counted : Option Counts) (w : World)
      → ReadsBefore env m.charts.cooldown_until_sec w.clock_reads 2
      → (r : State fl) × (after_count fl env counted m w ≡ some r)
        × IsQuiet 2 m.charts.cooldown_until_sec w r
  unfolding after_count window_start ask_clock ◌>>=◌ pure
  after_count-IsQuiet m none w early = (
    (m, w),
    refl,
    record { unsent = refl; paused = refl; read_on = omega arith; read_few = omega arith },
  )
  after_count-IsQuiet m (some th) w early = elim (Bool-cases (m.counts.all == 0)) [
    | inl first ↦
        let w' : World = record w { clock_reads = w.clock_reads + 1 } in
        let (r, run, q) =
          close_window-IsQuiet m th (env.now w.clock_reads) w'
            (early (w.clock_reads + 1) (omega arith) (omega arith)) in
        (r, rw (first, ◌>>=◌) run, IsQuiet-clock m.charts.cooldown_until_sec w r q)
    | inr later ↦
        let (r, run, q) =
          close_window-IsQuiet m th m.start w (early w.clock_reads (omega arith) (omega arith)) in
        (r, rw (later, ◌>>=◌) run, IsQuiet-weaken m.charts.cooldown_until_sec w r q)
  ]

  reload-IsQuiet :
      (file : Option Text) (m : Monitor fl) (w : World)
      → (r : State fl) × (reload fl file m w ≡ some r) × IsQuiet 2 m.charts.cooldown_until_sec w r
  unfolding reload push modify ◌>>=◌ ◌>>◌ pure datagrams set_config
  reload-IsQuiet none m w = (
    _,
    refl,
    record {
      unsent = simp (datagrams-append, append-nil);
      paused = refl;
      read_on = omega arith;
      read_few = omega arith;
    },
  )
  reload-IsQuiet (some file) m w = (
    _,
    refl,
    record {
      unsent = simp (datagrams-append, append-nil);
      paused = refl;
      read_on = omega arith;
      read_few = omega arith;
    },
  )

  monitor_event-IsQuiet :
      ⦃own : Owner⦄ (e : Event) (m : Monitor fl) (w : World)
      → IsWhole e
      → IsWatching m w
      → ReadsBefore env m.charts.cooldown_until_sec w.clock_reads 2
      → (r : State fl) × (monitor_event fl env e m w ≡ some r)
        × IsQuiet 2 m.charts.cooldown_until_sec w r
  unfolding monitor_event monitor_frame
  monitor_event-IsQuiet (captured p caplen) m w whole h early =
      let (counted, run, _) = count_frame-total p caplen m.counts whole.0 whole.1 h.0 whole.2 in
      rw (monitor_frame, run) (after_count-IsQuiet m counted w early)
  monitor_event-IsQuiet (hangup file) m w whole h early = reload-IsQuiet file m w

  -- The event keeps the counters, too.
  event-IsQuiet :
      ⦃own : Owner⦄ (e : Event) (m : Monitor fl) (w : World)
      → IsWhole e
      → IsWatching m w
      → ReadsBefore env m.charts.cooldown_until_sec w.clock_reads 2
      → (r : State fl) × (monitor_event fl env e m w ≡ some r)
        × IsQuiet 2 m.charts.cooldown_until_sec w r
        × IsWatching r.0 r.1
  event-IsQuiet e m w whole h early =
      let (r, run, q) = monitor_event-IsQuiet e m w whole h early in
      let (r', run', h') = monitor_event-IsWatching fl env e m w whole h in
      (r, run, q, subst (λ (x : State fl). IsWatching x.0 x.1) (only r' r (sym run' ∙ run)) h')
    where
      only : (r' r : State fl) → some r' ≡ some r → r' ≡ r
      only r' r e' = cc

  ReadsBefore-later :
      (until from from' more : ℕ)
      → from ≤ from'
      → from' ≤ from + 2
      → ReadsBefore env until from (2 + more)
      → ReadsBefore env until from' more
  ReadsBefore-later until from from' more low high early k above below =
      early k (omega arith) (omega arith)

  monitor_all-IsQuiet :
      ⦃own : Owner⦄ (events : List Event) (m : Monitor fl) (w : World)
      → All IsWhole events
      → IsWatching m w
      → ReadsBefore env m.charts.cooldown_until_sec w.clock_reads (2 * length events)
      → (r : State fl) × (monitor_all fl env events m w ≡ some r)
        × (datagrams r.1.out ≡ datagrams w.out)
        × (r.0.charts.cooldown_until_sec ≡ m.charts.cooldown_until_sec)
  unfolding monitor_all ◌>>=◌ pure
  monitor_all-IsQuiet [] m w whole h early = ((m, w), refl, refl, refl)
  monitor_all-IsQuiet (e ∷ rest) m w whole h early =
      let until = m.charts.cooldown_until_sec in
      let (r, run, q, h') =
        event-IsQuiet e m w whole.0 h (λ k above below. early k above (omega arith)) in
      let early' : ReadsBefore env r.0.charts.cooldown_until_sec r.1.clock_reads (2 * length rest) =
        subst (λ u. ReadsBefore env u r.1.clock_reads (2 * length rest)) (sym q.paused)
          (ReadsBefore-later until w.clock_reads r.1.clock_reads (2 * length rest) q.read_on
            q.read_few (λ k above below. early k above (omega arith))) in
      let (r', run', unsent, paused) = monitor_all-IsQuiet rest r.0 r.1 whole.1 h' early' in
      (r', rw (monitor_all, ◌>>=◌, run) run', unsent ∙ q.unsent, paused ∙ q.paused)

-- As long as the clock stays before the end of the pause that the last alert began, the monitor sends no datagram, whatever frames come and however often the configuration is reloaded: every event is handled to the end, and the pause ends when it did. No VLAN frame may be cut below its 18 bytes; each event reads the clock twice at most.
pub monitor_all-cooldown :
    ⦃own : Owner⦄ (fl : Floats) (env : Env) (events : List Event) (m : Monitor fl) (w : World)
    → All IsWhole events
    → IsWatching m w
    → ReadsBefore env m.charts.cooldown_until_sec w.clock_reads (2 * length events)
    → (r : State fl) × (monitor_all fl env events m w ≡ some r)
      × (datagrams r.1.out ≡ datagrams w.out)
      × (r.0.charts.cooldown_until_sec ≡ m.charts.cooldown_until_sec)
monitor_all-cooldown fl env events m w = monitor_all-IsQuiet fl env events m w
