-- ===== src/Monitor/Run/Reach.antt =====
-- Every state that the traffic monitor of agent/src/pt_thmon.c can reach, and that it goes on from there.
use packter.Base.{
  ◌-◌, ◌<◌, ◌≤◌, ◌^◌, ◌≡◌, refl, sym, subst, ◌∙◌, arith, Option, none, some, Text, false, leb, ◌==◌,
  length, leb→lt, ltb,
}
use packter.Agent.{Env, World, Timeval}
use packter.Agent.Exec.{pure}
use packter.Agent.Keeps.{
  Keeps, Keeps-pure, Keeps-bind, Keeps-then, Keeps-if, Keeps-when, Keeps-gets, Runs, Runs-bind,
  Runs-of_keeps, Runs-if, Runs-then, Runs-pure,
}
use packter.Monitor.{Counts, count_init}
use packter.Monitor.Alert.{Texts}
use packter.Monitor.Analysis.{Charts, Tuning}
use packter.Monitor.Counting.{IsWindow, IsCounted, count_frame-total, count_init-IsWindow}
use packter.Monitor.Ewma.{Floats}
use packter.Monitor.Run.{
  Monitor, window_start, close_window, after_count, monitor_frame, reload, Event, captured, hangup,
  monitor_event,
}
use packter.Monitor.Window.{send_skydome, send_alert, conclude, analyze}
use packter.Send.{ask_clock}
use packter.Send.Signed.{Owner}
use packter.Send.Emission.{IsSound, push-IsSound, Keeps-clock}
use packter.Send.Safety.{send-IsSound}
use packter.Wire.{be16}

-- The counters are consistent and below the size of a window, where it has one, and the send path is
-- sound.
abbrev pub IsWatching : ⦃own : Owner⦄ {fl : Floats} → Monitor fl → World → Type 0
IsWatching ⦃own⦄ m w = IsWindow 0 m.counts × (m.counts.all ≤ m.count_max - 1) × IsSound false w

-- A frame lies in what was captured, and is not a VLAN frame cut below its 18 bytes.
abbrev pub IsWhole : Event → Type 0
IsWhole (captured p caplen) =
    (caplen ≤ length p) × (caplen < 2 ^ 32) × (caplen < 18 → ¬ (be16 p 12 ≡ some 0x8100))
IsWhole (hangup file) = Unit {0}

module _ (fl : Floats) (env : Env) ⦃own : Owner⦄ where
  send_skydome-IsSound : (tn : Tuning fl) → Keeps (IsSound false) (send_skydome fl env tn)
  unfolding send_skydome
  send_skydome-IsSound tn = Keeps-when _ _ (λ _. send-IsSound env false _)

  send_alert-IsSound : (tn : Tuning fl) (t : Texts) → Keeps (IsSound false) (send_alert fl env tn t)
  unfolding send_alert
  send_alert-IsSound tn t = Keeps-then _ _ (send-IsSound env false _) (
      Keeps-bind _ _ (Keeps-gets _) λ sound. Keeps-when sound _ (λ _.
        Keeps-then _ _ (send-IsSound env false _)
          (Keeps-then _ _ (send-IsSound env false _) (send_skydome-IsSound tn))))

  conclude-IsSound :
      (tn : Tuning fl) (stop : Timeval) (c : Charts fl) (t : Texts)
      → Keeps (IsSound false) (conclude fl env tn stop c t)
  unfolding conclude
  conclude-IsSound tn stop c t =
      Keeps-if t.alert _ _
        (λ _.
          Keeps-if (ltb stop.sec c.cooldown_until_sec) _ _ (λ _. Keeps-pure _)
            (λ _. Keeps-then _ _ (send_alert-IsSound tn t) (Keeps-pure _)))
        (λ _. Keeps-pure _)

  analyze-IsSound :
      (tn : Tuning fl) (th : Counts) (start : Timeval) (c : Charts fl)
      → Keeps (IsSound false) (analyze fl env tn th start c)
  unfolding analyze
  analyze-IsSound tn th start c =
      Keeps-clock env false _
        λ stop _. Keeps-then _ _ (push-IsSound env false _) (conclude-IsSound tn stop _ _)

  clock-IsSound : Keeps (IsSound false) (ask_clock env)
  unfolding ask_clock
  clock-IsSound = record {
    at = λ w h. (
      _,
      refl,
      record {
        bulk_fits = h.bulk_fits;
        id_fits = h.id_fits;
        guard = h.guard;
        cached = h.cached;
        needed = h.needed;
        own_id = h.own_id;
        own_psk = h.own_psk;
        signed = h.signed;
      },
    );
  }

  window_start-IsSound : (m : Monitor fl) → Keeps (IsSound false) (window_start fl env m)
  unfolding window_start
  window_start-IsSound m = Keeps-if (m.counts.all == 0) _ _ (λ _. clock-IsSound) (λ _. Keeps-pure _)

  close_window-IsWatching :
      (m : Monitor fl) (th : Counts) (start : Timeval)
      → IsWindow 0 th
      → Runs (IsSound false) (close_window fl env m th start) IsWatching
  unfolding close_window count_init
  close_window-IsWatching m th start window =
      Runs-if (leb m.count_max th.all) _ _
        (λ _.
          Runs-bind (λ _. IsSound false) _ _
            (Runs-of_keeps (analyze-IsSound m.tuning th start m.charts))
            (λ charts. Runs-pure _ (λ w h. (count_init-IsWindow, omega arith, h))))
        (λ room. Runs-pure _ (λ w h. (window, omega (arith, leb→lt _ _ room), h)))

  after_count-IsWatching :
      (m : Monitor fl) (r : Option Counts) (w : World)
      → IsCounted m.counts r
      → IsWatching m w
      → (end : Monitor fl × World) × (after_count fl env r m w ≡ some end) × IsWatching end.0 end.1
  unfolding after_count pure
  after_count-IsWatching m none w is h = ((m, w), refl, h)
  after_count-IsWatching m (some th) w is h =
      (Runs-bind (λ _. IsSound false) _ _ (Runs-of_keeps (window_start-IsSound m))
          (λ start. close_window-IsWatching m th start is.0)).at
        w h.2

  reload-IsWatching :
      (file : Option Text) (m : Monitor fl) (w : World)
      → IsWatching m w
      → (r : Monitor fl × World) × (reload fl file m w ≡ some r) × IsWatching r.0 r.1
  unfolding reload
  reload-IsWatching none m w (window, below, sound) =
      (Runs-then (IsSound false) _ _ (Runs-of_keeps (push-IsSound env false _))
          (Runs-pure _ (λ w' h. (window, below, h)))).at
        w sound
  reload-IsWatching (some file) m w (window, below, sound) =
      (Runs-then (IsSound false) _ _ (Runs-of_keeps (push-IsSound env false _))
          (Runs-pure _ (λ w' h. (window, below, h)))).at
        w sound

  pub monitor_event-IsWatching :
      (e : Event) (m : Monitor fl) (w : World)
      → IsWhole e
      → IsWatching m w
      → (r : Monitor fl × World) × (monitor_event fl env e m w ≡ some r) × IsWatching r.0 r.1
  unfolding monitor_event monitor_frame
  monitor_event-IsWatching (captured p caplen) m w whole h =
      let (r, run, is) = count_frame-total p caplen m.counts whole.0 whole.1 h.0 whole.2 in
      rw (monitor_frame, run) (after_count-IsWatching m r w is h)
  monitor_event-IsWatching (hangup file) m w whole h = reload-IsWatching file m w h

-- The monitor with the rest of the process.
abbrev pub State : Floats → Type 0
State fl = Monitor fl × World

-- One event that is whole, in any order with the others.
pub data Step (fl : Floats) (env : Env) (s t : State fl) : Type 0 where
  event : (e : Event) → IsWhole e → monitor_event fl env e s.0 s.1 ≡ some t → Step fl env s t

pub data Reach (fl : Floats) (env : Env) (s : State fl) : State fl → Type 0 where
  here : Reach fl env s s
  next : {t u : State fl} → Reach fl env s t → Step fl env t u → Reach fl env s u

Step-IsWatching :
    ⦃own : Owner⦄ (fl : Floats) (env : Env) {s t : State fl}
    → Step fl env s t
    → IsWatching s.0 s.1
    → IsWatching t.0 t.1
Step-IsWatching fl env {s} {t} (event e whole run) h =
    let (r, run', h') = monitor_event-IsWatching fl env e s.0 s.1 whole h in
    subst (λ (x : State fl). IsWatching x.0 x.1) (same r (sym run' ∙ run)) h'
  where
    same : (r : State fl) → some r ≡ some t → r ≡ t
    same r e' = cc

Reach-IsWatching :
    ⦃own : Owner⦄ (fl : Floats) (env : Env) {s t : State fl}
    → Reach fl env s t
    → IsWatching s.0 s.1
    → IsWatching t.0 t.1
Reach-IsWatching fl env here h = h
Reach-IsWatching fl env (next r st) h = Step-IsWatching fl env st (Reach-IsWatching fl env r h)

-- From a state with consistent counters below the size of a window and a sound send path, the monitor reaches only such states, over any frames and any reloads of its configuration in any order, and in each of them it takes every further event without a fault, as long as no VLAN frame is cut below its 18 bytes.
pub Reach-progress :
    ⦃own : Owner⦄ (fl : Floats) (env : Env) (s t : State fl) (e : Event)
    → IsWatching s.0 s.1
    → Reach fl env s t
    → IsWhole e
    → IsWatching t.0 t.1 × ((u : State fl) × (monitor_event fl env e t.0 t.1 ≡ some u))
Reach-progress fl env s t e h r whole =
    let watching = Reach-IsWatching fl env r h in
    let (u, run, _) = monitor_event-IsWatching fl env e t.0 t.1 whole watching in
    (watching, (u, run))
