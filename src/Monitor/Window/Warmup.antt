-- ===== src/Monitor/Window/Warmup.antt =====
-- The warm-up: what a window does before the baselines are trusted.
use packter.Base.{◌+◌, ◌≡◌, refl, ◌++◌, ◌∷◌, [], some, Bool, true, false, ◌&&◌}
use packter.Agent.{Env, World, Timeval, printed}
use packter.Agent.Exec.{◌>>=◌, ◌>>◌, pure, modify}
use packter.Monitor.{Counts}
use packter.Monitor.Analysis.{
  Charts, Tuning, Measures, Alarms, measure, alarms, adapt, texts, tell, blank, quiet, chart,
  is_warming, is_over_cap, is_shifted, is_observing, syn_alarm, learn, cusum_after,
}
use packter.Monitor.Ewma.{Floats, Ewma, zero_f, ew_limit, ew_update}
use packter.Monitor.Window.{analyze, conclude, report}
use packter.Send.{ask_clock, push}

-- No hard cap is set.
pub record IsAdaptive (fl : Floats) (tn : Tuning fl) : Type 0 where
  pub no_syn : fl.is_less (zero_f fl) tn.rate_syn ≡ false
  pub no_fin : fl.is_less (zero_f fl) tn.rate_fin ≡ false
  pub no_rst : fl.is_less (zero_f fl) tn.rate_rst ≡ false
  pub no_icmp : fl.is_less (zero_f fl) tn.rate_icmp ≡ false
  pub no_udp : fl.is_less (zero_f fl) tn.rate_udp ≡ false
  pub no_pps : fl.is_less (zero_f fl) tn.rate_pps ≡ false

module _ (fl : Floats) where
  all_quiet : Alarms fl
  all_quiet = record {
    syn = quiet fl;
    fin = quiet fl;
    rst = quiet fl;
    icmp = quiet fl;
    udp = quiet fl;
    pps = quiet fl;
  }

  never : (b : Bool) → (b && false) ≡ false
  never true = refl
  never false = refl

  chart-quiet :
      (k : fl.F) (scale : fl.F → fl.F) (e : Ewma fl) (floor rate mon : fl.F)
      → fl.is_less (zero_f fl) rate ≡ false
      → chart fl true k scale e floor rate mon ≡ quiet fl
  unfolding chart is_over_cap
  chart-quiet k scale e floor rate mon h =
      let late : (e.ready && (false && fl.is_less (ew_limit fl e k floor) mon)) ≡ false =
        never e.ready in
      rw (chart, late, h) refl

  syn_alarm-quiet :
      (tn : Tuning fl) (c : Charts fl) (m : Measures fl)
      → is_warming fl tn c.windows ≡ true
      → fl.is_less (zero_f fl) tn.rate_syn ≡ false
      → syn_alarm fl tn c m ≡ quiet fl
  unfolding syn_alarm is_shifted is_observing is_over_cap
  syn_alarm-quiet tn c m warm h =
      rw (syn_alarm, is_shifted, is_observing, warm, never c.e_imbal.ready, h) refl

  alarms-quiet :
      (tn : Tuning fl) (c : Charts fl) (m : Measures fl)
      → is_warming fl tn c.windows ≡ true
      → IsAdaptive fl tn
      → alarms fl tn c m ≡ all_quiet
  unfolding alarms all_quiet
  alarms-quiet tn c m warm h =
      rw
        (
          alarms,
          warm,
          syn_alarm-quiet tn c m warm h.no_syn,
          chart-quiet tn.ewma_k _ c.e_fin _ tn.rate_fin m.fin h.no_fin,
          chart-quiet tn.ewma_k _ c.e_rst _ tn.rate_rst m.rst h.no_rst,
          chart-quiet tn.ewma_k _ c.e_icmp _ tn.rate_icmp m.icmp h.no_icmp,
          chart-quiet tn.ewma_k _ c.e_udp _ tn.rate_udp m.udp h.no_udp,
          chart-quiet tn.ewma_k _ c.e_pps _ tn.rate_pps m.pps h.no_pps,
        )
        refl

  -- What the charts are when every metric learns and nothing is accumulated.
  unfoldable pub learned : Tuning fl → Measures fl → Charts fl → Charts fl
  learned tn m c = record {
    e_syn = ew_update fl c.e_syn m.syn tn.lambda;
    e_fin = ew_update fl c.e_fin m.fin tn.lambda;
    e_rst = ew_update fl c.e_rst m.rst tn.lambda;
    e_icmp = ew_update fl c.e_icmp m.icmp tn.lambda;
    e_udp = ew_update fl c.e_udp m.udp tn.lambda;
    e_pps = ew_update fl c.e_pps m.pps tn.lambda;
    e_imbal = ew_update fl c.e_imbal m.imbal tn.lambda;
    cusum_g = c.cusum_g;
    windows = c.windows;
    cooldown_until_sec = c.cooldown_until_sec;
  }

  adapt-learned :
      (tn : Tuning fl) (m : Measures fl) (c : Charts fl)
      → is_warming fl tn c.windows ≡ true
      → adapt fl tn m all_quiet c ≡ learned tn m c
  unfolding adapt learned all_quiet quiet learn cusum_after is_shifted is_observing
  adapt-learned tn m c warm =
      rw (adapt, cusum_after, is_shifted, is_observing, warm, never c.e_imbal.ready) refl

  texts-blank : (tn : Tuning fl) (m : Measures fl) → texts fl tn m all_quiet ≡ blank fl
  unfolding texts tell all_quiet quiet
  texts-blank tn m = refl

-- A window of the warm-up, with no hard cap set, only prints its statistics: nothing is sent, every baseline learns the window, and the accumulated shift stays as it is, whatever was counted and whatever the arithmetic on floats answers.
pub analyze-learned :
    (fl : Floats) (env : Env) (tn : Tuning fl) (th : Counts) (start : Timeval) (c : Charts fl)
    (w : World)
    → is_warming fl tn (c.windows + 1) ≡ true
    → IsAdaptive fl tn
    → let m = measure fl th start (env.now w.clock_reads) in
      let counted : Charts fl = record c { windows = c.windows + 1 } in
      (w' : World) × (analyze fl env tn th start c w ≡ some (learned fl tn m counted, w'))
      × (w'.out ≡ w.out ++ (printed (report fl tn th counted m) ∷ []))
      × (w'.ctx ≡ w.ctx)
unfolding analyze ask_clock push ◌>>=◌ ◌>>◌ pure modify conclude
analyze-learned fl env tn th start c w warm h =
    let m = measure fl th start (env.now w.clock_reads) in
    let counted : Charts fl = record c { windows = c.windows + 1 } in
    let silent : (blank fl).alert ≡ false = unfold blank in refl in
    (
      record w {
        clock_reads = w.clock_reads + 1;
        out = w.out ++ (printed (report fl tn th counted m) ∷ []);
      },
      rw
          (
            analyze,
            alarms-quiet fl tn counted m warm h,
            texts-blank fl tn m,
            conclude,
            silent,
            adapt-learned fl tn m counted warm,
          )
          refl,
      refl,
      refl,
    )
