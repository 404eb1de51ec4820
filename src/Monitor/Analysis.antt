-- ===== src/Monitor/Analysis.antt =====
-- analyze of agent/src/pt_thmon.c: the alarms of a full window, the baselines behind it, and what is sent.
use packter.Base.{
  ℕ, List, ◌++◌, ◌∷◌, [], Text, codes, newline, Bool, true, false, not, ◌&&◌, leb, if◌then◌else◌,
}
use packter.Base.Int.{ℤ, pos, sub_ℕ}
use packter.Agent.{Timeval}
use packter.Monitor.{Counts}
use packter.Monitor.Alert.{Texts, generate_alert}
use packter.Monitor.Ewma.{Floats, Ewma, zero_f, ratio_floor, percent, ew_limit, ew_z, ew_update}

-- What `thmon_state` keeps from window to window besides the counters, and `start`.
pub record Charts (fl : Floats) : Type 0 where
  pub e_syn : Ewma fl
  pub e_fin : Ewma fl
  pub e_rst : Ewma fl
  pub e_icmp : Ewma fl
  pub e_udp : Ewma fl
  pub e_pps : Ewma fl
  pub e_imbal : Ewma fl
  pub cusum_g : fl.F
  pub windows : ℕ
  pub cooldown_until_sec : ℕ

-- The options and tunables, and the configuration.
pub record Tuning (fl : Floats) : Type 0 where
  pub rate_syn : fl.F
  pub rate_fin : fl.F
  pub rate_rst : fl.F
  pub rate_icmp : fl.F
  pub rate_udp : fl.F
  pub rate_pps : fl.F
  pub warmup : ℕ
  pub lambda : fl.F
  pub ewma_k : fl.F
  pub cusum_k : fl.F
  pub cusum_h : fl.F
  pub interval : ℤ
  pub config : List (Text × Text)

-- The `mon_` variables of a window, and `imbal`.
pub record Measures (fl : Floats) : Type 0 where
  pub syn : fl.F
  pub fin : fl.F
  pub rst : fl.F
  pub icmp : fl.F
  pub udp : fl.F
  pub pps : fl.F
  pub imbal : fl.F

-- Whether a metric fires, and the threshold that is reported.
pub record Alarm (fl : Floats) : Type 0 where
  pub fire : Bool
  pub thr : fl.F

-- The `fire_` and `thr_` variables.
pub record Alarms (fl : Floats) : Type 0 where
  pub syn : Alarm fl
  pub fin : Alarm fl
  pub rst : Alarm fl
  pub icmp : Alarm fl
  pub udp : Alarm fl
  pub pps : Alarm fl

module _ (fl : Floats) where
  unfoldable pub ratio : ℕ → ℕ → fl.F
  ratio n all = fl.div (fl.of_int (pos n)) (fl.of_int (pos all))

  -- `diff`, at least 1
  unfoldable pub duration : Timeval → Timeval → fl.F
  duration start stop =
      let diff =
        fl.add (fl.of_int (sub_ℕ stop.sec start.sec))
          (fl.div (fl.of_int (sub_ℕ stop.usec start.usec)) (fl.fraction 1000000 1)) in
      if fl.is_less diff (fl.fraction 1 1) then fl.fraction 1 1 else diff

  unfoldable pub measure : Counts → Timeval → Timeval → Measures fl
  measure th start stop =
      let syn = ratio th.syn th.all in
      let fin = ratio th.fin th.all in
      let rst = ratio th.rst th.all in
      record {
        syn = syn;
        fin = fin;
        rst = rst;
        icmp = ratio th.icmp th.all;
        udp = ratio th.udp th.all;
        pps = fl.div (fl.of_int (pos th.all)) (duration start stop);
        imbal = fl.sub syn (fl.add fin rst);
      }

  -- `warming` and the unset threshold
  unfoldable pub is_warming : Tuning fl → ℕ → Bool
  is_warming tn windows = leb windows tn.warmup

  unfoldable pub quiet : Alarm fl
  quiet = record { fire = false; thr = zero_f fl }

  -- `rate > 0 && mon > rate`
  unfoldable pub is_over_cap : fl.F → fl.F → Bool
  is_over_cap rate mon = fl.is_less (zero_f fl) rate && fl.is_less rate mon

  -- A control chart with a hard cap; `scale` is how its thresholds are reported.
  unfoldable pub chart : Bool → fl.F → (fl.F → fl.F) → Ewma fl → fl.F → fl.F → fl.F → Alarm fl
  chart warming k scale e floor rate mon =
      let limit = ew_limit fl e k floor in
      if e.ready && not warming && fl.is_less limit mon
      then record { fire = true; thr = scale limit }
      else if is_over_cap rate mon
      then record { fire = true; thr = scale rate }
      else quiet

  -- The CUSUM step: the accumulated shift behind it, and the alarm of the change point.
  unfoldable pub cusum_step : Tuning fl → Charts fl → fl.F → fl.F
  cusum_step tn c imbal =
      let g = fl.add c.cusum_g (fl.sub (ew_z fl c.e_imbal imbal (ratio_floor fl)) tn.cusum_k) in
      if fl.is_less g (zero_f fl) then zero_f fl else g

  unfoldable pub is_observing : Tuning fl → Charts fl → Bool
  is_observing tn c = c.e_imbal.ready && not (is_warming tn c.windows)

  unfoldable pub is_shifted : Tuning fl → Charts fl → fl.F → Bool
  is_shifted tn c imbal = is_observing tn c && fl.is_less tn.cusum_h (cusum_step tn c imbal)

  unfoldable pub cusum_after : Tuning fl → Charts fl → fl.F → fl.F
  cusum_after tn c imbal =
      if is_shifted tn c imbal
      then zero_f fl
      else if is_observing tn c
      then cusum_step tn c imbal
      else c.cusum_g

  unfoldable pub syn_alarm : Tuning fl → Charts fl → Measures fl → Alarm fl
  syn_alarm tn c m =
      if is_shifted tn c m.imbal
      then record { fire = true; thr = percent fl (ew_limit fl c.e_syn tn.ewma_k (ratio_floor fl)) }
      else if is_over_cap tn.rate_syn m.syn
      then record { fire = true; thr = percent fl tn.rate_syn }
      else quiet

  unfoldable pub pps_floor : Ewma fl → fl.F
  pps_floor e =
      let quarter = fl.mul e.mean (fl.fraction 25 100) in
      if fl.is_less quarter (fl.fraction 1 1) then fl.fraction 1 1 else quarter

  -- The alarms of a window, from the charts with its number already counted.
  unfoldable pub alarms : Tuning fl → Charts fl → Measures fl → Alarms fl
  alarms tn c m =
      let warming = is_warming tn c.windows in
      let class = chart warming tn.ewma_k (percent fl) in
      record {
        syn = syn_alarm tn c m;
        fin = class c.e_fin (ratio_floor fl) tn.rate_fin m.fin;
        rst = class c.e_rst (ratio_floor fl) tn.rate_rst m.rst;
        icmp = class c.e_icmp (ratio_floor fl) tn.rate_icmp m.icmp;
        udp = class c.e_udp (ratio_floor fl) tn.rate_udp m.udp;
        pps = chart warming tn.ewma_k (λ t. t) c.e_pps (pps_floor c.e_pps) tn.rate_pps m.pps;
      }

  -- A baseline learns unless its metric fired.
  unfoldable pub learn : Tuning fl → Alarm fl → Ewma fl → fl.F → Ewma fl
  learn tn a e x = if a.fire then e else ew_update fl e x tn.lambda

  unfoldable pub adapt : Tuning fl → Measures fl → Alarms fl → Charts fl → Charts fl
  adapt tn m a c = record {
    e_syn = learn tn a.syn c.e_syn m.syn;
    e_fin = learn tn a.fin c.e_fin m.fin;
    e_rst = learn tn a.rst c.e_rst m.rst;
    e_icmp = learn tn a.icmp c.e_icmp m.icmp;
    e_udp = learn tn a.udp c.e_udp m.udp;
    e_pps = learn tn a.pps c.e_pps m.pps;
    e_imbal = learn tn a.syn c.e_imbal m.imbal;
    cusum_g = cusum_after tn c m.imbal;
    windows = c.windows;
    cooldown_until_sec = c.cooldown_until_sec;
  }

  unfoldable pub tell : Tuning fl → Text → Alarm fl → fl.F → Texts → Texts
  tell tn name a observed t =
      if a.fire then generate_alert fl tn.config name observed a.thr t else t

  -- PACKTER_MSG, PACKTER_SOUND, PACKTER_VOICE
  unfoldable pub blank : Texts
  blank = record {
    alert = false;
    mesg = codes "PACKTERMSG" ++ (newline ∷ []);
    sound = codes "PACKTERSOUND" ++ (newline ∷ []);
    voice = codes "PACKTERVOICE" ++ (newline ∷ []);
  }

  -- The alerts of the metrics that fired, in their order.
  unfoldable pub texts : Tuning fl → Measures fl → Alarms fl → Texts
  texts tn m a = tell tn (codes "PPS") a.pps m.pps (
      tell tn (codes "UDP") a.udp (percent fl m.udp) (
        tell tn (codes "ICMP") a.icmp (percent fl m.icmp) (
          tell tn (codes "RST") a.rst (percent fl m.rst) (
            tell tn (codes "FIN") a.fin (percent fl m.fin)
              (tell tn (codes "SYN") a.syn (percent fl m.syn) blank)))))
