-- ===== src/Examples/Watched.antt =====
-- Witnesses for the traffic monitor.
use packter.Base.{ℕ, ◌+◌, ◌-◌, ◌*◌, ◌/◌, ◌≡◌, refl, [], ◌∷◌, ◌++◌, some, false, ltb, decimal}
use packter.Base.Int.{pos, negsuc}
use packter.Agent.{World, printed}
use packter.Examples.{env, noon, start}
use packter.Monitor.{Counts}
use packter.Monitor.Analysis.{Charts, Tuning, measure, is_warming}
use packter.Monitor.Ewma.{Floats, Ewma, zero_f}
use packter.Monitor.Window.{analyze, report}
use packter.Monitor.Window.Warmup.{learned, analyze-learned}

abbrev one_window : Counts
one_window = record { all = 500; syn = 20; fin = 15; rst = 5; icmp = 3; udp = 100 }

-- Numbers of thousandths in place of floats.
abbrev pub thousandths : Floats
thousandths = record {
  F = ℕ;
  of_int = λ z. elim z [ pos n ↦ n * 1000 | negsuc n ↦ 0 ];
  fraction = λ a b. a * 1000 / b;
  add = λ a b. a + b;
  sub = λ a b. a - b;
  mul = λ a b. a * b / 1000;
  div = λ a b. a * 1000 / b;
  sqrt = λ a. a;
  is_less = ltb;
  show = λ d a. decimal a;
  parse = λ t. 1000;
  truncate = λ a. a / 1000;
}

abbrev flat : Ewma thousandths
flat = record { mean = 0; var = 0; ready = false }

abbrev pub charts : Charts thousandths
charts = record {
  e_syn = flat;
  e_fin = flat;
  e_rst = flat;
  e_icmp = flat;
  e_udp = flat;
  e_pps = flat;
  e_imbal = flat;
  cusum_g = 0;
  windows = 0;
  cooldown_until_sec = 0;
}

abbrev pub tuning : Tuning thousandths
tuning = record {
  rate_syn = 0;
  rate_fin = 0;
  rate_rst = 0;
  rate_icmp = 0;
  rate_udp = 0;
  rate_pps = 0;
  warmup = 8;
  lambda = 100;
  ewma_k = 3000;
  cusum_k = 500;
  cusum_h = 5000;
  interval = pos 30;
  config = [];
}

analyze-learned_example :
    (w' : World) × (analyze thousandths env tuning one_window noon charts start
      ≡ some (
        learned thousandths tuning
            (measure thousandths one_window noon (env.now start.clock_reads))
            (record charts { windows = charts.windows + 1 }),
        w',
      ))
    × (w'.out
        ≡ start.out
          ++ (printed (
                report thousandths tuning one_window
                  (record charts { windows = charts.windows + 1 })
                  (measure thousandths one_window noon (env.now start.clock_reads)))
              ∷ []))
    × (w'.ctx ≡ start.ctx)
analyze-learned_example =
    analyze-learned thousandths env tuning one_window noon charts start (unfold is_warming in refl)
      (unfold zero_f in
        record {
          no_syn = refl;
          no_fin = refl;
          no_rst = refl;
          no_icmp = refl;
          no_udp = refl;
          no_pps = refl;
        })
