-- ===== src/Monitor/Window.antt =====
-- analyze of agent/src/pt_thmon.c as a whole: a full window is measured, reported, learned, and alerted.
pub mod Warmup
use packter.Base.{
  ℕ, suc, ◌+◌, ◌-◌, List, ◌++◌, ◌∷◌, [], Text, codes, newline, decimal, Bool, true, false, ◌&&◌,
  ltb, if◌then◌else◌,
}
use packter.Base.Int.{ℤ, pos, negsuc}
use packter.Agent.{Env, World, Timeval, printed}
use packter.Agent.Exec.{Exec, ◌>>=◌, ◌>>◌, pure, skip, gets, when}
use packter.Config.{config_exists, addstring_conf}
use packter.Monitor.{Counts}
use packter.Monitor.Alert.{Texts}
use packter.Monitor.Analysis.{
  Charts, Tuning, Measures, Alarms, measure, alarms, adapt, texts, is_warming, cusum_after,
}
use packter.Monitor.Ewma.{Floats}
use packter.Send.{Action, ask_clock, push, send}

unfoldable pub rule : Text
rule = codes "-------------------------" ++ (newline ∷ [])

module _ (fl : Floats) where
  -- The statistics that every window prints.
  unfoldable pub report : Tuning fl → Counts → Charts fl → Measures fl → Text
  report tn th c m =
      rule
      ++ (codes "Statistics of "
          ++ (decimal th.all
              ++ (codes " packet (window " ++ (decimal c.windows ++ (codes ")" ++ (newline ∷ [])))))
          ++ (codes "SYN : "
              ++ (fl.show 4 m.syn
                  ++ (codes " (mean "
                      ++ (fl.show 4 c.e_syn.mean
                          ++ (codes ")   FIN : "
                              ++ (fl.show 4 m.fin
                                  ++ (codes "   RST: " ++ (fl.show 4 m.rst ++ (newline ∷ []))))))))
              ++ (codes "ICMP: "
                  ++ (fl.show 4 m.icmp
                      ++ (codes "   UDP : "
                          ++ (fl.show 4 m.udp
                              ++ (codes "   PPS: "
                                  ++ (fl.show 2 m.pps
                                      ++ (codes "   CUSUM g: "
                                          ++ (fl.show 2 (cusum_after fl tn c m.imbal)
                                              ++ (b'/'
                                                  ∷ (fl.show 1 tn.cusum_h ++ (newline ∷ []))))))))))
                  ++ ((if is_warming fl tn c.windows
                        then codes "(warming up: "
                          ++ (decimal c.windows
                              ++ (b'/'
                                  ∷ (decimal tn.warmup ++ (codes " windows)" ++ (newline ∷ [])))))
                        else [])
                      ++ rule))))

  -- PACKTER_SKYDOME and the configured texture
  unfoldable pub send_skydome : Env → Tuning fl → Action
  send_skydome env tn = when (config_exists tn.config (codes "MON_SKYDOME_START")) (
      send env (
        addstring_conf tn.config (codes "PACKTERSKYDOMETEXTURE" ++ (newline ∷ []))
          (codes "MON_SKYDOME_START")))

  unfoldable pub send_alert : Env → Tuning fl → Texts → Action
  send_alert env tn t = do
    send env (addstring_conf tn.config t.mesg (codes "MON_OPT_MSG_FOOT"))
    enable_sound ← gets (λ w. w.ctx.enable_sound)
    when enable_sound (
        send env (addstring_conf tn.config t.sound (codes "MON_OPT_SOUND_FOOT"))
        >> (send env (addstring_conf tn.config t.voice (codes "MON_OPT_VOICE_FOOT"))
            >> send_skydome env tn))

  -- The second at which the pause ends; a second before 0 is as early as 0, for no time is before it.
  unfoldable pub cooldown_end : ℕ → ℤ → ℕ
  cooldown_end sec (pos n) = sec + n
  cooldown_end sec (negsuc n) = sec - (n + 1)

  -- From the alarms on: the window's number is counted in `c`.
  unfoldable pub conclude : Env → Tuning fl → Timeval → Charts fl → Texts → Exec World (Charts fl)
  conclude env tn stop learned t =
      if t.alert
      then (if ltb stop.sec learned.cooldown_until_sec
          then pure learned
          else (send_alert env tn t
              >> pure (record learned { cooldown_until_sec = cooldown_end stop.sec tn.interval })))
      else pure learned

  -- analyze
  unfoldable pub analyze : Env → Tuning fl → Counts → Timeval → Charts fl → Exec World (Charts fl)
  analyze env tn th start c = do
    stop ← ask_clock env
    let m = measure fl th start stop
    let counted : Charts fl = record c { windows = c.windows + 1 }
    let a = alarms fl tn counted m
    push (printed (report tn th counted m))
    conclude env tn stop (adapt fl tn m a counted) (texts fl tn m a)
