-- ===== src/Snort.antt =====
-- packter_snort of agent/lib/snort.c: the alerts that a UNIX domain socket delivers.
use packter.Base.{
  ℕ, ◌≤◌, ◌≡◌, List, [], ◌∷◌, ◌++◌, Text, codes, newline, Option, none, some, Bool, false, ◌&&◌,
  All, if◌then◌else◌, snprintf, decimal, length, take,
}
use packter.Agent.{Env, World, printed}
use packter.Agent.Exec.{Exec, ◌>>=◌, ◌>>◌, pure, skip, gets, when}
use packter.Agent.Keeps.{
  Keeps, Keeps-bind, Keeps-gets, Keeps-then, Keeps-when, Keeps-skip, Runs, Runs-then, Runs-if,
  Runs-pure, Runs-of_keeps,
}
use packter.Capture.{Ending, waits, exited}
use packter.Capture.Flushed.{IsDone, IsSound-IsBound, pure-IsDone}
use packter.Config.{c_string}
use packter.Decode.{capture_frame}
use packter.Decode.Safety.{capture_frame-IsSound}
use packter.Mesg.{bufsiz}
use packter.Startup.{failure}
use packter.Send.{Action, push}
use packter.Send.Signed.{Owner}
use packter.Send.Emission.{IsSound, push-IsSound}

-- pt_alertpkt, with `pkth.caplen` and what `event` holds of the rule
pub record Alert : Type 0 where
  pub alertmsg : List ℕ
  pub caplen : ℕ
  pub pkt : List ℕ
  pub sig_generator : ℕ
  pub sig_id : ℕ
  pub sig_rev : ℕ

-- `alert.alertmsg` as a C string, its last byte set to NUL.
unfoldable pub alert_text : Alert → Text
alert_text alert = c_string (take 255 alert.alertmsg)

-- "Incident:%s sid:%lu gen:%lu rev:%lu"
unfoldable pub incident : Alert → Text
incident alert =
    codes "Incident:"
    ++ (alert_text alert
        ++ (codes " sid:"
            ++ (decimal alert.sig_id
                ++ (codes " gen:"
                    ++ (decimal alert.sig_generator ++ (codes " rev:" ++ decimal alert.sig_rev))))))

-- The loop of packter_snort for one alert.
unfoldable pub snort_alert : Env → Alert → Action
snort_alert env alert = do
  ctx ← gets (λ w. w.ctx)
  when ctx.debug (push (printed (codes "incident: " ++ (alert_text alert ++ (newline ∷ [])))))
  capture_frame env alert.pkt alert.caplen
      (if ctx.snort_report then snprintf bufsiz (incident alert) else [])

snort_alert-IsSound :
    ⦃own : Owner⦄ (env : Env) (alert : Alert)
    → alert.caplen ≤ length alert.pkt
    → Keeps (IsSound false) (snort_alert env alert)
unfolding snort_alert
snort_alert-IsSound env alert fits = Keeps-bind _ _ (Keeps-gets _) λ ctx.
    Keeps-then _ _ (Keeps-when ctx.debug _ (λ _. push-IsSound env false _))
      (capture_frame-IsSound env alert.pkt alert.caplen _ fits)

-- An alert whose captured length does not pass its packet is handled to the end, with no access outside the packet, in every sound state, in which there is a template map where UDP payloads are translated from NetFlow or IPFIX; the state that is left is sound.
pub snort_alert-total :
    ⦃own : Owner⦄ (env : Env) (alert : Alert) (w : World)
    → alert.caplen ≤ length alert.pkt
    → IsSound false w
    → (end : Unit {0} × World) × (snort_alert env alert w ≡ some end) × IsSound false end.1
snort_alert-total env alert w fits h = (snort_alert-IsSound env alert fits).at w h

-- The socket: whether it opens, whether a path can be bound, and what `recv` answers; `none` is an error.
pub record AlertSocket : Type 0 where
  pub opens : Bool
  pub binds : Text → Bool
  pub received : List (Option Alert)

-- SNORT_SOCK_NAME
unfoldable pub sock_name : Text
sock_name = codes "/var/log/snort/snort_alert"

-- The path that was given, or the usual one.
unfoldable pub path_or : Option Text → Text
unfolding sock_name
path_or none = sock_name
path_or (some given) = given

-- The loop, over what is received.
unfoldable pub snort_all : Env → List (Option Alert) → Action
snort_all env [] = skip
snort_all env (none ∷ rest) = snort_all env rest
snort_all env (some alert ∷ rest) = snort_alert env alert >> snort_all env rest

-- packter_snort, on the path that was given; `sun_path` has 108 bytes.
unfoldable pub packter_snort : Env → AlertSocket → Option Text → Exec World Ending
packter_snort env sock sockpath =
    if sock.opens && sock.binds (snprintf 108 (path_or sockpath))
    then snort_all env sock.received >> pure waits
    else pure (exited failure)

-- The captured length that an alert names does not pass its packet.
abbrev pub FitsAlert : Option Alert → Type 0
FitsAlert none = Unit {0}
FitsAlert (some alert) = alert.caplen ≤ length alert.pkt

snort_all-IsSound :
    ⦃own : Owner⦄ (env : Env) (received : List (Option Alert))
    → All FitsAlert received
    → Keeps (IsSound false) (snort_all env received)
unfolding snort_all
snort_all-IsSound env [] fit = Keeps-skip
snort_all-IsSound env (none ∷ rest) fit = snort_all-IsSound env rest fit.1
snort_all-IsSound env (some alert ∷ rest) fit =
    Keeps-then _ _ (snort_alert-IsSound env alert fit.0) (snort_all-IsSound env rest fit.1)

pub packter_snort-IsDone :
    ⦃own : Owner⦄ (env : Env) (sock : AlertSocket) (sockpath : Option Text)
    → All FitsAlert sock.received
    → Runs (IsSound false) (packter_snort env sock sockpath) IsDone
unfolding packter_snort
packter_snort-IsDone env sock sockpath fit =
    Runs-if (sock.opens && sock.binds (snprintf 108 (path_or sockpath))) _ _
      (λ _.
        Runs-then (IsSound false) _ _ (Runs-of_keeps (snort_all-IsSound env sock.received fit))
          (pure-IsDone waits))
      (λ _. Runs-pure (exited failure) IsSound-IsBound)
