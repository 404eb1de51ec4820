-- ===== src/Monitor/Alert.antt =====
-- generate_alert of agent/src/pt_thmon.c: the texts of an alert, assembled from the configuration.
use packter.Base.{List, ◌++◌, ◌∷◌, Text, codes, Bool, true, if◌then◌else◌, snprintf}
use packter.Config.{config_exists, addstring, addstring_conf}
use packter.Mesg.{bufsiz}
use packter.Monitor.Ewma.{Floats}

-- `alert` and the three texts that `analyze` keeps.
pub record Texts : Type 0 where
  pub alert : Bool
  pub mesg : Text
  pub sound : Text
  pub voice : Text

-- packter_addfloat
unfoldable pub addfloat : (fl : Floats) → Text → fl.F → Text
addfloat fl buf val = snprintf bufsiz (buf ++ (b' ' ∷ fl.show 0 val))

-- The configured text of a key, or a given one where the key is missing.
unfoldable pub addstring_or : List (Text × Text) → Text → Text → Text → Text
addstring_or config buf key other =
    if config_exists config key then addstring_conf config buf key else addstring buf other

-- What the first alert of a window puts in front.
unfoldable pub open_alert : List (Text × Text) → Text → Text → Texts → Texts
open_alert config mon_pic mon_sound t =
    let pic =
      if config_exists config mon_pic then addstring_conf config t.mesg mon_pic else t.mesg in
    let head = addstring_conf config t.sound (codes "MON_OPT_SOUND_HEAD") in
    record {
      alert = true;
      mesg = addstring_conf config (addstring pic (codes ",")) (codes "MON_OPT_MSG_HEAD");
      sound = if config_exists config mon_sound then addstring_conf config head mon_sound else head;
      voice = addstring_conf config t.voice (codes "MON_OPT_VOICE_HEAD");
    }

-- generate_alert, with the name of the flag: `MON_<name>_PIC` and so on.
unfoldable pub key_of : Text → Text → Text
key_of name part = codes "MON_" ++ (name ++ part)

unfoldable pub generate_alert :
    (fl : Floats) → List (Text × Text) → Text → fl.F → fl.F → Texts → Texts
generate_alert fl config name observed threshold t =
    let u =
      if t.alert
      then t
      else open_alert config (key_of name (codes "_PIC")) (key_of name (codes "_SOUND")) t in
    let told = addstring_conf config u.mesg (key_of name (codes "_MSG")) in
    let seen =
      addfloat fl (addstring_or config told (codes "MONITOR") (codes " Observed:")) observed in
    let bound =
      addfloat fl (addstring_or config seen (codes "THRESHOLD") (codes " Threshold:")) threshold in
    record u { mesg = bound; voice = addstring_conf config u.voice (key_of name (codes "_VOICE")) }
