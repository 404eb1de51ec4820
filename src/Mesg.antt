-- ===== src/Mesg.antt =====
-- agent/lib/mesg.c: the PACKTER and PACKTEARTH records.
use packter.Base.{
  ℕ, [], ◌∷◌, ◌++◌, none, some, Text, codes, newline, snprintf, decimal, decimal_int, if◌then◌else◌,
}
use packter.Base.Int.{add_ℕ}
use packter.Agent.{Ctx, Env}

-- PACKTER_BUFSIZ
abbrev pub bufsiz : ℕ
bufsiz = 1024

-- PACKTER_HEADER, PACKTER_EARTH, PACKTER_SE
unfoldable pub header : Text
header = codes "PACKTER" ++ (newline ∷ [])

unfoldable pub earth : Text
earth = codes "PACKTEARTH" ++ (newline ∷ [])

unfoldable pub se : Text
se = codes "PACKTERSE" ++ (newline ∷ [])

unfoldable pub comma : Text
comma = b',' ∷ []

-- `desc`, or `desc-trace_server` when tracing, and the newline
unfoldable pub ending : Ctx → Text → Text
ending ctx desc =
    desc ++ (if ctx.trace then (b'-' ∷ []) ++ ctx.trace_server else []) ++ (newline ∷ [])

-- `a,b,` in front of the rest
unfoldable pub endpoints : Text → Text → Text → Text
unfolding comma
endpoints a b rest = a ++ (comma ++ (b ++ (comma ++ rest)))

-- packter_mesg with a buffer of PACKTER_BUFSIZ: what stands in `mesg`, empty where the GeoIP lookup
-- of an end fails.
unfoldable pub packter_mesg : Env → Ctx → Text → Text → ℕ → ℕ → ℕ → Text → Text
unfolding ending endpoints comma
packter_mesg env ctx srcip dstip data1 data2 flag desc =
    let shown = decimal_int (add_ℕ flag ctx.flagbase) ++ (comma ++ ending ctx desc) in
    if ctx.geoip
    then elim (env.geoip_lookup srcip) [
      | none ↦ []
      | some srcgeo ↦ elim (env.geoip_lookup dstip) [
        | none ↦ []
        | some dstgeo ↦ snprintf bufsiz (earth ++ endpoints srcgeo dstgeo shown)
      ]
    ]
    else snprintf bufsiz
        (header ++ endpoints srcip dstip (endpoints (decimal data1) (decimal data2) shown))
