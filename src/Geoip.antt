-- ===== src/Geoip.antt =====
-- packter_geoip_lookup of agent/lib/geoip.c, as it is built with libmaxminddb, whose answers are a
-- parameter.
use packter.Base.{
  ℕ, suc, ◌+◌, ◌<◌, ◌≤◌, ◌≡◌, refl, ap, arith, List, [], ◌∷◌, ◌++◌, Option, none, some, Text, Bool,
  ◌&&◌, if◌then◌else◌, snprintf, map, length,
}
use packter.Agent.{Env}
use packter.Mesg.{bufsiz}

-- MMDB_entry_data_s: whether there is data of type double, and the number printed by `%f`.
pub record EntryData : Type 0 where
  pub has_data : Bool
  pub is_double : Bool
  pub printed : Text

-- The answers of the library: MMDB_open at an attempt on a file, which gives the handle of what the
-- file is at that time, then for a handle and a host the number of the entry that is found without an
-- error, and the latitude and the longitude of an entry.
pub record Mmdb : Type 0 where
  pub mmdb_open : ℕ → Text → Option ℕ
  pub lookup_string : ℕ → Text → Option ℕ
  pub latitude : ℕ → ℕ → Option EntryData
  pub longitude : ℕ → ℕ → Option EntryData

unfoldable pub is_usable : EntryData → Bool
is_usable d = d.has_data && d.is_double

-- "%f,%f" of the entry, where both values are there.
unfoldable pub coordinates : Option EntryData → Option EntryData → Option Text
unfolding is_usable
coordinates none lon = none
coordinates (some lat) none = none
coordinates (some lat) (some lon) =
    if is_usable lat && is_usable lon
    then some (snprintf bufsiz (lat.printed ++ (b',' ∷ lon.printed)))
    else none

unfoldable pub location : Mmdb → ℕ → Text → Option Text
unfolding coordinates
location db mmdb host = elim (db.lookup_string mmdb host) [
  | none ↦ none
  | some entry ↦ coordinates (db.latitude mmdb entry) (db.longitude mmdb entry)
]

-- `opened` and `mmdb`: the handle that is held, or the one that is opened now.
unfoldable pub held_open : Mmdb → Text → ℕ → Option ℕ → Option ℕ
held_open db datfile attempt (some mmdb) = some mmdb
held_open db datfile attempt none = db.mmdb_open attempt datfile

-- packter_geoip_lookup, with the handle that is held before and behind it
unfoldable pub geoip_lookup : Mmdb → Text → ℕ → Option ℕ → Text → Option Text × Option ℕ
unfolding held_open location
geoip_lookup db datfile attempt opened host = elim (held_open db datfile attempt opened) [
  | none ↦ (none, none)
  | some mmdb ↦ (location db mmdb host, some mmdb)
]

-- The lookups of a process, in order: the file may change from each to the next.
unfoldable pub lookups : Mmdb → Text → ℕ → Option ℕ → List Text → List (Option Text)
lookups db datfile attempt opened [] = []
lookups db datfile attempt opened (host ∷ hosts) =
    let (found, opened') = geoip_lookup db datfile attempt opened host in
    found ∷ lookups db datfile (attempt + 1) opened' hosts

-- What an environment answers, when the database is open.
unfoldable pub with_geoip : Mmdb → ℕ → Env → Env
with_geoip db mmdb env = record env { geoip_lookup = location db mmdb }

-- A handle that is held answers every host from then on.
lookups-held :
    (db : Mmdb) (datfile : Text) (attempt mmdb : ℕ) (hosts : List Text)
    → lookups db datfile attempt (some mmdb) hosts ≡ map (location db mmdb) hosts
unfolding lookups geoip_lookup held_open
lookups-held db datfile attempt mmdb [] = refl
lookups-held db datfile attempt mmdb (host ∷ hosts) =
    ap (λ l. location db mmdb host ∷ l) (lookups-held db datfile (attempt + 1) mmdb hosts)

-- As long as the database cannot be opened, each host is answered with nothing and the next one tries again; from the first attempt that opens it on, every host, the one of that attempt included, is answered from what was opened then, whatever the file has become since.
pub lookups-open :
    (db : Mmdb) (datfile : Text) (env : Env) (attempt mmdb : ℕ) (early later : List Text)
    → ((k : ℕ) → attempt ≤ k → k < attempt + length early → db.mmdb_open k datfile ≡ none)
    → db.mmdb_open (attempt + length early) datfile ≡ some mmdb
    → lookups db datfile attempt none (early ++ later)
      ≡ map (λ host. none) early ++ map ((with_geoip db mmdb env).geoip_lookup) later
unfolding lookups geoip_lookup held_open with_geoip
lookups-open db datfile env attempt mmdb [] [] closed opens = refl
lookups-open db datfile env attempt mmdb [] (host ∷ later) closed opens =
    let now : db.mmdb_open attempt datfile ≡ some mmdb =
      let e : attempt + 0 ≡ attempt = omega arith in rw e at (opens) in
    rw (lookups, geoip_lookup, held_open, now)
      (ap (λ l. location db mmdb host ∷ l) (lookups-held db datfile (attempt + 1) mmdb later))
lookups-open db datfile env attempt mmdb (host ∷ early) later closed opens =
    let e : attempt + suc (length early) ≡ attempt + 1 + length early = omega arith in
    rw (lookups, geoip_lookup, held_open, closed attempt (omega arith) (omega arith))
      (ap (λ l. none ∷ l)
        (lookups-open db datfile env (attempt + 1) mmdb early later
          (λ k above below. closed k (omega arith) (omega arith)) (rw e at (opens))))
