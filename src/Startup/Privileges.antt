-- ===== src/Startup/Privileges.antt =====
-- packter_drop_privs of agent/lib/util.c. What it leaves is stated without the order of its calls.
use packter.Base.{ℕ, ◌≡◌, refl, Option, none, some, Text, inl, inr, Option-cases}
use packter.Startup.{Outcome, runs, ◌>>=◌, require, Creds, Host}

-- `if (group != NULL)`: getgrnam gives the number, setgid takes it.
unfoldable pub drop_group : Host → Option Text → Creds → Outcome Creds
drop_group host none creds = runs creds
drop_group host (some group) creds = do
  gid ← require (host.getgrnam group)
  require (host.setgid gid creds)

-- `group == NULL && setgid(pw->pw_gid) < 0`
unfoldable pub drop_login_group : Host → Option Text → ℕ → Creds → Outcome Creds
drop_login_group host none gid creds = require (host.setgid gid creds)
drop_login_group host (some group) gid creds = runs creds

-- `if (user != NULL)`: getpwnam gives both numbers.
unfoldable pub drop_user : Host → Option Text → Option Text → Creds → Outcome Creds
unfolding drop_login_group
drop_user host none group creds = runs creds
drop_user host (some user) group creds = do
  pw ← require (host.getpwnam user)
  creds' ← drop_login_group host group pw.1 creds
  require (host.setuid pw.0 creds')

-- packter_drop_privs
unfoldable pub drop_privs : Host → Option Text → Option Text → Creds → Outcome Creds
unfolding drop_group drop_user
drop_privs host user group creds = do
  creds' ← drop_group host group creds
  drop_user host user group creds'

-- setgid(2), setuid(2): a process whose user is 0 may take any number.
pub record ServesRoot (host : Host) : Type 0 where
  pub gid_served : (g : ℕ) (c : Creds) → c.uid ≡ 0 → host.setgid g c ≡ some (record c { gid = g })
  pub uid_served : (u : ℕ) (c : Creds) → c.uid ≡ 0 → host.setuid u c ≡ some (record c { uid = u })

-- The numbers that the options ask for: the named user, and the named group or else the user's own.
abbrev pub wanted : Host → Option Text → Option Text → Creds → Option Creds
wanted host none none own = some own
wanted host none (some group) own = elim (host.getgrnam group) [
  | none ↦ none
  | some gid ↦ some (record own { gid = gid })
]
wanted host (some user) none own = elim (host.getpwnam user) [
  | none ↦ none
  | some pw ↦ some (record { uid = pw.0; gid = pw.1 })
]
wanted host (some user) (some group) own = elim (host.getgrnam group) [
  | none ↦ none
  | some gid ↦ elim (host.getpwnam user) [
    | none ↦ none
    | some pw ↦ some (record { uid = pw.0; gid = gid })
  ]
]

-- A process of user 0 that drops its privileges ends up under exactly the named user and the named group, or the user's own group where none is named; what is not named stays. Where a name is unknown, and only there, it ends with a failure.
pub drop_privs-wanted :
    (host : Host) (user group : Option Text) (c : Creds)
    → ServesRoot host
    → c.uid ≡ 0
    → drop_privs host user group c ≡ require (wanted host user group c)
unfolding drop_privs
drop_privs-wanted host none none c served root = refl
drop_privs-wanted host none (some group) c served root = elim (Option-cases (host.getgrnam group)) [
  | inl unknown ↦ rw (wanted, unknown) refl
  | inr (gid, known) ↦ rw (wanted, known, served.gid_served gid c root) refl
]
drop_privs-wanted host (some user) none c served root = elim (Option-cases (host.getpwnam user)) [
  | inl unknown ↦ rw (wanted, unknown) refl
  | inr (pw, known) ↦
      rw
        (
          wanted,
          known,
          served.gid_served pw.1 c root,
          served.uid_served pw.0 (record c { gid = pw.1 }) root,
        )
        refl
]
drop_privs-wanted host (some user) (some group) c served root =
    elim (Option-cases (host.getgrnam group)) [
      | inl unknown ↦ rw (wanted, unknown) refl
      | inr (gid, known) ↦ elim (Option-cases (host.getpwnam user)) [
        | inl stranger ↦ rw (wanted, known, served.gid_served gid c root, stranger) refl
        | inr (pw, found) ↦
            rw
              (
                wanted,
                known,
                served.gid_served gid c root,
                found,
                served.uid_served pw.0 (record c { gid = gid }) root,
              )
              refl
      ]
    ]
