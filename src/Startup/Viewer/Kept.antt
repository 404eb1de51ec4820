-- ===== src/Startup/Viewer/Kept.antt =====
-- What packter_connect of agent/lib/ctx.c leaves as it was.
use packter.Base.{
  ℕ, ◌+◌, List, [], ◌∷◌, Option, none, some, Text, Bool, true, false, snprintf, decimal_int,
}
use packter.Base.Int.{ℤ}
use packter.Agent.{Ctx}
use packter.Startup.{inet, inet6, other, Address, Host}
use packter.Startup.Viewer.{viewer_port, port_or, is_descriptor, try_addresses, packter_connect}

-- What of a context does not depend on where it sends to.
abbrev pub IgnoresViewer : (Ctx → Type 0) → Type 0
IgnoresViewer P =
    (ctx : Ctx) (v6 : Bool) (fd : ℤ) (a a6 : List ℕ)
    → P ctx
    → P (record ctx { use6 = v6; sock = fd; addr = a; addr6 = a6 })

either-kept :
    (P : Ctx → Type 0) (opened : Ctx) (later : Ctx × Bool) (b : Bool)
    → P opened
    → P later.0
    → let chosen : Ctx × Bool = elim b [ true ↦ (opened, true) | false ↦ later ] in P chosen.0
either-kept P opened later true h k = h
either-kept P opened later false h k = k

try_addresses-kept :
    (P : Ctx → Type 0) (host : Host)
    → IgnoresViewer P
    → (calls : ℕ) (res : List Address) (ctx : Ctx) → P ctx
    → P (try_addresses host calls res ctx).0
unfolding try_addresses
try_addresses-kept P host free calls [] ctx h = h
try_addresses-kept P host free calls (inet bytes ∷ rest) ctx h =
    let h' = free ctx false (host.socket false calls) bytes ctx.addr6 h in
    either-kept P _ _ (is_descriptor (host.socket false calls)) h'
      (try_addresses-kept P host free (calls + 1) rest _ h')
try_addresses-kept P host free calls (inet6 bytes ∷ rest) ctx h =
    let h' = free ctx true (host.socket true calls) ctx.addr bytes h in
    either-kept P _ _ (is_descriptor (host.socket true calls)) h'
      (try_addresses-kept P host free (calls + 1) rest _ h')
try_addresses-kept P host free calls (other ∷ rest) ctx h =
    try_addresses-kept P host free calls rest ctx h

pub packter_connect-kept :
    (P : Ctx → Type 0) (host : Host) (ip : Text) (port : ℤ) (ctx : Ctx)
    → IgnoresViewer P
    → P ctx
    → P (packter_connect host ip port ctx).0
unfolding packter_connect
packter_connect-kept P host ip port ctx free h =
    after (host.getaddrinfo ip (snprintf 16 (decimal_int (port_or viewer_port port))))
  where
    after :
        (o : Option (List Address))
        → let answer : Ctx × Bool = elim o [
          | none ↦ (ctx, false)
          | some res ↦ try_addresses host 0 res ctx
        ] in
          P answer.0
    after none = h
    after (some res) = try_addresses-kept P host free 0 res ctx h
