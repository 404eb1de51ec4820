-- ===== src/Startup/Viewer.antt =====
-- packter_connect of agent/lib/ctx.c: the address that the datagrams go to, and the socket.
pub mod Kept
pub mod First
use packter.Base.{
  ℕ, ◌+◌, ◌≡◌, refl, arith, List, [], ◌∷◌, ◌++◌, Option, none, some, Text, Bool, true, false, ltb,
  if◌then◌else◌, snprintf, decimal_int, length, inl, inr, sym, ap, Bool-cases,
}
use packter.Base.Int.{ℤ, pos, negsuc}
use packter.Agent.{Ctx}
use packter.Startup.{inet, inet6, other, Address, Host}

-- PACKTER_VIEWER_PORT
abbrev pub viewer_port : ℕ
viewer_port = 11300

-- `port <= 0` takes the default.
unfoldable pub port_or : ℕ → ℤ → ℤ
port_or default (pos n) = if ltb 0 n then pos n else pos default
port_or default (negsuc n) = pos default

-- The `memcpy` by family, which also sets `use6`.
abbrev pub store_address : Address → Ctx → Ctx
store_address (inet bytes) ctx = record ctx { addr = bytes; use6 = false }
store_address (inet6 bytes) ctx = record ctx { addr6 = bytes; use6 = true }
store_address other ctx = ctx

-- A descriptor, `>= 0`.
abbrev pub is_descriptor : ℤ → Bool
is_descriptor (pos n) = true
is_descriptor (negsuc n) = false

-- The context when the socket has answered.
abbrev opened_with : Host → ℕ → Bool → Ctx → Ctx
opened_with host calls v6 ctx = record ctx { sock = host.socket v6 calls }

-- The loop over the addresses, after `calls` calls of `socket`; `false` is the answer -1.
unfoldable pub try_addresses : Host → ℕ → List Address → Ctx → Ctx × Bool
try_addresses host calls [] ctx = (ctx, false)
try_addresses host calls (inet bytes ∷ rest) ctx =
    let opened = opened_with host calls false (store_address (inet bytes) ctx) in
    elim (is_descriptor (host.socket false calls)) [
      | true ↦ (opened, true)
      | false ↦ try_addresses host (calls + 1) rest opened
    ]
try_addresses host calls (inet6 bytes ∷ rest) ctx =
    let opened = opened_with host calls true (store_address (inet6 bytes) ctx) in
    elim (is_descriptor (host.socket true calls)) [
      | true ↦ (opened, true)
      | false ↦ try_addresses host (calls + 1) rest opened
    ]
try_addresses host calls (other ∷ rest) ctx = try_addresses host calls rest ctx

-- packter_connect
unfoldable pub packter_connect : Host → Text → ℤ → Ctx → Ctx × Bool
unfolding port_or
packter_connect host ip port ctx =
    elim (host.getaddrinfo ip (snprintf 16 (decimal_int (port_or viewer_port port)))) [
      | none ↦ (ctx, false)
      | some res ↦ try_addresses host 0 res ctx
    ]
