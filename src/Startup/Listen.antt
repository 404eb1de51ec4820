-- ===== src/Startup/Listen.antt =====
-- packter_udp_listen of agent/lib/ctx.c: the address and the port that a collector is bound to.
use packter.Base.{ℕ, ◌-◌, ◌%◌, List, ◌∷◌, ◌++◌, Option, none, some, Text, if◌then◌else◌, replicate}
use packter.Base.Int.{ℤ, pos, negsuc}
use packter.Startup.{Outcome, runs, exits, failure, ◌>>=◌, Host}
use packter.Startup.Viewer.{is_descriptor}

-- `sin6_addr` and `sin6_port` that `bind` is called with.
pub record Listener : Type 0 where
  pub address : List ℕ
  pub port : ℕ

-- (uint16_t)port
unfoldable pub u16 : ℤ → ℕ
u16 (pos n) = n % 65536
u16 (negsuc n) = 65535 - n % 65536

-- ::ffff:a.b.c.d
unfoldable pub v4_mapped : List ℕ → List ℕ
v4_mapped v4 = replicate 10 0 ++ (0xff ∷ 0xff ∷ v4)

-- `sin6_addr` for an IPv6 literal, an IPv4 literal, or no text (in6addr_any)
unfoldable pub listen_address : Host → Option Text → Outcome (List ℕ)
unfolding v4_mapped
listen_address host none = runs (replicate 16 0)
listen_address host (some text) = elim (host.inet_pton6 text) [
  | some v6 ↦ runs v6
  | none ↦ elim (host.inet_pton4 text) [ some v4 ↦ runs (v4_mapped v4) | none ↦ exits failure ]
]

-- packter_udp_listen
unfoldable pub udp_listen : Host → Option Text → ℤ → Outcome Listener
unfolding listen_address u16
udp_listen host bind_addr port =
    if is_descriptor host.listen_socket
    then (do
      address ← listen_address host bind_addr
      if host.bind address (u16 port)
          then runs (record { address = address; port = u16 port })
          else exits failure)
    else exits failure
