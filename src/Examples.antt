-- ===== src/Examples.antt =====
-- The theorems at concrete inputs: a start of the agent, datagrams and frames of the wire.
mod Wired
mod Sampling
mod Flows
mod Watched
mod Texts
mod Started
mod Tools
mod Monitored
use packter.Base.{
  ℕ, List, [], ◌∷◌, ◌++◌, Text, codes, none, some, true, false, arith, refl, ◌≡◌, length,
}
use packter.Base.Int.{pos}
use packter.Agent.{Env, World, Ctx, ctx_init, Timeval}
use packter.Send.Emission.{IsSound}
use packter.Send.Signed.{Owner}
use packter.Send.View.{datagrams, IsPlain, IsSteady}

abbrev pub noon : Timeval
noon = record { sec = 43200; usec = 250000 }

abbrev pub env : Env
env = record {
  inet_ntop4 = λ a. codes "192.0.2.1";
  inet_ntop6 = λ a. codes "2001:db8::1";
  now = λ n. noon;
  rand = λ n. n;
  geoip_lookup = λ h. none;
  now_bound = λ n. omega arith;
}

-- The agent in bulk mode, with nothing sent yet.
unfoldable pub start : World
unfolding ctx_init
start = record {
  ctx = record ctx_init { bulk_ms = 50 };
  templates = some [];
  out = [];
  clock_reads = 0;
  rand_calls = 0;
}

-- Nobody in particular: no id, no key.
instance abbrev pub nobody : Owner
nobody = record { id = []; psk = []; cached = true }

pub start-IsSound : IsSound false start
unfolding start ctx_init datagrams
start-IsSound = record {
  bulk_fits = omega arith;
  id_fits = omega arith;
  guard = refl;
  cached = λ _. ([], refl);
  needed = λ _. refl;
  own_id = refl;
  own_psk = refl;
  signed = tt;
}

pub start-IsPlain : IsPlain (pos 1) (pos 1) start
unfolding start ctx_init
start-IsPlain = record {
  fits = omega arith;
  steady = record { anonymous = refl; sending = refl; rate_is = refl; limit_is = refl };
}

-- A NetFlow v9 datagram with one template set: source, destination, protocol, and the two ports.
abbrev pub datagram : List ℕ
datagram =
    0 ∷ 9 ∷ 0 ∷ 1 ∷ 0 ∷ 0 ∷ 0 ∷ 0 ∷ 0 ∷ 0 ∷ 0 ∷ 0 ∷ 0 ∷ 0 ∷ 0 ∷ 0 ∷ 0 ∷ 0 ∷ 0 ∷ 7 ∷ 0 ∷ 0 ∷ 0 ∷ 28
    ∷ 1 ∷ 0 ∷ 0 ∷ 5 ∷ 0 ∷ 8 ∷ 0 ∷ 4 ∷ 0 ∷ 12 ∷ 0 ∷ 4 ∷ 0 ∷ 4 ∷ 0 ∷ 1 ∷ 0 ∷ 7 ∷ 0 ∷ 2 ∷ 0 ∷ 11 ∷ 0
    ∷ 2 ∷ []

-- An Ethernet frame with an IPv4 header and a UDP header.
abbrev pub frame : List ℕ
frame =
    1 ∷ 2 ∷ 3 ∷ 4 ∷ 5 ∷ 6 ∷ 1 ∷ 2 ∷ 3 ∷ 4 ∷ 5 ∷ 7 ∷ 8 ∷ 0 ∷ 0x45 ∷ 0 ∷ 0 ∷ 28 ∷ 0 ∷ 1 ∷ 0 ∷ 0 ∷ 64
    ∷ 17 ∷ 0 ∷ 0 ∷ 10 ∷ 0 ∷ 0 ∷ 1 ∷ 10 ∷ 0 ∷ 0 ∷ 2 ∷ 0 ∷ 53 ∷ 0x30 ∷ 0x39 ∷ 0 ∷ 8 ∷ 0 ∷ 0 ∷ []

-- Its first 16 bytes with the type of a VLAN tag.
abbrev pub cut_frame : List ℕ
cut_frame = 1 ∷ 2 ∷ 3 ∷ 4 ∷ 5 ∷ 6 ∷ 1 ∷ 2 ∷ 3 ∷ 4 ∷ 5 ∷ 7 ∷ 0x81 ∷ 0 ∷ 0 ∷ 5 ∷ []
