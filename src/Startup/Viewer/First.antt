-- ===== src/Startup/Viewer/First.antt =====
-- Which of the resolved addresses packter_connect of agent/lib/ctx.c takes.
use packter.Base.{
  ℕ, ◌+◌, ◌≡◌, refl, arith, List, [], ◌∷◌, ◌++◌, Option, none, some, Text, Bool, true, false,
  if◌then◌else◌, snprintf, decimal_int, length, sym, ap,
}
use packter.Base.Int.{ℤ}
use packter.Agent.{Ctx}
use packter.Startup.{inet, inet6, other, Address, Host}
use packter.Startup.Viewer.{viewer_port, port_or, is_descriptor, try_addresses, packter_connect}

-- An address of one of the two families: whether it is AF_INET6, and its bytes.
abbrev pub Candidate : Type 0
Candidate = Bool × List ℕ

abbrev pub candidates : List Address → List Candidate
candidates [] = []
candidates (inet bytes ∷ rest) = (false, bytes) ∷ candidates rest
candidates (inet6 bytes ∷ rest) = (true, bytes) ∷ candidates rest
candidates (other ∷ rest) = candidates rest

-- No socket opens for any of the candidates.
abbrev pub AllRefused : Host → ℕ → List Candidate → Type 0
AllRefused host calls [] = Unit {0}
AllRefused host calls ((v6, bytes) ∷ rest) =
    (is_descriptor (host.socket v6 calls) ≡ false) × AllRefused host (calls + 1) rest

-- Where the context sends to.
abbrev pub target : Ctx → Candidate
target ctx = (ctx.use6, if ctx.use6 then ctx.addr6 else ctx.addr)

-- The context sends to the first candidate whose socket opens: those in front of it are refused.
pub record SendsToFirst (host : Host) (calls : ℕ) (tries : List Candidate) (ctx : Ctx)
    : Type 0 where
  pub before : List Candidate
  pub after : List Candidate
  pub split : tries ≡ before ++ (target ctx ∷ after)
  pub refused : AllRefused host calls before
  pub sock_is : ctx.sock ≡ host.socket ctx.use6 (calls + length before)
  pub open_is : is_descriptor ctx.sock ≡ true

abbrev pub Connected : Host → ℕ → List Candidate → Ctx × Bool → Type 0
Connected host calls tries (ctx, true) = SendsToFirst host calls tries ctx
Connected host calls tries (ctx, false) = AllRefused host calls tries

-- A candidate that is refused comes in front.
later-Connected :
    (host : Host) (calls : ℕ) (c : Candidate) (tries : List Candidate) (later : Ctx × Bool)
    → is_descriptor (host.socket c.0 calls) ≡ false
    → Connected host (calls + 1) tries later
    → Connected host calls (c ∷ tries) later
later-Connected host calls c tries (ctx, true) refused rest = record {
  before = c ∷ rest.before;
  after = rest.after;
  split = ap (λ l. c ∷ l) rest.split;
  refused = (refused, rest.refused);
  sock_is =
      let more : calls + length (c ∷ rest.before) ≡ calls + 1 + length rest.before = omega arith in
      rw more rest.sock_is;
  open_is = rest.open_is;
}
later-Connected host calls c tries (ctx, false) refused rest = (refused, rest)

-- One candidate and the rest, by what the socket answers.
step-Connected :
    (host : Host) (calls : ℕ) (c : Candidate) (tries : List Candidate) (opened : Ctx)
    (later : Ctx × Bool) (b : Bool)
    → is_descriptor (host.socket c.0 calls) ≡ b
    → opened.sock ≡ host.socket opened.use6 calls
    → target opened ≡ c
    → Connected host (calls + 1) tries later
    → Connected host calls (c ∷ tries) (elim b [ true ↦ (opened, true) | false ↦ later ])
step-Connected host calls c tries opened later true e at to rest = record {
  before = [];
  after = tries;
  split = ap (λ x. x ∷ tries) (sym to);
  refused = tt;
  sock_is = let none_before : calls + 0 ≡ calls = omega arith in rw none_before at;
  open_is = rw (at, ap (λ (x : Candidate). x.0) to) e;
}
step-Connected host calls c tries opened later false e at to rest =
    later-Connected host calls c tries later e rest

try_addresses-Connected :
    (host : Host) (calls : ℕ) (res : List Address) (ctx : Ctx)
    → Connected host calls (candidates res) (try_addresses host calls res ctx)
unfolding try_addresses
try_addresses-Connected host calls [] ctx = tt
try_addresses-Connected host calls (inet bytes ∷ rest) ctx =
    step-Connected host calls (false, bytes) (candidates rest) _ _ _ refl refl refl
      (try_addresses-Connected host (calls + 1) rest _)
try_addresses-Connected host calls (inet6 bytes ∷ rest) ctx =
    step-Connected host calls (true, bytes) (candidates rest) _ _ _ refl refl refl
      (try_addresses-Connected host (calls + 1) rest _)
try_addresses-Connected host calls (other ∷ rest) ctx = try_addresses-Connected host calls rest ctx

-- What getaddrinfo answers for the port that is asked for, or the default one.
abbrev pub resolved : Host → Text → ℤ → List Candidate
resolved host ip port =
    elim (host.getaddrinfo ip (snprintf 16 (decimal_int (port_or viewer_port port)))) [
      | none ↦ []
      | some res ↦ candidates res
    ]

-- When packter_connect answers a socket, the context sends to the first resolved IPv4 or IPv6 address whose socket opens, with the family and the socket of that address. When it answers -1, no socket opened for any of them.
pub packter_connect-first :
    (host : Host) (ip : Text) (port : ℤ) (ctx : Ctx)
    → Connected host 0 (resolved host ip port) (packter_connect host ip port ctx)
unfolding packter_connect
packter_connect-first host ip port ctx =
    after (host.getaddrinfo ip (snprintf 16 (decimal_int (port_or viewer_port port))))
  where
    after :
        (res : Option (List Address))
        → Connected host 0
            (elim res [ none ↦ [] | some l ↦ candidates l ])
            (elim res [ none ↦ (ctx, false) | some l ↦ try_addresses host 0 l ctx ])
    after none = tt
    after (some l) = try_addresses-Connected host 0 l ctx
