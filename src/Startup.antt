-- ===== src/Startup.antt =====
-- How the tools of agent/src start: what may end a process, what the host answers, and the steps that
-- agent/lib/ctx.c, agent/lib/util.c and the command lines share.
pub mod Privileges
pub mod Viewer
pub mod Listen
pub mod Options
pub mod Ensures
pub mod Limits
pub mod Ready
use packter.Base.{ℕ, ◌≡◌, refl, List, Option, none, some, Text, Bool}
use packter.Base.Int.{ℤ}

-- EXIT_SUCCESS, EXIT_FAILURE
pub data Status : Type 0 where
  success failure : Status

-- A call that returns, or that ends the process by `exit`.
pub data Outcome {ℓ} (A : Type ℓ) : Type ℓ where
  runs : A → Outcome A
  exits : Status → Outcome A

infixl 5 ◌>>=◌
abbrev pub ◌>>=◌ {ℓ κ} : {A : Type ℓ} {B : Type κ} → Outcome A → (A → Outcome B) → Outcome B
runs a >>= k = k a
exits status >>= k = exits status

-- A lookup or a system call whose failure ends the process by `exit(EXIT_FAILURE)`.
abbrev pub require {ℓ} : {A : Type ℓ} → Option A → Outcome A
require none = exits failure
require (some a) = runs a

-- The numbers that a process runs under.
pub record Creds : Type 0 where
  pub uid : ℕ
  pub gid : ℕ

-- One result of getaddrinfo: its family, AF_INET, AF_INET6 or another, and the `ai_addrlen` bytes at
-- `ai_addr`.
pub data Address : Type 0 where
  inet inet6 : List ℕ → Address
  other : Address

-- What the system and the C library answer. `getopt` is the list of its answers, each with `optarg`,
-- and `operand` the argument behind the options; `socket` knows whether
-- AF_INET6 is asked for, and how many calls came before, and `listen_socket` is its answer to
-- packter_udp_listen; a
-- failed call is `none`, `false`, or a negative descriptor.
pub record Host : Type 0 where
  pub getopt : Text → List Text → List (ℕ × Text)
  pub operand : Text → List Text → Option Text
  pub fopen : Text → Option Text
  pub getgrnam : Text → Option ℕ
  pub getpwnam : Text → Option (ℕ × ℕ)
  pub setgid : ℕ → Creds → Option Creds
  pub setuid : ℕ → Creds → Option Creds
  pub getaddrinfo : Text → Text → Option (List Address)
  pub socket : Bool → ℕ → ℤ
  pub listen_socket : ℤ
  pub inet_pton4 : Text → Option (List ℕ)
  pub inet_pton6 : Text → Option (List ℕ)
  pub bind : List ℕ → ℕ → Bool

-- A returning bind, taken apart.
pub >>=-eq-runs {ℓ κ} :
    {A : Type ℓ} {B : Type κ} (m : Outcome A) (k : A → Outcome B) {b : B}
    → (m >>= k) ≡ runs b
    → (a : A) × (m ≡ runs a) × (k a ≡ runs b)
>>=-eq-runs (runs a) k h = (a, refl, h)
>>=-eq-runs (exits status) k h = cc
