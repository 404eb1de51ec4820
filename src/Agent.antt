-- ===== src/Agent.antt =====
-- agent/include/packter.h: the runtime context `packter_ctx`, the rest of the process's state, and
-- what the agent takes from outside (clock, random numbers, address printing, GeoIP lookup).
pub mod Exec
pub mod Keeps
use packter.Base.{ℕ, ◌+◌, ◌<◌, ◌^◌, ◌≤◌, List, [], Text, Option, Bool, false, length}
use packter.Base.Int.{ℤ, pos, negsuc}

-- struct timeval, at times that are not before the epoch
pub record Timeval : Type 0 where
  pub sec : ℕ
  pub usec : ℕ

-- PT_TRANS_*
pub data Trans : Type 0 where
  off sflow netflow ipfix : Trans

-- `bulk_buf` holds the first `bulk_len` bytes of the buffer, and `psk` the first `psk_len` of the key.
-- `bulk_ms` is 0 for every value below 1: the only test on it is `> 0`. `addr` and `addr6` are the
-- bytes of the address that was copied there last.
pub record Ctx : Type 0 where
  pub debug : Bool
  pub notsend : Bool
  pub trace : Bool
  pub snort_report : Bool
  pub enable_sound : Bool
  pub geoip : Bool
  pub use6 : Bool
  pub flagbase : ℤ
  pub rate_limit : ℤ
  pub rate : ℤ
  pub sock : ℤ
  pub addr : List ℕ
  pub addr6 : List ℕ
  pub trace_server : Text
  pub geoip_datfile : Text
  pub bulk_ms : ℕ
  pub bulk_buf : List ℕ
  pub bulk_first : Timeval
  pub agent_id : Text
  pub psk : List ℕ
  pub translate : Trans
  pub translate_suspend : Bool

-- The offsets of the fields in a flow record (lib/nf_common.h); `none` is NF_ABSENT.
pub record Template : Type 0 where
  pub l3_src : Option ℕ
  pub l3_dst : Option ℕ
  pub l4_src : Option ℕ
  pub l4_dst : Option ℕ
  pub isv6 : Bool
  pub proto : Option ℕ
  pub icmp : Option ℕ
  pub tcp_flags : Option ℕ
  pub record_len : ℕ

-- What the process does that is seen: a datagram by `sendto`, text on standard output, or a sleep of so
-- many microseconds by `usleep`.
pub data Output : Type 0 where
  sent : List ℕ → Output
  printed : List ℕ → Output
  slept : ℕ → Output

-- The state: the context, the template map that is handed to packter_flow_decode, the outputs in order,
-- and how often the clock and `rand` have been asked. The map is a collector's own, or the one that
-- `translate_templates` of the context points to; `none` is a null pointer, as packter_ctx_init leaves it.
pub record World : Type 0 where
  pub ctx : Ctx
  pub templates : Option (List (Text × Template))
  pub out : List Output
  pub clock_reads : ℕ
  pub rand_calls : ℕ

-- The functions outside the repository that the agent calls. `now` and `rand` are indexed by the
-- number of the call. Times are below 2 ^ 63, the range of `time_t`.
pub record Env : Type 0 where
  pub inet_ntop4 : List ℕ → Text
  pub inet_ntop6 : List ℕ → Text
  pub now : ℕ → Timeval
  pub rand : ℕ → ℕ
  pub geoip_lookup : Text → Option Text
  pub now_bound : (n : ℕ) → (now n).sec < 2 ^ 63

-- packter_ctx_init, with `rate` as `packter_rate(1)` gives it
unfoldable pub ctx_init : Ctx
ctx_init = record {
  debug = false;
  notsend = false;
  trace = false;
  snort_report = false;
  enable_sound = false;
  geoip = false;
  use6 = false;
  flagbase = pos 0;
  rate_limit = pos 1;
  rate = pos 1;
  sock = negsuc 0;
  addr = [];
  addr6 = [];
  trace_server = [];
  geoip_datfile = [];
  bulk_ms = 0;
  bulk_buf = [];
  bulk_first = record { sec = 0; usec = 0 };
  agent_id = [];
  psk = [];
  translate = Trans.off;
  translate_suspend = false;
}
