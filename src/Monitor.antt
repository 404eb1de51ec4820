-- ===== src/Monitor.antt =====
-- agent/src/pt_thmon.c: how a captured frame is counted. Here the analysis of a full window is a
-- parameter; Monitor.Run has both.
pub mod Counting
pub mod Ewma
pub mod Alert
pub mod Analysis
pub mod Window
pub mod Run
use packter.Base.{
  ℕ, ◌+◌, ◌-◌, ◌*◌, ◌/◌, ◌%◌, ◌^◌, List, Option, none, some, Bool, true, false, not, ◌&&◌, ◌||◌,
  ltb, leb, ◌==◌, if◌then◌else◌, drop,
}
use Prim.Native.Nat.{bit_and}
use packter.Wire.{byte, be16}

-- The counters of `thmon_state`.
pub record Counts : Type 0 where
  pub all : ℕ
  pub syn : ℕ
  pub fin : ℕ
  pub rst : ℕ
  pub icmp : ℕ
  pub udp : ℕ

-- count_init
unfoldable pub count_init : Counts
count_init = record { all = 0; syn = 0; fin = 0; rst = 0; icmp = 0; udp = 0 }

unfoldable pub bump : Bool → ℕ → ℕ
bump hit n = if hit then n + 1 else n

-- The two tests on `ip->proto` that do not look at the transport header.
unfoldable pub count_proto : ℕ → Counts → Counts
unfolding bump
count_proto proto th = record th {
  udp = bump (proto == 17) th.udp;
  icmp = bump (proto == 1) th.icmp;
}

unfoldable pub count_flags : ℕ → Counts → Counts
unfolding bump
count_flags flags th = record th {
  syn = bump (not (bit_and flags 0x02 == 0)) th.syn;
  fin = bump (not (bit_and flags 0x01 == 0)) th.fin;
  rst = bump (not (bit_and flags 0x04 == 0)) th.rst;
}

-- count_ip4; `none` is a read outside the packet.
unfoldable pub count_ip4 : List ℕ → ℕ → Counts → Option Counts
count_ip4 p len th = if ltb len 20 then some th else elim (byte p 0) [
  | none ↦ none
  | some vhl ↦ if not (vhl / 16 == 4) then some th else elim (byte p 9) [
    | none ↦ none
    | some proto ↦
        if ltb (vhl % 16 * 4) 20 || ltb len (vhl % 16 * 4 + 20)
        then some (count_proto proto th)
        else if proto == 6
        then elim (byte p (vhl % 16 * 4 + 13)) [
          | none ↦ none
          | some flags ↦ some (count_flags flags th)
        ]
        else some (count_proto proto th)
  ]
]

-- From the type of the frame on; `h->caplen - skiplen` wraps at 2 ^ 32. The inner `none` is a frame that is not counted.
unfoldable pub count_payload : List ℕ → ℕ → ℕ → ℕ → Counts → Option (Option Counts)
count_payload p caplen ether_type skiplen th =
    let counted : Counts = record th { all = th.all + 1 } in
    if ether_type == 0x0800
    then elim (count_ip4 (drop skiplen p) ((caplen + 2 ^ 32 - skiplen) % 2 ^ 32) counted) [
      | none ↦ none
      | some th' ↦ some (some th')
    ]
    else if ether_type == 0x86dd
    then some (some counted)
    else some none

-- thmon_cb, up to the test on `count_max`
unfoldable pub count_frame : List ℕ → ℕ → Counts → Option (Option Counts)
count_frame p caplen th = if ltb caplen 14 then some none else elim (be16 p 12) [
  | none ↦ none
  | some ether_type ↦
      if ether_type == 0x8100
      then elim (be16 p 16) [ none ↦ none | some inner ↦ count_payload p caplen inner 18 th ]
      else count_payload p caplen ether_type 14 th
]

-- thmon_cb, with what `analyze` makes of the state that it keeps besides the counters
unfoldable pub thmon_cb {ℓ} :
    {S : Type ℓ} → (Counts → S → S) → ℕ → List ℕ → ℕ → Counts × S → Option (Counts × S)
thmon_cb analyze count_max p caplen (th, s) = elim (count_frame p caplen th) [
  | none ↦ none
  | some none ↦ some (th, s)
  | some (some th') ↦
      if leb count_max th'.all then some (count_init, analyze th' s) else some (th', s)
]
