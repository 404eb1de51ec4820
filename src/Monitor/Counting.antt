-- ===== src/Monitor/Counting.antt =====
-- The counters of a window, and the frames that are read outside what was captured.
use packter.Base.{
  ℕ, zero, suc, [], ◌∷◌, ◌+◌, ◌-◌, ◌*◌, ◌/◌, ◌%◌, ◌^◌, ◌≤◌, ◌<◌, ◌≡◌, refl, ap, List, Option, none,
  some, Bool, true, false, not, ◌||◌, arith, ltb, leb, ◌==◌, if◌then◌else◌, drop, length,
  length-drop, inl, inr, Bool-cases, Option-cases, ltb→le, ltb→lt, leb→lt,
}
use packter.Monitor.{
  Counts, count_init, bump, count_proto, count_flags, count_ip4, count_payload, count_frame,
  thmon_cb,
}
use packter.Wire.{byte, be16}
use packter.Wire.Bounds.{byte-total, be16-total}

-- No class is counted more often than frames: with the last frame still to be put into its class, `slack` is 1.
pub record IsWindow (slack : ℕ) (th : Counts) : Type 0 where
  pub syn_fits : th.syn + slack ≤ th.all
  pub fin_fits : th.fin + slack ≤ th.all
  pub rst_fits : th.rst + slack ≤ th.all
  pub datagrams_fit : th.icmp + th.udp + slack ≤ th.all

count_proto-IsWindow : (proto : ℕ) (th : Counts) → IsWindow 1 th → IsWindow 0 (count_proto proto th)
unfolding count_proto bump
count_proto-IsWindow proto th h = record {
  syn_fits = omega (arith, h.syn_fits);
  fin_fits = omega (arith, h.fin_fits);
  rst_fits = omega (arith, h.rst_fits);
  datagrams_fit = ground (arith, h.datagrams_fit);
}

bump-le : (hit : Bool) (n m : ℕ) → n + 1 ≤ m → bump hit n + 0 ≤ m
unfolding bump
bump-le true n m h = omega arith
bump-le false n m h = omega arith

count_flags-IsWindow : (flags : ℕ) (th : Counts) → IsWindow 1 th → IsWindow 0 (count_flags flags th)
unfolding count_flags
count_flags-IsWindow flags th h = record {
  syn_fits = bump-le _ _ _ h.syn_fits;
  fin_fits = bump-le _ _ _ h.fin_fits;
  rst_fits = bump-le _ _ _ h.rst_fits;
  datagrams_fit = omega (arith, h.datagrams_fit);
}

settled : (th : Counts) → IsWindow 1 th → IsWindow 0 th
settled th h = record {
  syn_fits = omega (arith, h.syn_fits);
  fin_fits = omega (arith, h.fin_fits);
  rst_fits = omega (arith, h.rst_fits);
  datagrams_fit = omega (arith, h.datagrams_fit);
}

count_ip4-IsWindow :
    (p : List ℕ) (len : ℕ) (th : Counts)
    → len ≤ length p
    → IsWindow 1 th
    → (th' : Counts) × (count_ip4 p len th ≡ some th') × IsWindow 0 th' × (th'.all ≡ th.all)
unfolding count_ip4
count_ip4-IsWindow p len th fits h = elim (Bool-cases (ltb len 20)) [
  | inl short ↦ (th, rw short refl, settled th h, refl)
  | inr long ↦
      let (vhl, ev) = byte-total p 0 (omega (arith, ltb→le _ _ long)) in
      let (proto, ep) = byte-total p 9 (omega (arith, ltb→le _ _ long)) in
      elim (Bool-cases (not (vhl / 16 == 4))) [
        | inl other ↦ (th, rw (long, ev, other) refl, settled th h, refl)
        | inr four ↦ elim (Bool-cases (ltb (vhl % 16 * 4) 20 || ltb len (vhl % 16 * 4 + 20))) [
          | inl cut ↦ (
            count_proto proto th,
            rw (long, ev, four, ep, cut) refl,
            count_proto-IsWindow proto th h,
            unfold count_proto in refl,
          )
          | inr whole ↦ elim (Bool-cases (proto == 6)) [
            | inl tcp ↦
                let (flags, ef) = byte-total p (vhl % 16 * 4 + 13) (ground arith) in
                (
                  count_flags flags th,
                  rw (long, ev, four, ep, whole, tcp, ef) refl,
                  count_flags-IsWindow flags th h,
                  unfold count_flags in refl,
                )
            | inr other ↦ (
              count_proto proto th,
              rw (long, ev, four, ep, whole, other) refl,
              count_proto-IsWindow proto th h,
              unfold count_proto in refl,
            )
          ]
        ]
      ]
]

-- What becomes of the counters: nothing, or one frame more.
abbrev pub IsCounted : Counts → Option Counts → Type 0
IsCounted th none = Unit {0}
IsCounted th (some th') = IsWindow 0 th' × (th'.all ≡ th.all + 1)

count_payload-IsCounted :
    (p : List ℕ) (caplen ether_type skiplen : ℕ) (th : Counts)
    → skiplen ≤ caplen
    → caplen ≤ length p
    → caplen < 2 ^ 32
    → IsWindow 0 th
    → (r : Option Counts) × (count_payload p caplen ether_type skiplen th ≡ some r) × IsCounted th r
unfolding count_payload
count_payload-IsCounted p caplen ether_type skiplen th room fits small h =
    let counted : Counts = record th { all = th.all + 1 } in
    let opened : IsWindow 1 counted = record {
      syn_fits = omega (arith, h.syn_fits);
      fin_fits = omega (arith, h.fin_fits);
      rst_fits = omega (arith, h.rst_fits);
      datagrams_fit = omega (arith, h.datagrams_fit);
    } in
    let rest : (caplen + 2 ^ 32 - skiplen) % 2 ^ 32 ≤ length (drop skiplen p) =
      omega (arith, length-drop skiplen p) in
    elim (Bool-cases (ether_type == 0x0800)) [
      | inl ip ↦
          let (th', run, window, same) =
            count_ip4-IsWindow (drop skiplen p) _ counted rest opened in
          (some th', rw (ip, run) refl, (window, same))
      | inr other ↦ elim (Bool-cases (ether_type == 0x86dd)) [
        | inl ip6 ↦ (some counted, rw (other, ip6) refl, (settled counted opened, refl))
        | inr neither ↦ (none, rw (other, neither) refl, tt)
      ]
    ]

-- A captured frame is counted without a read outside it, as no frame or as one frame more in which no class is counted more often than frames are; a frame that is cut below 18 bytes must not have the VLAN tag's type.
pub count_frame-total :
    (p : List ℕ) (caplen : ℕ) (th : Counts)
    → caplen ≤ length p
    → caplen < 2 ^ 32
    → IsWindow 0 th
    → (caplen < 18 → ¬ (be16 p 12 ≡ some 0x8100))
    → (r : Option Counts) × (count_frame p caplen th ≡ some r) × IsCounted th r
unfolding count_frame
count_frame-total p caplen th fits small h whole = elim (Bool-cases (ltb caplen 14)) [
  | inl short ↦ (none, rw short refl, tt)
  | inr long ↦
      let (ether_type, e) = be16-total p 12 (omega (arith, ltb→le _ _ long)) in
      elim (Bool-cases (ether_type == 0x8100)) [
        | inr plain ↦
            let (r, run, is) =
              count_payload-IsCounted p caplen ether_type 14 th (ltb→le _ _ long) fits small h in
            (r, rw (long, e, plain) run, is)
        | inl tagged ↦ elim (Bool-cases (ltb caplen 18)) [
          | inl cut ↦ absurd (whole (ltb→lt _ _ cut) (rw e (ap some (ground arith))))
          | inr held ↦
              let (inner, f) = be16-total p 16 (omega (arith, ltb→le _ _ held)) in
              let (r, run, is) =
                count_payload-IsCounted p caplen inner 18 th (ltb→le _ _ held) fits small h in
              (r, rw (long, e, tagged, f) run, is)
        ]
      ]
]

byte-outside : (p : List ℕ) (i : ℕ) → length p ≤ i → byte p i ≡ none
unfolding byte
byte-outside [] i h = refl
byte-outside (x ∷ p) zero h = absurd (omega arith)
byte-outside (x ∷ p) (suc i) h = byte-outside p i (omega arith)

be16-outside : (p : List ℕ) (i : ℕ) → length p < i + 2 → be16 p i ≡ none
unfolding be16
be16-outside p i h = elim (Option-cases (byte p i)) [
  | inl e ↦ rw (be16, e) refl
  | inr (b, e) ↦ rw (be16, e, byte-outside p (i + 1) (omega arith)) refl
]

pub count_init-IsWindow : IsWindow 0 count_init
unfolding count_init
count_init-IsWindow = record {
  syn_fits = omega arith;
  fin_fits = omega arith;
  rst_fits = omega arith;
  datagrams_fit = omega arith;
}

-- Every frame with a VLAN tag's type that was captured with 14 to 17 bytes is read outside what was captured.
pub count_frame-cut :
    (p : List ℕ) (th : Counts)
    → 14 ≤ length p
    → length p < 18
    → be16 p 12 ≡ some 0x8100
    → count_frame p (length p) th ≡ none
unfolding count_frame
count_frame-cut p th long cut tagged =
    let goes : ltb (length p) 14 ≡ false = ground arith in
    let outside : be16 p 16 ≡ none = be16-outside p 16 cut in rw (goes, tagged, outside) refl

-- A window in which no class is counted more often than frames are, and which is short of `count_max`, stays so over every captured frame that is not a VLAN frame cut below 18 bytes, and nothing is read outside the frame.
pub thmon_cb-IsWindow :
    {S : Type 0} (analyze : Counts → S → S) (count_max : ℕ) (p : List ℕ) (caplen : ℕ) (th : Counts)
    (s : S)
    → caplen ≤ length p
    → caplen < 2 ^ 32
    → IsWindow 0 th
    → th.all < count_max
    → (caplen < 18 → ¬ (be16 p 12 ≡ some 0x8100))
    → (end : Counts × S) × (thmon_cb analyze count_max p caplen (th, s) ≡ some end)
      × IsWindow 0 end.0
      × (end.0.all < count_max)
unfolding thmon_cb count_init
thmon_cb-IsWindow {S = S} analyze count_max p caplen th s fits small h under whole =
    let (r, run, is) = count_frame-total p caplen th fits small h whole in
    rw (thmon_cb, run) (after r is)
  where
    after :
        (r : Option Counts)
        → IsCounted th r
        → (end : Counts × S) × ((elim r [
          | none ↦ some (th, s)
          | some th' ↦
              if leb count_max th'.all then some (count_init, analyze th' s) else some (th', s)
        ])
            ≡ some end)
          × IsWindow 0 end.0
          × (end.0.all < count_max)
    after none is = ((th, s), refl, h, under)
    after (some th') (window, one) = elim (Bool-cases (leb count_max th'.all)) [
      | inl full ↦
          ((count_init, analyze th' s), rw full refl, count_init-IsWindow, omega (arith, under))
      | inr room ↦ ((th', s), rw room refl, window, leb→lt _ _ room)
    ]
