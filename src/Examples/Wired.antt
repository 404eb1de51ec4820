-- ===== src/Examples/Wired.antt =====
-- Witnesses for what arrives: datagrams, frames and packets.
use packter.Snort.{Alert, snort_alert, snort_alert-total}
use packter.Base.{
  ℕ, zero, suc, Bool, not, ◌==◌, ◌&&◌, ◌||◌, ◌+◌, ◌<◌, ◌≡◌, refl, List, [], ◌∷◌, codes, Option,
  none, some, true, false, arith, drop, get_or,
}
use packter.Agent.{World, Trans}
use packter.Examples.{nobody, env, start, start-IsSound, datagram, frame, cut_frame}
use packter.Agent.Exec.{◌>>=◌, ◌>>◌, gets, when, lift, modify}
use packter.Proto.{ether_frame, ether_payload, ip4, ip4_body, handle_udp, translates, set_suspend}
use packter.Decode.Sets.{netflow_read, read_sets, read_set}
use packter.Flow.Records.{flow_set}
use packter.Decode.{decode_datagram, capture_frame, flow_decode}
use packter.Decode.Safety.{decode_datagram-total, capture_frame-total}
use packter.Monitor.{Counts, count_init, count_frame, thmon_cb}
use packter.Monitor.Counting.{IsWindow, count_init-IsWindow, count_frame-cut, thmon_cb-IsWindow}
use packter.Proto.Walk.{ip6_upper_layer}
use packter.Proto.Walk.Bounds.{IsInside, ip6_upper_layer-total}
use packter.Send.Emission.{IsSound}
use packter.Trace.{hash_ip4, ip4_hdrlen}
use packter.Trace.Invariance.{is_kept, hash_ip4_mutable}
use packter.Wire.{byte, be16, be32, span}

decode_datagram-total_example :
    (end : Unit {0} × World) × (decode_datagram env Trans.netflow datagram 48 start ≡ some end)
    × IsSound false end.1
decode_datagram-total_example =
    decode_datagram-total env Trans.netflow datagram 48 start (λ _. refl) (omega arith)
      start-IsSound

capture_frame-total_example :
    (end : Unit {0} × World) × (capture_frame env frame 42 [] start ≡ some end)
    × IsSound false end.1
capture_frame-total_example = capture_frame-total env frame 42 [] start (omega arith) start-IsSound

-- An IPv6 packet with a hop-by-hop header in front of UDP.
abbrev ip6_packet : List ℕ
ip6_packet =
    0x60 ∷ 0 ∷ 0 ∷ 0 ∷ 0 ∷ 16 ∷ 0 ∷ 64 ∷ 0x20 ∷ 1 ∷ 0 ∷ 0 ∷ 0 ∷ 0 ∷ 0 ∷ 0 ∷ 0 ∷ 0 ∷ 0 ∷ 0 ∷ 0 ∷ 0
    ∷ 0 ∷ 1 ∷ 0x20 ∷ 1 ∷ 0 ∷ 0 ∷ 0 ∷ 0 ∷ 0 ∷ 0 ∷ 0 ∷ 0 ∷ 0 ∷ 0 ∷ 0 ∷ 0 ∷ 0 ∷ 2 ∷ 17 ∷ 0 ∷ 0 ∷ 0 ∷ 0
    ∷ 0 ∷ 0 ∷ 0 ∷ 0 ∷ 53 ∷ 0x30 ∷ 0x39 ∷ 0 ∷ 8 ∷ 0 ∷ 0 ∷ []

-- The frame behind a router: another service type, another time to live and another header checksum.
abbrev aged_frame : List ℕ
aged_frame =
    1 ∷ 2 ∷ 3 ∷ 4 ∷ 5 ∷ 6 ∷ 1 ∷ 2 ∷ 3 ∷ 4 ∷ 5 ∷ 7 ∷ 8 ∷ 0 ∷ 0x45 ∷ 8 ∷ 0 ∷ 28 ∷ 0 ∷ 1 ∷ 0 ∷ 0 ∷ 63
    ∷ 17 ∷ 1 ∷ 9 ∷ 10 ∷ 0 ∷ 0 ∷ 1 ∷ 10 ∷ 0 ∷ 0 ∷ 2 ∷ 0 ∷ 53 ∷ 0x30 ∷ 0x39 ∷ 0 ∷ 8 ∷ 0 ∷ 0 ∷ []

ip6_upper_layer-total_example :
    (r : Option (ℕ × ℕ)) × (ip6_upper_layer ip6_packet 56 ≡ some r) × IsInside 56 r
ip6_upper_layer-total_example = ip6_upper_layer-total ip6_packet 56 (omega arith)

-- Whether two packets have the same byte wherever `skip` does not hold, from index i on.
unfoldable agree : (ℕ → Bool) → ℕ → List ℕ → List ℕ → Bool
agree skip i [] [] = true
agree skip i [] (y ∷ ys) = false
agree skip i (x ∷ xs) [] = false
agree skip i (x ∷ xs) (y ∷ ys) = (skip i || x == y) && agree skip (i + 1) xs ys

agree_sound :
    (skip : ℕ → Bool) (i : ℕ) (xs ys : List ℕ)
    → agree skip i xs ys ≡ true
    → (j : ℕ) → skip (i + j) ≡ false
    → get_or xs j 0 ≡ get_or ys j 0
unfolding agree
agree_sound skip i [] [] h j e = refl
agree_sound skip i [] (y ∷ ys) h j e = cc
agree_sound skip i (x ∷ xs) [] h j e = cc
agree_sound skip i (x ∷ xs) (y ∷ ys) h zero e =
    let here : skip i ≡ false = ground (arith, e) in ground (arith, here, h)
agree_sound skip i (x ∷ xs) (y ∷ ys) h (suc j) e =
    let step : i + suc j ≡ i + 1 + j = omega arith in
    agree_sound skip (i + 1) xs ys (ground (arith, h)) j (rw step at e)

kept : (i : ℕ) → is_kept (ip4_hdrlen 0x45) i ≡ true → not (is_kept 20 (0 + i)) ≡ false
unfolding ip4_hdrlen
kept i same = let e : 0 + i ≡ i = omega arith in rw (e, same) refl

hash_ip4_mutable_example : hash_ip4 (drop 14 frame) 28 ≡ hash_ip4 (drop 14 aged_frame) 28
hash_ip4_mutable_example =
    hash_ip4_mutable (drop 14 frame) (drop 14 aged_frame) 28 (omega arith) (omega arith)
      (λ i lt same.
        agree_sound (λ j. not (is_kept 20 j)) 0 (drop 14 frame) (drop 14 aged_frame)
          (unfold agree is_kept in refl) i (kept i same))

thmon_cb-IsWindow_example :
    (end : Counts × ℕ) × (thmon_cb (λ th n. n + th.udp) 500 frame 42 (count_init, 0) ≡ some end)
    × IsWindow 0 end.0
    × (end.0.all < 500)
thmon_cb-IsWindow_example =
    thmon_cb-IsWindow (λ th n. n + th.udp) 500 frame 42 count_init 0 (omega arith) (omega arith)
      count_init-IsWindow (unfold count_init in omega arith) (λ short. absurd (omega arith))

abbrev alert : Alert
alert = record {
  alertmsg = codes "scan";
  caplen = 42;
  pkt = frame;
  sig_generator = 1;
  sig_id = 1000;
  sig_rev = 3;
}

snort_alert-total_example :
    (end : Unit {0} × World) × (snort_alert env alert start ≡ some end) × IsSound false end.1
snort_alert-total_example = snort_alert-total env alert start (omega arith) start-IsSound

count_frame-cut_example : count_frame cut_frame 16 count_init ≡ none
count_frame-cut_example =
    count_frame-cut cut_frame count_init (omega arith) (omega arith) (unfold be16 byte in refl)

-- An alert whose UDP payload is a NetFlow v9 datagram with one data set.
abbrev flow_alert : Alert
flow_alert = record alert {
  caplen = 70;
  pkt =
      1 ∷ 2 ∷ 3 ∷ 4 ∷ 5 ∷ 6 ∷ 1 ∷ 2 ∷ 3 ∷ 4 ∷ 5 ∷ 7 ∷ 8 ∷ 0 ∷ 0x45 ∷ 0 ∷ 0 ∷ 56 ∷ 0 ∷ 1 ∷ 0 ∷ 0 ∷ 64
      ∷ 17 ∷ 0 ∷ 0 ∷ 10 ∷ 0 ∷ 0 ∷ 1 ∷ 10 ∷ 0 ∷ 0 ∷ 2 ∷ 0 ∷ 53 ∷ 0x30 ∷ 0x39 ∷ 0 ∷ 36 ∷ 0 ∷ 0 ∷ 0 ∷ 9
      ∷ 0 ∷ 1 ∷ 0 ∷ 0 ∷ 0 ∷ 0 ∷ 0 ∷ 0 ∷ 0 ∷ 0 ∷ 0 ∷ 0 ∷ 0 ∷ 0 ∷ 0 ∷ 0 ∷ 0 ∷ 7 ∷ 1 ∷ 0 ∷ 0 ∷ 8 ∷ 1
      ∷ 2 ∷ 3 ∷ 4 ∷ [];
}

-- Translated by an agent that has no template map, it faults.
snort_alert-flow_set :
    snort_alert env flow_alert
      (record start { ctx = record (start.ctx) { translate = Trans.netflow }; templates = none })
    ≡ none
unfolding snort_alert start ◌>>=◌ gets ◌>>◌ when capture_frame ether_frame lift be16 be32 byte span
    ether_payload ip4 ip4_hdrlen ip4_body handle_udp translates set_suspend modify flow_decode
    netflow_read read_sets read_set flow_set
snort_alert-flow_set = refl
