-- ===== src/Lib.antt =====
-- The packter agent: a C program that turns packets and flow records into the text records of a
-- viewer. What is modelled is the agent's own logic, agent/lib and the six tools of agent/src, as
-- functions on an explicit state.
--
-- The parts and how they interact. Every tool starts with its options (getopt), the checks behind
-- them, packter_connect to the viewer, and packter_drop_privs; a collector then listens with
-- packter_udp_listen. The collector receives a datagram and hands it to packter_flow_decode, which
-- calls the reader of sFlow, NetFlow v9 or IPFIX. The sFlow reader hands each sampled frame to
-- packter_ether_frame; the other two keep templates in a string map and read data sets by them.
-- packter_ether_frame is also what a capture (packter_pcap) and the Snort reader call: it walks
-- Ethernet, IPv4 or IPv6, and TCP, UDP or ICMP, and a UDP payload may be a flow datagram that goes
-- back to packter_flow_decode (option -t), guarded by translate_suspend. Every record is formatted by
-- packter_mesg and goes to packter_send, which limits the rate, collects records for one datagram in
-- bulk mode, and puts an authentication line in front. Beside that stand the replay tool, and the
-- traffic monitor, which counts frames in windows, analyses each full window, and reads its
-- configuration anew on SIGHUP.
--
-- The files:
--   Base      lists, texts, Boolean tests and integers over the native numbers.
--   Agent     include/packter.h and lib/ctx.c: the context, the state World, what comes from outside
--             (Env), and in Agent.Exec the actions on the state. Agent.Keeps has the rules for what
--             an action preserves.
--   Wire      pt_be16 and pt_be32: reads that answer none outside the object.
--   Clock     lib/util.c: packter_rate (rate), packter_diff_sec, packter_diff_usec.
--   Dict      lib/map.c: pt_map_init, _get, _put_once, _clear, and the store through a pointer.
--   Digest    lib/md5.c and lib/sha256.c: pt_md5, pt_sha256, pt_hmac_sha256, executable.
--   Geoip     lib/geoip.c: packter_geoip_lookup (geoip_lookup), with the database that is held open.
--   Mesg      lib/mesg.c: packter_mesg.
--   Send      lib/send.c: agent_line, emit, packter_flush (flush), bulk_window_expired,
--             packter_send (send, deliver, append_record), packter_send_se (send_se). Send.View is
--             the abstract view: the stream of payloads; Send.Limit is about runs of messages, and
--             Send.Signed says what a receiver can check of a datagram. IsSound, the invariant
--             of the whole agent, takes the owner of the id and the key as an instance.
--   Trace     lib/hash.c: packter_hash_ip4, packter_hash_ip6.
--   Proto     lib/proto.c: packter_ether_frame, packter_lback_frame, packter_ip4, packter_ip6 and
--             their handlers; Proto.Walk is ip6_upper_layer.
--   Flow      lib/nf_common.c: nf_template_set in Flow.Templates, nf_flow_set in Flow.Records.
--             Flow.Layout says what a list of field specifiers means.
--   Decode    lib/netflow.c and lib/ipfix.c in Decode.Sets, lib/sflow.c in Decode.Samples, and
--             packter_flow_decode of lib/collector.c.
--   Config    lib/config.c: config_trim, packter_config_parse and what reads the result.
--   Startup   what the tools do before their loops. Startup.Options: the switches and checks that
--             src/pt_agent.c and lib/collector.c share; Startup.Viewer: packter_connect;
--             Startup.Listen: packter_udp_listen (both lib/ctx.c); Startup.Privileges:
--             packter_drop_privs (lib/util.c). A start runs on, or exits with a status (Outcome).
--   Collector packter_collector_run of lib/collector.c: collector_start up to the loop, receive_all
--             for the loop; the tools src/pt_sflow.c, src/pt_netflow.c, src/pt_ipfix.c.
--   Capture   lib/capture.c: packter_pcap with both callbacks. Ending says how a run is over.
--   Replay    src/pt_replay.c: the loop over the lines of a dump, with its pauses (Replay.Pause), and
--             main in Replay.Main. Replay.Acts is the abstract view: a list of messages and pauses.
--   Monitor   src/pt_thmon.c: count_ip4 and thmon_cb, with the analysis as a parameter;
--             Monitor.Ewma has the charts, Monitor.Alert generate_alert, Monitor.Analysis the alarms,
--             Monitor.Window analyze. Monitor.Run puts them together: monitor_frame is thmon_cb with
--             the clock and the analysis, reload is sig_handler, monitor_all a run over events in any
--             order, and Monitor.Run.Main has main.
--   Snort     lib/snort.c: packter_snort, with what becomes of one alert.
--   PtAgent   src/pt_agent.c: main, as agent_start and agent_run.
--   Examples  the theorems at concrete inputs.
--
-- All paths are below agent/. An action is a function from the state to an optional result: none is
-- a read or a write outside an object, a formatted length that would not fit, or fuel that ran out,
-- so that a theorem which gives a result excludes all of them. A pointer into a packet is the list of
-- the bytes from there to the end of the object. The state keeps the datagrams sent, the text
-- printed and the pauses slept as one list of outputs, in order.
--
-- The template map of the context is a pointer: none is NULL, on which a lookup is a fault. A
-- collector and packter_pcap set it; a collector's own map is the same field of the state, since a
-- collector translates nothing itself. pt_agent has no map while it reads the alerts of Snort, nor
-- have the replay tool and the monitor, which look nothing up. IsSound asks for a map where the
-- translation needs one.
--
-- Fuel: the walk over IPv6 headers has as many rounds as the packet has bytes, since each header
-- takes eight of them; the set loops and the flow record loop have as many as the set or the message
-- has bytes; the sample loops have as many as the datagram names, since each stops by itself at the
-- datagram's end; the nesting of decoders is two deep, since translate_suspend stops a third. Integers
-- are natural numbers with the wrap-around written out where the code can reach it: the digests work
-- modulo 2 ^ 32, caplen - skiplen of the monitor wraps at 2 ^ 32, a signed comparison on a 32-bit
-- field is written as a comparison with 2 ^ 31, and atoi cuts a number to a long and casts it to an int.
--
-- Parameters. Env: inet_ntop, gettimeofday and time as one clock, rand, and the GeoIP answers. The
-- clock's seconds are below 2 ^ 63; nothing else is assumed of them. Times are not before the epoch.
-- Host: getopt's list of answers, files, users and groups, setgid and setuid, getaddrinfo, sockets,
-- inet_pton and bind. Pcap: what libpcap opens, and the frames it delivers. AlertSocket: what the
-- socket of Snort delivers. Mmdb: the answers of libmaxminddb, at each attempt to open the file.
-- Floats: arithmetic on float, of which nothing is assumed. Where a theorem needs more of them, it
-- says so in a hypothesis: a process of user 0 may change its numbers, inet_pton knows 127.0.0.1, the
-- lengths a capture names fit. packter_mesg takes the GeoIP answers of one open database; the attempts
-- to open it are a part of Geoip alone.
--
-- A loop that never ends in the source (recv) is a function of the list of what arrives; it holds for
-- every list. A negative count, window or bulk time is written as 0 where the code only ever compares
-- it, so that the comparison answers the same.
--
-- Not modelled: the answer of sendto and the address that it is given, the texts on standard error,
-- the usage texts, setsockopt and setvbuf, the netmask that a capture filter is compiled with, and a
-- SIGHUP in the middle of an analysis: the reload of the model comes between two frames. The broker is
-- another program, and so is the viewer.
pub mod Base
pub mod Agent
pub mod Wire
pub mod Clock
pub mod Dict
pub mod Digest
pub mod Geoip
pub mod Mesg
pub mod Send
pub mod Trace
pub mod Proto
pub mod Flow
pub mod Decode
pub mod Config
pub mod Startup
pub mod Collector
pub mod Capture
pub mod Replay
pub mod Monitor
pub mod Snort
pub mod PtAgent
pub mod Examples
