-- ===== src/Capture.antt =====
-- packter_pcap of agent/lib/capture.c: a capture is opened, every frame is handled, and what is still
-- collected is sent. What libpcap answers is a parameter.
pub mod Flushed
use packter.Base.{
  ℕ, List, [], ◌∷◌, ◌++◌, Option, none, some, Text, codes, newline, Bool, true, false, not, ◌&&◌,
  ◌||◌, ◌==◌, if◌then◌else◌,
}
use packter.Base.Int.{ℤ, pos, negsuc}
use packter.Agent.{Env, World, printed}
use packter.Agent.Exec.{Exec, ◌>>=◌, ◌>>◌, pure, skip, gets, modify, when}
use packter.Decode.{flow_decode, capture_frame}
use packter.Proto.{lback_frame, translates}
use packter.Send.{Action, push, flush}
use packter.Startup.{Status, failure}

-- What pcap_loop hands to the callback: the bytes, of which `caplen` were captured.
pub record Captured : Type 0 where
  pub p : List ℕ
  pub caplen : ℕ

-- The calls of libpcap, in the order in which they are made; a failed one is `false` or `none`.
-- `frames` is what pcap_loop delivers, and `loop_ends` whether it then ends without an error.
pub record Pcap : Type 0 where
  pub open_offline : Text → Bool
  pub findalldevs : Option Text
  pub open_live : Text → ℕ → Bool
  pub compile : Option Text → Bool
  pub setfilter : Bool
  pub datalink : ℤ
  pub frames : List Captured
  pub loop_ends : Bool

-- How a run ends: the function returns, the process exits, or it waits for more input.
pub data Ending : Type 0 where
  returned waits : Ending
  exited : Status → Ending

-- PACKTER_SNAPLEN
abbrev pub snaplen : ℕ
snaplen = 128

-- The device that is named, or the first one there is.
unfoldable pub device_or : Pcap → Option Text → Option Text
device_or pcap none = pcap.findalldevs
device_or pcap (some device) = some device

-- pcap_open_live, on whole datagrams where they are translated
unfoldable pub open_device : Pcap → Text → Exec World Bool
open_device pcap device = do
  ctx ← gets (λ w. w.ctx)
  when ctx.debug (push (printed (codes "device = " ++ (device ++ (newline ∷ [])))))
  pure (pcap.open_live device (if translates ctx.translate then 65535 else snaplen))

-- From a dump file, or live
unfoldable pub open_capture : Pcap → Option Text → Option Text → Exec World Bool
unfolding open_device device_or
open_capture pcap (some dumpfile) device = pure (pcap.open_offline dumpfile)
open_capture pcap none device = elim (device_or pcap device) [
  | none ↦ pure false
  | some name ↦ open_device pcap name
]

-- DLT_NULL and DLT_EN10MB, the two link types that are known
pub data Link : Type 0 where
  loopback ethernet : Link

unfoldable pub link_of : ℤ → Option Link
link_of (pos n) = if n == 0 then some loopback else if n == 1 then some ethernet else none
link_of (negsuc n) = none

unfoldable pub link_line : Link → Text
link_line loopback = codes "linktype = LoopBack" ++ (newline ∷ [])
link_line ethernet = codes "linktype = Ethernet" ++ (newline ∷ [])

-- lback_cb, ether_cb
unfoldable pub callback : Env → Link → Captured → Action
callback env loopback c = lback_frame env (flow_decode 1 env) c.p c.caplen []
callback env ethernet c = capture_frame env c.p c.caplen []

-- A null pointer
unfoldable pub is_null : {A : Type 0} → Option A → Bool
is_null none = true
is_null (some a) = false

-- pcap_loop, on the frames that it delivers
unfoldable pub capture_all : Env → Link → List Captured → Action
capture_all env link [] = skip
capture_all env link (c ∷ rest) = callback env link c >> capture_all env link rest

-- `translate_templates` points to a fresh map where a translation has none yet.
unfoldable pub init_templates : Action
init_templates = do
  w ← gets (λ w. w)
  when (translates w.ctx.translate && is_null w.templates)
      (modify (λ w. record w { templates = some [] }))

-- From the switch on the link type on
unfoldable pub capture_link : Env → Pcap → Link → Exec World Ending
capture_link env pcap link = do
  ctx ← gets (λ w. w.ctx)
  when ctx.debug (push (printed (link_line link)))
  init_templates
  capture_all env link pcap.frames
  if pcap.loop_ends then flush env >> pure returned else pure (exited failure)

-- packter_pcap
unfoldable pub packter_pcap :
    Env → Pcap → Option Text → Option Text → Option Text → Exec World Ending
packter_pcap env pcap dumpfile device filter = do
  opened ← open_capture pcap dumpfile device
  if opened && pcap.compile filter && pcap.setfilter
      then elim (link_of pcap.datalink) [
        | none ↦ pure (exited failure)
        | some link ↦ capture_link env pcap link
      ]
      else pure (exited failure)
