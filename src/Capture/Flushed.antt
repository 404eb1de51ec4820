-- ===== src/Capture/Flushed.antt =====
-- What a capture of agent/lib/capture.c leaves behind.
use packter.Base.{
  ◌≡◌, refl, Bool, true, inl, inr, Bool-cases, ◌≤◌, List, [], ◌∷◌, Option, none, some, Text, false,
  ◌&&◌, length, All,
}
use packter.Agent.{Env, World, Template, printed}
use packter.Agent.Exec.{◌>>=◌, pure, skip, gets, modify, when}
use packter.Proto.{translates}
use packter.Agent.Keeps.{
  Keeps, Keeps-skip, Keeps-modify, Keeps-then, Keeps-when, Keeps-bind, Keeps-gets, Keeps-pure, Runs,
  Runs-bind, Runs-then, Runs-if, Runs-pure, Runs-of_keeps,
}
use packter.Capture.{
  Captured, Pcap, Ending, returned, waits, exited, open_device, open_capture, device_or, Link,
  loopback, ethernet, callback, capture_all, capture_link, packter_pcap, link_of, init_templates,
  is_null,
}
use packter.Decode.{flow_decode}
use packter.Decode.Safety.{capture_frame-IsSound, nested-IsSafe}
use packter.Proto.Safety.{lback_frame-IsSound}
use packter.Send.Signed.{Owner, printed-AllSigned}
use packter.Send.Emission.{IsSound, HasMap}
use packter.Send.{push}
use packter.Send.Safety.{IsFlushed, flush-IsFlushed}
use packter.Startup.{failure}

-- The captured length does not pass what was captured.
abbrev pub FitsCapture : Captured → Type 0
FitsCapture c = c.caplen ≤ length c.p

-- Sound, once there is a template map.
abbrev pub IsBound : ⦃own : Owner⦄ → World → Type 0
IsBound ⦃own⦄ w = IsSound false (record w { templates = some [] })

pub IsSound-IsBound : ⦃own : Owner⦄ (w : World) → IsSound false w → IsBound w
IsSound-IsBound w h = record {
  bulk_fits = h.bulk_fits;
  id_fits = h.id_fits;
  guard = h.guard;
  cached = λ _. ([], refl);
  needed = h.needed;
  own_id = h.own_id;
  own_psk = h.own_psk;
  signed = h.signed;
}

-- Before a capture is opened: a map that the owner has is one that the translation asks for.
abbrev pub IsUnopened : ⦃own : Owner⦄ → World → Type 0
IsUnopened ⦃own⦄ w = IsBound w × (own.cached ≡ true → translates w.ctx.translate ≡ true)

-- The state is sound, and where the call returned nothing is collected any more; at an exit the map may
-- be missing.
abbrev pub IsDone : ⦃own : Owner⦄ → Ending → World → Type 0
IsDone ⦃own⦄ returned w = IsFlushed false w
IsDone ⦃own⦄ waits w = IsSound false w
IsDone ⦃own⦄ (exited status) w = IsBound w

pub IsDone-IsBound : ⦃own : Owner⦄ (ending : Ending) (w : World) → IsDone ending w → IsBound w
IsDone-IsBound returned w h = IsSound-IsBound w h.0
IsDone-IsBound waits w h = IsSound-IsBound w h
IsDone-IsBound (exited status) w h = h

pub pure-IsDone :
    ⦃own : Owner⦄ (ending : Ending) → Runs (IsDone ending) (pure {S = World} ending) IsDone
pure-IsDone ending = Runs-pure ending (λ w h. h)

module _ (env : Env) ⦃own : Owner⦄ where
  callback-IsSound :
      (link : Link) (c : Captured) → FitsCapture c → Keeps (IsSound false) (callback env link c)
  unfolding callback
  callback-IsSound loopback c fits =
      lback_frame-IsSound env false (flow_decode 1 env) (λ _. nested-IsSafe env) c.p c.caplen []
        fits
  callback-IsSound ethernet c fits = capture_frame-IsSound env c.p c.caplen [] fits

  capture_all-IsSound :
      (link : Link) (frames : List Captured)
      → All FitsCapture frames
      → Keeps (IsSound false) (capture_all env link frames)
  unfolding capture_all
  capture_all-IsSound link [] fit = Keeps-skip
  capture_all-IsSound link (c ∷ rest) fit =
      Keeps-then _ _ (callback-IsSound link c fit.0) (capture_all-IsSound link rest fit.1)

  failing : Runs IsUnopened (pure {S = World} (exited failure)) IsDone
  failing = Runs-pure (exited failure) (λ w h. h.0)

  print-IsUnopened : (t : Text) → Keeps IsUnopened (push (printed t))
  unfolding push
  print-IsUnopened t = Keeps-modify _ (λ w (h, same). (
    record {
      bulk_fits = h.bulk_fits;
      id_fits = h.id_fits;
      guard = h.guard;
      cached = h.cached;
      needed = h.needed;
      own_id = h.own_id;
      own_psk = h.own_psk;
      signed = printed-AllSigned own.id own.psk w.out t h.signed;
    },
    same,
  ))

  -- A map is made where there is none and the translation may need one, and so the state is sound.
  init_templates-IsSound : Runs IsUnopened init_templates (λ _. IsSound false)
  unfolding init_templates is_null ◌>>=◌ gets when modify skip pure
  init_templates-IsSound = record {
    at = λ w (h, same). elim (Bool-cases (translates w.ctx.translate && is_null w.templates)) [
      | inl missing ↦ ((tt, record w { templates = some [] }), rw missing refl, h)
      | inr there ↦ (
        (tt, w),
        rw there refl,
        record {
          bulk_fits = h.bulk_fits;
          id_fits = h.id_fits;
          guard = h.guard;
          cached = λ c. set (translates w.ctx.translate) w.templates (same c) there;
          needed = h.needed;
          own_id = h.own_id;
          own_psk = h.own_psk;
          signed = h.signed;
        },
      )
    ];
  }
    where
      set :
          (on : Bool) (templates : Option (List (Text × Template)))
          → on ≡ true
          → (on && is_null templates) ≡ false
          → HasMap templates
      set true none e e' = cc
      set false none e e' = cc
      set on (some map) e e' = (map, refl)

  capture_link-IsDone :
      (pcap : Pcap) (link : Link)
      → All FitsCapture pcap.frames
      → Runs IsUnopened (capture_link env pcap link) IsDone
  unfolding capture_link
  capture_link-IsDone pcap link fit =
      Runs-bind (λ _. IsUnopened) _ _ (Runs-of_keeps (Keeps-gets _))
        λ ctx.
          Runs-then IsUnopened _ _
            (Runs-of_keeps (Keeps-when ctx.debug _ (λ _. print-IsUnopened _)))
            (Runs-then (IsSound false) _ _ init_templates-IsSound (
              Runs-then (IsSound false) _ _
                (Runs-of_keeps (capture_all-IsSound link pcap.frames fit))
                (Runs-if pcap.loop_ends _ _
                  (λ _.
                    Runs-then (IsFlushed false) _ _ (flush-IsFlushed env false)
                      (pure-IsDone returned))
                  (λ _. Runs-pure (exited failure) IsSound-IsBound))))

  open_capture-IsUnopened :
      (pcap : Pcap) (dumpfile device : Option Text)
      → Keeps IsUnopened (open_capture pcap dumpfile device)
  unfolding open_capture
  open_capture-IsUnopened pcap (some dumpfile) device = Keeps-pure _
  open_capture-IsUnopened pcap none device = found (device_or pcap device)
    where
      found :
          (name : Option Text)
          → Keeps IsUnopened
              (elim name [ none ↦ pure false | some device ↦ open_device pcap device ])
      found none = Keeps-pure false
      found (some name) =
          Keeps-bind _ _ (Keeps-gets _)
            λ ctx. Keeps-then _ _ (Keeps-when ctx.debug _ (λ _. print-IsUnopened _)) (Keeps-pure _)

  pub packter_pcap-IsDone :
      (pcap : Pcap) (dumpfile device filter : Option Text)
      → All FitsCapture pcap.frames
      → Runs IsUnopened (packter_pcap env pcap dumpfile device filter) IsDone
  unfolding packter_pcap
  packter_pcap-IsDone pcap dumpfile device filter fit =
      Runs-bind (λ _. IsUnopened) _ _ (Runs-of_keeps (open_capture-IsUnopened pcap dumpfile device))
        λ opened.
          Runs-if (opened && pcap.compile filter && pcap.setfilter) _ _
            (λ _. linked (link_of pcap.datalink)) (λ _. failing)
    where
      linked :
          (link : Option Link)
          → Runs IsUnopened
              (elim link [
                | none ↦ pure (exited failure)
                | some known ↦ capture_link env pcap known
              ])
              IsDone
      linked none = failing
      linked (some known) = capture_link-IsDone pcap known fit
