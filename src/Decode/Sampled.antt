-- ===== src/Decode/Sampled.antt =====
-- sFlow datagrams against the samples that they hold.
use packter.Base.{
  ℕ, ◌+◌, ◌-◌, ◌/◌, ◌%◌, ◌^◌, ◌≤◌, ◌<◌, ◌≡◌, refl, ap, ◌∙◌, arith, List, [], ◌∷◌, ◌++◌,
  append_assoc, some, true, false, ◌||◌, ◌==◌, ltb, leb, drop, drop-past, length, length-append,
  All,
}
use packter.Agent.{Env, World}
use packter.Agent.Exec.{bind-lift, bind-pure, ◌>>=◌, ◌>>◌, pure, skip, lift, gets, when}
use packter.Decode.Samples.{
  FrameHandler, rounds_of, padding, extensions, resume, samples, sflow_read,
}
use packter.Flow.Layout.{be16-drop, drop-two}
use packter.Send.{Action, ask_clock}
use packter.Wire.{be32}

-- A 32-bit number on the wire.
unfoldable pub quad : ℕ → List ℕ
quad v = v / 65536 / 256 ∷ v / 65536 % 256 ∷ v % 65536 / 256 ∷ v % 65536 % 256 ∷ []

-- An extension record: its type, and the 16 bytes that both known layouts have behind it.
pub record Extension : Type 0 where
  pub kind : ℕ
  pub rest : List ℕ

-- A sample: the 40 bytes in front of its length, the second length, the frame, the bytes that fill it up, and the extensions.
pub record Sample : Type 0 where
  pub head : List ℕ
  pub len2 : List ℕ
  pub frame : List ℕ
  pub fill : List ℕ
  pub exts : List Extension

abbrev pub IsExtension : Extension → Type 0
IsExtension x = ((x.kind == 1 || x.kind == 2 || x.kind == 3) ≡ true) × (length x.rest ≡ 16)

pub record IsSample (s : Sample) : Type 0 where
  pub head_fits : length s.head ≡ 40
  pub len2_fits : length s.len2 ≡ 4
  pub frame_fits : length s.frame < 2 ^ 31
  pub fill_fits : length s.fill < 4
  pub aligned : (length s.frame + length s.fill) % 4 ≡ 0
  pub exts_fit : length s.exts < 2 ^ 31
  pub known : All IsExtension s.exts

unfoldable pub ext_wire : List Extension → List ℕ
ext_wire [] = []
ext_wire (x ∷ xs) = quad x.kind ++ (x.rest ++ ext_wire xs)

-- What stands behind the frame.
unfoldable pub behind : Sample → List ℕ → List ℕ
behind s after = s.fill ++ (quad (length s.exts) ++ (ext_wire s.exts ++ after))

unfoldable pub sample_wire : List Sample → List ℕ → List ℕ
sample_wire [] after = after
sample_wire (s ∷ ss) after =
    s.head ++ (quad (length s.frame) ++ (s.len2 ++ (s.frame ++ behind s (sample_wire ss after))))

be32-drop : (p : List ℕ) (i v : ℕ) (rest : List ℕ) → drop i p ≡ quad v ++ rest → be32 p i ≡ some v
unfolding be32 quad
be32-drop p i v rest e =
    rw
      (
        be32,
        be16-drop p i (v / 65536) _ e,
        be16-drop p (i + 2) (v % 65536) _ (drop-two p i _ _ _ e),
      )
      (ap some (omega arith))

length-ext_wire :
    (x : Extension) (xs : List Extension)
    → IsExtension x
    → length (ext_wire (x ∷ xs)) ≡ 20 + length (ext_wire xs)
unfolding ext_wire quad
length-ext_wire x xs known = omega (arith, length-append x.rest (ext_wire xs), known.1)

ext_wire-first :
    (x : Extension) (xs : List Extension) (after : List ℕ)
    → ext_wire (x ∷ xs) ++ after ≡ quad x.kind ++ (x.rest ++ (ext_wire xs ++ after))
unfolding ext_wire quad
ext_wire-first x xs after = rw (append_assoc x.rest (ext_wire xs) after) refl

-- What stands 20 bytes on.
past_first :
    (buf tail : List ℕ) (at : ℕ) (x : Extension)
    → IsExtension x
    → drop at buf ≡ quad x.kind ++ (x.rest ++ tail)
    → drop (at + 20) buf ≡ tail
unfolding quad
past_first buf tail at x known e =
    let four = drop-past (quad x.kind) buf (x.rest ++ tail) at e in
    let all = drop-past x.rest buf tail (at + 4) four in
    let sum : at + 4 + length x.rest ≡ at + 20 = omega (arith, known.1) in rw sum at all

-- The walk over the extensions of a sample ends behind the last.
extensions-end :
    (buf after : List ℕ) (len : ℕ) (xs : List Extension) (at : ℕ)
    → All IsExtension xs
    → drop at buf ≡ ext_wire xs ++ after
    → at + length (ext_wire xs) ≤ len
    → extensions (length xs) buf len at ≡ pure (some (at + length (ext_wire xs)))
unfolding extensions
extensions-end buf after len [] at known e fits =
    let same : at + length (ext_wire []) ≡ at = unfold ext_wire in omega arith in rw same refl
extensions-end buf after len (x ∷ xs) at known e fits =
    let size = length-ext_wire x xs known.0 in
    let first = e ∙ ext_wire-first x xs after in
    let room : ltb len (at + 4) ≡ false = ground (arith, fits, size) in
    let step =
      extensions-end buf after len xs (at + 20) known.1 (past_first buf _ at x known.0 first)
        (omega (arith, fits, size)) in
    let sum : at + 20 + length (ext_wire xs) ≡ at + length (ext_wire (x ∷ xs)) =
      omega (arith, size) in
    rw (extensions, room, be32-drop buf at x.kind _ first, bind-lift, known.0.0, step, sum) refl

-- What becomes of each sample in turn: the frame goes to the handler with its own length.
unfoldable pub each_sample : Env → FrameHandler → List Sample → List ℕ → Action
each_sample env frame [] after = skip
each_sample env frame (s ∷ ss) after = do
  now ← ask_clock env
  done ← frame (s.frame ++ behind s (sample_wire ss after)) (length s.frame) []
  each_sample env frame ss after

-- How many bytes a sample takes.
unfoldable pub block_size : Sample → ℕ
block_size s = 48 + length s.frame + length s.fill + 4 + length (ext_wire s.exts)

unfoldable pub sample_size : List Sample → ℕ
sample_size [] = 0
sample_size (s ∷ ss) = block_size s + sample_size ss

-- Where the parts of the first sample stand.
module _ (buf tail : List ℕ) (at : ℕ) (s : Sample) (h : IsSample s)
    (e : drop at buf
      ≡ s.head ++ (quad (length s.frame) ++ (s.len2 ++ (s.frame ++ behind s tail)))) where
  at_len : drop (at + 40) buf ≡ quad (length s.frame) ++ (s.len2 ++ (s.frame ++ behind s tail))
  at_len = rw (h.head_fits) at (drop-past s.head buf _ at e)

  at_frame : drop (at + 48) buf ≡ s.frame ++ behind s tail
  unfolding quad
  at_frame =
      let len2 = drop-past (quad (length s.frame)) buf _ (at + 40) at_len in
      let all = drop-past s.len2 buf _ (at + 40 + 4) len2 in
      let sum : at + 40 + 4 + length s.len2 ≡ at + 48 = omega (arith, h.len2_fits) in rw sum at all

  at_exts_count :
      drop (at + 48 + length s.frame + length s.fill) buf
      ≡ quad (length s.exts) ++ (ext_wire s.exts ++ tail)
  unfolding behind
  at_exts_count =
      drop-past s.fill buf _ (at + 48 + length s.frame) (drop-past s.frame buf _ (at + 48) at_frame)

  at_exts : drop (at + 48 + length s.frame + length s.fill + 4) buf ≡ ext_wire s.exts ++ tail
  unfolding quad
  at_exts =
      drop-past (quad (length s.exts)) buf _ (at + 48 + length s.frame + length s.fill)
        at_exts_count

  at_next :
      drop (at + 48 + length s.frame + length s.fill + 4 + length (ext_wire s.exts)) buf ≡ tail
  at_next = drop-past (ext_wire s.exts) buf tail _ at_exts

-- The bytes that fill a frame up to a multiple of four.
padding-fill : (n k : ℕ) → k < 4 → (n + k) % 4 ≡ 0 → padding n ≡ k
unfolding padding
padding-fill n k h e = ground (arith, h, e)

rounds_of-small : (n : ℕ) → n < 2 ^ 31 → rounds_of n ≡ n
unfolding rounds_of
rounds_of-small n h = ground (arith, h)

samples-each :
    (env : Env) (frame : FrameHandler) (buf after : List ℕ) (len : ℕ) (ss : List Sample) (at : ℕ)
    → All IsSample ss
    → drop at buf ≡ sample_wire ss after
    → at + sample_size ss ≤ len
    → samples (length ss) env frame buf len at ≡ each_sample env frame ss after
unfolding samples each_sample resume
samples-each env frame buf after len [] at known e fits = refl
samples-each env frame buf after len (s ∷ ss) at known e fits =
    let h = known.0 in
    let tail = sample_wire ss after in
    let opened : drop at buf
        ≡ s.head ++ (quad (length s.frame) ++ (s.len2 ++ (s.frame ++ behind s tail))) =
      unfold sample_wire in e in
    let inside : at + block_size s ≤ len = unfold sample_size in omega (arith, fits) in
    let sized : at + (48 + length s.frame + length s.fill + 4 + length (ext_wire s.exts)) ≤ len =
      unfold block_size in inside in
    let c0 : ltb len (at + 48) ≡ false = ground (arith, sized) in
    let c1 : (leb (2 ^ 31) (length s.frame) || ltb (len - (at + 48)) (length s.frame)) ≡ false =
      ground (arith, sized, h.frame_fits) in
    let c2 : ltb len (at + 48 + length s.frame + length s.fill + 4) ≡ false =
      ground (arith, sized) in
    let exts =
      extensions-end buf tail len s.exts (at + 48 + length s.frame + length s.fill + 4) h.known
        (at_exts buf tail at s h opened) (omega (arith, sized)) in
    let then_rest =
      samples-each env frame buf after len ss
        (at + 48 + length s.frame + length s.fill + 4 + length (ext_wire s.exts)) known.1
        (at_next buf tail at s h opened) (unfold sample_size block_size in omega (arith, fits)) in
    rw
      (
        samples,
        c0,
        be32-drop buf (at + 40) (length s.frame) _ (at_len buf tail at s h opened),
        bind-lift,
        c1,
        at_frame buf tail at s h opened,
        padding-fill (length s.frame) (length s.fill) h.fill_fits h.aligned,
        c2,
        be32-drop buf (at + 48 + length s.frame + length s.fill) (length s.exts) _
            (at_exts_count buf tail at s h opened),
        bind-lift,
        rounds_of-small (length s.exts) h.exts_fit,
        exts,
        bind-pure,
        resume,
        then_rest,
      )
      refl

-- An sFlow v4 datagram whose header counts the samples that stand behind it is handled, outside debug mode, as these samples in turn: each frame goes to the packet decoder once, from its first byte and with its own length, whatever extension records stand between them.
pub sflow_read-each :
    (env : Env) (frame : FrameHandler) (buf after : List ℕ) (len : ℕ) (ss : List Sample) (w : World)
    → w.ctx.debug ≡ false
    → be32 buf 0 ≡ some 4
    → be32 buf 20 ≡ some (length ss)
    → length ss < 2 ^ 31
    → All IsSample ss
    → drop 24 buf ≡ sample_wire ss after
    → 24 + sample_size ss ≤ len
    → sflow_read env frame buf len w ≡ each_sample env frame ss after w
unfolding sflow_read ◌>>=◌ ◌>>◌ lift gets when skip pure
sflow_read-each env frame buf after len ss w silent version counted small known e fits =
    let long : ltb len 24 ≡ false = ground (arith, fits) in
    rw
      (
        sflow_read,
        long,
        version,
        silent,
        counted,
        rounds_of-small (length ss) small,
        samples-each env frame buf after len ss 24 known e fits,
      )
      refl
