-- ===== src/Flow/Sequence.antt =====
-- nf_flow_set against the records that a data set holds.
use packter.Base.{
  Text, drop-past, subst, ltb, ℕ, zero, suc, ◌+◌, ◌≤◌, ◌<◌, ◌≡◌, refl, ◌∙◌, arith, List, [], ◌∷◌,
  ◌++◌, some, true, false, leb, drop, length, length-append, append_assoc, All,
}
use packter.Agent.{Env, World, Template}
use packter.Agent.Exec.{◌>>=◌, ◌>>◌, skip, lift, gets}
use packter.Flow.Local.{flow_record-local}
use packter.Flow.Records.{flow_record, flow_loop, is_usable, flow_found, flow_set}
use packter.Flow.Templates.{template_key}
use packter.Dict
use packter.Wire.{be16}
use packter.Send.{Action}

-- Records one behind the other, and what becomes of each in turn.
unfoldable pub glue : List (List ℕ) → List ℕ
glue [] = []
glue (r ∷ rs) = r ++ glue rs

unfoldable pub each : Env → Template → List (List ℕ) → Action
each env np [] = skip
each env np (r ∷ rs) = flow_record env np r >> each env np rs

-- A record of the template's length.
abbrev pub IsSized : Template → List ℕ → Type 0
IsSized np r = length r ≡ np.record_len

-- Each record takes a byte at least.
length-glue :
    (np : Template) (rs : List (List ℕ))
    → 0 < np.record_len
    → All (IsSized np) rs
    → length rs ≤ length (glue rs)
unfolding glue
length-glue np [] pos sized = omega arith
length-glue np (r ∷ rs) pos sized =
    omega (arith, length-append r (glue rs), sized.0, pos, length-glue np rs pos sized.1)

flow_loop-each :
    (env : Env) (np : Template) (buf after : List ℕ) (setlen slack : ℕ) (rs : List (List ℕ))
    (fuel at : ℕ)
    → 0 < np.record_len
    → slack < np.record_len
    → All (IsSized np) rs
    → drop at buf ≡ glue rs ++ after
    → setlen ≡ at + length (glue rs) + slack
    → length rs ≤ fuel
    → flow_loop fuel env np buf setlen at ≡ each env np rs
unfolding flow_loop each glue
flow_loop-each env np buf after setlen slack [] zero at pos short sized e len enough =
    let over : leb (at + np.record_len) setlen ≡ false = ground (arith, len, short) in rw over refl
flow_loop-each env np buf after setlen slack [] (suc fuel) at pos short sized e len enough =
    let over : leb (at + np.record_len) setlen ≡ false = ground (arith, len, short) in rw over refl
flow_loop-each env np buf after setlen slack (r ∷ rs) zero at pos short sized e len enough =
    absurd (omega (arith, enough))
flow_loop-each env np buf after setlen slack (r ∷ rs) (suc fuel) at pos short sized e len enough =
    let inside : leb (at + np.record_len) setlen ≡ true =
      ground (arith, len, sized.0, length-append r (glue rs)) in
    let here : drop at buf ≡ r ++ (glue rs ++ after) = e ∙ append_assoc r (glue rs) after in
    let there : drop (at + np.record_len) buf ≡ glue rs ++ after =
      subst (λ n. drop (at + n) buf ≡ glue rs ++ after) sized.0 (drop-past r buf _ at here) in
    let then_rest =
      flow_loop-each env np buf after setlen slack rs fuel (at + np.record_len) pos short sized.1
        there (omega (arith, len, sized.0, length-append r (glue rs))) (omega (arith, enough)) in
    rw (flow_loop, inside, here, flow_record-local env np r (glue rs ++ after) sized.0, then_rest)
      (unfold ◌>>◌ in refl)

usable-record_len : (np : Template) → is_usable np ≡ true → 0 < np.record_len
unfolding is_usable
usable-record_len np h = ground (arith, h)

-- A data set whose template is in the cache and usable, and which holds records of the template's length and less than one more at its end, is handled as these records in turn: each by its own bytes alone, none twice and none left out, whatever stands behind the set in the datagram.
pub flow_set-each :
    (env : Env) (w : World) (map : List (Text × Template)) (np : Template) (buf after : List ℕ)
    (setlen slack domain id : ℕ) (rs : List (List ℕ))
    → be16 buf 0 ≡ some id
    → w.templates ≡ some map
    → Dict.get map (template_key domain id) ≡ some np
    → is_usable np ≡ true
    → slack < np.record_len
    → All (IsSized np) rs
    → drop 4 buf ≡ glue rs ++ after
    → setlen ≡ 4 + length (glue rs) + slack
    → flow_set env buf setlen domain w ≡ each env np rs w
unfolding flow_set flow_found ◌>>=◌ lift gets
flow_set-each env w map np buf after setlen slack domain id rs named there found usable short sized
      e len =
    let pos = usable-record_len np usable in
    let long : ltb setlen 4 ≡ false = ground (arith, len) in
    rw
      (
        flow_set,
        long,
        named,
        there,
        found,
        usable,
        flow_loop-each env np buf after setlen slack rs setlen 4 pos short sized e len
            (omega (arith, len, length-glue np rs pos sized)),
      )
      refl
