-- ===== src/Startup/Ready.antt =====
-- The context of a tool that has passed its checks, and what connecting the viewer leaves of it.
use packter.Base.{
  List, [], ℕ, ◌≤◌, ◌≡◌, refl, arith, Option, none, some, Text, true, false, if◌then◌else◌, not,
  ◌&&◌, ap, ltb→le, is_filled, ltb, inl, inr, Bool-cases,
}
use packter.Base.Int.{ℤ, pos, negsuc}
use packter.Agent.{Ctx, Env, Template}
use packter.Startup.{runs, exits, success, failure, Host}
use packter.Startup.Ensures.{Ensures, Ensures-runs, Ensures-exits, Ensures-if}
use packter.Startup.Options.{
  Setup, at_least_one, check_options, require_viewer, connect_viewer, started,
}
use packter.Startup.Viewer.{packter_connect}
use packter.Startup.Viewer.Kept.{IgnoresViewer, packter_connect-kept}
use packter.Send.Emission.{IsSound, HasMap}
use packter.Send.Signed.{owner, translator, needs_cache}
use packter.Send.View.{datagrams}
use packter.Clock.{rate}
use packter.Clock.Difference.{rate_bounds}
use packter.Startup.Limits.{IsWithin, same-IsWithin, idle-IsSound}

-- A context that the checks let through: a key comes with an agent id, and the rate lies below the limit.
pub record IsReady (ctx : Ctx) : Type 0 where
  pub within : IsWithin ctx
  pub keyed : is_filled ctx.psk ≡ true → is_filled ctx.agent_id ≡ true
  pub limit : ℕ
  pub limit_is : ctx.rate_limit ≡ pos limit
  pub drawn : ℕ
  pub rate_is : ctx.rate ≡ pos drawn
  pub at_least : 1 ≤ drawn
  pub at_most : drawn ≤ limit

at_least_one-pos : (z : ℤ) → (n : ℕ) × (at_least_one z ≡ pos n) × (1 ≤ n)
unfolding at_least_one
at_least_one-pos (pos n) = elim (Bool-cases (ltb n 1)) [
  | inl low ↦ (1, rw low refl, omega arith)
  | inr fine ↦ (n, rw fine refl, ltb→le _ _ fine)
]
at_least_one-pos (negsuc n) = (1, refl, omega arith)

pub check_options-IsReady :
    (env : Env) (ctx : Ctx) → IsWithin ctx → Ensures IsReady (check_options env ctx)
unfolding check_options
check_options-IsReady env ctx h =
    let (n, is, one) = at_least_one-pos ctx.rate_limit in
    let (low, high) = rate_bounds n (env.rand 1) one in
    Ensures-if (is_filled ctx.psk && not (is_filled ctx.agent_id)) _ _ (λ _. Ensures-exits failure)
      λ unkeyed. Ensures-runs _ (record {
        within = same-IsWithin ctx _ h refl refl refl refl;
        keyed = λ filled. ground (arith, unkeyed, filled);
        limit = n;
        limit_is = is;
        drawn = rate (pos n) (env.rand 1);
        rate_is = ap (λ z. pos (rate z (env.rand 1))) is;
        at_least = low;
        at_most = high;
      })

pub IsReady-viewer : IgnoresViewer IsReady
IsReady-viewer ctx v6 fd a a6 h = record {
  within = same-IsWithin ctx _ h.within refl refl refl refl;
  keyed = h.keyed;
  limit = h.limit;
  limit_is = h.limit_is;
  drawn = h.drawn;
  rate_is = h.rate_is;
  at_least = h.at_least;
  at_most = h.at_most;
}

module _ (P : Ctx → Type 0) (free : IgnoresViewer P) (host : Host) (s : Setup) where
  pub require_viewer-kept : (ctx : Ctx) → P ctx → Ensures P (require_viewer host s ctx)
  unfolding require_viewer
  require_viewer-kept ctx h = named s.ip
    where
      named :
          (ip : Option Text)
          → Ensures P (elim ip [
            | none ↦ exits success
            | some name ↦
                let (connected, ok) = packter_connect host name s.port ctx in
                if ok then runs connected else exits failure
          ])
      named none = Ensures-exits success
      named (some name) =
          Ensures-if (packter_connect host name s.port ctx).1 _ _
            (λ _. Ensures-runs _ (packter_connect-kept P host name s.port ctx free h))
            (λ _. Ensures-exits failure)

  pub connect_viewer-kept : (ctx : Ctx) → P ctx → Ensures P (connect_viewer host s ctx)
  unfolding connect_viewer
  connect_viewer-kept ctx h =
      Ensures-if ctx.notsend _ _ (λ _. Ensures-runs ctx h) (λ _. require_viewer-kept ctx h)

-- A collector that starts with such a context is sound.
pub started-IsSound :
    (ctx : Ctx)
    → IsReady ctx
    → IsSound ⦃own = owner (started (some []) ctx).ctx⦄ false (started (some []) ctx)
unfolding started datagrams
started-IsSound ctx h =
    idle-IsSound (owner ctx) ctx (some []) [] 1 2 h.within refl refl (λ _. ([], refl)) (λ _. refl)
      tt

-- So is pt_agent once it has a template map, and without one where nothing needs it.
pub started-translator :
    (ctx : Ctx) (templates : Option (List (Text × Template)))
    → IsReady ctx
    → (needs_cache ctx.translate ≡ true → HasMap templates)
    → IsSound ⦃own = translator (started templates ctx).ctx⦄ false (started templates ctx)
unfolding started datagrams
started-translator ctx templates h mapped =
    idle-IsSound (translator ctx) ctx templates [] 1 2 h.within refl refl mapped (λ e. e) tt
