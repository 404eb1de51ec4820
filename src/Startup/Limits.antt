-- ===== src/Startup/Limits.antt =====
-- What every command line that is accepted makes of the context.
use packter.Base.{
  ℕ, ◌≤◌, ◌≡◌, refl, arith, List, [], ◌∷◌, Option, none, some, Text, true, false, ◌∙◌, length,
  length-take, All, snprintf, ◌==◌,
}
use packter.Base.Int.{ℤ}
use packter.Agent.{Ctx, ctx_init, Output, Template}
use packter.Send.Emission.{IsSound, HasMap}
use packter.Send.Signed.{Owner, needs_cache, AllSigned}
use packter.Startup.Viewer.Kept.{IgnoresViewer}
use packter.Startup.{Outcome, Host}
use packter.Startup.Ensures.{Ensures, Ensures-runs, Ensures-if, Ensures-bind, Ensures-require}
use packter.Startup.Options.{Setup, agent_id_max, common_option, psk_option, read_options}
use packter.Send.Key.{load_psk, checked, psk_max, chomp}
use packter.Config.{fgets, c_string}

-- The buffers of the context hold what they are given, and nothing is collected or translated yet.
pub record IsWithin (ctx : Ctx) : Type 0 where
  pub id_fits : length ctx.agent_id ≤ 63
  pub psk_fits : length ctx.psk ≤ 128
  pub nothing_held : ctx.bulk_buf ≡ []
  pub guard : ctx.translate_suspend ≡ false

pub ctx_init-IsWithin : IsWithin ctx_init
unfolding ctx_init
ctx_init-IsWithin = record {
  id_fits = omega arith;
  psk_fits = omega arith;
  nothing_held = refl;
  guard = refl;
}

checked-length : (key psk : Text) → checked key ≡ some psk → length psk ≤ 128
unfolding checked
checked-length key psk e = ground arith

load_psk-length : (file : Text) (psk : List ℕ) → load_psk file ≡ some psk → length psk ≤ 128
unfolding load_psk
load_psk-length file psk h = first_line (fgets psk_max psk_max file) h
  where
    first_line :
        (lines : List Text)
        → (elim lines [ [] ↦ none | line ∷ more ↦ checked (chomp (c_string line)) ]) ≡ some psk
        → length psk ≤ 128
    first_line [] e = cc
    first_line (line ∷ more) e = checked-length _ psk e

abbrev pub Within : Setup → Type 0
Within s = IsWithin s.ctx

-- A change of the context that leaves the four fields as they are.
pub same-IsWithin :
    (ctx ctx' : Ctx)
    → IsWithin ctx
    → ctx'.agent_id ≡ ctx.agent_id
    → ctx'.psk ≡ ctx.psk
    → ctx'.bulk_buf ≡ ctx.bulk_buf
    → ctx'.translate_suspend ≡ ctx.translate_suspend
    → IsWithin ctx'
same-IsWithin ctx ctx' h i p b g = record {
  id_fits = rw i h.id_fits;
  psk_fits = rw p h.psk_fits;
  nothing_held = b ∙ h.nothing_held;
  guard = g ∙ h.guard;
}

-- What the options that both tools know leave as it was: a predicate that looks at the four fields of
-- the context at most, and not at the names of viewer, user and group.
pub record IsCarried (P : Setup → Type 0) : Type 0 where
  pub ctx_kept :
      (s : Setup) (ctx' : Ctx)
      → P s
      → ctx'.agent_id ≡ s.ctx.agent_id
      → ctx'.psk ≡ s.ctx.psk
      → ctx'.bulk_buf ≡ s.ctx.bulk_buf
      → ctx'.translate_suspend ≡ s.ctx.translate_suspend
      → P (record s { ctx = ctx' })
  pub names_kept :
      (s : Setup) (ip : Option Text) (port : ℤ) (user group : Option Text)
      → P s
      → P (record s { ip = ip; port = port; user = user; group = group })
  pub id_kept :
      (s : Setup) (id : Text)
      → length id ≤ 63
      → P s
      → P (record s { ctx = record (s.ctx) { agent_id = id } })
  pub psk_kept :
      (s : Setup) (psk : List ℕ)
      → length psk ≤ 128
      → P s
      → P (record s { ctx = record (s.ctx) { psk = psk } })

short_id : (optarg : Text) → length (snprintf agent_id_max optarg) ≤ 63
unfolding snprintf
short_id optarg = omega (arith, length-take 63 optarg)

module _ (P : Setup → Type 0) (c : IsCarried P) where
  psk_option-kept :
      (host : Host) (file : Text) (s : Setup) → P s → Ensures P (psk_option host file s)
  unfolding psk_option
  psk_option-kept host file s h = Ensures-require (host.fopen file) _ λ content _.
      Ensures-require (load_psk content) _
        λ psk e. Ensures-runs _ (c.psk_kept s psk (load_psk-length content psk e) h)

  pub common_option-kept :
      (host : Host) (op : ℕ) (optarg : Text) (s : Setup) (rest : Outcome Setup)
      → P s
      → Ensures P rest
      → Ensures P (common_option host op optarg s rest)
  unfolding common_option
  common_option-kept host op optarg s rest h k =
      Ensures-if (op == b'f') _ _ (λ _. Ensures-runs _ (c.ctx_kept s _ h refl refl refl refl))
        λ _.
          Ensures-if (op == b'd') _ _ (λ _. Ensures-runs _ (c.ctx_kept s _ h refl refl refl refl))
            λ _.
              Ensures-if (op == b'v') _ _ (λ _. Ensures-runs _ (c.names_kept s _ _ _ _ h))
                λ _.
                  Ensures-if (op == b'p') _ _ (λ _. Ensures-runs _ (c.names_kept s _ _ _ _ h))
                    λ _.
                      Ensures-if (op == b's') _ _
                        (λ _. Ensures-runs _ (c.ctx_kept s _ h refl refl refl refl))
                        λ _.
                          Ensures-if (op == b'u') _ _
                            (λ _. Ensures-runs _ (c.names_kept s _ _ _ _ h))
                            λ _.
                              Ensures-if (op == b'g') _ _
                                (λ _. Ensures-runs _ (c.names_kept s _ _ _ _ h))
                                λ _.
                                  Ensures-if (op == b'n') _ _
                                    (λ _. Ensures-runs _ (c.ctx_kept s _ h refl refl refl refl))
                                    λ _.
                                      Ensures-if (op == b'R') _ _
                                        (λ _. Ensures-runs _ (c.ctx_kept s _ h refl refl refl refl))
                                        λ _.
                                          Ensures-if (op == b'B') _ _
                                            (λ _.
                                              Ensures-runs _ (c.ctx_kept s _ h refl refl refl refl))
                                            λ _.
                                              Ensures-if (op == b'A') _ _
                                                (λ _.
                                                  Ensures-runs _
                                                    (c.id_kept s _ (short_id optarg) h))
                                                λ _.
                                                  Ensures-if (op == b'K') _ _
                                                    (λ _. psk_option-kept host optarg s h) λ _. k

pub read_options-kept :
    (P : Setup → Type 0) (switch : ℕ → Text → Setup → Outcome Setup) (Given : ℕ → Type 0)
    → ((op : ℕ) (optarg : Text) (s : Setup) → Given op → P s → Ensures P (switch op optarg s))
    → (given : List (ℕ × Text)) (s : Setup) → All (λ (o : ℕ × Text). Given o.0) given
    → P s
    → Ensures P (read_options switch given s)
unfolding read_options
read_options-kept P switch Given kept [] s g h = Ensures-runs s h
read_options-kept P switch Given kept ((op, optarg) ∷ rest) s g h =
    Ensures-bind (switch op optarg s) _ (kept op optarg s g.0 h)
      (λ s' h'. read_options-kept P switch Given kept rest s' g.1 h')

-- Any letters at all.
pub All-any : (given : List (ℕ × Text)) → All (λ (o : ℕ × Text). Unit {0}) given
All-any [] = tt
All-any (o ∷ rest) = (tt, All-any rest)

pub Within-carried : IsCarried Within
Within-carried = record {
  ctx_kept = λ s ctx' h i p b g. same-IsWithin s.ctx ctx' h i p b g;
  names_kept = λ s ip port user group h. h;
  id_kept = λ s id fits h. record {
    id_fits = fits;
    psk_fits = h.psk_fits;
    nothing_held = h.nothing_held;
    guard = h.guard;
  };
  psk_kept = λ s psk fits h. record {
    id_fits = h.id_fits;
    psk_fits = fits;
    nothing_held = h.nothing_held;
    guard = h.guard;
  };
}

pub IsWithin-viewer : IgnoresViewer IsWithin
IsWithin-viewer ctx v6 fd a a6 h = same-IsWithin ctx _ h refl refl refl refl

-- The state of a tool that has done nothing yet.
pub idle-IsSound :
    (own : Owner) (ctx : Ctx) (templates : Option (List (Text × Template))) (out : List Output)
    (clock_reads rand_calls : ℕ)
    → IsWithin ctx
    → ctx.agent_id ≡ own.id
    → ctx.psk ≡ own.psk
    → (own.cached ≡ true → HasMap templates)
    → (needs_cache ctx.translate ≡ true → own.cached ≡ true)
    → AllSigned own.id own.psk out
    → IsSound ⦃own = own⦄ false (record {
      ctx = ctx;
      templates = templates;
      out = out;
      clock_reads = clock_reads;
      rand_calls = rand_calls;
    })
idle-IsSound own ctx templates out clock_reads rand_calls h same_id same_psk mapped needed unsent =
    record {
      bulk_fits = rw h.nothing_held (omega arith);
      id_fits = h.id_fits;
      guard = h.guard;
      cached = mapped;
      needed = needed;
      own_id = same_id;
      own_psk = same_psk;
      signed = unsent;
    }
