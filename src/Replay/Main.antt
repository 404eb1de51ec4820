-- ===== src/Replay/Main.antt =====
-- main of agent/src/pt_replay.c, and what a whole replay sends.
use packter.Base.{
  ℕ, ◌≡◌, refl, arith, List, [], Option, none, some, Text, codes, true, false, ◌==◌, if◌then◌else◌,
  All,
}
use packter.Base.Int.{pos}
use packter.Base.Scan.{atoi}
use packter.Agent.{Ctx, Env, World, ctx_init}
use packter.Agent.Exec
use packter.Agent.Exec.{Exec, ◌>>◌, pure, skip}
use packter.Capture.{Ending, returned, exited}
use packter.Config.{fgets}
use packter.Replay.{replay, c_strings}
use packter.Replay.Batches.{glued, data_lines, replay-sends, IsShort}
use packter.Startup.{Outcome, runs, exits, success, failure, ◌>>=◌, Creds, Host}
use packter.Startup.Ensures.{
  Ensures, Ensures-runs, Ensures-exits, Ensures-if, Ensures-bind, Ensures-any,
}
use packter.Startup.Limits.{read_options-kept, All-any}
use packter.Startup.Ready.{require_viewer-kept}
use packter.Startup.Viewer.Kept.{IgnoresViewer}
use packter.Send.View.{datagrams}
use packter.Replay.Direct.{Has, perform-Has}
use packter.Startup.Options.{Setup, fresh, set_ctx, read_options, require_viewer}
use packter.Startup.Privileges.{drop_privs}

-- The switch; `dumpfile` is `textfile` of the source.
unfoldable pub replay_option : ℕ → Text → Setup → Outcome Setup
replay_option op optarg s =
    if op == b'd'
    then set_ctx s (record (s.ctx) { debug = true })
    else if op == b'v'
    then runs (record s { ip = some optarg })
    else if op == b'p'
    then runs (record s { port = atoi optarg })
    else if op == b'r'
    then runs (record s { dumpfile = some optarg })
    else if op == b'u'
    then runs (record s { user = some optarg })
    else if op == b'g'
    then runs (record s { group = some optarg })
    else exits success

-- main up to the replay, which starts as `ctx_init` left the state
unfoldable pub replay_start : Host → List Text → Creds → Outcome (Text × World)
replay_start host argv creds = do
  s ← read_options replay_option (host.getopt (codes "v:r:p:u:g:dh?") argv) (fresh [] (pos 0))
  elim s.dumpfile [
    | none ↦ exits success
    | some textfile ↦ (do
      ctx ← require_viewer host s s.ctx
      creds' ← drop_privs host s.user s.group creds
      runs (
        textfile,
        record { ctx = ctx; templates = none; out = []; clock_reads = 1; rand_calls = 1 },
      ))
  ]

-- replay, which exits where the file does not open
unfoldable pub replay_run : Host → Env → Text → Exec World Ending
replay_run host env textfile = elim (host.fopen textfile) [
  | none ↦ pure (exited failure)
  | some file ↦ replay env file >> pure returned
]

-- What the options of the replay leave: a context without -A, -B, -R and -n.
record IsUnlimited (ctx : Ctx) : Type 0 where
  anonymous : ctx.agent_id ≡ []
  sending : ctx.notsend ≡ false
  rate_is : ctx.rate ≡ pos 1
  limit_is : ctx.rate_limit ≡ pos 1
  unbuffered : ctx.bulk_buf ≡ []
  unwindowed : ctx.bulk_ms ≡ 0

IsUnlimited-viewer : IgnoresViewer IsUnlimited
IsUnlimited-viewer ctx v6 fd a a6 h = record {
  anonymous = h.anonymous;
  sending = h.sending;
  rate_is = h.rate_is;
  limit_is = h.limit_is;
  unbuffered = h.unbuffered;
  unwindowed = h.unwindowed;
}

abbrev Unlimited : Setup → Type 0
Unlimited s = IsUnlimited s.ctx

replay_option-Unlimited :
    (op : ℕ) (optarg : Text) (s : Setup)
    → Unlimited s
    → Ensures Unlimited (replay_option op optarg s)
unfolding replay_option
replay_option-Unlimited op optarg s h =
    Ensures-if (op == b'd') _ _ (λ _. Ensures-runs _ debugged)
      λ _.
        Ensures-if (op == b'v') _ _ (λ _. Ensures-runs _ h)
          λ _.
            Ensures-if (op == b'p') _ _ (λ _. Ensures-runs _ h)
              λ _.
                Ensures-if (op == b'r') _ _ (λ _. Ensures-runs _ h)
                  λ _.
                    Ensures-if (op == b'u') _ _ (λ _. Ensures-runs _ h)
                      λ _.
                        Ensures-if (op == b'g') _ _ (λ _. Ensures-runs _ h)
                          (λ _. Ensures-exits success)
  where
    debugged : IsUnlimited (record (s.ctx) { debug = true })
    debugged = record {
      anonymous = h.anonymous;
      sending = h.sending;
      rate_is = h.rate_is;
      limit_is = h.limit_is;
      unbuffered = h.unbuffered;
      unwindowed = h.unwindowed;
    }

IsUnlimited-Has :
    (ctx : Ctx)
    → IsUnlimited ctx
    → Has [] (record { ctx = ctx; templates = none; out = []; clock_reads = 1; rand_calls = 1 })
unfolding datagrams
IsUnlimited-Has ctx h = (
  record {
    plain = record {
      fits = rw h.unbuffered (omega arith);
      steady = record {
        anonymous = h.anonymous;
        sending = h.sending;
        rate_is = h.rate_is;
        limit_is = h.limit_is;
      };
    };
    unbuffered = h.unbuffered;
    unwindowed = h.unwindowed;
  },
  refl,
)

abbrev StartsDirect : Text × World → Type 0
StartsDirect (textfile, w) = Has [] w

replay_start-Ensures :
    (host : Host) (argv : List Text) (creds : Creds)
    → Ensures StartsDirect (replay_start host argv creds)
unfolding replay_start fresh ctx_init
replay_start-Ensures host argv creds =
    Ensures-bind _ _
      (read_options-kept Unlimited replay_option (λ _. Unit {0})
        (λ op optarg s _ h. replay_option-Unlimited op optarg s h) _ _ (All-any _)
        (record {
          anonymous = refl;
          sending = refl;
          rate_is = refl;
          limit_is = refl;
          unbuffered = refl;
          unwindowed = refl;
        }))
      λ s h. named s.dumpfile s h
  where
    named :
        (textfile : Option Text) (s : Setup)
        → Unlimited s
        → Ensures StartsDirect (elim textfile [
          | none ↦ exits success
          | some file ↦ require_viewer host s s.ctx >>= λ ctx.
              drop_privs host s.user s.group creds >>= λ creds'. runs (
                file,
                record { ctx = ctx; templates = none; out = []; clock_reads = 1; rand_calls = 1 },
              )
        ])
    named none s h = Ensures-exits success
    named (some file) s h =
        Ensures-bind (require_viewer host s s.ctx) _
          (require_viewer-kept IsUnlimited IsUnlimited-viewer host s s.ctx h)
          λ ctx h'.
            Ensures-bind (drop_privs host s.user s.group creds) _ (Ensures-any _)
              (λ creds' _. Ensures-runs _ (IsUnlimited-Has ctx h'))

-- A replay that has started, on any command line, and whose file opens, returns, and the datagrams that it sent hold, one behind the other, all lines of the file that are no TIME lines, in order and whole; each of them fits the buffer that collects it.
pub replay_run-datagrams :
    (host : Host) (env : Env) (argv : List Text) (creds : Creds) (textfile file : Text) (w : World)
    → replay_start host argv creds ≡ runs (textfile, w)
    → host.fopen textfile ≡ some file
    → (w' : World) × (replay_run host env textfile w ≡ some (returned, w'))
      × (glued (datagrams w'.out) ≡ glued (data_lines (c_strings (fgets 1022 1022 file))))
      × All IsShort (datagrams w'.out)
unfolding replay_run ◌>>◌ Exec.◌>>=◌ pure
replay_run-datagrams host env argv creds textfile file w started there =
    let direct = (replay_start-Ensures host argv creds).returned (textfile, w) started in
    let (acts, same, whole, short, timed) = replay-sends env file in
    let (end, run, (h, sent_are)) = (perform-Has env acts []).at w direct in
    (
      end.1,
      rw (replay_run, there, ◌>>◌, Exec.◌>>=◌, same, run) refl,
      rw sent_are whole,
      rw sent_are short,
    )
