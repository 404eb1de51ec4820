-- ===== src/PtAgent/Run.antt =====
-- What a run of agent/src/pt_agent.c keeps, from its command line to its end.
use packter.Base.{
  ℕ, ◌≡◌, refl, List, [], Option, none, some, Text, Bool, true, false, ◌==◌, if◌then◌else◌, All,
  is_filled,
}
use packter.Base.Int.{negsuc}
use packter.Agent.{Ctx, Env, World, Trans, off, sflow, netflow, ipfix}
use packter.Proto.{translates}
use packter.Snort.{packter_snort}
use packter.Capture.{packter_pcap}
use packter.Agent.Keeps.{Runs, Runs-bind, Runs-then}
use packter.Capture.{Pcap, Ending, returned, waits, exited}
use packter.Capture.Flushed.{
  IsDone-IsBound, IsUnopened, FitsCapture, IsDone, pure-IsDone, packter_pcap-IsDone,
}
use packter.PtAgent.{
  trans_of, own_option, agent_option, clamp_flagbase, agent_viewer, PtAgent, agent_start, agent_end,
  agent_run,
}
use packter.Send.Emission.{IsSound}
use packter.Send.Signed.{Owner, translator, needs_cache, AllSigned}
use packter.Send.Safety.{IsFlushed, flush-IsFlushed}
use packter.Snort.{AlertSocket, FitsAlert, packter_snort-IsDone}
use packter.Startup.{runs, exits, success, Creds, Host}
use packter.Startup.Ensures.{
  Ensures, Ensures-runs, Ensures-exits, Ensures-if, Ensures-bind, Ensures-any,
}
use packter.Startup.Limits.{
  common_option-kept, read_options-kept, All-any, Within, Within-carried, ctx_init-IsWithin,
  same-IsWithin, IsWithin,
}
use packter.Startup.Ready.{
  IsReady, IsReady-viewer, check_options-IsReady, connect_viewer-kept, started-translator,
}
use packter.Startup.Options.{Setup, set_ctx, fresh, started}
use packter.Startup.Privileges.{drop_privs}

own_option-Within :
    (op : ℕ) (optarg : Text) (s : Setup) → Within s → Ensures Within (own_option op optarg s)
unfolding own_option
own_option-Within op optarg s h =
    Ensures-if (op == b'i') _ _ (λ _. Ensures-runs _ h)
      λ _.
        Ensures-if (op == b'r') _ _ (λ _. Ensures-runs _ h)
          λ _.
            Ensures-if (op == b'U') _ _ (λ _. Ensures-runs _ h)
              λ _.
                Ensures-if (op == b'S') _ _
                  (λ _. Ensures-runs _ (Within-carried.ctx_kept s _ h refl refl refl refl))
                  λ _.
                    Ensures-if (op == b't') _ _ (λ _. translating (trans_of optarg))
                      λ _.
                        Ensures-if (op == b'T') _ _
                          (λ _.
                            Ensures-if (is_filled optarg) _ _
                              (λ _.
                                Ensures-runs _ (Within-carried.ctx_kept s _ h refl refl refl refl))
                              (λ _. usage))
                          λ _.
                            Ensures-if (op == b'G') _ _
                              (λ _.
                                Ensures-if (is_filled optarg) _ _
                                  (λ _.
                                    Ensures-runs _
                                      (Within-carried.ctx_kept s _ h refl refl refl refl))
                                  (λ _. usage))
                              (λ _. usage)
  where
    usage : Ensures Within (exits success)
    usage = Ensures-exits success

    translating :
        (o : Option Trans)
        → Ensures Within (elim o [
          | none ↦ exits success
          | some translate ↦ set_ctx s (record (s.ctx) { translate = translate })
        ])
    translating none = usage
    translating (some translate) =
        Ensures-runs _ (Within-carried.ctx_kept s _ h refl refl refl refl)

agent_option-Within :
    (host : Host) (op : ℕ) (optarg : Text) (s : Setup)
    → Within s
    → Ensures Within (agent_option host op optarg s)
unfolding agent_option
agent_option-Within host op optarg s h =
    common_option-kept Within Within-carried host op optarg s _ h (own_option-Within op optarg s h)

-- Between the checks and the run the context stays ready, whether a viewer is connected or not.
agent_viewer-IsReady :
    (host : Host) (s : Setup) (ctx : Ctx) → IsReady ctx → Ensures IsReady (agent_viewer host s ctx)
unfolding agent_viewer
agent_viewer-IsReady host s ctx h =
    connect_viewer-kept IsReady IsReady-viewer host s _ (unsent ctx.notsend)
  where
    unsent : (b : Bool) → IsReady (if b then record ctx { sock = negsuc 0 } else ctx)
    unsent true = IsReady-viewer ctx ctx.use6 (negsuc 0) ctx.addr ctx.addr6 h
    unsent false = h

clamp_flagbase-IsWithin : (ctx : Ctx) → IsWithin ctx → IsWithin (clamp_flagbase ctx)
unfolding clamp_flagbase
clamp_flagbase-IsWithin ctx h = same-IsWithin ctx _ h refl refl refl refl

abbrev pub AgentIsStarted : PtAgent → Type 0
AgentIsStarted a = (ctx : Ctx) × (a.world ≡ started none ctx) × IsReady ctx

agent_start-Ensures :
    (host : Host) (env : Env) (argv : List Text) (creds : Creds)
    → Ensures AgentIsStarted (agent_start host env argv creds)
unfolding agent_start fresh
agent_start-Ensures host env argv creds =
    Ensures-bind _ _
      (read_options-kept Within (agent_option host) (λ _. Unit {0})
        (λ op optarg s _ h. agent_option-Within host op optarg s h) _ _ (All-any _)
        ctx_init-IsWithin)
      λ s h.
        Ensures-bind _ _ (check_options-IsReady env _ (clamp_flagbase-IsWithin s.ctx h))
          λ checked h'. Ensures-bind _ _ (agent_viewer-IsReady host s checked h') λ ctx h''.
            Ensures-bind (drop_privs host s.user s.group creds) _ (Ensures-any _)
              (λ creds' _. Ensures-runs _ (ctx, refl, h''))

agent_end-IsDone :
    ⦃own : Owner⦄ (env : Env) (ending : Ending) → Runs (IsDone ending) (agent_end env ending) IsDone
unfolding agent_end
agent_end-IsDone env returned =
    Runs-then (IsFlushed false) _ _ (record { at = λ w h. (flush-IsFlushed env false).at w h.0 })
      (pure-IsDone returned)
agent_end-IsDone env waits = pure-IsDone waits
agent_end-IsDone env (exited status) = pure-IsDone (exited status)

-- Snort's alerts are not translated from NetFlow or IPFIX, for which packter_snort makes no map.
abbrev pub HasSource : PtAgent → Type 0
HasSource a = a.setup.snort ≡ true → needs_cache a.world.ctx.translate ≡ false

-- The start of a run with a capture, or with alerts.
abbrev Enters : ⦃own : Owner⦄ → Bool → World → Type 0
Enters ⦃own⦄ true w = IsSound false w
Enters ⦃own⦄ false w = IsUnopened w

translates-needed : (t : Trans) → needs_cache t ≡ true → translates t ≡ true
unfolding needs_cache translates
translates-needed off e = e
translates-needed sflow e = refl
translates-needed netflow e = refl
translates-needed ipfix e = refl

agent_run-IsDone :
    ⦃own : Owner⦄ (env : Env) (pcap : Pcap) (sock : AlertSocket) (a : PtAgent)
    → All FitsCapture pcap.frames
    → All FitsAlert sock.received
    → Runs (Enters a.setup.snort) (agent_run env pcap sock a) IsDone
unfolding agent_run
agent_run-IsDone env pcap sock a frames alerts =
    Runs-bind IsDone _ _ (source a.setup.snort) (λ ending. agent_end-IsDone env ending)
  where
    source :
        (snort : Bool)
        → Runs
            (Enters snort)
            (if snort
              then packter_snort env sock a.filter
              else packter_pcap env pcap a.setup.dumpfile a.setup.device a.filter)
            IsDone
    source true = packter_snort-IsDone env sock a.filter alerts
    source false = packter_pcap-IsDone env pcap a.setup.dumpfile a.setup.device a.filter frames

started-Enters :
    (ctx : Ctx) (snort : Bool)
    → IsReady ctx
    → (snort ≡ true → needs_cache ctx.translate ≡ false)
    → Enters ⦃own = translator (started none ctx).ctx⦄ snort (started none ctx)
unfolding started
started-Enters ctx true h source =
    started-translator ctx none h (λ needs. let never = source refl in absurd cc)
started-Enters ctx false h source =
    (started-translator ctx (some []) h (λ _. ([], refl)), translates-needed ctx.translate)

-- An agent that has started, on any command line but one that asks for Snort's alerts and for a translation from NetFlow or IPFIX at once, runs to an end without a fault on every capture and on every sequence of Snort's alerts, as long as no captured length passes the bytes that were captured: it returns with nothing left in the bulk buffer, waits for more alerts, or exits with a status, in a sound state each time, but that at an exit the template map may be missing.
pub agent_run-total :
    (host : Host) (env : Env) (argv : List Text) (creds : Creds) (a : PtAgent) (pcap : Pcap)
    (sock : AlertSocket)
    → agent_start host env argv creds ≡ runs a
    → HasSource a
    → All FitsCapture pcap.frames
    → All FitsAlert sock.received
    → (end : Ending × World) × (agent_run env pcap sock a a.world ≡ some end)
      × IsDone ⦃own = translator a.world.ctx⦄ end.0 end.1
unfolding started
agent_run-total host env argv creds a pcap sock e source frames alerts =
    let (ctx, is, ready) = (agent_start-Ensures host env argv creds).returned a e in
    let has : a.setup.snort ≡ true → needs_cache (started none ctx).ctx.translate ≡ false =
      rw is at source in
    (agent_run-IsDone ⦃own = translator a.world.ctx⦄ env pcap sock a frames alerts).at a.world
      (rw is (started-Enters ctx a.setup.snort ready has))

-- However a run of a started agent ends, on every capture and on every sequence of Snort's alerts whose captured lengths fit, where it does not take Snort's alerts and translate NetFlow or IPFIX at once, every datagram that it has sent, if it is shorter than 2048 bytes, bears the authentication line of the id and the key that its command line gave: with a key, the HMAC-SHA256 of RFC 2104 under it covers the id, a time, and all that stands behind the line; with an id alone, the line names it; without an id there is no line.
pub agent_run-AllSigned :
    (host : Host) (env : Env) (argv : List Text) (creds : Creds) (a : PtAgent) (pcap : Pcap)
    (sock : AlertSocket)
    → agent_start host env argv creds ≡ runs a
    → HasSource a
    → All FitsCapture pcap.frames
    → All FitsAlert sock.received
    → (end : Ending × World) × (agent_run env pcap sock a a.world ≡ some end)
      × AllSigned a.world.ctx.agent_id a.world.ctx.psk end.1.out
agent_run-AllSigned host env argv creds a pcap sock e source frames alerts =
    let (end, run, done) = agent_run-total host env argv creds a pcap sock e source frames alerts in
    (end, run, (IsDone-IsBound ⦃own = translator a.world.ctx⦄ end.0 end.1 done).signed)
