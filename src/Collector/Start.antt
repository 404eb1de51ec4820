-- ===== src/Collector/Start.antt =====
-- What a collector of agent/lib/collector.c starts with.
use packter.Base.{
  ℕ, ◌≡◌, ◌≢◌, refl, sym, subst, List, [], ◌∷◌, Option, none, some, Text, ◌==◌, All, ==_iff,
}
use packter.Base.Int.{ℤ}
use packter.Agent.{Ctx, Env}
use packter.Collector.{Tool, optstr, collector_option, Collector, loopback, collector_start}
use packter.Startup.{runs, success, failure, ◌>>=◌, Creds, Host}
use packter.Startup.Ensures.{
  Ensures, Ensures-runs, Ensures-exits, Ensures-if, Ensures-bind, Ensures-any,
}
use packter.Startup.Limits.{
  IsCarried, common_option-kept, read_options-kept, All-any, Within, Within-carried,
  ctx_init-IsWithin,
}
use packter.Startup.Ready.{IsReady, check_options-IsReady, connect_viewer-kept, IsReady-viewer}
use packter.Startup.Listen.{Listener, udp_listen, u16, listen_address}
use packter.Startup.Options.{Setup, fresh, started, check_options, connect_viewer}
use packter.Startup.Privileges.{drop_privs}
use packter.Startup.Viewer.{is_descriptor}

collector_option-Within :
    (host : Host) (op : ℕ) (optarg : Text) (s : Setup)
    → Within s
    → Ensures Within (collector_option host op optarg s)
unfolding collector_option
collector_option-Within host op optarg s h =
    common_option-kept Within Within-carried host op optarg s _ h (
      Ensures-if (op == b'b') _ _ (λ _. Ensures-runs _ h)
        λ _.
          Ensures-if (op == b'l') _ _ (λ _. Ensures-runs _ h)
            λ _.
              Ensures-if (op == b'T') _ _
                (λ _. Ensures-runs _ (Within-carried.ctx_kept s _ h refl refl refl refl))
                (λ _. Ensures-exits success))

-- A collector's context, when its loop starts.
abbrev pub IsStarted : Collector → Type 0
IsStarted c = (ctx : Ctx) × (c.world ≡ started (some []) ctx) × IsReady ctx

collector_start-Ensures :
    (host : Host) (env : Env) (tool : Tool) (argv : List Text) (creds : Creds)
    → Ensures IsStarted (collector_start host env tool argv creds)
unfolding collector_start fresh
collector_start-Ensures host env tool argv creds =
    Ensures-bind _ _
      (read_options-kept Within (collector_option host) (λ _. Unit {0})
        (λ op optarg s _ h. collector_option-Within host op optarg s h) _ _ (All-any _)
        ctx_init-IsWithin)
      λ s h. Ensures-bind _ _ (check_options-IsReady env s.ctx h) λ checked h'.
        Ensures-bind _ _ (connect_viewer-kept IsReady IsReady-viewer host s checked h') λ ctx h''.
          Ensures-bind (drop_privs host s.user s.group creds) _ (Ensures-any _) λ creds' _.
            Ensures-bind (udp_listen host (some s.bind_addr) s.bind_port) _ (Ensures-any _)
              (λ listener _. Ensures-runs _ (ctx, refl, h''))

pub collector_start-IsStarted :
    (host : Host) (env : Env) (tool : Tool) (argv : List Text) (creds : Creds) (c : Collector)
    → collector_start host env tool argv creds ≡ runs c
    → IsStarted c
collector_start-IsStarted host env tool argv creds c =
    (collector_start-Ensures host env tool argv creds).returned c

-- The default address of `bind_addr`, as long as it is there.
abbrev BindsTo : Text → Setup → Type 0
BindsTo text s = s.bind_addr ≡ text

BindsTo-carried : (text : Text) → IsCarried (BindsTo text)
BindsTo-carried text = record {
  ctx_kept = λ s ctx' h i p b g. h;
  names_kept = λ s ip port user group h. h;
  id_kept = λ s id fits h. h;
  psk_kept = λ s psk fits h. h;
}

collector_option-BindsTo :
    (host : Host) (text : Text) (op : ℕ) (optarg : Text) (s : Setup)
    → op ≢ b'b'
    → BindsTo text s
    → Ensures (BindsTo text) (collector_option host op optarg s)
unfolding collector_option
collector_option-BindsTo host text op optarg s other h =
    common_option-kept (BindsTo text) (BindsTo-carried text) host op optarg s _ h (
      Ensures-if (op == b'b') _ _ (λ e. absurd (other ((==_iff op b'b').0 e)))
        λ _.
          Ensures-if (op == b'l') _ _ (λ _. Ensures-runs _ h)
            λ _. Ensures-if (op == b'T') _ _ (λ _. Ensures-runs _ h) (λ _. Ensures-exits success))

-- The socket is bound to the address of the text.
udp_listen-address :
    (host : Host) (bind_addr : Option Text) (port : ℤ) (address : List ℕ)
    → listen_address host bind_addr ≡ runs address
    → Ensures (λ (l : Listener). l.address ≡ address) (udp_listen host bind_addr port)
unfolding udp_listen
udp_listen-address host bind_addr port address e =
    Ensures-if (is_descriptor host.listen_socket) _ _
      (λ _.
        rw (e, ◌>>=◌)
          (Ensures-if (host.bind address (u16 port)) _ _ (λ _. Ensures-runs _ refl)
            (λ _. Ensures-exits failure)))
      (λ _. Ensures-exits failure)

abbrev pub mapped_loopback : List ℕ
mapped_loopback = 0 ∷ 0 ∷ 0 ∷ 0 ∷ 0 ∷ 0 ∷ 0 ∷ 0 ∷ 0 ∷ 0 ∷ 255 ∷ 255 ∷ 127 ∷ 0 ∷ 0 ∷ 1 ∷ []

-- inet_pton on the text 127.0.0.1
pub record KnowsLoopback (host : Host) : Type 0 where
  pub six : host.inet_pton6 loopback ≡ none
  pub four : host.inet_pton4 loopback ≡ some (127 ∷ 0 ∷ 0 ∷ 1 ∷ [])

listen_address-loopback :
    (host : Host) (text : Text)
    → KnowsLoopback host
    → text ≡ loopback
    → listen_address host (some text) ≡ runs mapped_loopback
unfolding listen_address
listen_address-loopback host text knows e =
    let there : listen_address host (some loopback) ≡ runs mapped_loopback =
      rw (listen_address, knows.six, knows.four) refl in
    subst (λ t. listen_address host (some t) ≡ runs mapped_loopback) (sym e) there

abbrev IsLoopback : Collector → Type 0
IsLoopback c = c.listener.address ≡ mapped_loopback

collector_start-IsLoopback :
    (host : Host) (env : Env) (tool : Tool) (argv : List Text) (creds : Creds)
    → KnowsLoopback host
    → All (λ (o : ℕ × Text). o.0 ≢ b'b') (host.getopt (optstr tool.has_trace) argv)
    → Ensures IsLoopback (collector_start host env tool argv creds)
unfolding collector_start fresh
collector_start-IsLoopback host env tool argv creds knows unbound =
    Ensures-bind _ _
      (read_options-kept (BindsTo loopback) (collector_option host) (λ op. op ≢ b'b')
        (λ op optarg s other h. collector_option-BindsTo host loopback op optarg s other h) _ _
        unbound refl)
      λ s h. Ensures-bind (check_options env s.ctx) _ (Ensures-any _) λ checked _.
        Ensures-bind (connect_viewer host s checked) _ (Ensures-any _) λ ctx _.
          Ensures-bind (drop_privs host s.user s.group creds) _ (Ensures-any _) λ creds' _.
            Ensures-bind (udp_listen host (some s.bind_addr) s.bind_port) _
              (udp_listen-address host (some s.bind_addr) s.bind_port _
                (listen_address-loopback host s.bind_addr knows h))
              (λ listener at. Ensures-runs _ at)

-- A collector whose command line has no option -b is bound to the IPv4 loopback address, mapped into IPv6, and to no other, where inet_pton knows 127.0.0.1 as an IPv4 address and not as an IPv6 one.
pub collector_start-loopback :
    (host : Host) (env : Env) (tool : Tool) (argv : List Text) (creds : Creds) (c : Collector)
    → KnowsLoopback host
    → All (λ (o : ℕ × Text). o.0 ≢ b'b') (host.getopt (optstr tool.has_trace) argv)
    → collector_start host env tool argv creds ≡ runs c
    → c.listener.address ≡ mapped_loopback
collector_start-loopback host env tool argv creds c knows unbound =
    (collector_start-IsLoopback host env tool argv creds knows unbound).returned c
