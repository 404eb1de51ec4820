-- ===== src/Collector/Loop.antt =====
-- The loop of packter_collector_run of agent/lib/collector.c.
use packter.Base.{◌≡◌, refl, true, arith, List, [], ◌∷◌, some, Text, false, length, take, ltb}
use packter.Agent.{Env, World, Trans}
use packter.Agent.Keeps.{Keeps, Keeps-skip, Keeps-then, Keeps-if}
use packter.Decode.Safety.{decode_datagram-IsSound}
use packter.Collector.{
  Tool, Collector, collector_start, Received, failed, arrived, receive, receive_all,
}
use packter.Collector.Start.{collector_start-IsStarted}
use packter.Replay.{bufsiz_long}
use packter.Send.Signed.{Owner, owner, AllSigned}
use packter.Send.Emission.{IsSound}
use packter.Startup.{runs, Creds, Host}
use packter.Startup.Ready.{started-IsSound}

module _ (env : Env) (proto : Trans) ⦃own : Owner⦄ (mapped : own.cached ≡ true) where
  receive-IsSound : (r : Received) → Keeps (IsSound false) (receive env proto r)
  unfolding receive
  receive-IsSound failed = Keeps-skip
  receive-IsSound (arrived datagram) =
      let buf = take bufsiz_long datagram in
      Keeps-if (ltb (length buf) 1) _ _ (λ _. Keeps-skip)
        (λ _. decode_datagram-IsSound env proto buf (length buf) (λ _. mapped) (omega arith))

  receive_all-IsSound :
      (arrivals : List Received) → Keeps (IsSound false) (receive_all env proto arrivals)
  unfolding receive_all
  receive_all-IsSound [] = Keeps-skip
  receive_all-IsSound (r ∷ rest) = Keeps-then _ _ (receive-IsSound r) (receive_all-IsSound rest)

-- A collector that has started, on any command line, takes every sequence of datagrams and receive errors, of any content and length: each is handled to the end, nothing is read outside the datagram or written past a buffer, and the state stays sound.
pub receive_all-total :
    (host : Host) (env : Env) (tool : Tool) (argv : List Text) (creds : Creds) (c : Collector)
    (arrivals : List Received)
    → collector_start host env tool argv creds ≡ runs c
    → (end : Unit {0} × World) × (receive_all env tool.proto arrivals c.world ≡ some end)
      × IsSound ⦃own = owner c.world.ctx⦄ false end.1
receive_all-total host env tool argv creds c arrivals e =
    let (ctx, is, ready) = collector_start-IsStarted host env tool argv creds c e in
    (receive_all-IsSound env tool.proto ⦃own = owner c.world.ctx⦄ refl arrivals).at c.world
      (rw is (started-IsSound ctx ready))

-- Every datagram that a started collector sends over any datagrams and errors that arrive, if it is shorter than 2048 bytes, bears the authentication line of the id and the key that its command line gave: with a key, the HMAC-SHA256 of RFC 2104 under it covers the id, a time, and all that stands behind the line; with an id alone, the line names it; without an id there is no line.
pub receive_all-AllSigned :
    (host : Host) (env : Env) (tool : Tool) (argv : List Text) (creds : Creds) (c : Collector)
    (arrivals : List Received)
    → collector_start host env tool argv creds ≡ runs c
    → (end : Unit {0} × World) × (receive_all env tool.proto arrivals c.world ≡ some end)
      × AllSigned c.world.ctx.agent_id c.world.ctx.psk end.1.out
receive_all-AllSigned host env tool argv creds c arrivals e =
    let (end, run, sound) = receive_all-total host env tool argv creds c arrivals e in
    (end, run, sound.signed)
