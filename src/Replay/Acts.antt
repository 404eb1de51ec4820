-- ===== src/Replay/Acts.antt =====
-- What a replay of agent/src/pt_replay.c does, as a list: messages and pauses.
use packter.Base.{ℕ, ◌+◌, List, [], ◌∷◌, Text}
use packter.Agent.{Env, slept}
use packter.Agent.Exec.{◌>>◌, skip}
use packter.Send.{Action, send, push}

pub data Act : Type 0 where
  says : Text → Act
  pauses : ℕ → Act

unfoldable pub perform : Env → List Act → Action
perform env [] = skip
perform env (says m ∷ acts) = send env m >> perform env acts
perform env (pauses n ∷ acts) = push (slept n) >> perform env acts

unfoldable pub messages : List Act → List Text
messages [] = []
messages (says m ∷ acts) = m ∷ messages acts
messages (pauses n ∷ acts) = messages acts

unfoldable pub naps : List Act → List ℕ
naps [] = []
naps (says m ∷ acts) = naps acts
naps (pauses n ∷ acts) = n ∷ naps acts

unfoldable pub sum : List ℕ → ℕ
sum [] = 0
sum (n ∷ ns) = n + sum ns
