-- ===== src/Send/Limit.antt =====
-- packter_send under a rate limit: how long a message can be held back.
use packter.Base.{
  ℕ, zero, suc, ◌+◌, ◌-◌, ◌<◌, ◌≤◌, ◌≡◌, refl, sym, subst, ap, ◌∙◌, arith, List, [], ◌∷◌, ◌++◌,
  some, Text, false, length,
}
use packter.Base.Int.{ℤ, pos, is_one}
use packter.Agent.{Env, World}
use packter.Agent.Exec.{◌>>=◌, ◌>>◌, skip, pure}
use packter.Clock.{rate}
use packter.Clock.Difference.{rate_bounds}
use packter.Send.{send}
use packter.Send.Delivery.{send-stream, sends}
use packter.Send.View.{payload, stream, IsPlain}

-- A message at a rate above 1 is dropped, and the rate goes down by one.
send_held :
    (env : Env) (m : Text) (n : ℕ) (l : ℤ) (w : World)
    → IsPlain (pos (suc (suc n))) l w
    → (w' : World) × (send env m w ≡ some (tt, w'))
      × (stream w' ≡ stream w)
      × IsPlain (pos (suc n)) l w'
send_held env m n l w h =
    let (w', run, told, (x, plain)) = send-stream env m w (pos (suc (suc n))) l h in
    let off : is_one (pos (suc (suc n))) ≡ false = ground arith in
    (w', run, rw off at told, rw off at plain)

-- The messages up to the one whose turn it is.
sends-turn :
    (env : Env) (ms : List Text) (m : Text) (r l : ℕ) (w : World)
    → 1 ≤ l
    → length ms + 1 ≡ r
    → IsPlain (pos r) (pos l) w
    → (w' : World) × (sends env (ms ++ (m ∷ [])) w ≡ some (tt, w'))
      × (stream w' ≡ stream w ++ payload m)
      × ((r' : ℕ) × (1 ≤ r') × (r' ≤ l) × IsPlain (pos r') (pos l) w')
unfolding sends ◌>>◌ ◌>>=◌ skip pure
sends-turn env [] m r l w some_limit e h =
    let h1 : IsPlain (pos 1) (pos l) w = subst (λ k. IsPlain (pos k) (pos l) w) (sym e) h in
    let (w', run, told, (x, plain)) = send-stream env m w (pos 1) (pos l) h1 in
    let (low, high) = rate_bounds l x some_limit in
    (w', rw (sends, ◌>>◌, ◌>>=◌, run) refl, told, (rate (pos l) x, low, high, plain))
sends-turn env (m0 ∷ ms) m r l w some_limit e h =
    let h2 : IsPlain (pos (suc (suc (length ms)))) (pos l) w =
      subst (λ k. IsPlain (pos k) (pos l) w) (omega (arith, e)) h in
    let (w1, run1, same, plain) = send_held env m0 (length ms) (pos l) w h2 in
    let (w', run, told, rest) =
      sends-turn env ms m (suc (length ms)) l w1 some_limit (omega arith) plain in
    (w', rw (sends, ◌>>◌, ◌>>=◌, run1) run, told ∙ ap (λ (t : Text). t ++ payload m) same, rest)

-- The message that n others stand in front of.
split_at :
    (n : ℕ) (ms : List Text)
    → n < length ms
    → (held : List Text) × (m : Text) × (rest : List Text) × (ms ≡ held ++ (m ∷ rest))
      × (length held ≡ n)
split_at n [] h = absurd (omega arith)
split_at zero (m ∷ ms) h = ([], m, ms, refl, refl)
split_at (suc n) (m0 ∷ ms) h =
    let (held, m, rest, parts, long) = split_at n ms (omega arith) in
    (m0 ∷ held, m, rest, ap (λ (t : List Text). m0 ∷ t) parts, omega (arith, long))

-- From a state that sends, without an agent id, whose rate r lies between 1 and the limit l, one message gets through among any l or more messages in a row, whatever the random numbers are: fewer than l messages stand in front of it, namely r - 1, and they are dropped, its payload reaches the stream, and then a new rate between 1 and l holds.
pub sends-limit :
    (env : Env) (ms : List Text) (r l : ℕ) (w : World)
    → 1 ≤ r
    → r ≤ l
    → l ≤ length ms
    → IsPlain (pos r) (pos l) w
    → (held : List Text) × (m : Text) × (rest : List Text) × (ms ≡ held ++ (m ∷ rest))
      × (length held + 1 ≡ r)
      × (length held < l)
      × ((w' : World) × (sends env (held ++ (m ∷ [])) w ≡ some (tt, w'))
          × (stream w' ≡ stream w ++ payload m)
          × ((r' : ℕ) × (1 ≤ r') × (r' ≤ l) × IsPlain (pos r') (pos l) w'))
sends-limit env ms r l w low high enough h =
    let (held, m, rest, parts, long) = split_at (r - 1) ms (omega (arith, low, high, enough)) in
    let turn : length held + 1 ≡ r = omega (arith, long, low) in
    (
      held,
      m,
      rest,
      parts,
      turn,
      omega (arith, turn, high),
      sends-turn env held m r l w (omega (arith, low, high)) turn h,
    )
