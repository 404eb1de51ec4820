-- ===== src/Config/Print.antt =====
-- A line that is written `key=value` is read back.
use packter.Base.{
  ℕ, ◌≡◌, refl, ap, List, [], ◌∷◌, ◌++◌, some, Text, Bool, true, false, not, ◌&&◌, is_filled,
  if◌then◌else◌, ◌==◌, arith, newline, append_assoc, All, ==_refl,
}
use packter.Config.{
  is_blank, is_space, trim_end, trim_start, untab, config_trim, split_at, is_comment, config_line,
}

-- Neither a blank nor a line end.
abbrev pub IsSolid : ℕ → Type 0
IsSolid c = is_space c ≡ false

-- What a line can hold inside: anything but a tab and a line end, so that a space is allowed.
abbrev pub IsInner : ℕ → Type 0
IsInner c = ((c == 9) ≡ false) × ((c == 10) ≡ false) × ((c == 13) ≡ false)

All-append : (P : ℕ → Type 0) (xs ys : List ℕ) → All P xs → All P ys → All P (xs ++ ys)
All-append P [] ys h k = k
All-append P (x ∷ xs) ys h k = (h.0, All-append P xs ys h.1 k)

filled_middle : (s : Text) (z : ℕ) (t : Text) → is_filled (s ++ (z ∷ t)) ≡ true
unfolding is_filled
filled_middle [] z t = refl
filled_middle (c ∷ s) z t = refl

-- The end is cut behind the last solid byte, whatever blanks stand in front of that.
trim_end-line : (s : Text) (z : ℕ) → IsSolid z → trim_end (s ++ (z ∷ newline ∷ [])) ≡ s ++ (z ∷ [])
unfolding trim_end
trim_end-line [] z h =
    let cut : trim_end (newline ∷ []) ≡ [] = unfold is_space trim_end is_filled in refl in
    rw (h, cut) refl
trim_end-line (c ∷ s) z h =
    let rest = trim_end-line s z h in rw (rest, filled_middle s z []) (kept (is_space c))
  where
    kept : (b : Bool) → (if b && not true then [] else c ∷ (s ++ (z ∷ []))) ≡ c ∷ (s ++ (z ∷ []))
    kept true = refl
    kept false = refl

solid-is_blank : (c : ℕ) → IsSolid c → is_blank c ≡ false
unfolding is_space is_blank
solid-is_blank c h = ground arith

IsSolid-IsInner : (c : ℕ) → IsSolid c → IsInner c
unfolding is_space is_blank
IsSolid-IsInner c h = (ground arith, ground arith, ground arith)

untab-inner : (s : Text) → All IsInner s → untab s ≡ s
unfolding untab
untab-inner [] h = refl
untab-inner (c ∷ s) h = rw (h.0.0) (ap (λ t. c ∷ t) (untab-inner s h.1))

trim_start-solid : (c : ℕ) (s : Text) → IsSolid c → trim_start (c ∷ s) ≡ c ∷ s
unfolding trim_start
trim_start-solid c s h = rw (solid-is_blank c h) refl

split_at-first :
    (sep : ℕ) (k v : Text)
    → All (λ c. (c == sep) ≡ false) k
    → split_at sep (k ++ (sep ∷ v)) ≡ some (k, v)
unfolding split_at
split_at-first sep [] v h = rw (==_refl sep) refl
split_at-first sep (c ∷ k) v h = rw (h.0, split_at-first sep k v h.1) refl

-- A line that is written as a key, an equals sign, a value and a line end is read back to that key and value, spaces inside them and in front of the value included, when there is neither a tab nor a line end in them, the key is not empty, starts with no blank and no comment mark and has no equals sign, and the value ends with a byte that is no blank.
pub config_line-print :
    (c : ℕ) (k v : Text) (z : ℕ)
    → (c == b'#') ≡ false
    → All (λ x. (x == b'=') ≡ false) (c ∷ k)
    → IsSolid c
    → All IsInner k
    → All IsInner v
    → IsSolid z
    → config_line ((c ∷ k) ++ (b'=' ∷ (v ++ (z ∷ newline ∷ [])))) ≡ some (c ∷ k, v ++ (z ∷ []))
unfolding config_line is_comment config_trim
config_line-print c k v z mark free hc hk hv hz =
    let front = (c ∷ k) ++ (b'=' ∷ v) in
    let text = (c ∷ k) ++ (b'=' ∷ (v ++ (z ∷ []))) in
    let inner : All IsInner text = (
      IsSolid-IsInner c hc,
      All-append IsInner k (b'=' ∷ (v ++ (z ∷ []))) hk
          ((refl, refl, refl), All-append IsInner v (z ∷ []) hv (IsSolid-IsInner z hz, tt)),
    ) in
    let whole : trim_end ((c ∷ k) ++ (b'=' ∷ (v ++ (z ∷ newline ∷ [])))) ≡ text =
      rw
        (
          ← append_assoc (c ∷ k) (b'=' ∷ v) (z ∷ newline ∷ []),
          trim_end-line front z hz,
          append_assoc (c ∷ k) (b'=' ∷ v) (z ∷ []),
        )
        refl in
    let trimmed : config_trim ((c ∷ k) ++ (b'=' ∷ (v ++ (z ∷ newline ∷ [])))) ≡ text =
      rw (config_trim, whole, trim_start-solid c (k ++ (b'=' ∷ (v ++ (z ∷ [])))) hc)
        (untab-inner text inner) in
    rw
      (
        config_line,
        is_comment,
        mark,
        trimmed,
        split_at-first b'=' (c ∷ k) (v ++ (z ∷ [])) free,
        filled_middle v z [],
      )
      refl
