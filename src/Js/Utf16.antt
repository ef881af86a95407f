-- ===== src/Js/Utf16.antt =====
-- Well-formed UTF-16: every low surrogate has its high surrogate in front, and the other way round.
use theokit_gateways.Prelude.{
  ℕ, zero, suc, ◌≤◌, ◌≡◌, refl, sym, ◌∙◌, Bool, true, false, ◌&&◌, Option, none, some, [], ◌∷◌,
  get_elem?, take, drop, length, leb, Bool-cases, inl, inr, arith,
}
use theokit_gateways.Js.{
  Text, is_low_surrogate, is_space, strip_leading, strip_trailing, trim_start, trim_end, trim,
  starts_with, last_index_from, last_index_of,
}
use theokit_gateways.Js.Trim.{IsBlank}

-- A high surrogate, the first half of a pair.
unfoldable pub is_high_surrogate : ℕ → Bool
is_high_surrogate c = leb 0xd800 c && leb c 0xdbff

-- The text completes to well-formed UTF-16 behind half a pair, if `half`, or behind none.
abbrev pub Paired : Bool → Text → Type 0
Paired half [] = half ≡ false
Paired half (c ∷ s) = (is_low_surrogate c ≡ half) × Paired (is_high_surrogate c) s

abbrev pub IsWellFormed : Text → Type 0
IsWellFormed = Paired false

-- No low surrogate stands at the position.
abbrev pub NotLowAt : Text → ℕ → Type 0
NotLowAt s k = elim (get_elem? s k) [ none ↦ Unit | some c ↦ is_low_surrogate c ≡ false ]

high-not-low : (c : ℕ) → is_high_surrogate c ≡ true → is_low_surrogate c ≡ false
unfolding is_high_surrogate is_low_surrogate
high-not-low c h = ground arith

space-not-high : (c : ℕ) → is_space c ≡ true → is_high_surrogate c ≡ false
unfolding is_space is_high_surrogate
space-not-high c h = ground arith

space-not-low : (c : ℕ) → is_space c ≡ true → is_low_surrogate c ≡ false
unfolding is_space is_low_surrogate
space-not-low c h = ground arith

-- Both sides of a cut that is not before a low surrogate are well formed.
pub Paired-cut :
    (half : Bool) (s : Text) (k : ℕ)
    → Paired half s
    → NotLowAt s k
    → k ≤ length s
    → Paired half (take k s) × Paired false (drop k s)
Paired-cut half [] zero h n le = (h, refl)
Paired-cut half (c ∷ s) zero h n le = (sym h.0 ∙ n, (n, h.1))
Paired-cut half [] (suc k) h n le = absurd (omega arith)
Paired-cut half (c ∷ s) (suc k) h n le =
    let (front, back) = Paired-cut (is_high_surrogate c) s k h.1 n (omega arith) in
    ((h.0, front), back)

-- In front of a low surrogate there is none.
pub low-NotLowAt :
    (half : Bool) (s : Text) (k c : ℕ)
    → Paired half s
    → get_elem? s (suc k) ≡ some c
    → is_low_surrogate c ≡ true
    → NotLowAt s k
low-NotLowAt half [] k c h e low = cc
low-NotLowAt half (d ∷ []) k c h e low = cc
low-NotLowAt half (d ∷ d' ∷ s) zero c h e low = high-not-low d (ground arith)
low-NotLowAt half (d ∷ d' ∷ s) (suc k) c h e low =
    low-NotLowAt (is_high_surrogate d) (d' ∷ s) k c h.1 e low

pub strip_leading-IsWellFormed :
    (p : ℕ → Bool) (s : Text) → IsBlank p → IsWellFormed s → IsWellFormed (strip_leading p s)
unfolding strip_leading
strip_leading-IsWellFormed p [] b h = h
strip_leading-IsWellFormed p (c ∷ s) b h = elim (Bool-cases (p c)) [
  | inl e ↦ rw e (strip_leading-IsWellFormed p s b (rw (space-not-high c (b c e)) at (h.1)))
  | inr e ↦ rw e h
]

strip_trailing-Paired :
    (half : Bool) (p : ℕ → Bool) (s : Text)
    → IsBlank p
    → Paired half s
    → Paired half (strip_trailing p s)
unfolding strip_trailing
strip_trailing-Paired half p [] b h = h
strip_trailing-Paired half p (c ∷ s) b h =
    ground (arith, strip_trailing-Paired (is_high_surrogate c) p s b h.1, b c, space-not-low c)

pub trim-IsWellFormed : (s : Text) → IsWellFormed s → IsWellFormed (trim s)
unfolding trim trim_start trim_end
trim-IsWellFormed s h =
    strip_trailing-Paired false is_space (strip_leading is_space s) (λ c e. e)
      (strip_leading-IsWellFormed is_space s (λ c e. e) h)

-- The text is not empty and does not begin with a low surrogate.
abbrev pub IsPlain : Text → Type 0
IsPlain [] = ⊥
IsPlain (c ∷ b) = is_low_surrogate c ≡ false

starts_with-NotLowAt :
    (s b : Text) (k : ℕ) → IsPlain b → starts_with (drop k s) b ≡ true → NotLowAt s k
unfolding starts_with
starts_with-NotLowAt s [] k h e = absurd h
starts_with-NotLowAt [] (c ∷ b) zero h e = tt
starts_with-NotLowAt [] (c ∷ b) (suc k) h e = tt
starts_with-NotLowAt (d ∷ s) (c ∷ b) zero h e = ground arith
starts_with-NotLowAt (d ∷ s) (c ∷ b) (suc k) h e = starts_with-NotLowAt s (c ∷ b) k h e

-- A found position holds no low surrogate.
abbrev pub FoundPlain : Text → Option ℕ → Type 0
FoundPlain s none = Unit
FoundPlain s (some j) = NotLowAt s j

last_index_from-FoundPlain : (s b : Text) (i : ℕ) → IsPlain b → FoundPlain s (last_index_from s b i)
unfolding last_index_from
last_index_from-FoundPlain s b zero h = elim (Bool-cases (starts_with s b)) [
  | inl e ↦ rw e (starts_with-NotLowAt s b zero h e)
  | inr e ↦ rw e tt
]
last_index_from-FoundPlain s b (suc i) h = elim (Bool-cases (starts_with (drop (suc i) s) b)) [
  | inl e ↦ rw e (starts_with-NotLowAt s b (suc i) h e)
  | inr e ↦ rw e (last_index_from-FoundPlain s b i h)
]

pub last_index_of-FoundPlain : (s b : Text) (i : ℕ) → IsPlain b → FoundPlain s (last_index_of s b i)
unfolding last_index_of
last_index_of-FoundPlain s b i h = last_index_from-FoundPlain s b _ h
