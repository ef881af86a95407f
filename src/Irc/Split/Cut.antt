-- ===== src/Irc/Split/Cut.antt =====
-- `cutLine` of Irc/Split.antt, and the bytes of a text.
use theokit_gateways.Prelude.{
  ℕ, ◌+◌, ◌≤◌, ◌≡◌, refl, ap, ◌∙◌, ◌⊎◌, inl, inr, true, false, List, [], ◌∷◌, ◌++◌, concat, All,
  ltb, Bool-cases, arith,
}
use mathlib.Core.List.{append_assoc}
use theokit_gateways.Js.{Text, is_low_surrogate, is_nonempty}
use theokit_gateways.Js.Utf16.{is_high_surrogate}
use theokit_gateways.Irc.Split.{unit_bytes, is_pair, byte_length, code_points, cut_loop, cut_line}

low_bytes : (d : ℕ) → is_low_surrogate d ≡ true → unit_bytes d ≡ 3
unfolding unit_bytes is_low_surrogate
low_bytes d h = ground (arith, h)

high_bytes : (c : ℕ) → is_high_surrogate c ≡ true → unit_bytes c ≡ 3
unfolding unit_bytes is_high_surrogate
high_bytes c h = ground (arith, h)

low_unpaired : (d e : ℕ) → is_low_surrogate d ≡ true → is_pair d e ≡ false
unfolding is_high_surrogate is_low_surrogate
low_unpaired d e h = ground (arith, h)

-- A low surrogate in front is half a pair.
low-byte_length :
    (d : ℕ) (s : Text) → is_low_surrogate d ≡ true → byte_length (d ∷ s) ≡ 3 + byte_length s
unfolding byte_length
low-byte_length d [] h = low_bytes d h
low-byte_length d (e ∷ s) h = simp (low_unpaired d e h, low_bytes d h) refl

byte_length-cons : (c : ℕ) (s : Text) → byte_length (c ∷ s) ≤ unit_bytes c + byte_length s
unfolding byte_length
byte_length-cons c [] = omega arith
byte_length-cons c (d ∷ s) = elim (Bool-cases (is_pair c d)) [
  | inr no_ ↦ rw no_ (omega arith)
  | inl yes_ ↦
      let high : is_high_surrogate c ≡ true = ground (arith, yes_) in
      let low : is_low_surrogate d ≡ true = ground (arith, yes_) in
      rw (yes_, high_bytes c high, low-byte_length d s low) (omega arith)
]

-- Joined texts may complete a pair, which takes fewer bytes than its halves.
pub byte_length-append_le : (s t : Text) → byte_length (s ++ t) ≤ byte_length s + byte_length t
unfolding byte_length
byte_length-append_le [] t = omega arith
byte_length-append_le (c ∷ []) t = byte_length-cons c t
byte_length-append_le (c ∷ d ∷ s) t = elim (Bool-cases (is_pair c d)) [
  | inl yes_ ↦ rw yes_ (omega (arith, byte_length-append_le s t))
  | inr no_ ↦ rw no_ (omega (arith, byte_length-append_le (d ∷ s) t))
]

pub concat-code_points : (s : Text) → concat (code_points s) ≡ s
unfolding code_points
concat-code_points [] = refl
concat-code_points (c ∷ []) = refl
concat-code_points (c ∷ d ∷ s) = elim (Bool-cases (is_pair c d)) [
  | inl yes_ ↦ simp yes_ (ap (λ t. c ∷ d ∷ t) (concat-code_points s))
  | inr no_ ↦ simp no_ (ap (λ t. c ∷ t) (concat-code_points (d ∷ s)))
]

-- A code point has one unit, or two that pair, and at most four bytes.
abbrev pub IsCodePoint : Text → Type 0
IsCodePoint p = (is_nonempty p ≡ true) × (byte_length p ≤ 4)

pub code_points-IsCodePoint : (s : Text) → All IsCodePoint (code_points s)
unfolding code_points is_nonempty byte_length unit_bytes
code_points-IsCodePoint [] = tt
code_points-IsCodePoint (c ∷ []) = ((refl, ground arith), tt)
code_points-IsCodePoint (c ∷ d ∷ s) = elim (Bool-cases (is_pair c d)) [
  | inl yes_ ↦ simp yes_ ((refl, ground (arith, yes_)), code_points-IsCodePoint s)
  | inr no_ ↦ simp no_ ((refl, ground arith), code_points-IsCodePoint (d ∷ s))
]

-- A piece that is sent: of at most `budget` bytes, and not empty.
abbrev pub Fits : ℕ → Text → Type 0
Fits budget p = (byte_length p ≤ budget) × (is_nonempty p ≡ true)

nonempty-append : (s t : Text) → is_nonempty t ≡ true → is_nonempty (s ++ t) ≡ true
unfolding is_nonempty
nonempty-append [] t h = h
nonempty-append (c ∷ s) t h = refl

cut_loop-Fits :
    (budget : ℕ) (piece : Text) (bytes : ℕ) (ps : List Text)
    → 4 ≤ budget
    → byte_length piece ≤ bytes
    → bytes ≤ budget
    → ((is_nonempty piece ≡ true) ⊎ (bytes ≡ 0))
    → All IsCodePoint ps
    → All (Fits budget) (cut_loop budget piece bytes ps)
unfolding cut_loop
cut_loop-Fits budget piece bytes [] room le fits full h = elim (Bool-cases (is_nonempty piece)) [
  | inl yes_ ↦ rw yes_ ((omega (arith, le, fits), yes_), tt)
  | inr no_ ↦ rw no_ tt
]
cut_loop-Fits budget piece bytes (p ∷ ps) room le fits full (here, rest) =
    elim (Bool-cases (ltb budget (bytes + byte_length p))) [
      | inl yes_ ↦
          let old : is_nonempty piece ≡ true = elim full [
            | inl old ↦ old
            | inr none_ ↦ absurd (ground (arith, yes_, none_, here.1, room))
          ] in
          rw yes_ (
            (omega (arith, le, fits), old),
            cut_loop-Fits budget p (byte_length p) ps room (omega arith)
                (omega (arith, here.1, room)) (inl here.0) rest,
          )
      | inr no_ ↦ rw no_ (
          cut_loop-Fits budget (piece ++ p) (bytes + byte_length p) ps room
            (omega (arith, byte_length-append_le piece p, le)) (ground (arith, no_))
            (inl (nonempty-append piece p here.0)) rest)
    ]

concat-cut_loop :
    (budget : ℕ) (piece : Text) (bytes : ℕ) (ps : List Text)
    → concat (cut_loop budget piece bytes ps) ≡ piece ++ concat ps
unfolding cut_loop is_nonempty
concat-cut_loop budget [] bytes [] = refl
concat-cut_loop budget (c ∷ piece) bytes [] = refl
concat-cut_loop budget piece bytes (p ∷ ps) =
    elim (Bool-cases (ltb budget (bytes + byte_length p))) [
      | inl yes_ ↦ rw yes_ (ap (λ t. piece ++ t) (concat-cut_loop budget p (byte_length p) ps))
      | inr no_ ↦ simp no_ (
          concat-cut_loop budget (piece ++ p) (bytes + byte_length p) ps
          ∙ append_assoc piece p (concat ps))
    ]

pub cut_line-Fits :
    (line : Text) (budget : ℕ) → 4 ≤ budget → All (Fits budget) (cut_line line budget)
unfolding cut_line byte_length
cut_line-Fits line budget room =
    cut_loop-Fits budget [] 0 (code_points line) room (omega arith) (omega arith) (inr refl)
      (code_points-IsCodePoint line)

pub concat-cut_line : (line : Text) (budget : ℕ) → concat (cut_line line budget) ≡ line
unfolding cut_line
concat-cut_line line budget =
    concat-cut_loop budget [] 0 (code_points line) ∙ concat-code_points line
