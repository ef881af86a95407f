-- ===== src/Grapheme/Walk.antt =====
-- The parts of the grapheme walk are groups of whole segments.
use mathlib.Core.List.{append-nil, append_assoc}
use theokit_gateways.Prelude.{
  ℕ, ◌+◌, ◌≤◌, ◌<◌, ◌≡◌, refl, sym, ap, ap₂, ◌∙◌, ◌⊎◌, inl, inr, true, false, List, [], ◌∷◌, ◌++◌,
  length, concat, All, All-append, leb, ltb, Bool-cases, arith, length-append, subst,
}
use theokit_gateways.Js.{Text, is_nonempty}
use theokit_gateways.Grapheme.{walk, Segmenter, chunk_checked}

-- The group is within the limit, or one segment alone is not.
abbrev pub Fits : ℕ → List Text → Type 0
Fits limit mine = (length (concat mine) ≤ limit) ⊎ ((s : Text) × (mine ≡ s ∷ []))

-- Each part is a group of consecutive segments, whole, nonempty, and within the limit unless it is
-- a single segment; and every segment is in a group.
abbrev pub Grouped : ℕ → List Text → List Text → Type 0
Grouped limit segments [] = segments ≡ []
Grouped limit segments (part ∷ parts) =
    (mine : List Text) × (rest : List Text) × (segments ≡ mine ++ rest)
    × (part ≡ concat mine)
    × (0 < length part)
    × Fits limit mine
    × Grouped limit rest parts

concat-append : (xs ys : List Text) → concat (xs ++ ys) ≡ concat xs ++ concat ys
concat-append [] ys = refl
concat-append (x ∷ xs) ys =
    ap (◌++◌ x) (concat-append xs ys) ∙ sym (append_assoc x (concat xs) (concat ys))

nonempty_length : (s : Text) → is_nonempty s ≡ true → 0 < length s
unfolding is_nonempty
nonempty_length [] h = cc
nonempty_length (c ∷ s) h = omega arith

-- Nonempty segments that make an empty text are none.
no_segments :
    (held : List Text)
    → All (λ s. 0 < length s) held
    → is_nonempty (concat held) ≡ false
    → held ≡ []
unfolding is_nonempty
no_segments [] h e = refl
no_segments ([] ∷ held) h e = absurd (omega arith)
no_segments ((c ∷ s) ∷ held) h e = cc

walk-Grouped :
    (limit : ℕ) (segments held : List Text)
    → All (λ s. 0 < length s) segments
    → All (λ s. 0 < length s) held
    → Fits limit held
    → Grouped limit (held ++ segments) (walk limit (concat held) segments)
unfolding walk
walk-Grouped limit [] held hs hh fits = elim (Bool-cases (is_nonempty (concat held))) [
  | inl e ↦ rw e (held, [], refl, refl, nonempty_length (concat held) e, fits, refl)
  | inr e ↦ rw (e, no_segments held hh e) refl
]
walk-Grouped limit (s ∷ segments) held hs hh fits =
    let alone : Grouped limit (s ∷ segments) (walk limit s segments) =
      subst (λ t. Grouped limit (s ∷ segments) (walk limit t segments)) (append-nil s)
        (walk-Grouped limit segments (s ∷ []) hs.1 (hs.0, tt) (inr (s, refl))) in
    let size : length (concat (held ++ s ∷ [])) ≡ length (concat held) + length s =
      ap length (concat-append held (s ∷ []))
      ∙ length-append (concat held) (s ++ [])
      ∙ ap (λ (t : Text). length (concat held) + length t) (append-nil s) in
    let joined : length (concat held) + length s ≤ limit
        → Grouped limit (held ++ s ∷ segments) (walk limit (concat held ++ s) segments) =
      λ within.
        subst (λ t. Grouped limit (held ++ s ∷ segments) (walk limit t segments))
          (concat-append held (s ∷ []) ∙ ap (◌++◌ (concat held)) (append-nil s))
          (subst (λ l. Grouped limit l (walk limit (concat (held ++ s ∷ [])) segments))
            (append_assoc held (s ∷ []) segments)
            (walk-Grouped limit segments (held ++ s ∷ []) hs.1
              (All-append (λ t. 0 < length t) held (s ∷ []) hh (hs.0, tt))
              (inl (omega (arith, size))))) in
    elim (Bool-cases (ltb limit (length (concat held) + length s))) [
      | inl over ↦ elim (Bool-cases (is_nonempty (concat held))) [
        | inl e ↦
            rw (over, e)
              (held, s ∷ segments, refl, refl, nonempty_length (concat held) e, fits, alone)
        | inr e ↦ rw (over, e, no_segments held hh e) alone
      ]
      | inr within ↦ rw within (joined (ground arith))
    ]

-- The parts, one after the other, are the segments.
pub concat-Grouped :
    (limit : ℕ) (segments parts : List Text)
    → Grouped limit segments parts
    → concat parts ≡ concat segments
concat-Grouped limit segments [] g = sym (ap concat g)
concat-Grouped limit segments (part ∷ parts) (mine, rest, whole, same, _, _, g) =
    ap₂ ◌++◌ same (concat-Grouped limit rest parts g)
    ∙ sym (ap concat whole ∙ concat-append mine rest)

pub Grouped-nonempty :
    (limit : ℕ) (segments parts : List Text)
    → Grouped limit segments parts
    → All (λ part. 0 < length part) parts
Grouped-nonempty limit segments [] g = tt
Grouped-nonempty limit segments (part ∷ parts) (mine, rest, _, _, low, _, g) =
    (low, Grouped-nonempty limit rest parts g)

-- No more parts than characters.
pub length_of_nonempty :
    (parts : List Text) → All (λ part. 0 < length part) parts → length parts ≤ length (concat parts)
length_of_nonempty [] h = omega arith
length_of_nonempty (part ∷ parts) h =
    omega (arith, length_of_nonempty parts h.1, length-append part (concat parts))

walk_all :
    (sg : Segmenter) (limit : ℕ) (text : Text)
    → Grouped limit (sg.segment text) (walk limit [] (sg.segment text))
walk_all sg limit text =
    walk-Grouped limit (sg.segment text) [] (sg.segment_nonempty text) tt (inl (omega arith))

-- What `chunkByGrapheme` answers once its sizes are checked: a text within the limit whole, and a
-- longer one in groups of whole segments. Joined, the parts are the text.
pub chunk_checked_lem :
    (sg : Segmenter) (text : Text) (limit part_limit : ℕ)
    → (concat (chunk_checked sg.segment text limit part_limit) ≡ text)
      × ((length text ≤ limit) × (chunk_checked sg.segment text limit part_limit ≡ text ∷ [])
          ⊎ (limit < length text)
            × Grouped part_limit (sg.segment text) (chunk_checked sg.segment text limit part_limit))
unfolding chunk_checked
chunk_checked_lem sg [] limit p = (refl, inl (omega arith, refl))
chunk_checked_lem sg (c ∷ s) limit p = elim (Bool-cases (leb (length (c ∷ s)) limit)) [
  | inl short ↦ rw short (append-nil (c ∷ s), inl (ground arith, refl))
  | inr long ↦
      let g = walk_all sg p (c ∷ s) in
      rw long (
        concat-Grouped p (sg.segment (c ∷ s)) _ g ∙ sg.segment_concat (c ∷ s),
        inr (ground arith, g),
      )
]
