-- ===== src/Grapheme/Parts.antt =====
-- `chunkByGrapheme` and `splitForLine`, their size checks included.
use theokit_gateways.Prelude.{
  ℕ, zero, suc, ◌≤◌, ◌<◌, ◌≡◌, refl, ◌⊎◌, inl, inr, some, List, [], ◌∷◌, length, concat, arith, All,
  All-split, length-append, subst,
}
use theokit_gateways.Js.{Text, pos}
use theokit_gateways.Chunk.{done}
use theokit_gateways.Grapheme.{Segmenter, chunk_checked, chunk_by_grapheme, split_for_line}
use theokit_gateways.Grapheme.Walk.{Grouped, Fits, chunk_checked_lem}

-- What a call with valid sizes answers.
pub record Answers (sg : Segmenter) (text : Text) (limit part_limit : ℕ) (parts : List Text)
    : Type 0 where
  pub joined : concat parts ≡ text
  pub grouped :
      (length text ≤ limit) × (parts ≡ text ∷ [])
      ⊎ (limit < length text) × Grouped part_limit (sg.segment text) parts

-- With positive sizes `chunkByGrapheme` returns parts that joined are the text: the text itself if
-- it is within the limit, else groups of whole segments, each within the part limit unless it is
-- one segment that alone is longer.
pub chunk_by_grapheme-Answers :
    (sg : Segmenter) (text : Text) (limit part_limit : ℕ)
    → 0 < limit
    → 0 < part_limit
    → (parts : List Text) × (chunk_by_grapheme sg.segment text (pos limit) (some (pos part_limit))
        ≡ done parts)
      × Answers sg text limit part_limit parts
unfolding chunk_by_grapheme
chunk_by_grapheme-Answers sg text zero p h k = absurd (omega arith)
chunk_by_grapheme-Answers sg text (suc l) zero h k = absurd (omega arith)
chunk_by_grapheme-Answers sg text (suc l) (suc p) h k =
    let (joined, grouped) = chunk_checked_lem sg text (suc l) (suc p) in
    (
      chunk_checked sg.segment text (suc l) (suc p),
      refl,
      record { joined = joined; grouped = grouped },
    )

group_within :
    (limit : ℕ) (mine : List Text)
    → All (λ s. length s ≤ limit) mine
    → Fits limit mine
    → length (concat mine) ≤ limit
group_within limit mine h (inl within) = within
group_within limit mine h (inr (s, alone)) =
    let one : All (λ s. length s ≤ limit) (s ∷ []) = rw alone at h in
    rw alone (omega (arith, length-append s [], one.0))

within_limit :
    (limit : ℕ) (segments parts : List Text)
    → All (λ s. length s ≤ limit) segments
    → Grouped limit segments parts
    → All (λ part. length part ≤ limit) parts
within_limit limit segments [] h g = tt
within_limit limit segments (part ∷ parts) h (mine, rest, whole, same, _, fits, g) =
    let (front, back) =
      All-split (λ s. length s ≤ limit) mine rest
        (subst (All (λ (s : Text). length s ≤ limit)) whole h) in
    (rw same (group_within limit mine front fits), within_limit limit rest parts back g)

-- With a positive limit `splitForLine` returns parts that joined are the text, and where no segment
-- is longer than the limit no part is.
split_for_line_parts :
    (sg : Segmenter) (text : Text) (limit : ℕ)
    → 0 < limit
    → All (λ s. length s ≤ limit) (sg.segment text)
    → (parts : List Text) × (split_for_line sg.segment text (pos limit) ≡ done parts)
      × (concat parts ≡ text)
      × All (λ part. length part ≤ limit) parts
unfolding split_for_line chunk_by_grapheme
split_for_line_parts sg text zero h a = absurd (omega arith)
split_for_line_parts sg text (suc l) h a =
    let (joined, grouped) = chunk_checked_lem sg text (suc l) (suc l) in
    (chunk_checked sg.segment text (suc l) (suc l), refl, joined, bounded grouped)
  where
    bounded :
        (length text ≤ suc l) × (chunk_checked sg.segment text (suc l) (suc l) ≡ text ∷ [])
          ⊎ (suc l < length text)
            × Grouped (suc l) (sg.segment text) (chunk_checked sg.segment text (suc l) (suc l))
        → All (λ part. length part ≤ suc l) (chunk_checked sg.segment text (suc l) (suc l))
    bounded (inl (short, e)) = rw e (short, tt)
    bounded (inr (long, g)) = within_limit (suc l) (sg.segment text) _ a g
