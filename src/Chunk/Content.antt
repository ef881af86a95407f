-- ===== src/Chunk/Content.antt =====
-- What `chunkText` keeps of the text, with and without trimming.
use theokit_gateways.Prelude.{
  ℕ, ◌≤◌, ◌≡◌, refl, sym, ap, ap₂, ◌∙◌, Bool, true, false, List, [], ◌∷◌, ◌++◌, length, All,
  All-filter, map, concat, Bool-cases, inl, inr, arith, filter-append,
}
use theokit_gateways.Js.{Text, trim, is_nonempty}
use theokit_gateways.Js.Trim.{
  visible, IsBlank, visible-blank, visible-trim, length-trim-le, trim_idem,
}
use theokit_gateways.Chunk.{ChunkTextOptions, done, finalize, chunk_text}
use theokit_gateways.Chunk.Loop.{Rejoins}
use theokit_gateways.Chunk.Ends.{HasSizes, chunk_text-done}

-- A part of a trimming chunker: not empty, without white space at its ends, within the limit.
pub record IsTrimmed (limit : ℕ) (part : Text) : Type 0 where
  pub bounded : length part ≤ limit
  pub nonempty : is_nonempty part ≡ true
  pub trimmed : trim part ≡ part

All-trim :
    (limit : ℕ) (parts : List Text)
    → All (λ part. length part ≤ limit) parts
    → All (λ part. length part ≤ limit) (map trim parts)
All-trim limit [] h = tt
All-trim limit (part ∷ parts) h = (omega (arith, length-trim-le part), All-trim limit parts h.1)

finalize-All-le :
    (trims : Bool) (limit : ℕ) (parts : List Text)
    → All (λ part. length part ≤ limit) parts
    → All (λ part. length part ≤ limit) (finalize trims parts)
unfolding finalize
finalize-All-le false limit parts h = h
finalize-All-le true limit parts h =
    All-filter (λ part. length part ≤ limit) is_nonempty (map trim parts) (All-trim limit parts h)

finalize-IsTrimmed :
    (limit : ℕ) (parts : List Text)
    → All (λ part. length part ≤ limit) parts
    → All (IsTrimmed limit) (finalize true parts)
unfolding finalize
finalize-IsTrimmed limit [] h = tt
finalize-IsTrimmed limit (part ∷ parts) h = elim (Bool-cases (is_nonempty (trim part))) [
  | inl e ↦ rw e (
    record { bounded = omega (arith, length-trim-le part); nonempty = e; trimmed = trim_idem part },
    finalize-IsTrimmed limit parts h.1,
  )
  | inr e ↦ rw e (finalize-IsTrimmed limit parts h.1)
]

visible-append : (s t : Text) → visible (s ++ t) ≡ visible s ++ visible t
visible-append s t = filter-append _ s t

visible-empty : (s : Text) → is_nonempty s ≡ false → visible s ≡ []
unfolding is_nonempty
visible-empty [] h = refl
visible-empty (c ∷ s) h = cc

visible-finalize :
    (trims : Bool) (parts : List Text)
    → visible (concat (finalize trims parts)) ≡ visible (concat parts)
unfolding finalize
visible-finalize false parts = refl
visible-finalize true [] = refl
visible-finalize true (part ∷ parts) =
    let ih = visible-finalize true parts in
    elim (Bool-cases (is_nonempty (trim part))) [
      | inl e ↦ rw e (
          visible-append (trim part) (concat (finalize true parts))
          ∙ ap₂ ◌++◌ (visible-trim part) ih
          ∙ sym (visible-append part (concat parts)))
      | inr e ↦ rw e (
          ih
          ∙ sym (
              visible-append part (concat parts)
              ∙ ap (λ t. t ++ visible (concat parts))
                  (sym (visible-trim part) ∙ visible-empty (trim part) e)))
    ]

visible-Rejoins :
    (p : ℕ → Bool) (parts : List Text) (text : Text)
    → IsBlank p
    → Rejoins p parts text
    → visible (concat parts) ≡ visible text
visible-Rejoins p [] text h r = sym (ap visible r)
visible-Rejoins p (part ∷ parts) text h (gap, rest, whole, inside, _, rejoins) =
    visible-append part (concat parts)
    ∙ ap (◌++◌ (visible part)) (visible-Rejoins p parts rest h rejoins)
    ∙ sym (
        ap visible whole
        ∙ visible-append part (gap ++ rest)
        ∙ ap (◌++◌ (visible part))
            (visible-append gap rest ∙ ap (λ t. t ++ visible rest) (visible-blank p gap h inside)))

-- No part is longer than the limit, and the parts hold the visible characters of the text, all of
-- them, once and in order, for every class of stripped characters that is white space.
pub chunk_text_content :
    (text : Text) (o : ChunkTextOptions) (limit window : ℕ)
    → HasSizes o limit window
    → IsBlank o.strip_class
    → (parts : List Text) × (chunk_text text o ≡ done parts)
      × All (λ part. length part ≤ limit) parts
      × (visible (concat parts) ≡ visible text)
chunk_text_content text o limit window v h =
    let (parts, _, returns, bounded, rejoins) = chunk_text-done text o limit window v in
    (
      finalize o.trim_parts parts,
      returns,
      finalize-All-le o.trim_parts limit parts bounded,
      visible-finalize o.trim_parts parts ∙ visible-Rejoins o.strip_class parts text h rejoins,
    )

-- A trimming chunker answers parts that are not empty and begin and end with no white space.
pub chunk_text-IsTrimmed :
    (text : Text) (o : ChunkTextOptions) (limit window : ℕ)
    → HasSizes o limit window
    → o.trim_parts ≡ true
    → (parts : List Text) × (chunk_text text o ≡ done parts) × All (IsTrimmed limit) parts
chunk_text-IsTrimmed text o limit window v t =
    let (parts, _, returns, bounded, rejoins) = chunk_text-done text o limit window v in
    (
      finalize true parts,
      returns ∙ ap (λ b. done (finalize b parts)) t,
      finalize-IsTrimmed limit parts bounded,
    )
