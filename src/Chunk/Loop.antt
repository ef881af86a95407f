-- ===== src/Chunk/Loop.antt =====
-- The loop of `chunkText`: it ends, its parts fit the window, and with the stripped runs between
-- them they are the text.
use mathlib.Core.List.{append-nil}
use theokit_gateways.Prelude.{
  ℕ, zero, suc, ◌-◌, ◌≤◌, ◌<◌, ◌≡◌, refl, sym, ap, ◌∙◌, Bool, true, List, [], ◌∷◌, ◌++◌, length,
  take, drop, All, Bool-cases, inl, inr, ltb, arith, length-drop, length-take, length-take-le,
  take-append-drop,
}
use theokit_gateways.Js.{Text}
use theokit_gateways.Js.Trim.{
  Outside, length-strip_leading-le, strip_leading-Outside, strip_leading_gap,
}
use theokit_gateways.Chunk.{ChunkTextOptions, done, cut_at, remaining_after, chunk_loop}
use theokit_gateways.Chunk.Cut.{find_cut_bounds}

-- The text is the parts in order, each followed by a whole run of characters of the class.
abbrev pub Rejoins : (ℕ → Bool) → List Text → Text → Type 0
Rejoins p [] text = text ≡ []
Rejoins p (part ∷ parts) text =
    (gap : Text) × (rest : Text) × (text ≡ part ++ (gap ++ rest))
    × All (λ c. p c ≡ true) gap
    × Outside p rest
    × Rejoins p parts rest

-- What the loop answers on `text` in a window of `window` characters.
pub record Splits (o : ChunkTextOptions) (window : ℕ) (text : Text) (parts : List Text)
    : Type 0 where
  pub bounded : All (λ part. length part ≤ window) parts
  pub inhabited : All (λ part. 0 < length part) parts
  pub rejoins : Rejoins o.strip_class parts text

pub cut_at_bounds :
    (o : ChunkTextOptions) (window : ℕ) (text : Text)
    → 0 < window
    → (0 < cut_at o window text) × (cut_at o window text ≤ window)
unfolding cut_at
cut_at_bounds o window text =
    find_cut_bounds text window o.boundaries o.last_resort o.surrogate_guard

length-remaining_after-le :
    (o : ChunkTextOptions) (cut : ℕ) (text : Text)
    → length (remaining_after o cut text) ≤ length text - cut
unfolding remaining_after
length-remaining_after-le o cut text =
    omega (arith, length-strip_leading-le o.strip_class (drop cut text), length-drop {0} cut text)

-- One round in front of the answer on the rest.
Splits-cons :
    (o : ChunkTextOptions) (window cut : ℕ) (text : Text) (parts : List Text)
    → 0 < cut
    → cut ≤ window
    → window < length text
    → Splits o window (remaining_after o cut text) parts
    → Splits o window text (take cut text ∷ parts)
unfolding remaining_after
Splits-cons o window cut text parts low high long rest =
    let (gap, whole, inside) = strip_leading_gap o.strip_class (drop cut text) in
    record {
      bounded = (omega (arith, length-take-le cut text), rest.bounded);
      inhabited = (omega (arith, length-take cut text (omega arith)), rest.inhabited);
      rejoins = (
        gap,
        remaining_after o cut text,
        sym (take-append-drop cut text) ∙ ap (◌++◌ (take cut text)) whole,
        inside,
        strip_leading-Outside o.strip_class (drop cut text),
        rest.rejoins,
      );
    }

-- The loop ends with its answer when it has fuel for each character.
pub chunk_loop-Splits :
    (fuel : ℕ) (o : ChunkTextOptions) (window : ℕ) (text : Text)
    → 0 < window
    → length text ≤ fuel
    → (parts : List Text) × (chunk_loop fuel o window text ≡ done parts)
      × Splits o window text parts
unfolding chunk_loop
chunk_loop-Splits fuel o window [] h k =
    ([], refl, record { bounded = tt; inhabited = tt; rejoins = refl })
chunk_loop-Splits zero o window (c ∷ s) h k = absurd (omega arith)
chunk_loop-Splits (suc fuel) o window (c ∷ s) h k =
    elim (Bool-cases (ltb window (length (c ∷ s)))) [
      | inl more ↦
          let text = c ∷ s in
          let cut = cut_at o window text in
          let bounds = cut_at_bounds o window text h in
          let (parts, run, answer) =
            chunk_loop-Splits fuel o window (remaining_after o cut text) h
              (omega (arith, length-remaining_after-le o cut text)) in
          (
            take cut text ∷ parts,
            rw (more, run) refl,
            Splits-cons o window cut text parts bounds.0 bounds.1 (ground arith) answer,
          )
      | inr last ↦ (
        (c ∷ s) ∷ [],
        rw last refl,
        record {
          bounded = (ground arith, tt);
          inhabited = (omega arith, tt);
          rejoins = ([], [], sym (append-nil _), tt, tt, refl);
        },
      )
    ]
