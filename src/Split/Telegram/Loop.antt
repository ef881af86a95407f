-- ===== src/Split/Telegram/Loop.antt =====
-- `splitForTelegram` ends, within Telegram's limit, and loses only newlines at the cuts.
use mathlib.Core.List.{append-nil}
use theokit_gateways.Prelude.{
  ℕ, zero, suc, ◌≤◌, ◌<◌, ◌≡◌, refl, sym, ap, ◌∙◌, Option, none, some, List, [], ◌∷◌, ◌++◌, length,
  take, drop, All, All-map, leb, Bool-cases, inl, inr, arith, length-drop, length-take,
}
use theokit_gateways.Js.{Text, lit, strip_leading, is_nonempty}
use theokit_gateways.Js.Search.{
  Within, last_index_of-Within, Begins, Begins-refl, Begins-trans, take-Begins, length-Begins-le,
  drop-Begins,
}
use theokit_gateways.Js.Trim.{length-strip_leading-le, strip_leading-Outside, strip_leading_gap}
use theokit_gateways.Chunk.{done}
use theokit_gateways.Chunk.Loop.{Rejoins}
use theokit_gateways.Split.Channels.{is_newline}
use theokit_gateways.Split.Telegram.{
  or_else, find_boundary, choose_chunk, telegram_loop, split_for_telegram, telegram_max_message,
  safe_chunk,
}
use theokit_gateways.Split.Telegram.Balance.{balance_markdown_pairs-Begins}

or_else_bounds :
    (safe : ℕ) (found : Option ℕ) (later : ℕ)
    → Within safe found
    → (0 < later) × (later ≤ safe)
    → (0 < or_else safe found later) × (or_else safe found later ≤ safe)
or_else_bounds safe none later h k = k
or_else_bounds safe (some i) later h k = ground arith

find_boundary_bounds :
    (remaining : Text) (safe : ℕ)
    → 0 < safe
    → (0 < find_boundary remaining safe) × (find_boundary remaining safe ≤ safe)
unfolding find_boundary
find_boundary_bounds remaining safe h =
    or_else_bounds safe _ _ (last_index_of-Within remaining (lit "\n\n") safe)
      (or_else_bounds safe _ _ (last_index_of-Within remaining (lit "\n") safe) (h, omega arith))

choose_chunk_lem :
    (balanced raw : Text)
    → Begins balanced raw
    → 0 < length raw
    → Begins (choose_chunk balanced raw) raw × (0 < length (choose_chunk balanced raw))
unfolding choose_chunk is_nonempty
choose_chunk_lem [] raw b h = (Begins-refl raw, h)
choose_chunk_lem (c ∷ s) raw b h = (b, omega arith)

-- What the loop answers in a window of `safe` characters.
pub record Splits (safe : ℕ) (text : Text) (parts : List Text) : Type 0 where
  pub bounded : All (λ part. length part ≤ safe) parts
  pub inhabited : All (λ part. 0 < length part) parts
  pub rejoins : Rejoins is_newline parts text

Splits-cons :
    (safe : ℕ) (text chunk : Text) (parts : List Text)
    → Begins chunk text
    → 0 < length chunk
    → length chunk ≤ safe
    → Splits safe (strip_leading is_newline (drop (length chunk) text)) parts
    → Splits safe text (chunk ∷ parts)
Splits-cons safe text chunk parts b low high rest =
    let behind = drop (length chunk) text in
    let (gap, whole, inside) = strip_leading_gap is_newline behind in
    record {
      bounded = (high, rest.bounded);
      inhabited = (low, rest.inhabited);
      rejoins = (
        gap,
        strip_leading is_newline behind,
        drop-Begins chunk text b ∙ ap (◌++◌ chunk) whole,
        inside,
        strip_leading-Outside is_newline behind,
        rest.rejoins,
      );
    }

telegram_loop-Splits :
    (fuel safe : ℕ) (text : Text)
    → 0 < safe
    → length text ≤ fuel
    → (parts : List Text) × (telegram_loop fuel safe text ≡ done parts) × Splits safe text parts
unfolding telegram_loop
telegram_loop-Splits fuel safe [] h k =
    ([], refl, record { bounded = tt; inhabited = tt; rejoins = refl })
telegram_loop-Splits zero safe (c ∷ s) h k = absurd (omega arith)
telegram_loop-Splits (suc fuel) safe (c ∷ s) h k = elim (Bool-cases (leb (length (c ∷ s)) safe)) [
  | inl last ↦ (
    (c ∷ s) ∷ [],
    rw last refl,
    record {
      bounded = (ground arith, tt);
      inhabited = (omega arith, tt);
      rejoins = ([], [], sym (append-nil _), tt, tt, refl);
    },
  )
  | inr more ↦
      let text = c ∷ s in
      let edge = find_boundary text safe in
      let raw = take edge text in
      let bounds = find_boundary_bounds text safe h in
      let long : safe < length text = ground arith in
      let size : length raw ≡ edge = length-take edge text (omega arith) in
      let (balanced, runs, begins) = balance_markdown_pairs-Begins raw in
      let chunk = choose_chunk balanced raw in
      let (front, pos) = choose_chunk_lem balanced raw begins (omega arith) in
      let whole = Begins-trans chunk raw text front (take-Begins edge text) in
      let behind = strip_leading is_newline (drop (length chunk) text) in
      let (parts, run, answer) = telegram_loop-Splits fuel safe behind h (
        omega (
          arith,
          length-strip_leading-le is_newline (drop (length chunk) text),
          length-drop {0} (length chunk) text,
        )) in
      (
        chunk ∷ parts,
        rw (more, runs, run) refl,
        Splits-cons safe text chunk parts whole pos
            (omega (arith, length-Begins-le chunk raw front)) answer,
      )
]

-- For every text the split ends, each part has at most 4096 characters, and the text is the parts
-- in order with only runs of newlines between them.
pub split_for_telegram-Rejoins :
    (text : Text)
    → (parts : List Text) × (split_for_telegram text ≡ done parts)
      × All (λ part. length part ≤ telegram_max_message) parts
      × Rejoins is_newline parts text
unfolding split_for_telegram
split_for_telegram-Rejoins text = elim (Bool-cases (leb (length text) telegram_max_message)) [
  | inl short ↦
      (text ∷ [], rw short refl, (ground arith, tt), ([], [], sym (append-nil _), tt, tt, refl))
  | inr long ↦
      let (parts, run, answer) =
        telegram_loop-Splits (length text) safe_chunk text (omega arith) (omega arith) in
      (parts, rw long run, All-map parts (λ part le. omega arith) answer.bounded, answer.rejoins)
]
