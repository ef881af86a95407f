-- ===== src/Split/Telegram/Balance.antt =====
-- `balanceMarkdownPairs` ends and answers a beginning of the chunk.
use theokit_gateways.Prelude.{
  ℕ, zero, suc, ◌+◌, ◌-◌, ◌%◌, ◌≤◌, ◌<◌, ◌≡◌, refl, List, [], ◌∷◌, length, take, drop, All, ◌==◌,
  Bool-cases, Option-cases, inl, inr, arith, length-drop,
}
use theokit_gateways.Js.{Text, index_of, last_index_of, trim_end}
use theokit_gateways.Js.Search.{
  Begins, Begins-refl, Begins-trans, take-Begins, trim_end-Begins, index_of-Fits,
}
use theokit_gateways.Chunk.{done}
use theokit_gateways.Split.Telegram.{
  count_from, count_occurrences, cut_before_last, balance_marker, balance_markers, markers,
  balance_markdown_pairs,
}

-- The count ends when it has fuel for each character, since a marker is not empty.
count_from-done :
    (fuel : ℕ) (text needle : Text) (count : ℕ)
    → 0 < length needle
    → length text < fuel
    → (n : ℕ) × (count_from fuel text needle count ≡ done n)
unfolding count_from
count_from-done zero text needle count h k = absurd (omega arith)
count_from-done (suc fuel) text needle count h k = elim (Option-cases (index_of text needle)) [
  | inl miss ↦ (count, rw (miss, count_from))
  | inr (i, hit) ↦
      let fits : i + length needle ≤ length text = rw hit at (index_of-Fits text needle) in
      let (n, run) =
        count_from-done fuel (drop (i + length needle) text) needle (count + 1) h
          (omega (arith, length-drop {0} (i + length needle) text)) in
      (n, rw (hit, count_from) run)
]

count_occurrences-done :
    (text needle : Text) → 0 < length needle → (n : ℕ) × (count_occurrences text needle ≡ done n)
unfolding count_occurrences
count_occurrences-done text needle h =
    count_from-done (suc (length text)) text needle 0 h (omega arith)

cut_before_last-Begins : (out marker : Text) → Begins (cut_before_last out marker) out
unfolding cut_before_last
cut_before_last-Begins out marker = elim (Option-cases (last_index_of out marker (length out))) [
  | inl miss ↦ rw (miss, cut_before_last) (trimmed (length out - 1))
  | inr (i, hit) ↦ rw (hit, cut_before_last) (trimmed i)
]
  where
    trimmed : (n : ℕ) → Begins (trim_end (take n out)) out
    trimmed n = Begins-trans _ (take n out) out (trim_end-Begins (take n out)) (take-Begins n out)

balance_marker-Begins :
    (out marker : Text)
    → 0 < length marker
    → (balanced : Text) × (balance_marker out marker ≡ done balanced) × Begins balanced out
unfolding balance_marker
balance_marker-Begins out marker h =
    let (n, run) = count_occurrences-done out marker h in
    elim (Bool-cases (n % 2 == 1)) [
      | inl odd ↦ (cut_before_last out marker, rw (run, odd), cut_before_last-Begins out marker)
      | inr even ↦ (out, rw (run, even), Begins-refl out)
    ]

balance_markers-Begins :
    (out : Text) (ms : List Text)
    → All (λ m. 0 < length m) ms
    → (balanced : Text) × (balance_markers out ms ≡ done balanced) × Begins balanced out
unfolding balance_markers
balance_markers-Begins out [] h = (out, refl, Begins-refl out)
balance_markers-Begins out (m ∷ ms) h =
    let (once, run, begins) = balance_marker-Begins out m h.0 in
    let (balanced, rest, begins') = balance_markers-Begins once ms h.1 in
    (balanced, rw run rest, Begins-trans balanced once out begins' begins)

-- Balancing ends and only shortens the chunk.
pub balance_markdown_pairs-Begins :
    (chunk : Text)
    → (balanced : Text) × (balance_markdown_pairs chunk ≡ done balanced) × Begins balanced chunk
unfolding balance_markdown_pairs
balance_markdown_pairs-Begins chunk = balance_markers-Begins chunk markers (omega arith)
