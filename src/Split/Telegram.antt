-- ===== src/Split/Telegram.antt =====
-- packages/gateway-telegram/src/split.ts: the splitting loop with its markdown balancing.
pub mod Balance
pub mod Loop
use theokit_gateways.Prelude.{
  ℕ, zero, suc, ◌+◌, ◌-◌, ◌*◌, ◌%◌, ◌≡◌, refl, Option, none, some, List, [], ◌∷◌, length, take,
  drop, ltb, leb, ◌==◌, if◌then◌else◌,
}
use theokit_gateways.Js.{Text, lit, index_of, last_index_of, strip_leading, trim_end, is_nonempty}
use theokit_gateways.Chunk.{Outcome, done, out_of_fuel, ◌>>=◌, push_part}
use theokit_gateways.Split.Channels.{is_newline}

abbrev pub telegram_max_message : ℕ
telegram_max_message = 4096

abbrev pub safe_chunk : ℕ
safe_chunk = 4000

-- The loop of `countOccurrences`; `text` is the haystack from `pos` on.
unfoldable pub count_from : ℕ → Text → Text → ℕ → Outcome ℕ
count_from zero text needle count = out_of_fuel
count_from (suc fuel) text needle count = elim (index_of text needle) [
  | none ↦ done count
  | some found ↦ count_from fuel (drop (found + length needle) text) needle (count + 1)
]

unfoldable pub count_occurrences : Text → Text → Outcome ℕ
unfolding count_from
count_occurrences haystack needle = count_from (suc (length haystack)) haystack needle 0

-- `out.slice(0, lastIdx).trimEnd()`. An odd count leaves an occurrence, so -1 does not happen;
-- there `slice(0, -1)` drops the last character.
unfoldable pub cut_before_last : Text → Text → Text
unfolding trim_end last_index_of
cut_before_last out marker = elim (last_index_of out marker (length out)) [
  | none ↦ trim_end (take (length out - 1) out)
  | some last ↦ trim_end (take last out)
]

-- The body of the loop of `balanceMarkdownPairs`.
unfoldable pub balance_marker : Text → Text → Outcome Text
unfolding count_occurrences cut_before_last
balance_marker out marker = do
  count ← count_occurrences out marker
  done (if count % 2 == 1 then cut_before_last out marker else out)

unfoldable pub balance_markers : Text → List Text → Outcome Text
unfolding balance_marker
balance_markers out [] = done out
balance_markers out (m ∷ ms) = do balanced ← balance_marker out m; balance_markers balanced ms

abbrev pub markers : List Text
markers = lit "**" ∷ lit "__" ∷ lit "~~" ∷ lit "`" ∷ []

unfoldable pub balance_markdown_pairs : Text → Outcome Text
unfolding balance_markers
balance_markdown_pairs chunk = balance_markers chunk markers

-- `if (boundary < SAFE_CHUNK / 2)`: the position found, unless it is too early or -1.
abbrev pub or_else : ℕ → Option ℕ → ℕ → ℕ
or_else safe none later = later
or_else safe (some i) later = if ltb (i * 2) safe then later else i

unfoldable pub find_boundary : Text → ℕ → ℕ
unfolding last_index_of
find_boundary remaining safe =
    or_else safe (last_index_of remaining (lit "\n\n") safe)
      (or_else safe (last_index_of remaining (lit "\n") safe) safe)

-- `balanced.length > 0 ? balanced : rawChunk`.
unfoldable pub choose_chunk : Text → Text → Text
unfolding is_nonempty
choose_chunk balanced raw = if is_nonempty balanced then balanced else raw

-- The `while` loop, in a window of `safe` characters.
unfoldable pub telegram_loop : ℕ → ℕ → Text → Outcome (List Text)
telegram_loop fuel safe [] = done []
telegram_loop zero safe (c ∷ s) = out_of_fuel
telegram_loop (suc fuel) safe (c ∷ s) =
    let remaining = c ∷ s in
    let raw = take (find_boundary remaining safe) remaining in
    let rest = balance_markdown_pairs raw >>= λ balanced.
    (let chunk = choose_chunk balanced raw in
      telegram_loop fuel safe (strip_leading is_newline (drop (length chunk) remaining))
      >>= push_part chunk) in
    if leb (length remaining) safe then done (remaining ∷ []) else rest

-- `splitForTelegram`.
unfoldable pub split_for_telegram : Text → Outcome (List Text)
split_for_telegram text =
    if leb (length text) telegram_max_message
    then done (text ∷ [])
    else telegram_loop (length text) safe_chunk text
