-- ===== src/Tests/Splitting.antt =====
-- Runs of the splitters, and their theorems at concrete inputs.
use theokit_gateways.Prelude.{
  ℕ, ◌≤◌, ◌<◌, ◌≡◌, refl, ◌⊎◌, true, some, List, [], ◌∷◌, length, All, concat, arith, ◌++◌, ap,
}
use theokit_gateways.Js.{index_from, Text, pos, negsuc, fraction, lit, is_space, is_low_surrogate}
use theokit_gateways.Js.Trim.{visible, IsBlank}
use theokit_gateways.Js.Utf16.{IsWellFormed, IsPlain, is_high_surrogate}
use theokit_gateways.Chunk.{
  ChunkTextOptions, RangeError, limit_not_positive, window_above_limit, done, throws, chunk_text,
  chunk_loop, window_number, finalize, cut_at, remaining_after,
}
use theokit_gateways.Chunk.Loop.{Rejoins}
use theokit_gateways.Chunk.Ends.{HasSizes, raw_parts, chunk_text-done, chunk_text_ends}
use theokit_gateways.Chunk.Content.{chunk_text_content}
use theokit_gateways.Chunk.Surrogates.{chunk_text-IsWellFormed}
use theokit_gateways.Split.Channels.{
  Delivers, is_newline, slack_options, split_for_discord, split_for_escaped_discord,
  split_for_slack, split_for_whatsapp, split_for_teams, split_for_mattermost,
  split_for_escaped_mattermost, wrappers-Delivers,
}
use theokit_gateways.Split.Telegram.{
  split_for_telegram, telegram_max_message, balance_markdown_pairs,
}
use theokit_gateways.Split.Telegram.Loop.{split_for_telegram-Rejoins}
use theokit_gateways.Grapheme.{chunk_checked, walk, Segmenter, chunk_by_grapheme}
use theokit_gateways.Grapheme.Parts.{Answers, chunk_by_grapheme-Answers}

abbrev options : ChunkTextOptions
options = slack_options 6 true

abbrev sample : Text
sample = lit "aa bb\n\n  cc dd"

options_sizes : HasSizes options 6 6
unfolding window_number
options_sizes = record {
  limit_is = refl;
  window_is = refl;
  window_positive = omega arith;
  window_fits = omega arith;
}

is_space-IsBlank : IsBlank is_space
is_space-IsBlank c h = h

sample_run : chunk_text sample options ≡ done (lit "aa bb" ∷ lit "cc dd" ∷ [])
unfolding chunk_text chunk_loop cut_at remaining_after finalize
sample_run = refl

bad_sizes :
    (chunk_text sample (record options { limit = negsuc 2 }) ≡ throws limit_not_positive)
    × (chunk_text sample (record options { limit = fraction }) ≡ throws limit_not_positive)
    × (chunk_text sample (record options { safe_limit = some (pos 7) }) ≡ throws window_above_limit)
unfolding chunk_text
bad_sizes = (refl, refl, refl)

-- A pair stands across the edge of the window and is not severed.
emoji : Text
emoji = lit "aaaaa" ++ (0xd83d ∷ 0xde00 ∷ lit "bb")

emoji_run : chunk_text emoji options ≡ done (lit "aaaaa" ∷ (0xd83d ∷ 0xde00 ∷ lit "bb") ∷ [])
unfolding emoji chunk_text chunk_loop cut_at remaining_after finalize
emoji_run = refl

chunk_text-done_example :
    (parts : List Text) × (raw_parts sample options 6 6 ≡ done parts)
    × (chunk_text sample options ≡ done (finalize true parts))
    × All (λ part. length part ≤ 6) parts
    × Rejoins is_space parts sample
chunk_text-done_example = chunk_text-done sample options 6 6 options_sizes

chunk_text_ends_example :
    ((limit window : ℕ) × HasSizes options limit window
      × ((parts : List Text) × (chunk_text sample options ≡ done parts)))
    ⊎ ((e : RangeError) × (chunk_text sample options ≡ throws e)
        × ((limit window : ℕ) → ¬ HasSizes options limit window))
chunk_text_ends_example = chunk_text_ends sample options

chunk_text_content_example :
    (parts : List Text) × (chunk_text sample options ≡ done parts)
    × All (λ part. length part ≤ 6) parts
    × (visible (concat parts) ≡ lit "aabbccdd")
unfolding is_space
chunk_text_content_example = chunk_text_content sample options 6 6 options_sizes is_space-IsBlank

emoji-IsWellFormed : IsWellFormed emoji
unfolding emoji is_low_surrogate is_high_surrogate
emoji-IsWellFormed = ground arith

boundaries-IsPlain : All IsPlain options.boundaries
unfolding is_low_surrogate
boundaries-IsPlain = (refl, (refl, (refl, tt)))

chunk_text-IsWellFormed_example :
    (parts : List Text) × (chunk_text emoji options ≡ done parts) × All IsWellFormed parts
chunk_text-IsWellFormed_example =
    chunk_text-IsWellFormed emoji options 6 6 options_sizes (omega arith) refl boundaries-IsPlain
      is_space-IsBlank emoji-IsWellFormed

wrappers-Delivers_example :
    Delivers 2000 sample (split_for_discord sample)
    × Delivers 1000 sample (split_for_escaped_discord sample)
    × Delivers 4000 sample (split_for_slack sample)
    × Delivers 4096 sample (split_for_whatsapp sample)
    × Delivers 8000 sample (split_for_teams sample)
    × Delivers 16383 sample (split_for_mattermost sample)
    × Delivers 8191 sample (split_for_escaped_mattermost sample)
wrappers-Delivers_example = wrappers-Delivers sample

split_for_telegram-Rejoins_example :
    (parts : List Text) × (split_for_telegram sample ≡ done parts)
    × All (λ part. length part ≤ telegram_max_message) parts
    × Rejoins is_newline parts sample
split_for_telegram-Rejoins_example = split_for_telegram-Rejoins sample

-- Balancing the code span takes the end of the bold away, and the chunk is left unbalanced.
unbalanced : balance_markdown_pairs (lit "**a `b** c") ≡ done (lit "**a")
unfolding balance_markdown_pairs index_from
unbalanced = refl

-- A segmenter of single characters.
singles : Text → List Text
singles [] = []
singles (c ∷ s) = (c ∷ []) ∷ singles s

concat-singles : (text : Text) → concat (singles text) ≡ text
unfolding singles
concat-singles [] = refl
concat-singles (c ∷ s) = ap (◌∷◌ c) (concat-singles s)

singles-length : (n : ℕ) (text : Text) → 0 < n → All (λ s. length s ≤ n) (singles text)
unfolding singles
singles-length n [] h = tt
singles-length n (c ∷ s) h = (h, singles-length n s h)

singles_nonempty : (text : Text) → All (λ s. 0 < length s) (singles text)
unfolding singles
singles_nonempty [] = tt
singles_nonempty (c ∷ s) = (omega arith, singles_nonempty s)

abbrev segmenter : Segmenter
segmenter = record {
  segment = singles;
  segment_concat = concat-singles;
  segment_nonempty = singles_nonempty;
}

grapheme_run :
    chunk_by_grapheme singles (lit "abcdefg") (pos 4) (some (pos 3))
    ≡ done (lit "abc" ∷ lit "def" ∷ lit "g" ∷ [])
unfolding chunk_by_grapheme singles chunk_checked walk
grapheme_run = refl

chunk_by_grapheme-Answers_example :
    (parts : List Text) × (chunk_by_grapheme singles sample (pos 4) (some (pos 3)) ≡ done parts)
    × Answers segmenter sample 4 3 parts
chunk_by_grapheme-Answers_example =
    chunk_by_grapheme-Answers segmenter sample 4 3 (omega arith) (omega arith)
