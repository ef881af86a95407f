-- ===== src/Grapheme.antt =====
-- packages/gateway/src/text/chunk.ts, `chunkByGrapheme`, and its LINE wrapper,
-- packages/gateway-line/src/split.ts. `Intl.Segmenter` is a parameter: the function `segment`, of
-- which the code relies on the segments being nonempty and, in order, the text.
pub mod Walk
pub mod Parts
use theokit_gateways.Prelude.{
  ℕ, ◌+◌, ◌≤◌, ◌<◌, ◌≡◌, ◌⊎◌, ◌&&◌, Option, none, some, List, [], ◌∷◌, ◌++◌, length, concat, All,
  leb, ltb, if◌then◌else◌,
}
use theokit_gateways.Js.{Text, Number, is_nonempty}
use theokit_gateways.Chunk.{
  limit_not_positive, window_not_positive, Outcome, done, ◌>>=◌, assert_positive_int,
}

-- The loop over the segments, `buf` the part under construction, and the part left at the end.
unfoldable pub walk : ℕ → Text → List Text → List Text
unfolding is_nonempty
walk part_limit buf [] = if is_nonempty buf then buf ∷ [] else []
walk part_limit buf (segment ∷ segments) =
    let over = ltb part_limit (length buf + length segment) in
    let rest = walk part_limit (if over then segment else buf ++ segment) segments in
    if over && is_nonempty buf then buf ∷ rest else rest

-- What a documented segmenter does.
pub record Segmenter : Type 0 where
  pub segment : Text → List Text
  pub segment_concat : (text : Text) → concat (segment text) ≡ text
  pub segment_nonempty : (text : Text) → All (λ s. 0 < length s) (segment text)

-- The rest of `chunkByGrapheme` once the sizes are checked.
unfoldable pub chunk_checked : (Text → List Text) → Text → ℕ → ℕ → List Text
chunk_checked segment [] limit part_limit = [] ∷ []
chunk_checked segment (c ∷ s) limit part_limit =
    if leb (length (c ∷ s)) limit then (c ∷ s) ∷ [] else walk part_limit [] (segment (c ∷ s))

-- `chunkByGrapheme`; `part_limit` is `none` for the default, the limit.
unfoldable pub chunk_by_grapheme :
    (Text → List Text) → Text → Number → Option Number → Outcome (List Text)
unfolding assert_positive_int
chunk_by_grapheme segment text limit part_limit = do
  l ← assert_positive_int limit_not_positive limit
  p ← assert_positive_int window_not_positive (elim part_limit [ none ↦ limit | some n ↦ n ])
  done (chunk_checked segment text l p)

-- `splitForLine`; the limit is 5000 unless the caller gives one.
unfoldable pub split_for_line : (Text → List Text) → Text → Number → Outcome (List Text)
split_for_line segment text limit = chunk_by_grapheme segment text limit none
