-- ===== src/Irc/Split.antt =====
-- packages/gateway-irc/src/split.ts: a text cut into the bodies of IRC commands.
pub mod Cut
pub mod Lines
use theokit_gateways.Prelude.{
  ℕ, ◌+◌, ◌-◌, Bool, true, false, not, ◌&&◌, ◌||◌, Option, none, some, List, [], ◌∷◌, ◌++◌, filter,
  ltb, ◌==◌, if◌then◌else◌,
}
use theokit_gateways.Js.{Text, lit, is_low_surrogate, is_nonempty, cons_first}
use theokit_gateways.Js.Utf16.{is_high_surrogate}

-- A UTF-16 unit's bytes in UTF-8, outside of pairs; half a pair is replaced by a character of three.
unfoldable pub unit_bytes : ℕ → ℕ
unit_bytes c = if ltb c 0x80 then 1 else if ltb c 0x800 then 2 else 3

abbrev pub is_pair : ℕ → ℕ → Bool
is_pair c d = is_high_surrogate c && is_low_surrogate d

-- `Buffer.byteLength(text)`.
unfoldable pub byte_length : Text → ℕ
byte_length [] = 0
byte_length (c ∷ []) = unit_bytes c
byte_length (c ∷ d ∷ s) =
    let paired = byte_length s in
    let single = byte_length (d ∷ s) in if is_pair c d then 4 + paired else unit_bytes c + single

-- The code points that `for (const codePoint of text)` goes through.
unfoldable pub code_points : Text → List Text
code_points [] = []
code_points (c ∷ []) = (c ∷ []) ∷ []
code_points (c ∷ d ∷ s) =
    let paired = code_points s in
    let single = code_points (d ∷ s) in
    if is_pair c d then (c ∷ d ∷ []) ∷ paired else (c ∷ []) ∷ single

-- The loop of `cutLine`, with the piece so far and its bytes.
unfoldable pub cut_loop : ℕ → Text → ℕ → List Text → List Text
cut_loop budget piece piece_bytes [] = if is_nonempty piece then piece ∷ [] else []
cut_loop budget piece piece_bytes (p ∷ ps) =
    let bytes = byte_length p in
    let next = cut_loop budget p bytes ps in
    let same = cut_loop budget (piece ++ p) (piece_bytes + bytes) ps in
    if ltb budget (piece_bytes + bytes) then piece ∷ next else same

-- `cutLine`.
unfoldable pub cut_line : Text → ℕ → List Text
cut_line line budget = cut_loop budget [] 0 (code_points line)

-- `text.split(/\r\n|\n|\r/)`, with whether a CR was read just now.
unfoldable pub split_lines : Bool → Text → List Text
split_lines cr [] = [] ∷ []
split_lines cr (c ∷ s) =
    let plain = split_lines false s in
    let after_cr = split_lines true s in
    if c == 10
    then (if cr then plain else [] ∷ plain)
    else if c == 13
    then [] ∷ after_cr
    else cons_first c plain

-- The loop of `splitForIrc`.
unfoldable pub cut_lines : ℕ → List Text → List Text
cut_lines budget [] = []
cut_lines budget (line ∷ lines) =
    let rest = cut_lines budget lines in
    if is_nonempty line then cut_line line budget ++ rest else rest

-- The bytes that a command has beside its body.
abbrev pub overhead : Text → ℕ → ℕ
overhead target reserve = 2 + byte_length (lit "PRIVMSG " ++ target ++ lit " :") + reserve

-- `splitForIrc`; `none` is its `RangeError`.
unfoldable pub split_for_irc : Text → Text → ℕ → Option (List Text)
split_for_irc text target reserve =
    if ltb 512 (overhead target reserve + 4)
    then none
    else some (
        cut_lines (512 - overhead target reserve)
          (split_lines false (filter (λ c. not (c == 0)) text)))
