-- ===== src/Irc.antt =====
-- packages/gateway-irc/src/line.ts. `upper` stands for `toUpperCase`; the tags' object is a map.
pub mod Params
pub mod Split
pub mod Registration
pub mod Stream
pub mod Session
use theokit_gateways.Prelude.{
  ℕ, zero, suc, ◌+◌, Bool, true, false, Option, none, some, List, [], ◌∷◌, ◌++◌, length, take, drop,
  map, ltb, ◌==◌, if◌then◌else◌,
}
use theokit_gateways.Js.{
  Text, Text-discrete, lit, index_of, is_nonempty, starts_with, trim_start, split_on,
}
use theokit_gateways.JsMap as Map

-- `IrcLine`.
pub record IrcLine : Type 0 where
  pub tags : List (Text × Text)
  pub prefix : Option Text
  pub command : Text
  pub params : List Text

-- The character that a backslash and `c` stand for, by `TAG_ESCAPES`; any other stands for itself.
unfoldable pub escape_of : ℕ → ℕ
escape_of c =
    if c == b':'
    then b';'
    else if c == b's'
    then b' '
    else if c == b'r'
    then 13
    else if c == b'n'
    then 10
    else c

-- `unescapeTag`, with whether a backslash was read just now. A backslash at the end is dropped.
unfoldable pub unescape_from : Bool → Text → Text
unescape_from escaped [] = []
unescape_from true (c ∷ cs) = escape_of c ∷ unescape_from false cs
unescape_from false (c ∷ cs) =
    let plain = unescape_from false cs in
    let escaped = unescape_from true cs in if c == 92 then escaped else c ∷ plain

unfoldable pub unescape_tag : Text → Text
unescape_tag value = unescape_from false value

-- A tag's key and value, by the place of its `=`.
unfoldable pub tag_at : Text → Option ℕ → Text × Text
tag_at pair none = (pair, [])
tag_at pair (some equals) = (take equals pair, unescape_tag (drop (suc equals) pair))

unfoldable pub add_tag : Text → List (Text × Text) → List (Text × Text)
add_tag [] tags = tags
add_tag (c ∷ cs) tags =
    let (key, value) = tag_at (c ∷ cs) (index_of (c ∷ cs) (lit "=")) in
    Map.set Text-discrete key value tags

unfoldable pub add_tags : List Text → List (Text × Text) → List (Text × Text)
add_tags [] tags = tags
add_tags (pair ∷ pairs) tags = add_tags pairs (add_tag pair tags)

-- `parseTags`.
unfoldable pub parse_tags : Text → List (Text × Text)
parse_tags text = add_tags (split_on b';' text) []

-- A middle parameter in front of the others, unless it is empty.
unfoldable pub add_param : Text → List Text → List Text
add_param [] params = params
add_param (c ∷ cs) params = (c ∷ cs) ∷ params

-- The loop of `splitCommand` on fuel: each pass but the last one drops a space.
unfoldable pub params_loop : ℕ → Text → List Text
params_loop zero rest = []
params_loop (suc n) [] = []
params_loop (suc n) (c ∷ cs) = if c == b':' then cs ∷ [] else elim (index_of (c ∷ cs) (lit " ")) [
  | none ↦ (c ∷ cs) ∷ []
  | some end ↦ add_param (take end (c ∷ cs)) (params_loop n (drop (suc end) (c ∷ cs)))
]

unfoldable pub params_of : Text → List Text
params_of rest = params_loop (length rest) rest

module _ (upper : Text → Text) where
  -- `splitCommand`, by the place of the first space.
  unfoldable pub command_at : Text → Option ℕ → Text × List Text
  command_at text none = (upper text, [])
  command_at text (some end) = (upper (take end text), params_of (drop (suc end) text))

  unfoldable pub split_command : Text → Text × List Text
  split_command text = command_at text (index_of text (lit " "))

  -- The end of `parseIrcLine`.
  unfoldable pub finish_line : List (Text × Text) → Option Text → Text × List Text → Option IrcLine
  finish_line tags prefix ([], params) = none
  finish_line tags prefix (c ∷ cs, params) =
      some (record { tags = tags; prefix = prefix; command = c ∷ cs; params = params })

  -- The part of `parseIrcLine` behind a prefix's colon, by the place of its space.
  unfoldable pub prefix_at : List (Text × Text) → Text → Option ℕ → Option IrcLine
  prefix_at tags rest none = none
  prefix_at tags rest (some end) =
      finish_line tags (some (drop 1 (take end rest)))
        (split_command (trim_start (drop (suc end) rest)))

  unfoldable pub after_tags : List (Text × Text) → Text → Option IrcLine
  after_tags tags rest =
      if starts_with rest (lit ":")
      then prefix_at tags rest (index_of rest (lit " "))
      else finish_line tags none (split_command rest)

  unfoldable pub tags_at : Text → Option ℕ → Option IrcLine
  tags_at raw none = none
  tags_at raw (some end) =
      after_tags (parse_tags (drop 1 (take end raw))) (trim_start (drop (suc end) raw))

  -- `parseIrcLine`.
  unfoldable pub parse_irc_line : Text → Option IrcLine
  parse_irc_line raw =
      if starts_with raw (lit "@") then tags_at raw (index_of raw (lit " ")) else after_tags [] raw

-- `nickOf`.
unfoldable pub nick_at : Text → Option ℕ → Text
nick_at prefix none = prefix
nick_at prefix (some bang) = take bang prefix

unfoldable pub nick_of : Option Text → Text
nick_of none = []
nick_of (some prefix) = nick_at prefix (index_of prefix (lit "!"))

-- The replacements of `ircLower`, behind `toLowerCase`.
unfoldable pub fold_case : ℕ → ℕ
fold_case c =
    if c == b'['
    then b'{'
    else if c == b']'
    then b'}'
    else if c == 92
    then b'|'
    else if c == b'~'
    then b'^'
    else c

unfoldable pub irc_lower : (Text → Text) → Text → Text
irc_lower lower name = map fold_case (lower name)
