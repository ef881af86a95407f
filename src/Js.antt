-- ===== src/Js.antt =====
-- What the source uses of JavaScript's strings and numbers. A string is the list of its UTF-16
-- code units; a number is an integer or something else (a fraction, NaN, an infinity).

pub mod Search
pub mod Trim
pub mod Utf16
use Prim.Native.Char.{code}
use Prim.Native.String.{String}
use native.Mathlib.Decide.{ℕ_discrete}
use theokit_gateways.Prelude.{
  ℕ, zero, suc, Bool, true, false, ◌&&◌, ◌||◌, Option, none, some, List, [], ◌∷◌, length, drop, leb,
  ◌==◌, if◌then◌else◌, min,
}

-- A JavaScript string.
abbrev pub Text : Type 0
Text = List ℕ

-- A literal, given by its code points; every literal of the source is in the basic plane.
abbrev pub lit : String → Text
lit String.[] = []
lit (String.◌∷◌ c s) = code c ∷ lit s

-- A JavaScript number. `negsuc n` is -(n + 1); `fraction` stands for every non-integer.
pub data Number : Type 0 where
  pos : ℕ → Number
  negsuc : ℕ → Number
  fraction : Number

-- `a === b` on strings.
unfoldable pub str_eq : Text → Text → Bool
str_eq [] [] = true
str_eq [] (y ∷ ys) = false
str_eq (x ∷ xs) [] = false
str_eq (x ∷ xs) (y ∷ ys) = x == y && str_eq xs ys

-- `s.startsWith(b)`.
unfoldable pub starts_with : Text → Text → Bool
starts_with s [] = true
starts_with [] (y ∷ ys) = false
starts_with (x ∷ xs) (y ∷ ys) = x == y && starts_with xs ys

-- The last index at most `i` where `b` occurs in `s`.
unfoldable pub last_index_from : Text → Text → ℕ → Option ℕ
unfolding starts_with
last_index_from s b zero = if starts_with s b then some 0 else none
last_index_from s b (suc i) =
    let rest = last_index_from s b i in
    if starts_with (drop (suc i) s) b then some (suc i) else rest

-- `s.lastIndexOf(b, i)`; `none` is -1.
unfoldable pub last_index_of : Text → Text → ℕ → Option ℕ
unfolding last_index_from
last_index_of s b i = last_index_from s b (min i (length s))

-- The first index from `i` on where `b` occurs in `s`, the text from `i` on.
unfoldable pub index_from : Text → Text → ℕ → Option ℕ
unfolding starts_with
index_from [] b i = if starts_with [] b then some i else none
index_from (x ∷ xs) b i =
    let rest = index_from xs b (suc i) in if starts_with (x ∷ xs) b then some i else rest

-- `s.indexOf(b)`; `none` is -1.
abbrev pub index_of : Text → Text → Option ℕ
index_of s b = index_from s b 0

-- `s.includes(b)`.
unfoldable pub includes : Text → Text → Bool
unfolding index_from
includes s b = elim (index_of s b) [ none ↦ false | some i ↦ true ]

-- The characters that `\s` matches and `trim` removes.
unfoldable pub is_space : ℕ → Bool
is_space c =
    (leb 9 c && leb c 13)
    || c == 32
    || c == 0xa0
    || c == 0x1680
    || (leb 0x2000 c && leb c 0x200a)
    || c == 0x2028
    || c == 0x2029
    || c == 0x202f
    || c == 0x205f
    || c == 0x3000
    || c == 0xfeff

-- The text without its leading run of characters in the class `p`: `s.replace(/^[p]+/, "")`.
unfoldable pub strip_leading : (ℕ → Bool) → Text → Text
strip_leading p [] = []
strip_leading p (c ∷ s) = let rest = strip_leading p s in if p c then rest else c ∷ s

-- The text without its trailing run of characters in the class `p`.
unfoldable pub strip_trailing : (ℕ → Bool) → Text → Text
strip_trailing p [] = []
strip_trailing p (c ∷ s) = elim (strip_trailing p s) [
  | [] ↦ if p c then [] else c ∷ []
  | d ∷ t ↦ c ∷ d ∷ t
]

-- `s.trimStart()`, `s.trimEnd()` and `s.trim()`.
unfoldable pub trim_start : Text → Text
unfolding strip_leading is_space
trim_start = strip_leading is_space

unfoldable pub trim_end : Text → Text
unfolding strip_trailing is_space
trim_end = strip_trailing is_space

unfoldable pub trim : Text → Text
unfolding trim_start trim_end
trim s = trim_end (trim_start s)

-- A low surrogate, the second half of a pair.
unfoldable pub is_low_surrogate : ℕ → Bool
is_low_surrogate c = leb 0xdc00 c && leb c 0xdfff

-- `s.length > 0`.
unfoldable pub is_nonempty : Text → Bool
is_nonempty [] = false
is_nonempty (c ∷ s) = true

-- Equality of strings decided, for the keys of maps.
unfoldable pub Text-discrete : Discrete Text
unfolding ℕ_discrete
Text-discrete = hlevel ℕ_discrete

-- Another character in front of the first part.
unfoldable pub cons_first : ℕ → List Text → List Text
cons_first c [] = (c ∷ []) ∷ []
cons_first c (part ∷ parts) = (c ∷ part) ∷ parts

-- `text.split(separator)`, for a separator of one character.
unfoldable pub split_on : ℕ → Text → List Text
split_on sep [] = [] ∷ []
split_on sep (c ∷ cs) =
    let rest = split_on sep cs in if c == sep then [] ∷ rest else cons_first c rest

-- `value ?? fallback`.
abbrev pub or_default : {A : Type 0} → Option A → A → A
or_default none a = a
or_default (some b) a = b
