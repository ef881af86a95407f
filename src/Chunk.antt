-- ===== src/Chunk.antt =====
-- packages/gateway/src/text/chunk.ts, `chunkText`: options, validation, the cut search and the
-- splitting loop. The grapheme walk is Grapheme.antt.
pub mod Cut
pub mod Loop
pub mod Ends
pub mod Content
pub mod Surrogates
use theokit_gateways.Prelude.{
  ℕ, zero, suc, ◌-◌, ◌*◌, ◌≡◌, refl, Bool, true, false, Option, none, some, List, [], ◌∷◌, length,
  get_elem?, take, drop, ltb, leb, ◌==◌, if◌then◌else◌, filter, map,
}
use theokit_gateways.Js.{
  Text, Number, pos, negsuc, fraction, last_index_of, strip_leading, trim, is_low_surrogate,
  is_nonempty, lit, is_space,
}

-- The RangeErrors that `chunkText` and `chunkByGrapheme` throw.
pub data RangeError : Type 0 where
  limit_not_positive : RangeError
  window_not_positive : RangeError
  window_above_limit : RangeError

-- How a call ends. `out_of_fuel` stands for a loop that does not end.
pub data Outcome {ℓ} (A : Type ℓ) : Type ℓ where
  done : A → Outcome A
  throws : RangeError → Outcome A
  out_of_fuel : Outcome A

infixl 5 ◌>>=◌ ◌>>◌
abbrev pub ◌>>=◌ {ℓ κ} : {A : Type ℓ} {B : Type κ} → Outcome A → (A → Outcome B) → Outcome B
done a >>= f = f a
throws e >>= f = throws e
out_of_fuel >>= f = out_of_fuel

abbrev pub ◌>>◌ {ℓ} : {B : Type ℓ} → Outcome (Unit {0}) → Outcome B → Outcome B
m >> k = m >>= λ _. k

pub data LastResort : Type 0 where
  last_boundary window_edge : LastResort

-- `ChunkTextOptions`, with `undefined` as `none`. The source's `stripLeading` patterns all read
-- `/^[class]+/`, and the field holds the class.
pub record ChunkTextOptions : Type 0 where
  pub limit : Number
  pub safe_limit : Option Number
  pub boundaries : List Text
  pub last_resort : LastResort
  pub surrogate_guard : Bool
  pub strip_class : ℕ → Bool
  pub trim_parts : Bool

-- The position of the most preferred boundary in the second half of the window, else of the last
-- boundary tried; `none` is -1. `cut` is the position of the boundary tried before.
unfoldable pub search_boundary : Text → ℕ → Option ℕ → List Text → Option ℕ
unfolding last_index_of
search_boundary remaining window cut [] = cut
search_boundary remaining window cut (b ∷ bs) =
    let found = last_index_of remaining b window in
    let rest = search_boundary remaining window found bs in
    elim found [ none ↦ rest | some i ↦ if leb window (i * 2) then some i else rest ]

-- `assertPositiveInt`.
unfoldable pub assert_positive_int : RangeError → Number → Outcome ℕ
assert_positive_int e (pos zero) = throws e
assert_positive_int e (pos (suc n)) = done (suc n)
assert_positive_int e (negsuc n) = throws e
assert_positive_int e fraction = throws e

-- One step back if `cut` would sever a surrogate pair. (At 0 the source steps to -1 and this one
-- stays; `find_cut` treats both alike.)
unfoldable pub guard_surrogate : Text → ℕ → ℕ
unfolding is_low_surrogate
guard_surrogate text cut = elim (get_elem? text cut) [
  | none ↦ cut
  | some code ↦ if is_low_surrogate code then cut - 1 else cut
]

-- The `if (cut < window * 0.5)` of `findCut`.
unfoldable pub resort : LastResort → ℕ → Option ℕ → ℕ
resort last_boundary window none = window
resort last_boundary window (some cut) =
    if ltb (cut * 2) window then (if ltb 0 cut then cut else window) else cut
resort window_edge window none = window
resort window_edge window (some cut) = if ltb (cut * 2) window then window else cut

unfoldable pub find_cut : Text → ℕ → List Text → LastResort → Bool → ℕ
unfolding search_boundary resort guard_surrogate
find_cut remaining window boundaries last_resort surrogate_guard =
    let first =
      resort last_resort window (search_boundary remaining window (some window) boundaries) in
    let cut = if surrogate_guard then guard_surrogate remaining first else first in
    if cut == 0 then window else cut

-- `finalize`.
unfoldable pub finalize : Bool → List Text → List Text
unfolding trim is_nonempty
finalize trim_parts parts = if trim_parts then filter is_nonempty (map trim parts) else parts

-- The cut of one round, and the text after it.
unfoldable pub cut_at : ChunkTextOptions → ℕ → Text → ℕ
unfolding find_cut
cut_at o window remaining = find_cut remaining window o.boundaries o.last_resort o.surrogate_guard

unfoldable pub remaining_after : ChunkTextOptions → ℕ → Text → Text
unfolding strip_leading
remaining_after o cut remaining = strip_leading o.strip_class (drop cut remaining)

-- `parts.push(part)`, before the parts of the later rounds.
abbrev pub push_part : Text → List Text → Outcome (List Text)
push_part part parts = done (part ∷ parts)

-- The `while` loop of `chunkText`, and the last part behind it.
unfoldable pub chunk_loop : ℕ → ChunkTextOptions → ℕ → Text → Outcome (List Text)
chunk_loop fuel o window [] = done []
chunk_loop zero o window (c ∷ s) = out_of_fuel
chunk_loop (suc fuel) o window (c ∷ s) =
    let text = c ∷ s in
    let cut = cut_at o window text in
    let rest =
      chunk_loop fuel o window (remaining_after o cut text) >>= push_part (take cut text) in
    if ltb window (length text) then rest else done (text ∷ [])

-- `safeLimit = limit`, the default.
unfoldable pub window_number : ChunkTextOptions → Number
window_number o = elim o.safe_limit [ none ↦ o.limit | some n ↦ n ]

-- `if (safeLimit > limit) throw ...`.
abbrev pub check_window : ℕ → ℕ → Outcome (Unit {0})
check_window limit window = if ltb limit window then throws window_above_limit else done tt

-- `chunkText`. Fuel for each character is enough, since every round takes one at least.
unfoldable pub chunk_text : Text → ChunkTextOptions → Outcome (List Text)
unfolding assert_positive_int window_number
chunk_text text o = do
  limit ← assert_positive_int limit_not_positive o.limit
  window ← assert_positive_int window_not_positive (window_number o)
  check_window limit window
  parts ←
      if leb (length text) limit then done (text ∷ []) else chunk_loop (length text) o window text
  done (finalize o.trim_parts parts)
