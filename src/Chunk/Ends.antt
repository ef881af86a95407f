-- ===== src/Chunk/Ends.antt =====
-- How `chunkText` ends: with parts exactly when its sizes are valid, and never by hanging.
use mathlib.Core.List.{append-nil}
use theokit_gateways.Prelude.{
  ◌⊎◌, ℕ, zero, suc, ◌≤◌, ◌<◌, ◌≡◌, refl, sym, inl, inr, List, [], ◌∷◌, if◌then◌else◌, length, All,
  All-map, Bool-cases, leb, ltb, arith,
}
use theokit_gateways.Js.{Text, Number, pos, negsuc, fraction}
use theokit_gateways.Chunk.{
  Outcome, ChunkTextOptions, RangeError, limit_not_positive, window_not_positive,
  window_above_limit, done, throws, assert_positive_int, window_number, check_window, finalize,
  chunk_loop, chunk_text,
}
use theokit_gateways.Chunk.Loop.{Rejoins, chunk_loop-Splits}

-- The sizes that `chunkText` accepts: a positive limit, and a positive window within it.
pub record HasSizes (o : ChunkTextOptions) (limit window : ℕ) : Type 0 where
  pub limit_is : o.limit ≡ pos limit
  pub window_is : window_number o ≡ pos window
  pub window_positive : 0 < window
  pub window_fits : window ≤ limit

assert_positive_int_pos : (e : RangeError) (n : ℕ) → 0 < n → assert_positive_int e (pos n) ≡ done n
unfolding assert_positive_int
assert_positive_int_pos e zero h = absurd (omega arith)
assert_positive_int_pos e (suc n) h = refl

check_window_fits : (limit window : ℕ) → window ≤ limit → check_window limit window ≡ done tt
check_window_fits limit window h = ground arith

-- The parts before `finalize`.
unfoldable pub raw_parts : Text → ChunkTextOptions → ℕ → ℕ → Outcome (List Text)
raw_parts text o limit window =
    if leb (length text) limit then done (text ∷ []) else chunk_loop (length text) o window text

raw_parts-done :
    (text : Text) (o : ChunkTextOptions) (limit window : ℕ)
    → 0 < window
    → window ≤ limit
    → (parts : List Text) × (raw_parts text o limit window ≡ done parts)
      × All (λ part. length part ≤ limit) parts
      × Rejoins o.strip_class parts text
unfolding raw_parts
raw_parts-done text o limit window h k = elim (Bool-cases (leb (length text) limit)) [
  | inl short ↦
      (text ∷ [], rw short refl, (ground arith, tt), ([], [], sym (append-nil _), tt, tt, refl))
  | inr long ↦
      let (parts, run, answer) = chunk_loop-Splits (length text) o window text h (omega arith) in
      (
        parts,
        rw (long, run) refl,
        All-map parts (λ part le. omega arith) answer.bounded,
        answer.rejoins,
      )
]

-- With valid sizes the call only finalizes the raw parts.
pub chunk_text-raw_parts :
    (text : Text) (o : ChunkTextOptions) (limit window : ℕ) {parts : List Text}
    → HasSizes o limit window
    → raw_parts text o limit window ≡ done parts
    → chunk_text text o ≡ done (finalize o.trim_parts parts)
unfolding chunk_text raw_parts
chunk_text-raw_parts text o limit window v run = simp (
  v.limit_is,
  v.window_is,
  assert_positive_int_pos limit_not_positive limit
      (omega (arith, v.window_positive, v.window_fits)),
  assert_positive_int_pos window_not_positive window v.window_positive,
  check_window_fits limit window v.window_fits,
  run,
)

-- With valid sizes the call returns, each part before trimming is at most `limit` long, and the
-- text is those parts with the stripped runs between them.
pub chunk_text-done :
    (text : Text) (o : ChunkTextOptions) (limit window : ℕ)
    → HasSizes o limit window
    → (parts : List Text) × (raw_parts text o limit window ≡ done parts)
      × (chunk_text text o ≡ done (finalize o.trim_parts parts))
      × All (λ part. length part ≤ limit) parts
      × Rejoins o.strip_class parts text
chunk_text-done text o limit window v =
    let (parts, run, bounded, rejoins) =
      raw_parts-done text o limit window v.window_positive v.window_fits in
    (parts, run, chunk_text-raw_parts text o limit window v run, bounded, rejoins)

data SizeCases (text : Text) (o : ChunkTextOptions) : Type 0 where
  sizes_valid : (limit window : ℕ) → HasSizes o limit window → SizeCases text o
  sizes_refused :
      (e : RangeError)
      → chunk_text text o ≡ throws e
      → ((limit window : ℕ) → ¬ HasSizes o limit window)
      → SizeCases text o

pos-eq : {m n : ℕ} → pos m ≡ pos n → m ≡ n
pos-eq h = cc

size_cases :
    (text : Text) (o : ChunkTextOptions) (l w : Number)
    → o.limit ≡ l
    → window_number o ≡ w
    → SizeCases text o
unfolding chunk_text assert_positive_int
size_cases text o (pos zero) w hl hw =
    sizes_refused limit_not_positive (simp hl)
      (λ limit window v. grind (arith, v.limit_is, v.window_positive, v.window_fits, pos-eq))
size_cases text o (negsuc n) w hl hw =
    sizes_refused limit_not_positive (simp hl) (λ limit window v. grind (arith, v.limit_is))
size_cases text o fraction w hl hw =
    sizes_refused limit_not_positive (simp hl) (λ limit window v. grind (arith, v.limit_is))
size_cases text o (pos (suc l)) (pos zero) hl hw =
    sizes_refused window_not_positive (simp (hl, hw))
      (λ limit window v. grind (arith, v.window_is, v.window_positive))
size_cases text o (pos (suc l)) (negsuc n) hl hw =
    sizes_refused window_not_positive (simp (hl, hw)) (λ limit window v. grind (arith, v.window_is))
size_cases text o (pos (suc l)) fraction hl hw =
    sizes_refused window_not_positive (simp (hl, hw)) (λ limit window v. grind (arith, v.window_is))
size_cases text o (pos (suc l)) (pos (suc w)) hl hw = elim (Bool-cases (ltb (suc l) (suc w))) [
  | inl above ↦
      sizes_refused window_above_limit (simp (hl, hw, above))
        (λ limit window v. grind (arith, v.limit_is, v.window_is, v.window_fits))
  | inr within ↦ sizes_valid (suc l) (suc w) (record {
    limit_is = hl;
    window_is = hw;
    window_positive = omega arith;
    window_fits = ground arith;
  })
]

-- Every call returns or throws: it returns when the sizes are a positive limit and a positive
-- window within it, it throws when they are not, and it never hangs.
pub chunk_text_ends :
    (text : Text) (o : ChunkTextOptions)
    → ((limit window : ℕ) × HasSizes o limit window
        × ((parts : List Text) × (chunk_text text o ≡ done parts)))
      ⊎ ((e : RangeError) × (chunk_text text o ≡ throws e)
          × ((limit window : ℕ) → ¬ HasSizes o limit window))
chunk_text_ends text o = elim (size_cases text o o.limit (window_number o) refl refl) [
  | sizes_valid limit window v ↦
      let (parts, _, returns, _, _) = chunk_text-done text o limit window v in
      inl (limit, window, v, (finalize o.trim_parts parts, returns))
  | sizes_refused e refuses invalid ↦ inr (e, refuses, invalid)
]
