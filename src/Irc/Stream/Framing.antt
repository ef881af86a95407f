-- ===== src/Irc/Stream/Framing.antt =====
-- The lines of Irc/Stream.antt and those of the whole stream.
use mathlib.Core.List.{append-nil, append_assoc}
use theokit_gateways.Prelude.{
  ℕ, zero, suc, ◌+◌, ◌≤◌, ◌≡◌, refl, sym, ap, ◌∙◌, inl, inr, Option, none, some, List, [], ◌∷◌,
  ◌++◌, length, length-drop, take, drop, concat, ◌==◌, Bool-cases, if◌then◌else◌, arith,
}
use theokit_gateways.Js.{Text, lit, index_from, starts_with, is_nonempty}
use theokit_gateways.Irc.Stream.{drop_return, emit, lines_loop, on_data, feed}

-- The lines of a text behind the start of a line, character by character, and its last line's part.
unfoldable pub scan : Text → Text → List Text × Text
scan line [] = ([], line)
scan line (c ∷ s) =
    let ended = scan [] s in
    let longer = scan (line ++ c ∷ []) s in
    if c == 10 then (emit (drop_return line) ended.0, ended.1) else longer

shift : ℕ → Option ℕ → Option ℕ
shift i none = none
shift i (some k) = some (i + k)

later : Option ℕ → Option ℕ
later none = none
later (some k) = some (suc k)

first_break : Text → Option ℕ
unfolding later
first_break [] = none
first_break (c ∷ s) = let rest = first_break s in if c == 10 then some 0 else later rest

shift-later : (i : ℕ) (k : Option ℕ) → shift (suc i) k ≡ shift i (later k)
unfolding shift later
shift-later i none = refl
shift-later i (some k) = ap some (omega arith)

shift-zero : (k : Option ℕ) → shift 0 k ≡ k
unfolding shift
shift-zero none = refl
shift-zero (some k) = ap some (omega arith)

index_from_break : (s : Text) (i : ℕ) → index_from s (lit "\n") i ≡ shift i (first_break s)
unfolding index_from starts_with first_break shift
index_from_break [] i = refl
index_from_break (c ∷ s) i = elim (Bool-cases (c == 10)) [
  | inl yes_ ↦ simp yes_ (ap some (omega arith))
  | inr no_ ↦ simp no_ (index_from_break s (suc i) ∙ shift-later i (first_break s))
]

-- The scan, by the first break.
at_break : Text → Text → Option ℕ → List Text × Text
at_break line s none = ([], line ++ s)
at_break line s (some at) = (
  emit (drop_return (line ++ take at s)) (scan [] (drop (suc at) s)).0,
  (scan [] (drop (suc at) s)).1,
)

at_break-later :
    (line s : Text) (c : ℕ) (k : Option ℕ)
    → at_break (line ++ c ∷ []) s k ≡ at_break line (c ∷ s) (later k)
unfolding at_break later
at_break-later line s c none = ap (λ t. ([], t)) (append_assoc line (c ∷ []) s)
at_break-later line s c (some k) =
    ap (λ t. (emit (drop_return t) (scan [] (drop (suc k) s)).0, (scan [] (drop (suc k) s)).1))
      (append_assoc line (c ∷ []) (take k s))

scan_break : (line s : Text) → scan line s ≡ at_break line s (first_break s)
unfolding scan at_break first_break
scan_break line [] = ap (λ t. ([], t)) (sym (append-nil line))
scan_break line (c ∷ s) = elim (Bool-cases (c == 10)) [
  | inl yes_ ↦ simp (yes_, append-nil) refl
  | inr no_ ↦ simp no_ (scan_break (line ++ c ∷ []) s ∙ at_break-later line s c (first_break s))
]

abbrev pass : ℕ → Text → Option ℕ → List Text × Text
pass n s none = ([], s)
pass n s (some at) = (
  emit (drop_return (take at s)) (lines_loop n (drop (suc at) s)).0,
  (lines_loop n (drop (suc at) s)).1,
)

loop_lem : (n : ℕ) (s : Text) → length s ≤ n → lines_loop n s ≡ scan [] s
unfolding lines_loop scan at_break
loop_lem zero [] le = refl
loop_lem zero (c ∷ s) le = absurd (omega arith)
loop_lem (suc n) s le =
    ap (pass n s) (index_from_break s 0 ∙ shift-zero (first_break s))
    ∙ go (first_break s)
        (λ k. loop_lem n (drop (suc k) s) (omega (arith, length-drop (suc k) s, le)))
    ∙ sym (scan_break [] s)
  where
    go :
        (k : Option ℕ)
        → ((j : ℕ) → lines_loop n (drop (suc j) s) ≡ scan [] (drop (suc j) s))
        → pass n s k ≡ at_break [] s k
    go none rec = refl
    go (some j) rec = ap (λ p. (emit (drop_return (take j s)) p.0, p.1)) (rec j)

emit-append : (raw : Text) (xs ys : List Text) → emit raw xs ++ ys ≡ emit raw (xs ++ ys)
unfolding emit is_nonempty
emit-append [] xs ys = refl
emit-append (c ∷ s) xs ys = refl

scan-append :
    (line s t : Text)
    → scan line (s ++ t)
      ≡ ((scan line s).0 ++ (scan (scan line s).1 t).0, (scan (scan line s).1 t).1)
unfolding scan
scan-append line [] t = refl
scan-append line (c ∷ s) t = elim (Bool-cases (c == 10)) [
  | inl yes_ ↦ simp (yes_, scan-append [] s t, emit-append) refl
  | inr no_ ↦ simp no_ (scan-append (line ++ c ∷ []) s t)
]

-- A part of a line, which has no break.
abbrev IsPart : Text → Type 0
IsPart line = scan [] line ≡ ([], line)

scan-IsPart : (line s : Text) → IsPart line → IsPart (scan line s).1
unfolding scan
scan-IsPart line [] h = h
scan-IsPart line (c ∷ s) h = elim (Bool-cases (c == 10)) [
  | inl yes_ ↦ simp yes_ (scan-IsPart [] s refl)
  | inr no_ ↦
      simp no_ (scan-IsPart (line ++ c ∷ []) s (scan-append [] line (c ∷ []) ∙ simp (h, no_) refl))
]

on_data_lem : (line chunk : Text) → IsPart line → on_data line chunk ≡ scan line chunk
unfolding on_data
on_data_lem line chunk h =
    loop_lem (length (line ++ chunk)) (line ++ chunk) (omega arith)
    ∙ scan-append [] line chunk
    ∙ simp h refl

feed_lem :
    (line : Text) (chunks : List Text) → IsPart line → feed line chunks ≡ scan line (concat chunks)
unfolding feed scan
feed_lem line [] h = refl
feed_lem line (chunk ∷ chunks) h =
    ap (λ p. (p.0 ++ (feed p.1 chunks).0, (feed p.1 chunks).1)) (on_data_lem line chunk h)
    ∙ ap (λ p. ((scan line chunk).0 ++ p.0, p.1))
        (feed_lem (scan line chunk).1 chunks (scan-IsPart line chunk h))
    ∙ sym (scan-append line chunk (concat chunks))

-- In whatever chunks a stream is delivered, the lines are those of the whole stream, read character by
-- character, and the same part of a line stays buffered.
pub feed_scans : (chunks : List Text) → feed [] chunks ≡ scan [] (concat chunks)
unfolding scan
feed_scans chunks = feed_lem [] chunks refl
