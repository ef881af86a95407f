-- ===== src/Js/Search.antt =====
-- Laws of the searches: where a found position can lie, and what stands there.
use mathlib.Core.List.{append_assoc}
use theokit_gateways.Prelude.{
  ◌↔◌, ℕ, zero, suc, ◌+◌, ◌≤◌, ◌≡◌, refl, sym, ap, ◌∙◌, Bool, true, Option, none, some, [], ◌∷◌,
  ◌++◌, length, take, drop, min, Bool-cases, inl, inr, arith, take-append-drop, length-append,
  if◌then◌else◌,
}
use theokit_gateways.Js.{
  str_eq, Text, starts_with, last_index_from, last_index_of, index_from, index_of, strip_trailing,
  trim_end,
}

-- A position, if there is one, is at most `n`.
abbrev pub Within : ℕ → Option ℕ → Type 0
Within n none = Unit
Within n (some i) = i ≤ n

last_index_from-Within : (s b : Text) (i : ℕ) → Within i (last_index_from s b i)
unfolding last_index_from
last_index_from-Within s b zero = ground arith
last_index_from-Within s b (suc i) = ground (arith, last_index_from-Within s b i)

pub last_index_of-Within : (s b : Text) (i : ℕ) → Within i (last_index_of s b i)
unfolding last_index_of
last_index_of-Within s b i = ground (arith, last_index_from-Within s b (min i (length s)))

starts_with-length : (s b : Text) → starts_with s b ≡ true → length b ≤ length s
unfolding starts_with
starts_with-length s [] h = omega arith
starts_with-length [] (y ∷ ys) h = cc
starts_with-length (x ∷ xs) (y ∷ ys) h = ground (arith, starts_with-length xs ys)

-- The whole of `b` lies behind the position, inside the text of `n` characters.
abbrev pub Fits : ℕ → Text → Option ℕ → Type 0
Fits n b none = Unit
Fits n b (some i) = i + length b ≤ n

index_from-Fits : (s b : Text) (i : ℕ) → Fits (i + length s) b (index_from s b i)
unfolding index_from
index_from-Fits [] b i = elim (Bool-cases (starts_with [] b)) [
  | inl e ↦ rw e (omega (arith, starts_with-length [] b e))
  | inr e ↦ rw e tt
]
index_from-Fits (x ∷ xs) b i = elim (Bool-cases (starts_with (x ∷ xs) b)) [
  | inl e ↦ rw e (omega (arith, starts_with-length (x ∷ xs) b e))
  | inr e ↦ rw e (
      let h = index_from-Fits xs b (suc i) in
      let same : i + suc (length xs) ≡ suc i + length xs = omega arith in rw same h)
]

pub index_of-Fits : (s b : Text) → Fits (length s) b (index_of s b)
index_of-Fits s b =
    let h = index_from-Fits s b 0 in
    let same : 0 + length s ≡ length s = omega arith in rw same at h

-- `front` begins the text.
abbrev pub Begins : Text → Text → Type 0
Begins front text = (back : Text) × (text ≡ front ++ back)

pub Begins-refl : (s : Text) → Begins s s
Begins-refl [] = ([], refl)
Begins-refl (c ∷ s) = let (back, e) = Begins-refl s in (back, ap (◌∷◌ c) e)

pub Begins-trans : (r s t : Text) → Begins r s → Begins s t → Begins r t
Begins-trans r s t (back, e) (rest, f) =
    (back ++ rest, f ∙ ap (λ u. u ++ rest) e ∙ append_assoc r back rest)

pub take-Begins : (n : ℕ) (s : Text) → Begins (take n s) s
take-Begins n s = (drop n s, sym (take-append-drop n s))

strip_trailing-Begins : (p : ℕ → Bool) (s : Text) → Begins (strip_trailing p s) s
unfolding strip_trailing
strip_trailing-Begins p [] = ([], refl)
strip_trailing-Begins p (c ∷ s) = go (strip_trailing p s) (strip_trailing-Begins p s)
  where
    go :
        (t : Text)
        → Begins t s
        → Begins (elim t [ [] ↦ if p c then [] else c ∷ [] | d ∷ u ↦ c ∷ d ∷ u ]) (c ∷ s)
    go [] h = elim (Bool-cases (p c)) [ inl e ↦ rw e (c ∷ s, refl) | inr e ↦ rw e (s, refl) ]
    go (d ∷ u) (back, e) = (back, ap (◌∷◌ c) e)

pub trim_end-Begins : (s : Text) → Begins (trim_end s) s
unfolding trim_end
trim_end-Begins s = strip_trailing-Begins _ s

pub length-Begins-le : (front text : Text) → Begins front text → length front ≤ length text
length-Begins-le front text (back, e) = omega (arith, ap length e, length-append front back)

-- The text behind a beginning.
pub drop-Begins : (front text : Text) → Begins front text → text ≡ front ++ drop (length front) text
drop-Begins [] text h = refl
drop-Begins (c ∷ front) [] (back, e) = cc
drop-Begins (c ∷ front) (d ∷ text) (back, e) =
    let tail : text ≡ front ++ back = ground arith in
    ground (arith, drop-Begins front text (back, tail))

-- Equality of strings, and beginnings, as the tests tell them.
pub str_eq_iff : (s t : Text) → (str_eq s t ≡ true) ↔ (s ≡ t)
unfolding str_eq
str_eq_iff [] [] = (λ h. refl, λ h. refl)
str_eq_iff [] (y ∷ ys) = (λ h. cc, λ h. cc)
str_eq_iff (x ∷ xs) [] = (λ h. cc, λ h. cc)
str_eq_iff (x ∷ xs) (y ∷ ys) =
    let ih = str_eq_iff xs ys in (λ h. ground (arith, ih.0), λ h. ground (arith, ih.1))

pub starts_with_iff : (s b : Text) → (starts_with s b ≡ true) ↔ Begins b s
unfolding starts_with
starts_with_iff s [] = (λ h. (s, refl), λ h. refl)
starts_with_iff [] (y ∷ ys) = (λ h. cc, λ h. cc (h.1))
starts_with_iff (x ∷ xs) (y ∷ ys) =
    let ih = starts_with_iff xs ys in
    (
      λ h. let (rest, e) = ih.0 (ground arith) in (rest, ground arith),
      λ h.
          let e : x ≡ y = ground (arith, h.1) in
          let tail : xs ≡ ys ++ h.0 = ground (arith, h.1) in ground (arith, ih.1 (h.0, tail)),
    )
