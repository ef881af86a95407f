-- ===== src/Js/Trim.antt =====
-- Laws of trimming and stripping: what is removed, and what stays.
use theokit_gateways.Prelude.{
  ℕ, ◌≤◌, ◌≡◌, refl, ap, ◌∙◌, Bool, true, false, not, [], ◌∷◌, ◌++◌, length, filter, All,
  Bool-cases, inl, inr, arith,
}
use theokit_gateways.Js.{Text, is_space, strip_leading, strip_trailing, trim_start, trim_end, trim}

-- The text does not begin with a character of the class.
abbrev pub Outside : (ℕ → Bool) → Text → Type 0
Outside p [] = Unit
Outside p (c ∷ s) = p c ≡ false

-- The characters that are not white space.
abbrev pub visible : Text → Text
visible = filter (λ c. not (is_space c))

-- Every character of the class is white space.
abbrev pub IsBlank : (ℕ → Bool) → Type 0
IsBlank p = (c : ℕ) → p c ≡ true → is_space c ≡ true

pub length-strip_leading-le : (p : ℕ → Bool) (s : Text) → length (strip_leading p s) ≤ length s
unfolding strip_leading
length-strip_leading-le p [] = omega arith
length-strip_leading-le p (c ∷ s) = ground (arith, length-strip_leading-le p s)

length-strip_trailing-le : (p : ℕ → Bool) (s : Text) → length (strip_trailing p s) ≤ length s
unfolding strip_trailing
length-strip_trailing-le p [] = omega arith
length-strip_trailing-le p (c ∷ s) = ground (arith, length-strip_trailing-le p s)

pub length-trim-le : (s : Text) → length (trim s) ≤ length s
unfolding trim trim_start trim_end
length-trim-le s = omega (
  arith,
  length-strip_trailing-le is_space (strip_leading is_space s),
  length-strip_leading-le is_space s,
)

pub strip_leading-Outside : (p : ℕ → Bool) (s : Text) → Outside p (strip_leading p s)
unfolding strip_leading
strip_leading-Outside p [] = tt
strip_leading-Outside p (c ∷ s) = elim (Bool-cases (p c)) [
  | inl e ↦ rw e (strip_leading-Outside p s)
  | inr e ↦ rw e e
]

-- What is stripped is a run of the class.
pub strip_leading_gap :
    (p : ℕ → Bool) (s : Text)
    → (gap : Text) × (s ≡ gap ++ strip_leading p s) × All (λ c. p c ≡ true) gap
unfolding strip_leading
strip_leading_gap p [] = ([], refl, tt)
strip_leading_gap p (c ∷ s) = elim (Bool-cases (p c)) [
  | inl e ↦
      let (gap, whole, inside) = strip_leading_gap p s in
      (c ∷ gap, rw e (ap (◌∷◌ c) whole), (e, inside))
  | inr e ↦ ([], rw e refl, tt)
]

strip_leading_of_Outside : (p : ℕ → Bool) (s : Text) → Outside p s → strip_leading p s ≡ s
unfolding strip_leading
strip_leading_of_Outside p [] h = refl
strip_leading_of_Outside p (c ∷ s) h = rw h refl

strip_trailing-Outside : (p : ℕ → Bool) (s : Text) → Outside p s → Outside p (strip_trailing p s)
unfolding strip_trailing
strip_trailing-Outside p [] h = tt
strip_trailing-Outside p (c ∷ s) h = ground arith

strip_trailing_idem :
    (p : ℕ → Bool) (s : Text) → strip_trailing p (strip_trailing p s) ≡ strip_trailing p s
unfolding strip_trailing
strip_trailing_idem p [] = refl
strip_trailing_idem p (c ∷ s) = ground (arith, strip_trailing_idem p s)

-- A trimmed text is trimmed: no white space at either end.
pub trim_idem : (s : Text) → trim (trim s) ≡ trim s
unfolding trim trim_start trim_end
trim_idem s =
    let u = strip_leading is_space s in
    rw
      (strip_leading_of_Outside is_space (strip_trailing is_space u)
        (strip_trailing-Outside is_space u (strip_leading-Outside is_space s)))
      (strip_trailing_idem is_space u)

pub visible-blank : (p : ℕ → Bool) (s : Text) → IsBlank p → All (λ c. p c ≡ true) s → visible s ≡ []
visible-blank p [] h a = refl
visible-blank p (c ∷ s) h a = rw (h c a.0) (visible-blank p s h a.1)

pub visible-strip_leading :
    (p : ℕ → Bool) (s : Text) → IsBlank p → visible (strip_leading p s) ≡ visible s
unfolding strip_leading
visible-strip_leading p [] h = refl
visible-strip_leading p (c ∷ s) h = ground (arith, visible-strip_leading p s h, h c)

visible-strip_trailing :
    (p : ℕ → Bool) (s : Text) → IsBlank p → visible (strip_trailing p s) ≡ visible s
unfolding strip_trailing
visible-strip_trailing p [] h = refl
visible-strip_trailing p (c ∷ s) h = ground (arith, visible-strip_trailing p s h, h c)

-- Trimming keeps every visible character.
pub visible-trim : (s : Text) → visible (trim s) ≡ visible s
unfolding trim trim_start trim_end
visible-trim s =
    visible-strip_trailing is_space (strip_leading is_space s) (λ c h. h)
    ∙ visible-strip_leading is_space s (λ c h. h)
