-- ===== src/Irc/Registration/Lines.antt =====
-- The lines of Irc/Registration.antt that carry the credentials, and a server that reads them.
use theokit_gateways.Prelude.{
  ℕ, zero, suc, ◌-◌, ◌%◌, ◌≤◌, ◌<◌, ◌≡◌, refl, sym, ap, ◌∙◌, inl, inr, false, Option, none, some,
  List, [], ◌∷◌, ◌++◌, length, take, drop, length-take, length-drop, take-append-drop, ltb, ◌==◌,
  Bool-cases, if◌then◌else◌, arith,
}
use theokit_gateways.Js.{Text, lit, str_eq}
use theokit_gateways.Irc.Registration.{authenticate_chunk, chunks, authenticate_lines}

abbrev before : Text → Option Text → Option Text
before p none = none
before p (some q) = some (p ++ q)

-- A SASL server joins the payloads, and a payload of fewer than 400 characters is the last; `+` is an
-- empty one.
unfoldable pub server_reads : List Text → Option Text
server_reads [] = none
server_reads (line ∷ lines) =
    let p = drop 13 line in
    let rest = server_reads lines in
    if str_eq p (lit "+")
    then some []
    else if ltb (length p) authenticate_chunk
    then some p
    else before p rest

abbrev closing : ℕ → List Text
closing n = if n % authenticate_chunk == 0 then lit "AUTHENTICATE +" ∷ [] else []

not_plus : (p : Text) → 2 ≤ length p → str_eq p (lit "+") ≡ false
unfolding str_eq
not_plus [] h = absurd (omega arith)
not_plus (c ∷ []) h = absurd (omega arith)
not_plus (c ∷ d ∷ s) h = ground arith

take_all : (n : ℕ) (s : Text) → length s ≤ n → take n s ≡ s
take_all zero [] h = refl
take_all zero (c ∷ s) h = absurd (omega arith)
take_all (suc n) [] h = refl
take_all (suc n) (c ∷ s) h = ap (λ t. c ∷ t) (take_all n s (omega arith))

drop_all : (n : ℕ) (s : Text) → length s ≤ n → drop n s ≡ []
drop_all zero [] h = refl
drop_all zero (c ∷ s) h = absurd (omega arith)
drop_all (suc n) [] h = refl
drop_all (suc n) (c ∷ s) h = drop_all n s (omega arith)

chunks-nil : (n : ℕ) → chunks n [] ≡ []
unfolding chunks
chunks-nil zero = refl
chunks-nil (suc n) = refl

-- A last chunk, and a full one.
reads_last :
    (p : Text) (lines : List Text)
    → 2 ≤ length p
    → length p < 400
    → server_reads ((lit "AUTHENTICATE " ++ p) ∷ lines) ≡ some p
unfolding server_reads
reads_last p lines two short = simp (not_plus p two) (ground (arith, short))

reads_full :
    (p : Text) (lines : List Text)
    → length p ≡ 400
    → server_reads ((lit "AUTHENTICATE " ++ p) ∷ lines) ≡ before p (server_reads lines)
unfolding server_reads
reads_full p lines full = simp (not_plus p (omega (arith, full)), full) refl

closing_same : (m n : ℕ) → m % authenticate_chunk ≡ n % authenticate_chunk → closing m ≡ closing n
closing_same m n h = ap (λ r. if r == 0 then lit "AUTHENTICATE +" ∷ [] else []) h

at_least : (n m : ℕ) → ltb n m ≡ false → m ≤ n
at_least n m h = ground (arith, h)

empty_read : server_reads ((lit "AUTHENTICATE +") ∷ []) ≡ some []
unfolding server_reads str_eq
empty_read = refl

reads :
    (n : ℕ) (e : Text)
    → length e ≤ n
    → length e % 4 ≡ 0
    → server_reads (chunks n e ++ closing (length e)) ≡ some e
unfolding chunks
reads zero [] le four = empty_read
reads zero (c ∷ s) le four = absurd (omega arith)
reads (suc n) [] le four = empty_read
reads (suc n) (c ∷ s) le four = elim (Bool-cases (ltb (length (c ∷ s)) 400)) [
  | inl short ↦
      rw (take_all 399 s (ground (arith, short)))
        (reads_last (c ∷ s) _ (ground (arith, four)) (ground (arith, short)))
  | inr long ↦
      let full : length (take 400 (c ∷ s)) ≡ 400 = length-take 400 (c ∷ s) (ground (arith, long)) in
      let long' : 400 ≤ suc (length s) = at_least (suc (length s)) 400 long in
      let left : length (drop 399 s) ≡ length s - 399 = length-drop 399 s in
      reads_full (c ∷ take 399 s) (chunks n (drop 399 s) ++ closing (suc (length s))) full
      ∙ ap (before (c ∷ take 399 s)) (
          ap (λ t. server_reads (chunks n (drop 399 s) ++ t))
            (sym (closing_same (length (drop 399 s)) (suc (length s)) (omega (arith, left, long'))))
          ∙ reads n (drop 399 s) (omega (arith, left, le)) (omega (arith, left, long', four)))
      ∙ ap some (ap (λ t. c ∷ t) (take-append-drop 399 s))
]

-- From the lines that answer the server's `+`, the server reads the base64 they carry, of any length:
-- its padding makes that a multiple of four.
pub credentials_read :
    (encoded : Text)
    → length encoded % 4 ≡ 0
    → server_reads (authenticate_lines encoded) ≡ some encoded
unfolding authenticate_lines
credentials_read encoded four = reads (length encoded) encoded (omega arith) four
