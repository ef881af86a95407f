-- ===== src/Irc/Split/Lines.antt =====
-- `splitForIrc` of Irc/Split.antt, from the lines to the commands.
use mathlib.Core.List.{append_assoc}
use theokit_gateways.Prelude.{
  ℕ, ◌+◌, ◌-◌, ◌≤◌, ◌≡◌, refl, sym, ap, subst, ◌∙◌, inl, inr, Bool, true, false, not, ◌&&◌, ◌||◌,
  none, some, List, [], ◌∷◌, ◌++◌, concat, filter, All, All-map, All-append, All-split, ltb, ◌==◌,
  Bool-cases, if◌then◌else◌, arith,
}
use theokit_gateways.Js.{Text, lit, is_nonempty, cons_first}
use theokit_gateways.Irc.Split.{
  byte_length, cut_line, cut_lines, split_lines, overhead, split_for_irc,
}
use theokit_gateways.Irc.Split.Cut.{byte_length-append_le, Fits, cut_line-Fits, concat-cut_line}

-- A character that a command may carry: not NUL, CR or LF.
abbrev pub is_plain : ℕ → Bool
is_plain c = not (c == 0) && not (c == 10 || c == 13)

concat-append : (xs ys : List Text) → concat (xs ++ ys) ≡ concat xs ++ concat ys
concat-append [] ys = refl
concat-append (x ∷ xs) ys =
    ap (λ t. x ++ t) (concat-append xs ys) ∙ sym (append_assoc x (concat xs) (concat ys))

concat-cons_first : (c : ℕ) (ls : List Text) → concat (cons_first c ls) ≡ c ∷ concat ls
unfolding cons_first
concat-cons_first c [] = refl
concat-cons_first c (l ∷ ls) = refl

concat-split_lines :
    (cr : Bool) (s : Text) → concat (split_lines cr s) ≡ filter (λ c. not (c == 10 || c == 13)) s
unfolding split_lines
concat-split_lines cr [] = refl
concat-split_lines cr (c ∷ s) = elim (Bool-cases (c == 10)) [
  | inl feed ↦ elim (Bool-cases cr) [
    | inl after ↦ rw (feed, after) (concat-split_lines false s)
    | inr before ↦ rw (feed, before) (concat-split_lines false s)
  ]
  | inr other ↦ elim (Bool-cases (c == 13)) [
    | inl back ↦ rw (other, back) (concat-split_lines true s)
    | inr plain ↦
        rw (other, plain)
          (concat-cons_first c (split_lines false s) ∙ ap (λ t. c ∷ t) (concat-split_lines false s))
  ]
]

concat-cut_lines : (budget : ℕ) (lines : List Text) → concat (cut_lines budget lines) ≡ concat lines
unfolding cut_lines is_nonempty
concat-cut_lines budget [] = refl
concat-cut_lines budget ([] ∷ lines) = concat-cut_lines budget lines
concat-cut_lines budget ((c ∷ s) ∷ lines) =
    concat-append (cut_line (c ∷ s) budget) (cut_lines budget lines)
    ∙ ap (λ t. t ++ concat (cut_lines budget lines)) (concat-cut_line (c ∷ s) budget)
    ∙ ap (λ t. (c ∷ s) ++ t) (concat-cut_lines budget lines)

cut_lines-Fits :
    (budget : ℕ) (lines : List Text) → 4 ≤ budget → All (Fits budget) (cut_lines budget lines)
unfolding cut_lines is_nonempty
cut_lines-Fits budget [] room = tt
cut_lines-Fits budget ([] ∷ lines) room = cut_lines-Fits budget lines room
cut_lines-Fits budget ((c ∷ s) ∷ lines) room =
    All-append (Fits budget) (cut_line (c ∷ s) budget) (cut_lines budget lines)
      (cut_line-Fits (c ∷ s) budget room) (cut_lines-Fits budget lines room)

filter-both :
    (s : Text)
    → filter (λ c. not (c == 10 || c == 13)) (filter (λ c. not (c == 0)) s) ≡ filter is_plain s
filter-both [] = refl
filter-both (c ∷ s) = elim (Bool-cases (c == 0)) [
  | inl nul ↦ simp nul (filter-both s)
  | inr other ↦ elim (Bool-cases (not (c == 10 || c == 13))) [
    | inl yes_ ↦ simp (other, yes_) (ap (λ t. c ∷ t) (filter-both s))
    | inr no_ ↦ simp (other, no_) (filter-both s)
  ]
]

All-filter_self : (p : ℕ → Bool) (s : Text) → All (λ c. p c ≡ true) (filter p s)
All-filter_self p [] = tt
All-filter_self p (c ∷ s) = elim (Bool-cases (p c)) [
  | inl yes_ ↦ rw yes_ (yes_, All-filter_self p s)
  | inr no_ ↦ rw no_ (All-filter_self p s)
]

All-concat : (P : ℕ → Type 0) (parts : List Text) → All P (concat parts) → All (All P) parts
All-concat P [] h = tt
All-concat P (part ∷ parts) h =
    let (front, back) = All-split P part (concat parts) h in (front, All-concat P parts back)

All-both :
    (P Q : Text → Type 0) (parts : List Text)
    → All P parts
    → All Q parts
    → All (λ b. P b × Q b) parts
All-both P Q [] h k = tt
All-both P Q (part ∷ parts) h k = ((h.0, k.0), All-both P Q parts h.1 k.1)

within :
    (n : ℕ) (xs bodies : List Text)
    → (if ltb 512 (n + 4) then none else some xs) ≡ some bodies
    → (n + 4 ≤ 512) × (bodies ≡ xs)
within n xs bodies h = elim (Bool-cases (ltb 512 (n + 4))) [
  | inl over ↦ absurd (ground (arith, h, over))
  | inr fits ↦ (ground (arith, fits), ground (arith, h, fits))
]

-- What `splitForIrc` returns, if it does not throw.
split_for_irc-some :
    (text target : Text) (reserve : ℕ) (bodies : List Text)
    → split_for_irc text target reserve ≡ some bodies
    → (overhead target reserve + 4 ≤ 512)
      × (bodies
          ≡ cut_lines
              (512 - overhead target reserve)
              (split_lines false (filter (λ c. not (c == 0)) text)))
unfolding split_for_irc
split_for_irc-some text target reserve bodies h =
    within (overhead target reserve)
      (cut_lines (512 - overhead target reserve)
        (split_lines false (filter (λ c. not (c == 0)) text)))
      bodies h

-- The bodies carry the text in order, without its NULs and line breaks, and without a loss.
pub bodies_carry :
    (text target : Text) (reserve : ℕ) (bodies : List Text)
    → split_for_irc text target reserve ≡ some bodies
    → concat bodies ≡ filter is_plain text
bodies_carry text target reserve bodies h =
    ap concat (split_for_irc-some text target reserve bodies h).1
    ∙ concat-cut_lines (512 - overhead target reserve)
        (split_lines false (filter (λ c. not (c == 0)) text))
    ∙ concat-split_lines false (filter (λ c. not (c == 0)) text)
    ∙ filter-both text

-- The command of a body, without its line break.
abbrev pub command : Text → Text → Text
command target body = (lit "PRIVMSG " ++ target ++ lit " :") ++ body

-- Each body is not empty and has no NUL, CR or LF, so its command is one line; and the command, its
-- line break and the bytes kept for the relay's prefix are 512 bytes at most.
pub bodies_fit :
    (text target : Text) (reserve : ℕ) (bodies : List Text)
    → split_for_irc text target reserve ≡ some bodies
    → All
        (λ body.
          ((byte_length (command target body) + 2 + reserve ≤ 512) × (is_nonempty body ≡ true))
          × All (λ c. is_plain c ≡ true) body)
        bodies
bodies_fit text target reserve bodies h =
    let (room, same) = split_for_irc-some text target reserve bodies h in
    All-both
      (λ body. (byte_length (command target body) + 2 + reserve ≤ 512) × (is_nonempty body ≡ true))
      (All (λ c. is_plain c ≡ true)) bodies
      (All-map bodies
        (λ body (short, full). (
          omega (
            arith,
            byte_length-append_le (lit "PRIVMSG " ++ target ++ lit " :") body,
            short,
            room,
          ),
          full,
        ))
        (subst (All (Fits (512 - overhead target reserve))) (sym same) (
          cut_lines-Fits (512 - overhead target reserve)
            (split_lines false (filter (λ c. not (c == 0)) text)) (omega (arith, room)))))
      (All-concat (λ c. is_plain c ≡ true) bodies
        (subst (All (λ c. is_plain c ≡ true)) (sym (bodies_carry text target reserve bodies h))
          (All-filter_self is_plain text)))
