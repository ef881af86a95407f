-- ===== src/Runner/Dispatch/Commands.antt =====
-- Slash commands: which texts name a command.
use mathlib.Core.List.{append_assoc}
use theokit_gateways.Prelude.{
  ◌≡◌, refl, sym, ◌∙◌, ◌⊎◌, inl, inr, ◌↔◌, Bool, true, false, ◌||◌, some, List, [], ◌∷◌, ◌++◌,
  Bool-cases, Option-cases, arith,
}
use theokit_gateways.Js.{Text, lit, str_eq, starts_with}
use theokit_gateways.Js.Search.{Begins, str_eq_iff, starts_with_iff}
use theokit_gateways.Event.{MessageEvent}
use theokit_gateways.Runner.Dispatch.{
  Runner, Handler, active_prefix, names_command, find_command, match_slash_command,
}

-- The text is the command alone, or the command and then a space or an `@`.
abbrev pub AtWordEnd : Text → Text → Type 0
AtWordEnd text full =
    (text ≡ full)
    ⊎ ((rest : Text) × (text ≡ full ++ b' ' ∷ rest))
    ⊎ ((rest : Text) × (text ≡ full ++ b'@' ∷ rest))

or_cases : (a b c : Bool) → (a || b || c) ≡ true → (a ≡ true) ⊎ (b ≡ true) ⊎ (c ≡ true)
or_cases true b c h = inl refl
or_cases false true c h = inr (inl refl)
or_cases false false c h = inr (inr h)

Begins-letter :
    (c : Text) (full text : Text)
    → Begins (full ++ c) text
    → (rest : Text) × (text ≡ full ++ (c ++ rest))
Begins-letter c full text (rest, e) = (rest, e ∙ append_assoc full c rest)

letter-Begins :
    (c : Text) (full text rest : Text) → text ≡ full ++ (c ++ rest) → Begins (full ++ c) text
letter-Begins c full text rest e = (rest, e ∙ sym (append_assoc full c rest))

-- A text names a command exactly at a word's end: `/skills` does not name `skill`.
names_command_iff : (text full : Text) → (names_command text full ≡ true) ↔ AtWordEnd text full
unfolding names_command
names_command_iff text full = (to, from)
  where
    to : names_command text full ≡ true → AtWordEnd text full
    to h =
        elim (or_cases (str_eq text full) (starts_with text (full ++ lit " "))
          (starts_with text (full ++ lit "@")) h) [
            | inl same ↦ inl ((str_eq_iff text full).0 same)
            | inr (inl space) ↦ inr (
                inl (
                  Begins-letter (lit " ") full text
                    ((starts_with_iff text (full ++ lit " ")).0 space)))
            | inr (inr at) ↦ inr (
                inr (
                  Begins-letter (lit "@") full text
                    ((starts_with_iff text (full ++ lit "@")).0 at)))
          ]

    from : AtWordEnd text full → names_command text full ≡ true
    from (inl same) = ground (arith, (str_eq_iff text full).1 same)
    from (inr (inl (rest, e))) = ground (
      arith,
      (starts_with_iff text (full ++ lit " ")).1 (letter-Begins (lit " ") full text rest e),
    )
    from (inr (inr (rest, e))) = ground (
      arith,
      (starts_with_iff text (full ++ lit "@")).1 (letter-Begins (lit "@") full text rest e),
    )

-- A registered command: its name and handler, somewhere in the map.
abbrev pub Registered : {W : Type 0} → Text → Handler W → List (Text × Handler W) → Type 0
Registered name handler [] = ⊥
Registered name handler ((n, h) ∷ commands) =
    ((n ≡ name) × (h ≡ handler)) ⊎ Registered name handler commands

-- The prefix is one of the list, and the text starts with it.
abbrev pub Active : Text → Text → List Text → Type 0
Active text prefix [] = ⊥
Active text prefix (p ∷ ps) = ((p ≡ prefix) × Begins p text) ⊎ Active text prefix ps

active_prefix-Active :
    (text : Text) (ps : List Text) (prefix : Text)
    → active_prefix text ps ≡ some prefix
    → Active text prefix ps
unfolding active_prefix
active_prefix-Active text [] prefix h = cc
active_prefix-Active text (p ∷ ps) prefix h = elim (Bool-cases (starts_with text p)) [
  | inl yes_ ↦ inl (ground arith, (starts_with_iff text p).0 yes_)
  | inr no_ ↦ inr (active_prefix-Active text ps prefix (ground arith))
]

find_command-Registered :
    {W : Type 0} (text prefix : Text) (commands : List (Text × Handler W)) (handler : Handler W)
    → find_command text prefix commands ≡ some handler
    → (name : Text) × Registered name handler commands × AtWordEnd text (prefix ++ name)
unfolding find_command
find_command-Registered text prefix [] handler h = cc
find_command-Registered text prefix ((name, k) ∷ commands) handler h =
    elim (Bool-cases (names_command text (prefix ++ name))) [
      | inl yes_ ↦
          (name, inl (refl, ground arith), (names_command_iff text (prefix ++ name)).0 yes_)
      | inr no_ ↦
          let (found, registered, ends) =
            find_command-Registered text prefix commands handler (ground arith) in
          (found, inr registered, ends)
    ]

-- A handler that `matchSlashCommand` answers is registered under a name, and the text is one of the
-- prefixes and that name, alone or in front of a space or an `@`.
match_slash_command_lem :
    {W : Type 0} (r : Runner W) (event : MessageEvent) (handler : Handler W)
    → match_slash_command r event ≡ some handler
    → (prefix : Text) × (name : Text) × Active event.text prefix r.prefixes
      × Registered name handler r.commands
      × AtWordEnd event.text (prefix ++ name)
unfolding match_slash_command
match_slash_command_lem r event handler h =
    elim (Option-cases (active_prefix event.text r.prefixes)) [
      | inl none_ ↦ absurd (ground arith)
      | inr (prefix, found) ↦
          let (name, registered, ends) =
            find_command-Registered event.text prefix r.commands handler (ground arith) in
          (prefix, name, active_prefix-Active event.text r.prefixes prefix found, registered, ends)
    ]
