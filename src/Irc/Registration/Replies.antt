-- ===== src/Irc/Registration/Replies.antt =====
-- The commands that Irc/Registration.antt answers to, and the channels it waits for.
use theokit_gateways.Prelude.{
  ◌≡◌, refl, ap, ◌∙◌, ◌⊎◌, inl, inr, Bool, true, false, ◌&&◌, Option, none, some, List, [], ◌∷◌,
  length, any, ltb, Bool-cases, arith,
}
use theokit_gateways.Js.{Text, lit, str_eq}
use theokit_gateways.Js.Search.{str_eq_iff}
use theokit_gateways.Irc.{IrcLine, irc_lower}
use theokit_gateways.Irc.Registration.{
  RegistrationOutcome, ok, refused, logged_in, welcome, end_of_names, reply_of, param, delete_text,
}

-- The lines that say so.
abbrev pub is_welcome : IrcLine → Bool
is_welcome line = str_eq line.command (lit "001")

abbrev pub is_login : IrcLine → Bool
is_login line = str_eq line.command (lit "903")

abbrev pub confirms : (Text → Text) → Text → IrcLine → Bool
confirms lower channel line =
    str_eq line.command (lit "366")
    && str_eq (irc_lower lower channel) (irc_lower lower (param line 1))

pub reply_of-welcome : (c : Text) → reply_of c ≡ welcome → str_eq c (lit "001") ≡ true
unfolding reply_of
reply_of-welcome c h = ground (arith, h)

pub reply_of-logged_in : (c : Text) → reply_of c ≡ logged_in → str_eq c (lit "903") ≡ true
unfolding reply_of
reply_of-logged_in c h = ground (arith, h)

pub reply_of-end_of_names : (c : Text) → reply_of c ≡ end_of_names → str_eq c (lit "366") ≡ true
unfolding reply_of
reply_of-end_of_names c h = ground (arith, h)

-- An outcome that is `ok`.
abbrev pub is_ok : Option RegistrationOutcome → Bool
is_ok none = false
is_ok (some (ok nick)) = true
is_ok (some (refused reason)) = false

pub any-delete_text :
    (c k : Text) (keys : List Text)
    → any (str_eq c) keys ≡ true
    → str_eq c k ≡ false
    → any (str_eq c) (delete_text k keys) ≡ true
unfolding delete_text
any-delete_text c k [] h n = h
any-delete_text c k (j ∷ keys) h n = elim (Bool-cases (str_eq j k)) [
  | inr keep ↦ rw keep (go (Bool-cases (str_eq c j)) (any-delete_text c k keys))
  | inl drop_ ↦
      let other : str_eq c j ≡ false = ap (str_eq c) ((str_eq_iff j k).0 drop_) ∙ n in
      rw drop_ (any-delete_text c k keys (ground (arith, h, other)) n)
]
  where
    go :
        ((str_eq c j ≡ true) ⊎ (str_eq c j ≡ false))
        → (any (str_eq c) keys ≡ true
            → str_eq c k ≡ false
            → any (str_eq c) (delete_text k keys) ≡ true)
        → any (str_eq c) (j ∷ delete_text k keys) ≡ true
    go (inl same) rec = ground (arith, same)
    go (inr other) rec = ground (arith, h, other, rec)

pub delete_text-nil : (k : Text) → delete_text k [] ≡ []
unfolding delete_text
delete_text-nil k = refl

pub none_left : (xs : List Text) → ltb 0 (length xs) ≡ false → xs ≡ []
none_left [] h = refl
none_left (x ∷ xs) h = absurd (ground (arith, h))
