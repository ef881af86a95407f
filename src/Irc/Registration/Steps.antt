-- ===== src/Irc/Registration/Steps.antt =====
-- What one line of the handshake in Irc/Registration.antt does to its state.
use theokit_gateways.Prelude.{
  ◌≡◌, refl, sym, ap, ◌∙◌, inl, inr, Bool, true, false, not, ◌&&◌, ◌||◌, Option, none, some, List,
  [], ◌∷◌, get_elem?, length, drop, any, ltb, Bool-cases, if◌then◌else◌, arith,
}
use theokit_gateways.Js.{Text, lit, str_eq, or_default}
use theokit_gateways.Irc.{IrcLine, irc_lower}
use theokit_gateways.Irc.Registration.{
  RegistrationOptions, RegistrationOutcome, Registration, Reply, closing_link, cap, authenticate,
  sasl_refusal, join_refusal, logged_in, connection_refusal, nick_in_use, welcome, end_of_names,
  unread, reply_of, param, is_set, write, write_all, delete_text, credentials, on_cap,
  on_authenticate, authenticate_lines, on_nick_in_use, join_channels, on_welcome, joined_all,
  on_reply,
}
use theokit_gateways.Irc.Registration.Replies.{
  is_welcome, is_login, confirms, is_ok, reply_of-welcome, reply_of-logged_in,
  reply_of-end_of_names, any-delete_text, delete_text-nil, none_left,
}

module _ (lower base64 : Text → Text) (opts : RegistrationOptions) where
  -- With SASL, the welcome comes behind the login; without channels, there is nothing to wait for.
  abbrev pub IsValid : Registration → Type 0
  IsValid r =
      (is_set opts.sasl_password ≡ true → r.welcomed ≡ true → r.sasl_done ≡ true)
      × (opts.channels ≡ [] → r.waiting_for ≡ [])

  -- What one line does to a state.
  pub record Step (line : IrcLine) (r : Registration)
      (p : Registration × Option RegistrationOutcome) : Type 0 where
    pub welcomed : p.0.welcomed ≡ true → (r.welcomed || is_welcome line) ≡ true
    pub logged : p.0.sasl_done ≡ true → (r.sasl_done || is_login line) ≡ true
    pub waits :
        (c : Text)
        → any (str_eq (irc_lower lower c)) r.waiting_for ≡ true
        → (any (str_eq (irc_lower lower c)) p.0.waiting_for || confirms lower c line) ≡ true
    pub valid : IsValid r → IsValid p.0
    pub ended : IsValid r → is_ok p.1 ≡ true → (p.0.welcomed ≡ true) × (p.0.waiting_for ≡ [])

  -- A line that neither welcomes, nor logs in, nor confirms.
  abbrev pub Quiet : Registration → Registration × Option RegistrationOutcome → Type 0
  Quiet r p =
      (p.0.welcomed ≡ r.welcomed)
      × (p.0.sasl_done ≡ r.sasl_done)
      × (p.0.waiting_for ≡ r.waiting_for)
      × (is_ok p.1 ≡ false)

  quiet :
      (line : IrcLine) (r : Registration) (p : Registration × Option RegistrationOutcome)
      → Quiet r p
      → Step line r p
  quiet line r p (w, s, f, n) = record {
    welcomed = λ h. ground (arith, w, h);
    logged = λ h. ground (arith, s, h);
    waits = λ c h. ground (arith, f, h);
    valid = λ v. ((λ h k. s ∙ v.0 h (sym w ∙ k)), (λ h. f ∙ v.1 h));
    ended = λ v h. absurd (ground (arith, h, n));
  }

  either :
      (r : Registration) (t : Bool) (p q : Registration × Option RegistrationOutcome)
      → Quiet r p
      → Quiet r q
      → Quiet r (if t then p else q)
  either r true p q a b = a
  either r false p q a b = b

  pub write_all-Quiet : (lines : List Text) (r : Registration) → Quiet r (write_all lines r, none)
  unfolding write_all
  write_all-Quiet [] r = (refl, refl, refl, refl)
  write_all-Quiet (l ∷ ls) r = write_all-Quiet ls (write l r)

  on_cap-Quiet :
      (sub : Option Text) (rest : List Text) (r : Registration)
      → Quiet r (on_cap lower base64 opts sub rest r)
  unfolding on_cap
  on_cap-Quiet none rest r = (refl, refl, refl, refl)
  on_cap-Quiet (some subcommand) rest r = ground arith

  on_authenticate-Quiet :
      (p : Option Text) (r : Registration) → Quiet r (on_authenticate lower base64 opts p r)
  unfolding on_authenticate
  on_authenticate-Quiet none r = (refl, refl, refl, refl)
  on_authenticate-Quiet (some p) r =
      either r (str_eq p (lit "+"))
        (write_all (authenticate_lines (base64 (credentials lower base64 opts))) r, none) (r, none)
        (write_all-Quiet (authenticate_lines (base64 (credentials lower base64 opts))) r)
        (refl, refl, refl, refl)

  on_nick_in_use-Quiet : (r : Registration) → Quiet r (on_nick_in_use lower base64 opts r)
  unfolding on_nick_in_use
  on_nick_in_use-Quiet r = ground arith

  join_channels-Step :
      (channels : List Text) (line : IrcLine) (r r' : Registration)
      → opts.channels ≡ channels
      → is_welcome line ≡ true
      → r'.welcomed ≡ true
      → r'.sasl_done ≡ r.sasl_done
      → r'.waiting_for ≡ r.waiting_for
      → (is_set opts.sasl_password ≡ true → r.sasl_done ≡ true)
      → Step line r (join_channels lower base64 opts channels r')
  unfolding join_channels
  join_channels-Step [] line r r' e h w s f login = record {
    welcomed = λ k. ground (arith, h);
    logged = λ k. ground (arith, s, k);
    waits = λ c k. ground (arith, f, k);
    valid = λ v. ((λ k l. s ∙ login k), (λ k. f ∙ v.1 k));
    ended = λ v k. (w, f ∙ v.1 e);
  }
  join_channels-Step (c ∷ cs) line r r' e h w s f login = record {
    welcomed = λ k. ground (arith, h);
    logged = λ k. ground (arith, s, k);
    waits = λ c k. ground (arith, f, k);
    valid = λ v. ((λ k l. s ∙ login k), (λ k. f ∙ v.1 k));
    ended = λ v k. absurd (ground (arith, k));
  }

  on_welcome-Step :
      (name : Option Text) (line : IrcLine) (r : Registration)
      → is_welcome line ≡ true
      → Step line r (on_welcome lower base64 opts name r)
  unfolding on_welcome
  on_welcome-Step name line r h = elim (Bool-cases (is_set opts.sasl_password && not r.sasl_done)) [
    | inl yes_ ↦ rw yes_ (quiet line r _ (refl, refl, refl, refl))
    | inr no_ ↦ rw no_ (
        join_channels-Step opts.channels line r
          (record r { welcomed = true; nick = or_default name r.nick }) refl h refl refl refl
          (λ e. ground (arith, no_, e)))
  ]

  joined_all-Step :
      (line : IrcLine) (r : Registration)
      → str_eq line.command (lit "366") ≡ true
      → Step line r (
          joined_all lower base64 opts
            (record r { waiting_for = delete_text (irc_lower lower (param line 1)) r.waiting_for }))
  unfolding joined_all
  joined_all-Step line r h = elim (Bool-cases (not r.welcomed || ltb 0 (length left))) [
    | inl yes_ ↦ rw yes_ (record {
      welcomed = λ k. ground (arith, k);
      logged = λ k. ground (arith, k);
      waits = waits;
      valid = λ v. (v.0, (λ k. emptied (v.1 k)));
      ended = λ v k. absurd (ground (arith, k));
    })
    | inr no_ ↦ rw no_ (record {
      welcomed = λ k. ground (arith, k);
      logged = λ k. ground (arith, k);
      waits = waits;
      valid = λ v. (v.0, (λ k. emptied (v.1 k)));
      ended = λ v k. (ground (arith, no_), none_left left (ground (arith, no_)));
    })
  ]
    where
      left : List Text
      left = delete_text (irc_lower lower (param line 1)) r.waiting_for

      emptied : r.waiting_for ≡ [] → left ≡ []
      emptied e =
          ap (delete_text (irc_lower lower (param line 1))) e
          ∙ delete_text-nil (irc_lower lower (param line 1))

      waits :
          (c : Text)
          → any (str_eq (irc_lower lower c)) r.waiting_for ≡ true
          → (any (str_eq (irc_lower lower c)) left || confirms lower c line) ≡ true
      waits c k = elim (Bool-cases (str_eq (irc_lower lower c) (irc_lower lower (param line 1)))) [
        | inl same ↦ ground (arith, h, same)
        | inr other ↦ ground (
          arith,
          any-delete_text (irc_lower lower c) (irc_lower lower (param line 1)) r.waiting_for k
              other,
        )
      ]

  pub on_reply-Step :
      (reply : Reply) (line : IrcLine) (r : Registration)
      → reply_of line.command ≡ reply
      → Step line r (on_reply lower base64 opts reply line r)
  unfolding on_reply
  on_reply-Step closing_link line r e = quiet line r _ (refl, refl, refl, refl)
  on_reply-Step cap line r e =
      quiet line r _ (on_cap-Quiet (get_elem? line.params 1) (drop 2 line.params) r)
  on_reply-Step authenticate line r e =
      quiet line r _ (on_authenticate-Quiet (get_elem? line.params 0) r)
  on_reply-Step sasl_refusal line r e = quiet line r _ (refl, refl, refl, refl)
  on_reply-Step join_refusal line r e = quiet line r _ (refl, refl, refl, refl)
  on_reply-Step logged_in line r e = record {
    welcomed = λ h. ground (arith, h);
    logged = λ h. ground (arith, reply_of-logged_in line.command e);
    waits = λ c h. ground (arith, h);
    valid = λ v. ((λ h k. refl), v.1);
    ended = λ v h. absurd (ground (arith, h));
  }
  on_reply-Step connection_refusal line r e = quiet line r _ (refl, refl, refl, refl)
  on_reply-Step nick_in_use line r e = quiet line r _ (on_nick_in_use-Quiet r)
  on_reply-Step welcome line r e =
      on_welcome-Step (get_elem? line.params 0) line r (reply_of-welcome line.command e)
  on_reply-Step end_of_names line r e =
      joined_all-Step line r (reply_of-end_of_names line.command e)
  on_reply-Step unread line r e = quiet line r _ (refl, refl, refl, refl)
