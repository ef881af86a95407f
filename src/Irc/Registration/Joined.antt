-- ===== src/Irc/Registration/Joined.antt =====
-- The handshake of Irc/Registration.antt, up to its outcome.
use theokit_gateways.Prelude.{
  not, ◌≡◌, refl, sym, ap, ◌∙◌, inl, inr, Bool, true, false, ◌||◌, Option, none, some, List, [],
  ◌∷◌, ◌++◌, map, any, All, Bool-cases, arith,
}
use theokit_gateways.Js.{Text, str_eq}
use theokit_gateways.Js.Search.{str_eq_iff}
use theokit_gateways.Irc.{IrcLine, irc_lower}
use theokit_gateways.Irc.Registration.{
  RegistrationOptions, RegistrationOutcome, Registration, reply_of, unless_over, is_set, set_of,
  new, start, on_line, run,
}
use theokit_gateways.Irc.Registration.Replies.{is_welcome, is_login, confirms, is_ok}
use theokit_gateways.Irc.Registration.Steps.{IsValid, Step, Quiet, write_all-Quiet, on_reply-Step}

choice : (a b : Bool) → (a ≡ true → b ≡ true) → (not a || b) ≡ true
choice true b f = f refl
choice false b f = refl

relay : (a b c d : Bool) → (a ≡ true → (b || c) ≡ true) → (a || d) ≡ true → (b || (c || d)) ≡ true
relay true b c d f h = ground (arith, f refl)
relay false b c d f h = ground (arith, h)

relay_any : (a b d : Bool) → (a ≡ true → d ≡ true) → (a || b) ≡ true → (b || d) ≡ true
relay_any true b d f h = ground (arith, f refl)
relay_any false b d f h = ground (arith, h)

any-append :
    (k j : Text) (keys : List Text)
    → any (str_eq k) (keys ++ j ∷ []) ≡ (any (str_eq k) keys || str_eq k j)
any-append k j [] = ground arith
any-append k j (i ∷ keys) = ground (arith, any-append k j keys)

known :
    (k j : Text) (keys ks : List Text)
    → any (str_eq j) keys ≡ true
    → (any (str_eq k) keys || any (str_eq k) (j ∷ ks)) ≡ true
    → (any (str_eq k) keys || any (str_eq k) ks) ≡ true
known k j keys ks old h = elim (Bool-cases (str_eq k j)) [
  | inl same ↦
      let here : any (str_eq k) keys ≡ true =
        ap (λ t. any (str_eq t) keys) ((str_eq_iff k j).0 same) ∙ old in
      ground (arith, here)
  | inr other ↦ ground (arith, other, h)
]

set_of-mem :
    (k : Text) (keys ks : List Text)
    → (any (str_eq k) keys || any (str_eq k) ks) ≡ true
    → any (str_eq k) (set_of keys ks) ≡ true
unfolding set_of
set_of-mem k keys [] h = ground (arith, h)
set_of-mem k keys (j ∷ ks) h = elim (Bool-cases (any (str_eq j) keys)) [
  | inl old ↦ rw old (set_of-mem k keys ks (known k j keys ks old h))
  | inr new_ ↦ rw new_ (set_of-mem k (keys ++ j ∷ []) ks (ground (arith, any-append k j keys, h)))
]

module _ (lower base64 : Text → Text) (opts : RegistrationOptions) where
  -- What an `ok` took, of a run that started with the state.
  abbrev pub Took : List IrcLine → Registration → Type 0
  Took lines r =
      ((r.welcomed || any is_welcome lines) ≡ true)
      × (is_set opts.sasl_password ≡ true → (r.sasl_done || any is_login lines) ≡ true)
      × ((c : Text)
          → any (str_eq (irc_lower lower c)) r.waiting_for ≡ true
          → any (confirms lower c) lines ≡ true)

  now_ok :
      (line : IrcLine) (lines : List IrcLine) (r : Registration)
      (p : Registration × Option RegistrationOutcome)
      → Step lower base64 opts line r p
      → IsValid lower base64 opts r
      → is_ok p.1 ≡ true
      → Took (line ∷ lines) r
  now_ok line lines r p step v h =
      let (named, joined) = step.ended v h in
      (
        ground (arith, step.welcomed named),
        (λ k. ground (arith, step.logged ((step.valid v).0 k named))),
        (λ c k. ground (arith, step.waits c k, joined)),
      )

  later_ok :
      (line : IrcLine) (lines : List IrcLine) (r : Registration)
      (p : Registration × Option RegistrationOutcome)
      → Step lower base64 opts line r p
      → Took lines p.0
      → Took (line ∷ lines) r
  later_ok line lines r p step (w, l, f) = (
    relay _ _ _ _ step.welcomed w,
    (λ k. relay _ _ _ _ step.logged (l k)),
    (λ c k. relay_any _ _ _ (f c) (step.waits c k)),
  )

  run-Took :
      (lines : List IrcLine) (r : Registration)
      → IsValid lower base64 opts r
      → is_ok (run lower base64 opts lines r).1 ≡ true
      → Took lines r
  unfolding run on_line unless_over
  run-Took [] r v h = absurd (ground (arith, h))
  run-Took (line ∷ lines) r v h =
      go (on_line lower base64 opts line r)
        (on_reply-Step lower base64 opts (reply_of line.command) line r refl) (run-Took lines) h
    where
      go :
          (p : Registration × Option RegistrationOutcome)
          → Step lower base64 opts line r p
          → ((r' : Registration)
              → IsValid lower base64 opts r'
              → is_ok (run lower base64 opts lines r').1 ≡ true
              → Took lines r')
          → is_ok (unless_over p (run lower base64 opts lines p.0)).1 ≡ true
          → Took (line ∷ lines) r
      go (r', none) step rec k = later_ok line lines r (r', none) step (rec r' (step.valid v) k)
      go (r', some o) step rec k = now_ok line lines r (r', some o) step v k

  confirmed_channels :
      (lines : List IrcLine) (channels : List Text)
      → ((c : Text)
          → any (str_eq (irc_lower lower c)) (map (irc_lower lower) channels) ≡ true
          → any (confirms lower c) lines ≡ true)
      → All (λ c. any (confirms lower c) lines ≡ true) channels
  confirmed_channels lines [] h = tt
  confirmed_channels lines (c ∷ cs) h = (
    h c (ground (arith, (str_eq_iff (irc_lower lower c) (irc_lower lower c)).1 refl)),
    confirmed_channels lines cs (λ d k. h d (ground (arith, k))),
  )

  new-IsValid : IsValid lower base64 opts (new lower base64 opts)
  unfolding new set_of
  new-IsValid = (
    (λ h k. absurd (ground (arith, k))),
    (λ h. ap (λ cs. set_of [] (map (irc_lower lower) cs)) h),
  )

  Quiet-IsValid :
      (r : Registration) (p : Registration × Option RegistrationOutcome)
      → Quiet lower base64 opts r p
      → IsValid lower base64 opts r
      → IsValid lower base64 opts p.0
  Quiet-IsValid r p (w, s, f, n) v = ((λ h k. s ∙ v.0 h (sym w ∙ k)), (λ h. f ∙ v.1 h))

  start-Quiet : (r : Registration) → Quiet lower base64 opts r (start lower base64 opts r, none)
  unfolding start
  start-Quiet r = write_all-Quiet lower base64 opts _ r

  -- A handshake, from its start through any lines, ends with `ok` only if among those lines are the
  -- server's welcome, its confirmation of each channel, and, where a SASL password is set, its login.
  pub registered :
      (lines : List IrcLine)
      → is_ok (run lower base64 opts lines (start lower base64 opts (new lower base64 opts))).1
        ≡ true
      → (any is_welcome lines ≡ true)
        × ((not (is_set opts.sasl_password) || any is_login lines) ≡ true)
        × All (λ c. any (confirms lower c) lines ≡ true) opts.channels
  unfolding new
  registered lines h =
      let r = new lower base64 opts in
      let (w, s, f, _) = start-Quiet r in
      let took =
        run-Took lines (start lower base64 opts r)
          (Quiet-IsValid r (start lower base64 opts r, none) (start-Quiet r) new-IsValid) h in
      (
        ground (arith, took.0, w),
        choice (is_set opts.sasl_password) _ (λ k. ground (arith, took.1 k, s)),
        confirmed_channels lines opts.channels (λ c k. took.2 c (
            ap (any (str_eq (irc_lower lower c))) f
            ∙ set_of-mem (irc_lower lower c) [] (map (irc_lower lower) opts.channels) k)),
      )
