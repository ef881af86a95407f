-- ===== src/Irc/Registration.antt =====
-- packages/gateway-irc/src/registration.ts: the handshake with an IRC server, line by line. `lower` is
-- `toLowerCase`, and `base64` gives the base64 of a text's bytes in UTF-8.
pub mod Replies
pub mod Steps
pub mod Joined
pub mod Lines
use theokit_gateways.Prelude.{
  ℕ, zero, suc, ◌+◌, ◌%◌, Bool, true, false, not, ◌&&◌, ◌||◌, Option, none, some, List, [], ◌∷◌,
  ◌++◌, get_elem?, length, take, drop, map, any, filter, leb, ltb, ◌==◌, if◌then◌else◌,
}
use theokit_gateways.Js.{Text, lit, str_eq, split_on, or_default}
use theokit_gateways.Irc.{IrcLine, irc_lower}

abbrev pub nick_retries : ℕ
nick_retries = 3

abbrev pub authenticate_chunk : ℕ
authenticate_chunk = 400

-- `RegistrationOptions`.
pub record RegistrationOptions : Type 0 where
  pub nick : Text
  pub username : Text
  pub realname : Text
  pub password : Option Text
  pub sasl_account : Option Text
  pub sasl_password : Option Text
  pub channels : List Text

-- `RegistrationOutcome`.
pub data RegistrationOutcome : Type 0 where
  ok : Text → RegistrationOutcome
  refused : Text → RegistrationOutcome

-- The fields of `Registration`, and the lines it wrote, oldest first.
pub record Registration : Type 0 where
  pub nick : Text
  pub retries : ℕ
  pub welcomed : Bool
  pub sasl_done : Bool
  pub offered : List Text
  pub waiting_for : List Text
  pub written : List Text

-- What `onLine` does by a line's command, in the order of its tests.
pub data Reply : Type 0 where
  closing_link : Reply
  cap : Reply
  authenticate : Reply
  sasl_refusal : Reply
  join_refusal : Reply
  logged_in : Reply
  connection_refusal : Reply
  nick_in_use : Reply
  welcome : Reply
  end_of_names : Reply
  unread : Reply

-- `JOIN_REFUSALS` and `SASL_REFUSALS`.
abbrev pub join_refusals : List Text
join_refusals =
    lit "403" ∷ lit "405" ∷ lit "471" ∷ lit "473" ∷ lit "474" ∷ lit "475" ∷ lit "477" ∷ []

abbrev pub sasl_refusals : List Text
sasl_refusals = lit "902" ∷ lit "904" ∷ lit "905" ∷ lit "906" ∷ lit "908" ∷ []

unfoldable pub reply_of : Text → Reply
reply_of command =
    if str_eq command (lit "ERROR")
    then closing_link
    else if str_eq command (lit "CAP")
    then cap
    else if str_eq command (lit "AUTHENTICATE")
    then authenticate
    else if any (str_eq command) sasl_refusals
    then sasl_refusal
    else if any (str_eq command) join_refusals
    then join_refusal
    else if str_eq command (lit "903")
    then logged_in
    else if str_eq command (lit "464") || str_eq command (lit "465")
    then connection_refusal
    else if str_eq command (lit "433")
    then nick_in_use
    else if str_eq command (lit "001")
    then welcome
    else if str_eq command (lit "366")
    then end_of_names
    else unread

unfoldable pub last_of : List Text → Option Text
last_of [] = none
last_of (x ∷ []) = some x
last_of (x ∷ y ∷ ys) = last_of (y ∷ ys)

-- `last`.
abbrev pub last : IrcLine → Text
last line = or_default (last_of line.params) []

abbrev pub param : IrcLine → ℕ → Text
param line i = or_default (get_elem? line.params i) []

abbrev pub is_set : Option Text → Bool
is_set none = false
is_set (some t) = true

abbrev pub write : Text → Registration → Registration
write line r = record r { written = r.written ++ line ∷ [] }

unfoldable pub write_all : List Text → Registration → Registration
write_all [] r = r
write_all (line ∷ lines) r = write_all lines (write line r)

-- The keys of a `Set` that texts are added to one by one.
unfoldable pub set_of : List Text → List Text → List Text
set_of keys [] = keys
set_of keys (k ∷ ks) = set_of (if any (str_eq k) keys then keys else keys ++ k ∷ []) ks

unfoldable pub delete_text : Text → List Text → List Text
delete_text k keys = filter (λ j. not (str_eq j k)) keys

-- What stands before the first `=`.
unfoldable pub cap_name : Text → Text
cap_name cap_text = elim (split_on b'=' cap_text) [ [] ↦ [] | name ∷ rest ↦ name ]

-- The lines that carry credentials, on fuel: each takes 400 characters.
unfoldable pub chunks : ℕ → Text → List Text
chunks zero s = []
chunks (suc n) [] = []
chunks (suc n) (c ∷ s) =
    (lit "AUTHENTICATE " ++ take authenticate_chunk (c ∷ s))
    ∷ chunks n (drop authenticate_chunk (c ∷ s))

unfoldable pub authenticate_lines : Text → List Text
authenticate_lines encoded =
    chunks (length encoded) encoded
    ++ (if length encoded % authenticate_chunk == 0 then lit "AUTHENTICATE +" ∷ [] else [])

unfoldable pub join_with_commas : List Text → Text
join_with_commas [] = []
join_with_commas (c ∷ []) = c
join_with_commas (c ∷ d ∷ cs) = c ++ b',' ∷ join_with_commas (d ∷ cs)

-- The result, if it has an outcome, and else what follows.
unfoldable pub unless_over :
    Registration × Option RegistrationOutcome
    → Registration × Option RegistrationOutcome
    → Registration × Option RegistrationOutcome
unless_over (r, none) rest = rest
unless_over (r, some o) rest = (r, some o)

module _ (lower base64 : Text → Text) (opts : RegistrationOptions) where
  -- The constructor.
  unfoldable pub new : Registration
  new = record {
    nick = opts.nick;
    retries = 0;
    welcomed = false;
    sasl_done = false;
    offered = [];
    waiting_for = set_of [] (map (irc_lower lower) opts.channels);
    written = [];
  }

  -- `start`.
  unfoldable pub start : Registration → Registration
  start r =
      write_all
        ((elim opts.password [ none ↦ [] | some p ↦ (lit "PASS :" ++ p) ∷ [] ])
          ++ (if is_set opts.sasl_password then lit "CAP LS 302" ∷ [] else [])
          ++ (lit "NICK " ++ r.nick)
            ∷ (lit "USER " ++ opts.username ++ lit " 0 * :" ++ opts.realname)
            ∷ [])
        r

  -- `onCap`, by the subcommand and the parameters behind it.
  unfoldable pub on_cap :
      Option Text → List Text → Registration → Registration × Option RegistrationOutcome
  on_cap none rest r = (r, none)
  on_cap (some subcommand) rest r =
      let list_text = or_default (last_of rest) [] in
      let more = record r { offered = r.offered ++ map cap_name (split_on 32 list_text) } in
      if str_eq subcommand (lit "LS")
      then (if ltb 1 (length rest)
          then (more, none)
          else if not (any (str_eq (lit "sasl")) more.offered)
          then (more, some (refused (lit "the server offers no SASL")))
          else (write (lit "CAP REQ :sasl") more, none))
      else if str_eq subcommand (lit "ACK") && any (str_eq (lit "sasl")) (split_on 32 list_text)
      then (write (lit "AUTHENTICATE PLAIN") r, none)
      else if str_eq subcommand (lit "NAK")
      then (r, some (refused (lit "the server refused the sasl capability")))
      else (r, none)

  -- `account\0account\0password`.
  unfoldable pub credentials : Text
  credentials =
      let account = or_default opts.sasl_account opts.nick in
      account ++ 0 ∷ account ++ 0 ∷ or_default opts.sasl_password []

  -- `onAuthenticate`.
  unfoldable pub on_authenticate :
      Option Text → Registration → Registration × Option RegistrationOutcome
  on_authenticate none r = (r, none)
  on_authenticate (some p) r =
      if str_eq p (lit "+")
      then (write_all (authenticate_lines (base64 credentials)) r, none)
      else (r, none)

  -- `onNickInUse`.
  unfoldable pub on_nick_in_use : Registration → Registration × Option RegistrationOutcome
  on_nick_in_use r =
      if r.welcomed
      then (r, none)
      else if leb nick_retries r.retries
      then (r, some (refused (lit "nick " ++ r.nick ++ lit " is in use after 3 retries")))
      else (
        write (lit "NICK " ++ r.nick ++ lit "_")
            (record r { retries = r.retries + 1; nick = r.nick ++ lit "_" }),
        none,
      )

  -- The end of `onWelcome`, by the channels.
  unfoldable pub join_channels :
      List Text → Registration → Registration × Option RegistrationOutcome
  join_channels [] r = (r, some (ok r.nick))
  join_channels (c ∷ cs) r = (write (lit "JOIN " ++ join_with_commas (c ∷ cs)) r, none)

  -- `onWelcome`.
  unfoldable pub on_welcome : Option Text → Registration → Registration × Option RegistrationOutcome
  on_welcome name r =
      if is_set opts.sasl_password && not r.sasl_done
      then (
        r,
        some (
            refused
              (lit "the server welcomed the nick without SASL, so the account is not logged in")),
      )
      else join_channels opts.channels (record r { welcomed = true; nick = or_default name r.nick })

  -- `joinedAll`.
  unfoldable pub joined_all : Registration → Registration × Option RegistrationOutcome
  joined_all r =
      if not r.welcomed || ltb 0 (length r.waiting_for) then (r, none) else (r, some (ok r.nick))

  -- `onLine`, by what it does.
  unfoldable pub on_reply :
      Reply → IrcLine → Registration → Registration × Option RegistrationOutcome
  on_reply closing_link line r =
      (r, some (refused (lit "the server closed the link: " ++ param line 0)))
  on_reply cap line r = on_cap (get_elem? line.params 1) (drop 2 line.params) r
  on_reply authenticate line r = on_authenticate (get_elem? line.params 0) r
  on_reply sasl_refusal line r =
      (r, some (refused (lit "SASL refused (" ++ line.command ++ lit "): " ++ last line)))
  on_reply join_refusal line r = (
    r,
    some (
        refused (
          lit "could not join "
          ++ or_default (get_elem? line.params 1) (lit "?")
          ++ lit " ("
          ++ line.command
          ++ lit "): "
          ++ last line)),
  )
  on_reply logged_in line r = (write (lit "CAP END") (record r { sasl_done = true }), none)
  on_reply connection_refusal line r = (
    r,
    some (
        refused
          (lit "the server refused the connection (" ++ line.command ++ lit "): " ++ last line)),
  )
  on_reply nick_in_use line r = on_nick_in_use r
  on_reply welcome line r = on_welcome (get_elem? line.params 0) r
  on_reply end_of_names line r =
      joined_all
        (record r { waiting_for = delete_text (irc_lower lower (param line 1)) r.waiting_for })
  on_reply unread line r = (r, none)

  unfoldable pub on_line : IrcLine → Registration → Registration × Option RegistrationOutcome
  on_line line r = on_reply (reply_of line.command) line r

  -- The lines that the adapter hands over, up to the first outcome.
  unfoldable pub run : List IrcLine → Registration → Registration × Option RegistrationOutcome
  run [] r = (r, none)
  run (line ∷ lines) r = unless_over (on_line line r) (run lines (on_line line r).0)
