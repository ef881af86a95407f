-- ===== src/Tests/Handshakes.antt =====
-- Runs of the IRC handshake, splitter and stream, and their theorems at concrete inputs.
use theokit_gateways.Prelude.{
  not, ◌||◌, ◌&&◌, ltb, ◌+◌, ◌≤◌, ◌≡◌, refl, true, none, some, List, [], ◌∷◌, ◌++◌, any, filter,
  concat, All,
}
use theokit_gateways.Js.{Text, lit, is_nonempty, is_low_surrogate, str_eq, split_on, cons_first}
use theokit_gateways.Irc.{IrcLine, irc_lower, fold_case}
use theokit_gateways.Irc.Registration as Registration
use theokit_gateways.Irc.Registration.{RegistrationOptions, authenticate_lines}
use theokit_gateways.Irc.Registration.Replies.{is_welcome, is_login, confirms, is_ok}
use theokit_gateways.Irc.Registration.Joined.{registered}
use theokit_gateways.Irc.Registration.Lines.{server_reads, credentials_read}
use theokit_gateways.Irc.Split.{
  unit_bytes, byte_length, code_points, cut_loop, cut_line, split_lines, cut_lines, split_for_irc,
}
use theokit_gateways.Js.Utf16.{is_high_surrogate}
use theokit_gateways.Irc.Split.Lines.{is_plain, command, bodies_fit, bodies_carry}
use theokit_gateways.Irc.Session as Session
use theokit_gateways.Irc.Session.{
  connect_called, attempt_ended, attempt_cleared, socket_closed, disconnect_called, is_at,
}
use theokit_gateways.Irc.Session.Attempts.{has_socket}
use theokit_gateways.Irc.Session.Sockets.{is_success, sockets_accounted}
use theokit_gateways.Irc.Stream.{feed}
use theokit_gateways.Irc.Stream.Framing.{scan, feed_scans}

abbrev keep : Text → Text
keep t = t

abbrev said : Text → List Text → IrcLine
said command params = record { tags = []; prefix = none; command = command; params = params }

abbrev bot : RegistrationOptions
bot = record {
  nick = lit "bot";
  username = lit "bot";
  realname = lit "Bot";
  password = none;
  sasl_account = none;
  sasl_password = some (lit "secret");
  channels = lit "#a" ∷ [];
}

-- A handshake with a nick in use, SASL and one channel.
abbrev handshake : List IrcLine
handshake =
    said (lit "CAP") (lit "*" ∷ lit "LS" ∷ lit "sasl=PLAIN" ∷ [])
    ∷ said (lit "433") (lit "*" ∷ lit "bot" ∷ [])
    ∷ said (lit "903") []
    ∷ said (lit "001") (lit "bot_" ∷ [])
    ∷ said (lit "366") (lit "bot_" ∷ lit "#a" ∷ [])
    ∷ []

handshake_ok :
    is_ok
      (Registration.run keep keep bot handshake
        (Registration.start keep keep bot (Registration.new keep keep bot))).1
    ≡ true
unfolding Registration.run Registration.start Registration.new Registration.on_line
    Registration.on_reply Registration.reply_of Registration.on_cap Registration.on_nick_in_use
    Registration.on_welcome Registration.join_channels Registration.joined_all
    Registration.unless_over Registration.write_all Registration.set_of Registration.delete_text
    Registration.cap_name Registration.last_of irc_lower str_eq split_on cons_first fold_case
handshake_ok = refl

registered_example :
    (any is_welcome handshake ≡ true)
    × ((not true || any is_login handshake) ≡ true)
    × All (λ c. any (confirms keep c) handshake ≡ true) (lit "#a" ∷ [])
registered_example = registered keep keep bot handshake handshake_ok

credentials_read_example :
    server_reads (authenticate_lines (lit "AGJvdABwdw==")) ≡ some (lit "AGJvdABwdw==")
credentials_read_example = credentials_read (lit "AGJvdABwdw==") refl

-- Two lines for a channel.
abbrev two_lines : Text
two_lines = lit "hello" ++ 13 ∷ 10 ∷ lit "there"

split_two_lines : split_for_irc two_lines (lit "#a") 100 ≡ some (lit "hello" ∷ lit "there" ∷ [])
unfolding split_for_irc byte_length unit_bytes code_points cut_loop cut_line split_lines cut_lines
    cons_first is_nonempty is_high_surrogate is_low_surrogate
split_two_lines = refl

bodies_fit_example :
    All
      (λ body.
        ((byte_length (command (lit "#a") body) + 2 + 100 ≤ 512) × (is_nonempty body ≡ true))
        × All (λ c. is_plain c ≡ true) body)
      (lit "hello" ∷ lit "there" ∷ [])
bodies_fit_example =
    bodies_fit two_lines (lit "#a") 100 (lit "hello" ∷ lit "there" ∷ []) split_two_lines

bodies_carry_example : concat (lit "hello" ∷ lit "there" ∷ []) ≡ filter is_plain two_lines
bodies_carry_example =
    bodies_carry two_lines (lit "#a") 100 (lit "hello" ∷ lit "there" ∷ []) split_two_lines

feed_scans_example :
    feed [] ((lit "PI" ++ 13 ∷ []) ∷ (10 ∷ lit "NI") ∷ [])
    ≡ scan [] (concat ((lit "PI" ++ 13 ∷ []) ∷ (10 ∷ lit "NI") ∷ []))
feed_scans_example = feed_scans ((lit "PI" ++ 13 ∷ []) ∷ (10 ∷ lit "NI") ∷ [])

-- A connection that is given up while it registers, and another one.
abbrev two_connections : List Session.Event
two_connections =
    connect_called true
    ∷ disconnect_called
    ∷ connect_called true
    ∷ attempt_ended 0 true
    ∷ attempt_cleared 0
    ∷ attempt_ended 1 true
    ∷ []

second_connected : (Session.run two_connections Session.new).socket ≡ some 1
unfolding Session.run Session.on_event Session.connect Session.open_session Session.disconnect
    Session.settle Session.finish_connect Session.clear Session.is_pending is_at
second_connected = refl

sockets_accounted_example :
    let s = Session.run two_connections Session.new in
    ((not (ltb 0 s.upcoming) || (is_at 0 s.socket || s.released 0)) ≡ true)
    × ((not s.connected || has_socket s.socket) ≡ true)
    × ((not (s.connected && is_at 0 s.socket) || is_success (s.outcome 0)) ≡ true)
sockets_accounted_example = sockets_accounted two_connections 0
