-- ===== src/Irc/Session.antt =====
-- packages/gateway-irc/src/adapter.ts: the connection of the IRC adapter. A socket and the attempt that
-- opened it go by one number.
pub mod Attempts
pub mod Sockets
use theokit_gateways.Prelude.{
  ℕ, ◌+◌, Bool, true, false, not, ◌&&◌, ◌||◌, Option, none, some, List, [], ◌∷◌, ltb, ◌==◌,
  if◌then◌else◌,
}

-- The fields `socket`, `connected` and `connecting`. Of the world outside: the number of the next
-- attempt, what the attempts resolved to, and the sockets that were ended, destroyed or closed.
pub record Session : Type 0 where
  pub socket : Option ℕ
  pub connected : Bool
  pub connecting : Option ℕ
  pub upcoming : ℕ
  pub outcome : ℕ → Option Bool
  pub released : ℕ → Bool

-- What happens: `connect`, with whether the factory gives a socket; the end of an attempt, by the
-- handshake, the timer or an error of the socket; the attempt's `finally`; the close of a socket; and
-- `disconnect`.
pub data Event : Type 0 where
  connect_called : Bool → Event
  attempt_ended : ℕ → Bool → Event
  attempt_cleared : ℕ → Event
  socket_closed : ℕ → Event
  disconnect_called : Event

unfoldable pub is_at : ℕ → Option ℕ → Bool
is_at n none = false
is_at n (some m) = n == m

unfoldable pub is_pending : Option Bool → Bool
is_pending none = true
is_pending (some ok) = false

abbrev pub new : Session
new = record {
  socket = none;
  connected = false;
  connecting = none;
  upcoming = 0;
  outcome = λ n. none;
  released = λ n. false;
}

abbrev pub put : {A : Type 0} → ℕ → A → (ℕ → A) → ℕ → A
put n a f m = if m == n then a else f m

-- `openSession`, and the attempt's place in `connecting`.
unfoldable pub open_session : Bool → Session → Session
open_session true s = record s {
  socket = some s.upcoming;
  connecting = some s.upcoming;
  upcoming = s.upcoming + 1;
}
open_session false s = record s {
  connecting = some s.upcoming;
  upcoming = s.upcoming + 1;
  outcome = put s.upcoming (some false) s.outcome;
  released = put s.upcoming true s.released;
}

-- `connect`: one that is connected, or that shares an attempt, opens nothing.
unfoldable pub connect : Bool → Option ℕ → Session → Session
connect opens (some attempt) s = s
connect opens none s = if s.connected then s else open_session opens s

-- `finishConnect`.
unfoldable pub finish_connect : ℕ → Bool → Session → Session
finish_connect n ok s =
    if ok && is_at n s.socket
    then record s { connected = true; outcome = put n (some true) s.outcome }
    else record s {
      socket = if is_at n s.socket then none else s.socket;
      outcome = put n (some false) s.outcome;
      released = put n true s.released;
    }

-- `ConnectAttempt.settle`.
unfoldable pub settle : ℕ → Bool → Session → Session
settle n ok s = if is_pending (s.outcome n) then finish_connect n ok s else s

unfoldable pub clear : ℕ → Session → Session
clear n s =
    if not (is_pending (s.outcome n)) && is_at n s.connecting
    then record s { connecting = none }
    else s

-- `onClose`, of a socket whose attempt is settled.
unfoldable pub drop_socket : ℕ → Session → Session
drop_socket n s =
    if is_at n s.socket
    then record s { socket = none; connected = false; released = put n true s.released }
    else record s { released = put n true s.released }

unfoldable pub on_close : ℕ → Session → Session
on_close n s = if is_pending (s.outcome n) then finish_connect n false s else drop_socket n s

-- `disconnect`.
unfoldable pub disconnect : Option ℕ → Session → Session
disconnect none s = record s { connected = false; connecting = none }
disconnect (some n) s = record s {
  socket = none;
  connected = false;
  connecting = none;
  released = put n true s.released;
}

-- An attempt that was not made has no events.
unfoldable pub on_event : Event → Session → Session
on_event (connect_called opens) s = connect opens s.connecting s
on_event (attempt_ended n ok) s = if ltb n s.upcoming then settle n ok s else s
on_event (attempt_cleared n) s = clear n s
on_event (socket_closed n) s = if ltb n s.upcoming then on_close n s else s
on_event disconnect_called s = disconnect s.socket s

unfoldable pub run : List Event → Session → Session
run [] s = s
run (e ∷ es) s = run es (on_event e s)
