-- ===== src/Rpc.antt =====
-- packages/gateway-imessage/src/json-rpc.ts, and packages/gateway-signal/src/json-rpc.ts, its copy
-- without the errors' `data`: a JSON-RPC client over a child's pipes. `V` is the type of the values in
-- its messages. A request's promise and timer go by the request's id.
pub mod Settle
pub mod Once
pub mod Board
pub mod Refines
pub mod Deadline
use theokit_gateways.Prelude.{
  ℕ, ◌+◌, ◌⊎◌, inl, inr, Bool, true, false, not, ◌&&◌, ◌||◌, Option, none, some, List, [], ◌∷◌,
  ◌++◌, filter, ◌==◌, if◌then◌else◌,
}
use theokit_gateways.Js.{Text, lit, Number, pos, or_default}

-- `RpcMessage["error"]`.
pub record RpcError (V : Type 0) : Type 0 where
  pub code : Option Number
  pub message : Option Text
  pub data_ : Option V

-- `RpcOutcome`.
pub data RpcOutcome (V : Type 0) : Type 0 where
  result : Option V → RpcOutcome V
  error : Number → Text → Option V → RpcOutcome V
  timeout : RpcOutcome V
  disconnected : RpcOutcome V

-- A message's id: absent or null, one that could be a request's, or anything else.
pub data MessageId : Type 0 where
  absent : MessageId
  number : ℕ → MessageId
  other : MessageId

-- `RpcMessage`. `method` is `none` unless it is a string.
pub record RpcMessage (V : Type 0) : Type 0 where
  pub id : MessageId
  pub method : Option Text
  pub params : Option V
  pub result_value : Option V
  pub error_member : Option (RpcError V)

-- A line of the child: blank; not JSON, by its first 120 characters; a JSON value that reading throws
-- on, `null` or an answer to a number whose `error` is `null`; or any other value, by these members.
pub data Line (V : Type 0) : Type 0 where
  blank : Line V
  not_json : Text → Line V
  json_throws : Line V
  json : RpcMessage V → Line V

-- What happens to the client: a request with whether the child's stdin is writable, a timer, a line,
-- or an end of the child, of its pipe or by `close`.
pub data Event (V : Type 0) : Type 0 where
  request_called : Bool → Event V
  timer_fired : ℕ → Event V
  line_read : Line V → Event V
  closed : Text → Event V

-- The fields of the client. `pending` holds the keys of its map, in insertion order. Of the world
-- outside: the requests' promises that are resolved, the notifications, the calls of `onClosed`, the
-- lines on stderr, behind their label, and the errors that no one catches, each oldest first.
pub record Client (V : Type 0) : Type 0 where
  pub next_id : ℕ
  pub pending : List ℕ
  pub is_open : Bool
  pub answers : List (ℕ × RpcOutcome V)
  pub notifications : List (Text × Option V)
  pub closings : List Text
  pub stderr : List Text
  pub uncaught : List Text

unfoldable pub mem : ℕ → List ℕ → Bool
mem i [] = false
mem i (j ∷ js) = i == j || mem i js

-- `pending.set(id, …)`, by its key.
unfoldable pub put_key : ℕ → List ℕ → List ℕ
put_key i keys = if mem i keys then keys else keys ++ i ∷ []

-- `pending.delete(id)`.
unfoldable pub delete_key : ℕ → List ℕ → List ℕ
delete_key i keys = filter (λ j. not (j == i)) keys

module _ {V : Type 0} where
  -- The client once its constructor has run.
  abbrev pub new : Client V
  new = record {
    next_id = 1;
    pending = [];
    is_open = true;
    answers = [];
    notifications = [];
    closings = [];
    stderr = [];
    uncaught = [];
  }

  -- `settle`.
  unfoldable pub settle : ℕ → RpcOutcome V → Client V → Client V
  settle i o c =
      if mem i c.pending
      then record c { pending = delete_key i c.pending; answers = c.answers ++ (i, o) ∷ [] }
      else c

  unfoldable pub settle_all : List ℕ → Client V → Client V
  settle_all [] c = c
  settle_all (i ∷ ids) c = settle_all ids (settle i disconnected c)

  -- `close`, behind its guard: the keys are copied before the first one is deleted.
  unfoldable pub close_open : Text → Client V → Client V
  close_open reason c =
      let shut = settle_all c.pending (record c { is_open = false }) in
      record shut { closings = shut.closings ++ reason ∷ [] }

  unfoldable pub close : Text → Client V → Client V
  close reason c = if c.is_open then close_open reason c else c

  -- `request`, where `JSON.stringify` returns (where it throws, the promise rejects at once, and the
  -- client keeps the id as it does here): the new state, and what it resolves to at once, or else the id whose promise it is.
  unfoldable pub request : Bool → Client V → Client V × (RpcOutcome V ⊎ ℕ)
  request writable c = if not c.is_open || not writable then (c, inl disconnected) else (
    record c { next_id = c.next_id + 1; pending = put_key c.next_id c.pending },
    inr c.next_id,
  )

  -- `errorOutcome`.
  unfoldable pub error_outcome : RpcError V → RpcOutcome V
  error_outcome e =
      error (or_default e.code (pos 0)) (or_default e.message (lit "unknown JSON-RPC error"))
        e.data_

  unfoldable pub outcome_of : Option (RpcError V) → Option V → RpcOutcome V
  outcome_of none value = result value
  outcome_of (some e) value = error_outcome e

  -- The part of `onLine` behind the parse, by the id and the method.
  unfoldable pub on_message : MessageId → Option Text → RpcMessage V → Client V → Client V
  on_message absent (some method) m c = record c {
    notifications = c.notifications ++ (method, m.params) ∷ [];
  }
  on_message absent none m c = c
  on_message (number i) method m c = settle i (outcome_of m.error_member m.result_value) c
  on_message other method m c = c

  -- `onLine` of a client that is open. Reading a member of `null` throws, outside of the `try`.
  unfoldable pub on_open_line : Line V → Client V → Client V
  on_open_line blank c = c
  on_open_line (not_json start) c = record c {
    stderr = c.stderr ++ (lit "skipped a stdout line that is not JSON: " ++ start) ∷ [];
  }
  on_open_line json_throws c = record c { uncaught = c.uncaught ++ lit "TypeError" ∷ [] }
  on_open_line (json m) c = on_message m.id m.method m c

  unfoldable pub on_line : Line V → Client V → Client V
  on_line line c = if c.is_open then on_open_line line c else c

  unfoldable pub on_event : Event V → Client V → Client V
  on_event (request_called writable) c = (request writable c).0
  on_event (timer_fired i) c = settle i timeout c
  on_event (line_read line) c = on_line line c
  on_event (closed reason) c = close reason c

  unfoldable pub run : List (Event V) → Client V → Client V
  run [] c = c
  run (e ∷ es) c = run es (on_event e c)
