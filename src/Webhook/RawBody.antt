-- ===== src/Webhook/RawBody.antt =====
-- packages/gateway/src/webhook/express-server.ts, `rawBodyCapture`: the middleware as a function of
-- the events of the request's stream; its lines on stderr are left out. `byte_length` stands for
-- `Buffer.byteLength`; the limit and the declared length are in whole bytes.
use theokit_gateways.Prelude.{
  ℕ, ◌+◌, Bool, true, false, ◌||◌, Option, none, some, List, [], ◌∷◌, ◌++◌, ltb, if◌then◌else◌,
}
use theokit_gateways.Js.{Text}

-- What the request's stream emits.
pub data StreamEvent : Type 0 where
  data_ : Text → StreamEvent
  end_ : StreamEvent
  error_ : Text → StreamEvent

-- What the middleware does at last: `next()` with the body attached, `next(err)`, or the answer 413.
pub data Answer : Type 0 where
  passed : Text → Answer
  failed : Text → Answer
  too_large : Answer

-- The variables of the closure, and the answers given, oldest first.
pub record Capture : Type 0 where
  pub buf : Text
  pub bytes : ℕ
  pub refused : Bool
  pub settled : Bool
  pub answers : List Answer

-- `maxBytes !== undefined && n > maxBytes`.
unfoldable pub exceeds : Option ℕ → ℕ → Bool
exceeds none n = false
exceeds (some limit) n = ltb limit n

module _ (byte_length : Text → ℕ) (max_bytes : Option ℕ) where
  -- The listener of `data` on a request that is neither refused nor settled.
  unfoldable pub take_chunk : Text → ℕ → Capture → Capture
  take_chunk chunk bytes c =
      if exceeds max_bytes bytes
      then record c { buf = []; bytes = bytes; refused = true }
      else record c { buf = c.buf ++ chunk; bytes = bytes }

  -- The answer at the end of the stream, by `refused`.
  unfoldable pub answer_end : Bool → Text → Answer
  answer_end true buf = too_large
  answer_end false buf = passed buf

  -- The answers at an error of the stream, by `refused`.
  unfoldable pub answer_error : Bool → Text → List Answer
  answer_error true error = []
  answer_error false error = failed error ∷ []

  -- The three listeners.
  unfoldable pub on : StreamEvent → Capture → Capture
  on (data_ chunk) c =
      if c.refused || c.settled then c else take_chunk chunk (c.bytes + byte_length chunk) c
  on end_ c =
      if c.settled
      then c
      else record c { settled = true; answers = c.answers ++ answer_end c.refused c.buf ∷ [] }
  on (error_ error) c =
      if c.settled
      then c
      else record c { settled = true; answers = c.answers ++ answer_error c.refused error }

  unfoldable pub run_events : List StreamEvent → Capture → Capture
  run_events [] c = c
  run_events (e ∷ es) c = run_events es (on e c)

  -- The middleware on a request with a `content-length`, by whether its stream is drained already.
  unfoldable pub raw_body_capture : Bool → ℕ → List StreamEvent → List Answer
  raw_body_capture true declared events = passed [] ∷ []
  raw_body_capture false declared events =
      (run_events events (record {
        buf = [];
        bytes = 0;
        refused = exceeds max_bytes declared;
        settled = false;
        answers = [];
      })).answers
