-- ===== src/Runner/Lifecycle.antt =====
-- packages/gateway/src/runner/gateway-runner.ts, `start` and `stop` as a state machine. An `await` is
-- a place where other calls run, so each step here is what the code does between two of them. Of the
-- handlers, the drain waits for some of them for some time: it ends at any moment.
pub mod Adapters
pub mod Release
use theokit_gateways.Prelude.{
  ℕ, ◌≡◌, Bool, true, false, not, ◌&&◌, ◌||◌, Option, none, some, List, [], ◌∷◌, ◌++◌, map, ◌==◌,
  if◌then◌else◌,
}
use theokit_gateways.Js.{Text, lit}
use theokit_gateways.Event.{Platform}
use theokit_gateways.Runner.Dispatch.{by_platform}

-- An adapter object: its platform, and a number for the object itself.
abbrev pub Adapter : Type 0
Adapter = Platform × ℕ

-- How an adapter's `connect` settles: true, false, or an error's message.
pub data Outcome : Type 0 where
  connected : Outcome
  refused : Outcome
  threw : Text → Outcome

-- `StartResult`.
pub record StartResult : Type 0 where
  pub connected : List Platform
  pub failed : List (Platform × Text)

-- `GatewayLifecycleError` is the error of a start on a stopped runner; the others are of a connect.
pub data StartAnswer : Type 0 where
  runner_stopped : StartAnswer
  resolves : StartResult → StartAnswer
  rejects : Text → StartAnswer
  waits : StartAnswer

-- `startInFlight`: nothing, the connects that have settled, in the order in which they did, or the
-- adapters that are being given back and how the start settles behind that.
pub data Start : Type 0 where
  idle : Start
  connecting : List (Adapter × Outcome) → Start
  releasing : List Adapter → StartAnswer → Start

-- `stopped`, with how far `stop` is: it drains and disconnects, or it is done.
pub data Phase : Type 0 where
  active : Phase
  draining : Phase
  ended : Phase

-- `held` and `reported` are of the world outside: the adapters that hold a session of their platform,
-- and those whose failing disconnect is on stderr. `answer` is how the last start settled.
pub record State : Type 0 where
  pub phase : Phase
  pub start : Start
  pub result : Option StartResult
  pub answer : StartAnswer
  pub wired : List Adapter
  pub held : ℕ → Bool
  pub reported : ℕ → Bool

unfoldable pub mem : ℕ → List Adapter → Bool
mem i [] = false
mem i ((p, j) ∷ adapters) = i == j || mem i adapters

unfoldable pub is_connected : Outcome → Bool
is_connected connected = true
is_connected refused = false
is_connected (threw error) = false

-- Has the connect of the adapter settled?
unfoldable pub has_settled : ℕ → List (Adapter × Outcome) → Bool
has_settled i [] = false
has_settled i (((p, j), o) ∷ settled) = i == j || has_settled i settled

-- Has it connected?
unfoldable pub was_connected : ℕ → List (Adapter × Outcome) → Bool
was_connected i [] = false
was_connected i (((p, j), o) ∷ settled) = i == j && is_connected o || was_connected i settled

unfoldable pub all_settled : List Adapter → List (Adapter × Outcome) → Bool
all_settled [] settled = true
all_settled ((p, i) ∷ adapters) settled = has_settled i settled && all_settled adapters settled

-- The adapters that connected, in their order.
unfoldable pub connected_of : List (Adapter × Outcome) → List Adapter → List Adapter
connected_of settled [] = []
connected_of settled ((p, i) ∷ adapters) =
    let rest = connected_of settled adapters in
    if was_connected i settled then (p, i) ∷ rest else rest

-- What a failing connect rejects with, under "rollback".
unfoldable pub failure : Platform → Outcome → Option Text
failure p connected = none
failure p refused = some (lit "adapter \"" ++ (p ++ lit "\" connect returned false"))
failure p (threw error) = some error

-- `failures[0]`: the first failure in the order in which the connects settled.
unfoldable pub first_failure : List (Adapter × Outcome) → Option Text
first_failure [] = none
first_failure (((p, i), o) ∷ settled) =
    let rest = first_failure settled in elim (failure p o) [ none ↦ rest | some e ↦ some e ]

-- The new runner.
abbrev pub new : State
new = record {
  phase = active;
  start = idle;
  result = none;
  answer = waits;
  wired = [];
  held = λ i. false;
  reported = λ i. false;
}

-- `releaseAdapters`: each of them is disconnected; one that fails may still hold its session, and is
-- reported.
unfoldable pub release_adapters : (ℕ → Bool) → List Adapter → State → State
release_adapters fails adapters s = record s {
  held = λ i. s.held i && (not (mem i adapters) || fails i);
  reported = λ i. s.reported i || mem i adapters && fails i;
}

-- `start` on a runner that is not stopped.
unfoldable pub start_active : Option StartResult → Start → State → State × StartAnswer
start_active (some result) pending s = (s, resolves result)
start_active none idle s = (record s { start = connecting [] }, waits)
start_active none (connecting settled) s = (s, waits)
start_active none (releasing adapters end) s = (s, waits)

-- `start`, up to its first `await`, by the phase.
unfoldable pub start_in : Phase → State → State × StartAnswer
start_in active s = start_active s.result s.start s
start_in draining s = (s, runner_stopped)
start_in ended s = (s, runner_stopped)

abbrev pub start : State → State × StartAnswer
start s = start_in s.phase s

-- A connect settles; an adapter that connected holds its session.
unfoldable pub settle : Adapter → Outcome → List (Adapter × Outcome) → State → State
settle (p, i) o settled s = record s {
  start = connecting (settled ++ ((p, i), o) ∷ []);
  held = λ j. s.held j || j == i && is_connected o;
}

-- The end of `runStart`, when a rollback or the release of an overtaken start is done.
unfoldable pub after_release : (ℕ → Bool) → List Adapter → StartAnswer → State → State
after_release fails adapters (resolves result) s =
    release_adapters fails adapters
      (record s { start = idle; result = some result; answer = resolves result })
after_release fails adapters end s =
    release_adapters fails adapters (record s { start = idle; answer = end })

abbrev pub start_result : List Adapter → List (Platform × Text) → StartResult
start_result adapters failed = record { connected = map (λ a. a.0) adapters; failed = failed }

-- The rest of `runStart` once the connects are sorted: give back, or `wireInbound`.
unfoldable pub conclude : List Adapter → List (Platform × Text) → Phase → State → State
conclude adapters failed active s = record s {
  start = idle;
  result = some (start_result adapters failed);
  answer = resolves (start_result adapters failed);
  wired = s.wired ++ adapters;
}
conclude adapters failed draining s = record s {
  start = releasing adapters (resolves (start_result [] failed));
}
conclude adapters failed ended s = record s {
  start = releasing adapters (resolves (start_result [] failed));
}

-- `stop`, up to its first `await`, by the phase.
unfoldable pub stop_in : Phase → State → State
stop_in active s = record s { phase = draining; wired = [] }
stop_in draining s = s
stop_in ended s = s

abbrev pub stop : State → State
stop s = stop_in s.phase s

module _ (redact : Text → Text) (isolate : Bool) (adapters : List Adapter) where
  -- `connectFailureReason`.
  unfoldable pub connect_failure_reason : Outcome → Text
  connect_failure_reason connected = lit "connect returned false"
  connect_failure_reason refused = lit "connect returned false"
  connect_failure_reason (threw error) = redact error

  unfoldable pub reason_of : ℕ → List (Adapter × Outcome) → Text
  reason_of i [] = lit "connect returned false"
  reason_of i (((p, j), o) ∷ settled) =
      let rest = reason_of i settled in if i == j then connect_failure_reason o else rest

  -- The `failed` of `connectIsolated`, in the adapters' order.
  unfoldable pub failed_of : List (Adapter × Outcome) → List Adapter → List (Platform × Text)
  failed_of settled [] = []
  failed_of settled ((p, i) ∷ rest) =
      let others = failed_of settled rest in
      if was_connected i settled then others else (p, reason_of i settled) ∷ others

  -- `connectAllOrRollback`, by its first failure.
  unfoldable pub connect_all_or_rollback : Option Text → List (Adapter × Outcome) → State → State
  connect_all_or_rollback none settled s = conclude adapters [] s.phase s
  connect_all_or_rollback (some error) settled s = record s {
    start = releasing (connected_of settled adapters) (rejects error);
  }

  -- `runStart` behind the connects.
  unfoldable pub run_start : List (Adapter × Outcome) → State → State
  run_start settled s =
      if isolate
      then conclude (connected_of settled adapters) (failed_of settled adapters) s.phase s
      else connect_all_or_rollback (first_failure settled) settled s

  -- The end of `stop`: the adapters of the map are disconnected.
  unfoldable pub stop_release : (ℕ → Bool) → State → State
  stop_release fails s = record (release_adapters fails (by_platform adapters []) s) {
    phase = ended;
  }

  -- What can happen next. `start` and `stop` are called at any time; a disconnect may fail.
  pub data Step : State → State → Type 0 where
    start_called : (s : State) → Step s (start s).0
    connect_settled :
        (s : State) (settled : List (Adapter × Outcome)) (a : Adapter) (o : Outcome)
        → s.start ≡ connecting settled
        → mem a.1 adapters ≡ true
        → has_settled a.1 settled ≡ false
        → Step s (settle a o settled s)
    connects_settled :
        (s : State) (settled : List (Adapter × Outcome))
        → s.start ≡ connecting settled
        → all_settled adapters settled ≡ true
        → Step s (run_start settled s)
    released :
        (s : State) (held : List Adapter) (end : StartAnswer) (fails : ℕ → Bool)
        → s.start ≡ releasing held end
        → Step s (after_release fails held end s)
    stop_called : (s : State) → Step s (stop s)
    stop_released :
        (s : State) (fails : ℕ → Bool) → s.phase ≡ draining → Step s (stop_release fails s)

  -- The states of a runner's life.
  pub data Reachable : State → Type 0 where
    created : Reachable new
    next : {s t : State} → Reachable s → Step s t → Reachable t
