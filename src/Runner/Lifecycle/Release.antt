-- ===== src/Runner/Lifecycle/Release.antt =====
-- Which adapters a runner still holds: none once it has stopped, but for those whose disconnect
-- failed, which are reported.
use theokit_gateways.Prelude.{
  not, ℕ, ◌≡◌, ◌≢◌, inl, inr, refl, Bool, true, false, ◌&&◌, ◌||◌, Option, none, some, List, [],
  ◌∷◌, ◌++◌, ◌==◌, ==_iff, Bool-cases, arith,
}
use theokit_gateways.Event.{Platform}
use theokit_gateways.JsMap as Map
use theokit_gateways.Js.{Text-discrete, Text}
use theokit_gateways.Runner.Dispatch.{by_platform}
use theokit_gateways.Runner.Lifecycle.Adapters.{
  mem-append, was_connected-append, mem-connected_of, by_platform-append,
}
use theokit_gateways.Runner.Lifecycle.{
  Adapter, Outcome, StartResult, StartAnswer, runner_stopped, resolves, rejects, waits, Start, idle,
  connecting, releasing, Phase, active, draining, ended, State, mem, is_connected, was_connected,
  connected_of, first_failure, release_adapters, start_active, start_in, settle, after_release,
  conclude, stop_in, Step, start_called, connect_settled, connects_settled, released, stop_called,
  stop_released, Reachable, created, next, connect_all_or_rollback, run_start, stop_release,
  failed_of,
}

-- The adapters of a connecting start that have connected, and of a releasing one all.
unfoldable pub in_start : ℕ → Start → Bool
in_start i idle = false
in_start i (connecting settled) = was_connected i settled
in_start i (releasing adapters end) = mem i adapters

unfoldable pub is_draining : Phase → Bool
is_draining active = false
is_draining draining = true
is_draining ended = false

-- Why an adapter may hold a session: its disconnect failed, and is reported; the start in flight, or
-- the end of `stop`, is still to give it back; or it is wired.
unfoldable pub excused : State → ℕ → Bool
excused s i = s.reported i || in_start i s.start || is_draining s.phase || mem i s.wired

-- A session is held by an adapter of the runner and with an excuse, and a stopped runner has nothing
-- wired.
abbrev pub IsAccounted : List Adapter → State → Type 0
IsAccounted adapters s =
    ((i : ℕ) → s.held i ≡ true → (mem i adapters ≡ true) × (excused s i ≡ true))
    × (s.phase ≢ active → s.wired ≡ [])

start_active-IsAccounted :
    (adapters : List Adapter) (r : Option StartResult) (q : Start) (s : State)
    → s.start ≡ q
    → IsAccounted adapters s
    → IsAccounted adapters (start_active r q s).0
unfolding start_active excused in_start was_connected
start_active-IsAccounted adapters (some r) q s e h = h
start_active-IsAccounted adapters none idle s e (h, w) =
    ((λ i k. ((h i k).0, ground (arith, e, (h i k).1))), w)
start_active-IsAccounted adapters none (connecting settled) s e h = h
start_active-IsAccounted adapters none (releasing held end) s e h = h

start-IsAccounted :
    (adapters : List Adapter) (p : Phase) (s : State)
    → IsAccounted adapters s
    → IsAccounted adapters (start_in p s).0
unfolding start_in
start-IsAccounted adapters active s h = start_active-IsAccounted adapters s.result s.start s refl h
start-IsAccounted adapters draining s h = h
start-IsAccounted adapters ended s h = h

stop-IsAccounted :
    (adapters : List Adapter) (p : Phase) (s : State)
    → IsAccounted adapters s
    → IsAccounted adapters (stop_in p s)
unfolding stop_in excused is_draining
stop-IsAccounted adapters active s (h, w) = ((λ i k. ((h i k).0, ground arith)), λ e. refl)
stop-IsAccounted adapters draining s h = h
stop-IsAccounted adapters ended s h = h

settle-IsAccounted :
    (adapters : List Adapter) (s : State) (settled : List (Adapter × Outcome)) (a : Adapter)
    (o : Outcome)
    → s.start ≡ connecting settled
    → mem a.1 adapters ≡ true
    → IsAccounted adapters s
    → IsAccounted adapters (settle a o settled s)
unfolding settle excused in_start
settle-IsAccounted adapters s settled (p, j) o e known (h, w) = (held, w)
  where
    held :
        (i : ℕ)
        → (s.held i || (i == j && is_connected o)) ≡ true
        → (mem i adapters ≡ true)
          × ((s.reported i
                || was_connected i (settled ++ ((p, j), o) ∷ [])
                || is_draining s.phase
                || mem i s.wired)
              ≡ true)
    held i k = elim (Bool-cases (s.held i)) [
      | inl old ↦
          ((h i old).0, ground (arith, e, (h i old).1, was_connected-append i settled p j o))
      | inr fresh ↦
          (ground (arith, ==_iff i j, known), ground (arith, was_connected-append i settled p j o))
    ]

-- The adapters that the rest of a start has are some that connected, and so excused.
conclude-IsAccounted :
    (adapters kept : List Adapter) (failed : List (Platform × Text)) (p : Phase) (s : State)
    → s.phase ≡ p
    → ((i : ℕ) → mem i adapters ≡ true → in_start i s.start ≡ true → mem i kept ≡ true)
    → IsAccounted adapters s
    → IsAccounted adapters (conclude kept failed p s)
unfolding conclude excused in_start is_draining
conclude-IsAccounted adapters kept failed active s e keeps (h, w) = (held, λ n. absurd (n e))
  where
    held :
        (i : ℕ)
        → s.held i ≡ true
        → (mem i adapters ≡ true)
          × ((s.reported i || false || is_draining s.phase || mem i (s.wired ++ kept)) ≡ true)
    held i k = ((h i k).0, ground (arith, (h i k).1, keeps i (h i k).0, mem-append i s.wired kept))
conclude-IsAccounted adapters kept failed draining s e keeps (h, w) =
    ((λ i k. ((h i k).0, ground (arith, e))), w)
conclude-IsAccounted adapters kept failed ended s e keeps (h, w) =
    ((λ i k. ((h i k).0, ground (arith, (h i k).1, keeps i (h i k).0))), w)

run_start-IsAccounted :
    (redact : Text → Text) (isolate : Bool) (adapters : List Adapter)
    (settled : List (Adapter × Outcome)) (s : State)
    → s.start ≡ connecting settled
    → IsAccounted adapters s
    → IsAccounted adapters (run_start redact isolate adapters settled s)
unfolding run_start connect_all_or_rollback excused in_start
run_start-IsAccounted redact true adapters settled s e h =
    conclude-IsAccounted adapters (connected_of settled adapters)
      (failed_of redact true adapters settled adapters) s.phase s refl keeps h
  where
    keeps :
        (i : ℕ)
        → mem i adapters ≡ true
        → in_start i s.start ≡ true
        → mem i (connected_of settled adapters) ≡ true
    keeps i m k = ground (arith, e, mem-connected_of i settled adapters)
run_start-IsAccounted redact false adapters settled s e h = go (first_failure settled)
  where
    go :
        (f : Option Text)
        → IsAccounted adapters (connect_all_or_rollback redact false adapters f settled s)
    go none = conclude-IsAccounted adapters adapters [] s.phase s refl (λ i m k. m) h
    go (some error) = (
      (λ i k. (
        (h.0 i k).0,
        ground (arith, e, (h.0 i k).0, (h.0 i k).1, mem-connected_of i settled adapters),
      )),
      h.1,
    )

after_release-IsAccounted :
    (adapters held : List Adapter) (end : StartAnswer) (fails : ℕ → Bool) (s : State)
    → s.start ≡ releasing held end
    → IsAccounted adapters s
    → IsAccounted adapters (after_release fails held end s)
unfolding after_release release_adapters excused in_start
after_release-IsAccounted adapters held (resolves r) fails s e (h, w) =
    ((λ i k. ((h i (ground arith)).0, ground (arith, e, (h i (ground arith)).1))), w)
after_release-IsAccounted adapters held runner_stopped fails s e (h, w) =
    ((λ i k. ((h i (ground arith)).0, ground (arith, e, (h i (ground arith)).1))), w)
after_release-IsAccounted adapters held (rejects error) fails s e (h, w) =
    ((λ i k. ((h i (ground arith)).0, ground (arith, e, (h i (ground arith)).1))), w)
after_release-IsAccounted adapters held waits fails s e (h, w) =
    ((λ i k. ((h i (ground arith)).0, ground (arith, e, (h i (ground arith)).1))), w)

stop_release-IsAccounted :
    (redact : Text → Text) (isolate : Bool) (adapters : List Adapter) (fails : ℕ → Bool) (s : State)
    → Map.Distinct Text-discrete adapters
    → s.phase ≡ draining
    → IsAccounted adapters s
    → IsAccounted adapters (stop_release redact isolate adapters fails s)
unfolding stop_release release_adapters excused is_draining
stop_release-IsAccounted redact isolate adapters fails s d e (h, w) =
    (held, λ n. w (λ a. cc (e, a)))
  where
    all : by_platform adapters [] ≡ adapters
    all = by_platform-append adapters [] d

    held :
        (i : ℕ)
        → (s.held i && (not (mem i (by_platform adapters [])) || fails i)) ≡ true
        → (mem i adapters ≡ true)
          × ((s.reported i
                || mem i (by_platform adapters []) && fails i
                || in_start i s.start
                || false
                || mem i s.wired)
              ≡ true)
    held i k = ((h i (ground arith)).0, ground (arith, all, (h i (ground arith)).0))

Step-IsAccounted :
    (redact : Text → Text) (isolate : Bool) (adapters : List Adapter) {s t : State}
    → Map.Distinct Text-discrete adapters
    → Step redact isolate adapters s t
    → IsAccounted adapters s
    → IsAccounted adapters t
Step-IsAccounted redact isolate adapters d (start_called s) h =
    start-IsAccounted adapters s.phase s h
Step-IsAccounted redact isolate adapters d (connect_settled s settled a o e known new_) h =
    settle-IsAccounted adapters s settled a o e known h
Step-IsAccounted redact isolate adapters d (connects_settled s settled e done) h =
    run_start-IsAccounted redact isolate adapters settled s e h
Step-IsAccounted redact isolate adapters d (released s held end fails e) h =
    after_release-IsAccounted adapters held end fails s e h
Step-IsAccounted redact isolate adapters d (stop_called s) h = stop-IsAccounted adapters s.phase s h
Step-IsAccounted redact isolate adapters d (stop_released s fails e) h =
    stop_release-IsAccounted redact isolate adapters fails s d e h

-- With adapters of different platforms, in every state that a runner reaches, however calls of
-- `start` and `stop`, connects and disconnects interleave: an adapter that holds a session is one
-- whose failing disconnect is reported, or that the start in flight or the end of `stop` is still to
-- give back, or that is wired; and a stopped runner has nothing wired.
pub Reachable-IsAccounted :
    (redact : Text → Text) (isolate : Bool) (adapters : List Adapter) (s : State)
    → Map.Distinct Text-discrete adapters
    → Reachable redact isolate adapters s
    → IsAccounted adapters s
unfolding excused
Reachable-IsAccounted redact isolate adapters s d created = ((λ i k. cc), λ n. refl)
Reachable-IsAccounted redact isolate adapters t d (next {s = u} r st) =
    Step-IsAccounted redact isolate adapters d st
      (Reachable-IsAccounted redact isolate adapters u d r)

-- Once `stop` is done and no start is in flight, an adapter that still holds a session is one whose
-- failing disconnect is reported, and nothing is wired.
pub Reachable-ended :
    (redact : Text → Text) (isolate : Bool) (adapters : List Adapter) (s : State)
    → Map.Distinct Text-discrete adapters
    → Reachable redact isolate adapters s
    → s.phase ≡ ended
    → s.start ≡ idle
    → ((i : ℕ) → s.held i ≡ true → s.reported i ≡ true) × (s.wired ≡ [])
unfolding excused in_start is_draining mem
Reachable-ended redact isolate adapters s d r e f =
    let (h, w) = Reachable-IsAccounted redact isolate adapters s d r in
    let none_wired : s.wired ≡ [] = w (λ a. cc (e, a)) in
    ((λ i k. ground (arith, e, f, none_wired, (h i k).1)), none_wired)
