-- ===== src/Hooks.antt =====
-- packages/gateway/src/hooks/executor.ts and types.ts. A hook is code of the application: a function
-- from its own world and its context to a new world and a result. `redact` stands for
-- `redactSecrets`, whose patterns are in a library of its own.
pub mod Check
pub mod Fire
use theokit_gateways.Prelude.{◌≡◌, Bool, true, false, Option, none, some, List, [], ◌∷◌, ◌++◌}
use theokit_gateways.Js.{Text, lit}
use theokit_gateways.Event.{MessageEvent, OutboundMessage, SendResult}

-- `HookDecision`; an absent field is `none`.
pub record HookDecision : Type 0 where
  pub block : Option Bool
  pub message : Option Text

-- What is thrown, as a `catch` that prints its `message` sees it: a value with what that prints, the
-- text "undefined" if it has no `message`; or `null` or `undefined`, of which reading `message` throws
-- a `TypeError`, given by that error's message.
pub data Thrown : Type 0 where
  with_message : Text → Thrown
  nullish : Text → Thrown

-- How a promise settles.
pub data Settled (R : Type 0) : Type 0 where
  resolved : R → Settled R
  rejected : Thrown → Settled R

-- What a `pre_inbound` hook does: returns nothing, returns a decision, or throws.
pub data PreResult : Type 0 where
  no_decision : PreResult
  decided : HookDecision → PreResult
  pre_threw : Thrown → PreResult

-- What another hook does: returns, or throws.
pub data HookResult : Type 0 where
  returned : HookResult
  hook_threw : Thrown → HookResult

pub record PostOutboundContext : Type 0 where
  pub event : MessageEvent
  pub outbound : OutboundMessage
  pub result : SendResult

pub record OnErrorContext : Type 0 where
  pub event : MessageEvent
  pub error : Thrown

-- `GatewayHook`.
pub record GatewayHook (W : Type 0) : Type 0 where
  pub name : Text
  pub pre_inbound : Option (W → MessageEvent → W × PreResult)
  pub post_outbound : Option (W → PostOutboundContext → W × HookResult)
  pub on_error : Option (W → OnErrorContext → W × HookResult)

-- The world of the application, and the lines written to stderr, oldest first.
pub record World (W : Type 0) : Type 0 where
  pub world : W
  pub stderr : List Text

-- `process.stderr.write(line)`.
abbrev pub write : {W : Type 0} → Text → World W → World W
write line s = record s { stderr = s.stderr ++ line ∷ [] }

-- The block that a throwing hook causes: a fixed message with the hook's name.
abbrev pub blocked_by : Text → HookDecision
blocked_by name = record {
  block = some true;
  message = some (lit "Request blocked: hook \"" ++ (name ++ lit "\" failed."));
}

-- The line that a throwing hook leaves, its message redacted.
abbrev pub pre_line : (Text → Text) → Text → Text → Text
pre_line redact name error =
    lit "[gateway] pre_inbound hook \""
    ++ (name ++ (lit "\" threw: " ++ (redact error ++ lit "\n")))

module _ {W : Type 0} (redact : Text → Text) where
  -- One hook's part of the loop: how it ends the loop, or `none` to go on.
  unfoldable pub settle : Text → W × PreResult → List Text → World W × Option (Settled HookDecision)
  settle name (w, no_decision) stderr = (record { world = w; stderr = stderr }, none)
  settle name (w, decided d) stderr = (
    record { world = w; stderr = stderr },
    elim d.block [ some b ↦ elim b [ true ↦ some (resolved d) | false ↦ none ] | none ↦ none ],
  )
  settle name (w, pre_threw (with_message message)) stderr = (
    write (pre_line redact name message) (record { world = w; stderr = stderr }),
    some (resolved (blocked_by name)),
  )
  settle name (w, pre_threw (nullish type_error)) stderr =
      (record { world = w; stderr = stderr }, some (rejected (with_message type_error)))

  -- The `continue` on a hook without `pre_inbound`, and the call of one that has it.
  unfoldable pub try_pre :
      Text
      → Option (W → MessageEvent → W × PreResult)
      → MessageEvent
      → World W
      → World W × Option (Settled HookDecision)
  try_pre name none event s = (s, none)
  try_pre name (some f) event s = settle name (f s.world event) s.stderr

  -- The loop goes on, or ends.
  abbrev pub proceed :
      World W × Option (Settled HookDecision)
      → (World W → World W × Settled HookDecision)
      → World W × Settled HookDecision
  proceed (s, none) rest = rest s
  proceed (s, some d) rest = (s, d)

  -- `firePreInbound`.
  unfoldable pub fire_pre_inbound :
      List (GatewayHook W) → MessageEvent → World W → World W × Settled HookDecision
  fire_pre_inbound [] event s = (s, resolved (record { block = some false; message = none }))
  fire_pre_inbound (h ∷ hs) event s =
      proceed (try_pre h.name h.pre_inbound event s) (fire_pre_inbound hs event)

-- The line that a throwing `post_outbound` or `on_error` hook leaves: its message as it is.
abbrev pub hook_line : Text → Text → Text → Text
hook_line phase name error =
    lit "[gateway] "
    ++ (phase ++ (lit " hook \"" ++ (name ++ (lit "\" threw: " ++ (error ++ lit "\n")))))

-- The `try` and `catch` around one such hook, with what the `catch` throws itself.
unfoldable pub absorb :
    {W : Type 0} → Text → Text → W × HookResult → List Text → World W × Option Thrown
absorb phase name (w, returned) stderr = (record { world = w; stderr = stderr }, none)
absorb phase name (w, hook_threw (with_message message)) stderr =
    (write (hook_line phase name message) (record { world = w; stderr = stderr }), none)
absorb phase name (w, hook_threw (nullish type_error)) stderr =
    (record { world = w; stderr = stderr }, some (with_message type_error))

-- The `continue` on a hook without the phase, and the call of one that has it.
unfoldable pub observe :
    {W C : Type 0}
    → Text
    → Text
    → Option (W → C → W × HookResult)
    → C
    → World W
    → World W × Option Thrown
observe phase name none ctx s = (s, none)
observe phase name (some f) ctx s = absorb phase name (f s.world ctx) s.stderr

-- The loop goes on, or what a `catch` throws ends it.
abbrev pub unless_thrown :
    {W : Type 0}
    → World W × Option Thrown
    → (World W → World W × Option Thrown)
    → World W × Option Thrown
unless_thrown (s, none) rest = rest s
unless_thrown (s, some e) rest = (s, some e)

-- `firePostOutbound`, with what it rejects with.
unfoldable pub fire_post_outbound :
    {W : Type 0} → List (GatewayHook W) → PostOutboundContext → World W → World W × Option Thrown
fire_post_outbound [] ctx s = (s, none)
fire_post_outbound (h ∷ hs) ctx s =
    unless_thrown (observe (lit "post_outbound") h.name h.post_outbound ctx s)
      (fire_post_outbound hs ctx)

-- `fireOnError`, with what it rejects with.
unfoldable pub fire_on_error :
    {W : Type 0} → List (GatewayHook W) → OnErrorContext → World W → World W × Option Thrown
fire_on_error [] ctx s = (s, none)
fire_on_error (h ∷ hs) ctx s =
    unless_thrown (observe (lit "on_error") h.name h.on_error ctx s) (fire_on_error hs ctx)
