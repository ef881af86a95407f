-- ===== src/Runner/Dispatch.antt =====
-- packages/gateway/src/runner/gateway-runner.ts, what a runner does with one inbound event: hooks,
-- slash commands, the handler and its replies. A handler is code of the application: it reads and
-- writes its world, replies and goes on with the result, and returns or throws.
pub mod Commands
pub mod Replies
use theokit_gateways.Prelude.{
  Bool, true, false, ◌||◌, Option, none, some, List, [], ◌∷◌, ◌++◌, if◌then◌else◌,
}
use theokit_gateways.Js.{Text, Text-discrete, lit, str_eq, starts_with, is_nonempty}
use theokit_gateways.JsMap as Map
use theokit_gateways.Event.{Platform, MessageEvent, Format, OutboundMessage, SendResult, refusal}
use theokit_gateways.Hooks.{
  Thrown, with_message, nullish, Settled, resolved, rejected, unless_thrown, HookDecision,
  GatewayHook, World, write, fire_pre_inbound, fire_post_outbound, fire_on_error,
}

-- How `adapter.sendMessage` settles; a rejection the contract leaves to programming errors.
abbrev pub Sent : Type 0
Sent = Settled SendResult

-- An adapter, for what a runner sends through it.
abbrev pub Sender : Type 0 → Type 0
Sender W = W → OutboundMessage → W × Sent

pub data Script (W : Type 0) : Type 0 where
  returns : Script W
  raises : Thrown → Script W
  reads : (W → Script W) → Script W
  writes : W → Script W → Script W
  replies : Text → Option Format → (Sent → Script W) → Script W

-- `GatewayHandler`.
abbrev pub Handler : Type 0 → Type 0
Handler W = MessageEvent → Script W

-- The parts of a `GatewayRunner` that `dispatch` reads. `adapters` and `commands` are its maps.
pub record Runner (W : Type 0) : Type 0 where
  pub adapters : List (Platform × Sender W)
  pub hooks : List (GatewayHook W)
  pub commands : List (Text × Handler W)
  pub prefixes : List Text
  pub handler : Handler W

-- The first prefix that the text starts with.
unfoldable pub active_prefix : Text → List Text → Option Text
active_prefix text [] = none
active_prefix text (p ∷ ps) =
    let rest = active_prefix text ps in if starts_with text p then some p else rest

-- `text === full`, `text.startsWith(full + " ")` or `text.startsWith(full + "@")`.
unfoldable pub names_command : Text → Text → Bool
names_command text full =
    str_eq text full || starts_with text (full ++ lit " ") || starts_with text (full ++ lit "@")

-- The loop over the commands.
unfoldable pub find_command :
    {W : Type 0} → Text → Text → List (Text × Handler W) → Option (Handler W)
find_command text prefix [] = none
find_command text prefix ((name, handler) ∷ commands) =
    let rest = find_command text prefix commands in
    if names_command text (prefix ++ name) then some handler else rest

-- `matchSlashCommand`.
unfoldable pub match_slash_command : {W : Type 0} → Runner W → MessageEvent → Option (Handler W)
match_slash_command r event = elim (active_prefix event.text r.prefixes) [
  | none ↦ none
  | some prefix ↦ find_command event.text prefix r.commands
]

-- `command(name, handler)`.
unfoldable pub command : {W : Type 0} → Text → Handler W → Runner W → Runner W
command name handler r = record r { commands = Map.set Text-discrete name handler r.commands }

-- The constructor's map of the adapters: the last one of a platform wins.
unfoldable pub by_platform :
    {A : Type 0} → List (Platform × A) → List (Platform × A) → List (Platform × A)
by_platform [] m = m
by_platform ((platform, a) ∷ rest) m = by_platform rest (Map.set Text-discrete platform a m)

module _ {W : Type 0} (redact : Text → Text) (r : Runner W) where
  -- What `deliver` settles with, once the hooks are done.
  abbrev pub unless_broken : SendResult → World W × Option Thrown → World W × Sent
  unless_broken result (s, none) = (s, resolved result)
  unless_broken result (s, some e) = (s, rejected e)

  -- `deliver`, once the adapter has answered: every result is given to `post_outbound`, and a
  -- rejection passes through.
  unfoldable pub report : MessageEvent → OutboundMessage → Sent → World W → World W × Sent
  report event outbound (resolved result) s = unless_broken result (
      fire_post_outbound r.hooks (record { event = event; outbound = outbound; result = result }) s)
  report event outbound (rejected error) s = (s, rejected error)

  -- The adapter's part of `deliver`.
  unfoldable pub send :
      MessageEvent → OutboundMessage → Option (Sender W) → World W → World W × Sent
  send event outbound none s =
      (s, resolved (refusal (lit "no_adapter") (lit "no adapter for " ++ event.platform)))
  send event outbound (some sender) s =
      let (w, sent) = sender s.world outbound in (record s { world = w }, sent)

  unfoldable pub deliver : MessageEvent → OutboundMessage → World W → World W × Sent
  deliver event outbound s =
      let (s', sent) = send event outbound (Map.get Text-discrete event.platform r.adapters) s in
      report event outbound sent s'

  -- `ctx.reply` of `buildContext`.
  unfoldable pub reply : MessageEvent → Text → Option Format → World W → World W × Sent
  reply event text format s =
      deliver event
        (record { channel = event.channel; text = text; format = format; reply_to = none }) s

  -- `await handler(event, ctx)`: what it throws, if it does.
  unfoldable pub run : MessageEvent → Script W → World W → World W × Option Thrown
  run event returns s = (s, none)
  run event (raises error) s = (s, some error)
  run event (reads k) s = run event (k s.world) s
  run event (writes w k) s = run event k (record s { world = w })
  run event (replies text format k) s =
      let (s', sent) = reply event text format s in run event (k sent) s'

  -- The line that the `catch` around the handler writes, with what it throws itself.
  abbrev pub log_error : Thrown → World W → World W × Option Thrown
  log_error (with_message message) s =
      (write (lit "[gateway] handler error: " ++ (redact message ++ lit "\n")) s, none)
  log_error (nullish type_error) s = (s, some (with_message type_error))

  -- The `catch` around the handler.
  unfoldable pub settle_handler : MessageEvent → World W × Option Thrown → World W × Option Thrown
  settle_handler event (s, none) = (s, none)
  settle_handler event (s, some error) =
      unless_thrown (fire_on_error r.hooks (record { event = event; error = error }) s)
        (log_error error)

  -- The auto-reply of a blocking decision; its result, a rejection too, is dropped.
  unfoldable pub auto_reply : MessageEvent → Option Text → World W → World W
  auto_reply event none s = s
  auto_reply event (some message) s =
      if is_nonempty message then (reply event message none s).0 else s

  unfoldable pub choose_handler : MessageEvent → Handler W
  choose_handler event = elim (match_slash_command r event) [ none ↦ r.handler | some h ↦ h ]

  -- The handler's part of `dispatch`.
  unfoldable pub handle : MessageEvent → World W → World W × Option Thrown
  handle event s = settle_handler event (run event (choose_handler event event) s)

  -- The rest of `dispatch` behind the `pre_inbound` hooks.
  unfoldable pub after_hooks :
      MessageEvent → World W × Settled HookDecision → World W × Option Thrown
  after_hooks event (s, resolved d) = elim d.block [
    | some b ↦ elim b [ true ↦ (auto_reply event d.message s, none) | false ↦ handle event s ]
    | none ↦ handle event s
  ]
  after_hooks event (s, rejected e) = (s, some e)

  -- `dispatch`, with what it rejects with.
  unfoldable pub dispatch : MessageEvent → World W → World W × Option Thrown
  dispatch event s = after_hooks event (fire_pre_inbound redact r.hooks event s)
