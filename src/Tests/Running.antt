-- ===== src/Tests/Running.antt =====
-- Runs of the hooks and of a runner's dispatch, and their theorems at concrete inputs.
use theokit_gateways.Prelude.{ℕ, suc, ◌≡◌, refl, inl, true, false, none, some, List, [], ◌∷◌, map}
use theokit_gateways.Js.{Text-discrete, Text, lit, is_nonempty, starts_with, str_eq}
use theokit_gateways.JsMap as Map
use theokit_gateways.Event.{MessageEvent, dm, SendResult, OutboundMessage}
use theokit_gateways.Hooks.{
  GatewayHook, World, HookDecision, with_message, nullish, resolved, blocked_by, no_decision,
  pre_threw, returned, hook_threw, try_pre, settle, observe, absorb, fire_pre_inbound,
  fire_post_outbound, fire_on_error, PostOutboundContext, OnErrorContext,
}
use theokit_gateways.Hooks.Check.{
  Entry, not_object, object, undefined, callable, IsHook, hook, check_hooks, check_hooks-All,
}
use theokit_gateways.Hooks.Fire.{
  fire_pre_inbound-rewording, rewording, SameButStderr, observers-Observes, Observes,
}
use theokit_gateways.Runner.Dispatch.{
  Handler, handle, Runner, returns, raises, replies, names_command, match_slash_command, deliver,
  dispatch, run, after_hooks, settle_handler, active_prefix, find_command, reply, report, send,
  choose_handler,
}
use theokit_gateways.Runner.Dispatch.Replies.{
  answer, Reports, deliver-Reports, dispatch-blocked, Contains, dispatch-Contains,
}

abbrev hook_entries : List Entry
hook_entries = object (some (lit "log")) callable undefined undefined ∷ not_object ∷ []

log-IsHook : IsHook (object (some (lit "log")) callable undefined undefined)
unfolding is_nonempty
log-IsHook = hook refl (inl refl) (λ e. cc) (λ e. cc) (λ e. cc)

check_hooks-All_example :
    check_hooks 3 (object (some (lit "log")) callable undefined undefined ∷ []) ≡ none
check_hooks-All_example =
    check_hooks-All 3 (object (some (lit "log")) callable undefined undefined ∷ []) (log-IsHook, tt)

-- The world is a count. A hook that counts and throws, one that counts the replies, and one that
-- blocks.
abbrev thrower : GatewayHook ℕ
thrower = record {
  name = lit "guard";
  pre_inbound = some (λ n event. (suc n, pre_threw (with_message (lit "key=secret"))));
  post_outbound = none;
  on_error = some (λ n ctx. (suc n, hook_threw (with_message (lit "down"))));
}

abbrev counter : GatewayHook ℕ
counter = record {
  name = lit "count";
  pre_inbound = some (λ n event. (n, no_decision));
  post_outbound = some (λ n ctx. (suc n, returned));
  on_error = some (λ n ctx. (suc n, returned));
}

abbrev event : MessageEvent
event = record {
  id = lit "e1";
  platform = lit "irc";
  sender_id = lit "ana";
  channel = record { id = lit "#a"; type = dm; topic_id = none };
  text = lit "/skill x";
  reply_to = none;
}

abbrev calm : World ℕ
calm = record { world = 0; stderr = [] }

abbrev hide : Text → Text
hide t = lit "***"

fire_pre_inbound-rewording_example :
    SameButStderr
      (fire_pre_inbound hide (thrower ∷ []) event calm)
      (fire_pre_inbound hide (map (rewording hide) (thrower ∷ [])) event calm)
fire_pre_inbound-rewording_example =
    fire_pre_inbound-rewording hide hide (thrower ∷ []) event calm calm refl

abbrev message : OutboundMessage
message = record { channel = event.channel; text = lit "hi"; format = none; reply_to = none }

abbrev sent_ok : SendResult
sent_ok = record { ok = true; message_id = some (lit "m1"); error = none }

abbrev post : PostOutboundContext
post = record { event = event; outbound = message; result = sent_ok }

abbrev failure_ctx : OnErrorContext
failure_ctx = record { event = event; error = with_message (lit "boom") }

-- A hook that rejects with nothing, as `reject(undefined)` does.
abbrev breaker : GatewayHook ℕ
breaker = record {
  name = lit "broken";
  pre_inbound = none;
  post_outbound = some (λ n ctx. (suc n, hook_threw (nullish (lit "no message"))));
  on_error = none;
}

-- The counter in front of it runs, the one behind it does not.
broken_loop :
    fire_post_outbound (counter ∷ breaker ∷ counter ∷ []) post calm
    ≡ (record calm { world = 2 }, some (with_message (lit "no message")))
unfolding fire_post_outbound observe absorb
broken_loop = refl

observers-Observes_example :
    let hooks = counter ∷ breaker ∷ counter ∷ [] in
    let posted = fire_post_outbound hooks post calm in
    let failed = fire_on_error hooks failure_ctx calm in
    Observes (map (λ h. h.post_outbound) hooks) post 0 (posted.0.world, posted.1)
    × Observes (map (λ h. h.on_error) hooks) failure_ctx 0 (failed.0.world, failed.1)
observers-Observes_example =
    observers-Observes (counter ∷ breaker ∷ counter ∷ []) post failure_ctx calm

abbrev echo : Handler ℕ
echo e = replies e.text none (λ sent. returns)

abbrev breaks : Handler ℕ
breaks e = raises (with_message (lit "boom"))

abbrev runner : Runner ℕ
runner = record {
  adapters = (lit "irc", λ n m. (n, resolved sent_ok)) ∷ [];
  hooks = counter ∷ [];
  commands = (lit "skill", echo) ∷ [];
  prefixes = lit "/" ∷ [];
  handler = breaks;
}

-- The command's handler replies, and the counter sees the reply.
command_runs : dispatch hide runner event calm ≡ (record calm { world = 1 }, none)
unfolding dispatch after_hooks handle fire_pre_inbound try_pre settle settle_handler run
    choose_handler match_slash_command active_prefix find_command names_command str_eq starts_with
    reply deliver report send Text-discrete Map.get fire_post_outbound observe absorb
command_runs = refl

deliver-Reports_example :
    let r = deliver hide runner event message calm in
    Reports hide runner event message
      (answer hide runner event message (Map.get Text-discrete (lit "irc") runner.adapters) 0)
      (r.0.world, r.1)
deliver-Reports_example = deliver-Reports hide runner event message calm

abbrev guarded : Runner ℕ
guarded = record runner { hooks = thrower ∷ [] }

guard_blocks :
    (fire_pre_inbound hide (thrower ∷ []) event calm).1 ≡ resolved (blocked_by (lit "guard"))
unfolding fire_pre_inbound try_pre settle
guard_blocks = refl

dispatch-blocked_example :
    dispatch hide (record guarded { handler = echo; commands = []; prefixes = [] }) event calm
    ≡ dispatch hide guarded event calm
dispatch-blocked_example =
    dispatch-blocked hide guarded event calm echo [] [] (blocked_by (lit "guard")) guard_blocks refl

abbrev passing : HookDecision
passing = record { block = some false; message = none }

count_passes : (fire_pre_inbound hide (counter ∷ []) event calm).1 ≡ resolved passing
unfolding fire_pre_inbound try_pre settle
count_passes = refl

dispatch-Contains_example :
    let (s, error) =
      run hide runner event
        (choose_handler hide runner event event)
        (fire_pre_inbound hide (counter ∷ []) event calm).0 in
    Contains hide runner event error s (dispatch hide runner event calm)
dispatch-Contains_example = dispatch-Contains hide runner event calm passing count_passes (λ e. cc)

skill_found : match_slash_command runner event ≡ some echo
unfolding match_slash_command active_prefix find_command names_command str_eq starts_with
skill_found = refl
