-- ===== src/Runner/Dispatch/Replies.antt =====
-- What `dispatch` and `deliver` of Runner/Dispatch.antt do with blocked events, with results, and with
-- what hooks, handlers and adapters throw.
use theokit_gateways.Prelude.{
  inl, inr, Option-cases, ◌≢◌, ◌≡◌, refl, subst, true, false, Option, none, some, List, [], ◌∷◌,
  ◌++◌, map,
}
use theokit_gateways.Js.{Text-discrete, Text, lit}
use theokit_gateways.JsMap as Map
use theokit_gateways.Event.{MessageEvent, OutboundMessage, SendResult, refusal}
use theokit_gateways.Hooks.{
  Thrown, with_message, nullish, Settled, resolved, rejected, unless_thrown, PostOutboundContext,
  OnErrorContext, HookDecision, World, fire_pre_inbound, fire_post_outbound, fire_on_error,
}
use theokit_gateways.Hooks.Fire.{Observes, fire_post_outbound-Observes, fire_on_error-Observes}
use theokit_gateways.Runner.Dispatch.{
  Sent, Sender, Handler, handle, log_error, unless_broken, Runner, report, send, deliver, run,
  settle_handler, after_hooks, dispatch, choose_handler, reply, auto_reply,
}

same_pair :
    {A B : Type 0} → {a a' : A} {b b' : B} → a ≡ a' → b ≡ b' → ◌≡◌ {A = A × B} (a, b) (a', b')
same_pair p q i = (p i, q i)

abbrev on_error_ctx : MessageEvent → Thrown → OnErrorContext
on_error_ctx event error = record { event = event; error = error }

module _ {W : Type 0} (redact : Text → Text) (r : Runner W) where
  -- What `deliver` settles with: the adapter's result, or what the hooks broke with.
  abbrev pub verdict : SendResult → Option Thrown → Sent
  verdict result none = resolved result
  verdict result (some e) = rejected e

  -- The world and the answer of `deliver`, by those of the adapter: a result was given to the
  -- `post_outbound` hooks, and is the answer unless they break; a rejection is the answer, and no
  -- hook ran.
  abbrev pub Reports : MessageEvent → OutboundMessage → W × Sent → W × Sent → Type 0
  Reports event outbound (w, resolved result) (w', sent) =
      (broken : Option Thrown) × Observes (map (λ h. h.post_outbound) r.hooks)
        (record { event = event; outbound = outbound; result = result }) w (w', broken)
      × (sent ≡ verdict result broken)
  Reports event outbound (w, rejected error) (w', sent) = (w' ≡ w) × (sent ≡ rejected error)

  -- What becomes of an outbound message, by the adapter of the event's platform.
  abbrev pub answer : MessageEvent → OutboundMessage → Option (Sender W) → W → W × Sent
  answer event outbound none w =
      (w, resolved (refusal (lit "no_adapter") (lit "no adapter for " ++ event.platform)))
  answer event outbound (some sender) w = sender w outbound

  report-Reports :
      (event : MessageEvent) (outbound : OutboundMessage) (sent : Sent) (s : World W)
      → let r' = report redact r event outbound sent s in
        Reports event outbound (s.world, sent) (r'.0.world, r'.1)
  unfolding report
  report-Reports event outbound (resolved result) s =
      go (fire_post_outbound r.hooks ctx s) (fire_post_outbound-Observes r.hooks ctx s)
    where
      ctx : PostOutboundContext
      ctx = record { event = event; outbound = outbound; result = result }

      go :
          (p : World W × Option Thrown)
          → Observes (map (λ h. h.post_outbound) r.hooks) ctx s.world (p.0.world, p.1)
          → let r' = unless_broken redact r result p in
            Reports event outbound (s.world, resolved result) (r'.0.world, r'.1)
      go (t, none) h = (none, h, refl)
      go (t, some e) h = (some e, h, refl)
  report-Reports event outbound (rejected error) s = (refl, refl)

  send-answer :
      (event : MessageEvent) (outbound : OutboundMessage) (a : Option (Sender W)) (s : World W)
      → ((send redact r event outbound a s).1 ≡ (answer event outbound a s.world).1)
        × ((send redact r event outbound a s).0.world ≡ (answer event outbound a s.world).0)
  unfolding send
  send-answer event outbound none s = (refl, refl)
  send-answer event outbound (some sender) s = (refl, refl)

  -- `deliver` gives the result of the adapter of the event's platform, a `no_adapter` refusal if there
  -- is none, to the `post_outbound` hooks, and answers it unchanged. It rejects only with what the
  -- adapter rejects with, and then no hook ran, or with the `TypeError` of the first hook that throws
  -- `null` or `undefined`. Otherwise all the hooks ran, in order and once each.
  pub deliver-Reports :
      (event : MessageEvent) (outbound : OutboundMessage) (s : World W)
      → let r' = deliver redact r event outbound s in
        Reports event outbound
          (answer event outbound (Map.get Text-discrete event.platform r.adapters) s.world)
          (r'.0.world, r'.1)
  unfolding deliver
  deliver-Reports event outbound s =
      let adapter = Map.get Text-discrete event.platform r.adapters in
      go (answer event outbound adapter s.world) (send redact r event outbound adapter s)
        (send-answer event outbound adapter s)
    where
      go :
          (expected : W × Sent) (sent : World W × Sent)
          → (sent.1 ≡ expected.1) × (sent.0.world ≡ expected.0)
          → let r' = report redact r event outbound sent.1 sent.0 in
            Reports event outbound expected (r'.0.world, r'.1)
      go (w, a) (s', a') (e, e') =
          subst
            (λ p. Reports event outbound p (
              (report redact r event outbound a' s').0.world,
              (report redact r event outbound a' s').1,
            ))
            (same_pair e' e) (report-Reports event outbound a' s')

  -- An event that the hooks block is not given to a handler: whichever handler, commands and
  -- prefixes the runner has, `dispatch` does the same.
  pub dispatch-blocked :
      (event : MessageEvent) (s : World W) (h : Handler W) (commands : List (Text × Handler W))
      (prefixes : List Text) (d : HookDecision)
      → (fire_pre_inbound redact r.hooks event s).1 ≡ resolved d
      → d.block ≡ some true
      → dispatch redact (record r { handler = h; commands = commands; prefixes = prefixes }) event s
        ≡ dispatch redact r event s
  unfolding dispatch after_hooks auto_reply reply deliver send report
  dispatch-blocked event s h commands prefixes d decides blocked =
      go (fire_pre_inbound redact r.hooks event s) decides
    where
      go :
          (p : World W × Settled HookDecision)
          → p.1 ≡ resolved d
          → after_hooks redact
              (record r { handler = h; commands = commands; prefixes = prefixes })
              event
              p
            ≡ after_hooks redact r event p
      go (s', rejected e) q = refl
      go (s', resolved d') q = elim (Option-cases d'.block) [
        | inl absent ↦ absurd (cc (q, absent, blocked))
        | inr (false, passes) ↦ absurd (cc (q, passes, blocked))
        | inr (true, blocks) ↦ rw blocks (refl)
      ]

  -- What the handler's error leaves, once the `on_error` hooks are done: they broke, and `dispatch`
  -- rejects with that; or its message is the last line on stderr, redacted; or it is `null` or
  -- `undefined`, and `dispatch` rejects with a `TypeError`.
  abbrev pub Logs : Thrown → World W × Option Thrown → World W × Option Thrown → Type 0
  Logs error (s, some broken) after = after ≡ (s, some broken)
  Logs (with_message message) (s, none) (after, thrown) =
      (after.stderr
        ≡ s.stderr ++ (lit "[gateway] handler error: " ++ (redact message ++ lit "\n")) ∷ [])
      × (thrown ≡ none)
  Logs (nullish type_error) (s, none) (after, thrown) =
      (after.stderr ≡ s.stderr) × (thrown ≡ some (with_message type_error))

  -- What a handler's end leaves: nothing after a return; after a throw, the `on_error` hooks saw what
  -- was thrown.
  abbrev pub Contains : MessageEvent → Option Thrown → World W → World W × Option Thrown → Type 0
  Contains event none before after = after ≡ (before, none)
  Contains event (some error) before after =
      let ctx = on_error_ctx event error in
      let hooks = fire_on_error r.hooks ctx before in
      Observes (map (λ k. k.on_error) r.hooks) ctx before.world (after.0.world, hooks.1)
      × Logs error hooks after

  settle_handler-Contains :
      (event : MessageEvent) (error : Option Thrown) (s : World W)
      → Contains event error s (settle_handler redact r event (s, error))
  unfolding settle_handler
  settle_handler-Contains event none s = refl
  settle_handler-Contains event (some error) s =
      go error (fire_on_error r.hooks ctx s) (fire_on_error-Observes r.hooks ctx s)
    where
      ctx : OnErrorContext
      ctx = on_error_ctx event error

      go :
          (e : Thrown) (hooks : World W × Option Thrown)
          → Observes (map (λ k. k.on_error) r.hooks) ctx s.world (hooks.0.world, hooks.1)
          → let after = unless_thrown hooks (log_error redact r e) in
            Observes (map (λ k. k.on_error) r.hooks) ctx s.world (after.0.world, hooks.1)
            × Logs e hooks after
      go e (t, some broken) h = (h, refl)
      go (with_message m) (t, none) h = (h, (refl, refl))
      go (nullish m) (t, none) h = (h, (refl, refl))

  -- An event that no hook blocks is given to the chosen handler. If it returns, `dispatch` adds nothing
  -- and resolves. If it throws, the `on_error` hooks see what it threw; and `dispatch` resolves with
  -- the error's message as the last line on stderr, redacted, unless the error or what a hook throws
  -- is `null` or `undefined`: then it rejects with a `TypeError`.
  pub dispatch-Contains :
      (event : MessageEvent) (s : World W) (d : HookDecision)
      → (fire_pre_inbound redact r.hooks event s).1 ≡ resolved d
      → d.block ≢ some true
      → let (s', error) =
          run redact r event
            (choose_handler redact r event event)
            (fire_pre_inbound redact r.hooks event s).0 in
        Contains event error s' (dispatch redact r event s)
  unfolding dispatch after_hooks handle
  dispatch-Contains event s d decides open_ = go (fire_pre_inbound redact r.hooks event s) decides
    where
      handled :
          (p : World W × Option Thrown) → Contains event p.1 p.0 (settle_handler redact r event p)
      handled (s', error) = settle_handler-Contains event error s'

      go :
          (q : World W × Settled HookDecision)
          → q.1 ≡ resolved d
          → let p = run redact r event (choose_handler redact r event event) q.0 in
            Contains event p.1 p.0 (after_hooks redact r event q)
      go (s', rejected e) h = cc
      go (s', resolved d') h = elim (Option-cases d'.block) [
        | inl absent ↦
            rw absent (handled (run redact r event (choose_handler redact r event event) s'))
        | inr (true, blocks) ↦ absurd (open_ (cc (h, blocks)))
        | inr (false, passes) ↦
            rw passes (handled (run redact r event (choose_handler redact r event event) s'))
      ]
