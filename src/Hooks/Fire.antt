-- ===== src/Hooks/Fire.antt =====
-- What firing the hooks guarantees about what they throw, and which observers run.
use theokit_gateways.Prelude.{
  ◌≡◌, refl, sym, subst, ap, ◌∙◌, Option, none, some, List, [], ◌∷◌, ◌++◌, map,
}
use theokit_gateways.Js.{Text, lit}
use theokit_gateways.Event.{MessageEvent}
use theokit_gateways.Hooks.{
  hook_line, write, HookDecision, PreResult, no_decision, decided, pre_threw, Thrown, with_message,
  nullish, Settled, unless_thrown, HookResult, returned, hook_threw, PostOutboundContext,
  OnErrorContext, GatewayHook, World, settle, try_pre, proceed, fire_pre_inbound, absorb, observe,
  fire_post_outbound, fire_on_error,
}

module _ {W : Type 0} where
  -- The result with another error message.
  abbrev reword : (Text → Text) → W × PreResult → W × PreResult
  reword f (w, no_decision) = (w, no_decision)
  reword f (w, decided d) = (w, decided d)
  reword f (w, pre_threw (with_message message)) = (w, pre_threw (with_message (f message)))
  reword f (w, pre_threw (nullish type_error)) = (w, pre_threw (nullish type_error))

  abbrev pub reworded :
      (Text → Text)
      → Option (W → MessageEvent → W × PreResult)
      → Option (W → MessageEvent → W × PreResult)
  reworded f none = none
  reworded f (some g) = some (λ w event. reword f (g w event))

  -- The hook that throws other messages, and is otherwise the same.
  abbrev pub rewording : (Text → Text) → GatewayHook W → GatewayHook W
  rewording f h = record h { pre_inbound = reworded f h.pre_inbound }

  -- Two outcomes that differ in the lines on stderr alone.
  abbrev pub SameButStderr : {R : Type 0} → World W × R → World W × R → Type 0
  SameButStderr a b = (a.0.world ≡ b.0.world) × (a.1 ≡ b.1)

  settle-reword :
      (redact f : Text → Text) (name : Text) (r : W × PreResult) (err err' : List Text)
      → SameButStderr (settle redact name r err) (settle redact name (reword f r) err')
  unfolding settle
  settle-reword redact f name (w, no_decision) err err' = (refl, refl)
  settle-reword redact f name (w, decided d) err err' = (refl, refl)
  settle-reword redact f name (w, pre_threw (with_message e)) err err' = (refl, refl)
  settle-reword redact f name (w, pre_threw (nullish e)) err err' = (refl, refl)

  try_pre-reword :
      (redact f : Text → Text) (name : Text) (g : Option (W → MessageEvent → W × PreResult))
      (event : MessageEvent) (s t : World W)
      → s.world ≡ t.world
      → SameButStderr (try_pre redact name g event s) (try_pre redact name (reworded f g) event t)
  unfolding try_pre
  try_pre-reword redact f name none event s t e = (e, refl)
  try_pre-reword redact f name (some g) event s t e =
      let (world, decision) = settle-reword redact f name (g s.world event) s.stderr t.stderr in
      let same = ap (λ w. settle redact name (reword f (g w event)) t.stderr) e in
      (world ∙ ap (λ r. r.0.world) same, decision ∙ ap (λ r. r.1) same)

  -- The message of what a hook throws decides nothing: with other messages `firePreInbound` answers
  -- the same, and the world of the application is the same. So no such message reaches the chat.
  pub fire_pre_inbound-rewording :
      (redact f : Text → Text) (hs : List (GatewayHook W)) (event : MessageEvent) (s t : World W)
      → s.world ≡ t.world
      → SameButStderr
          (fire_pre_inbound redact hs event s)
          (fire_pre_inbound redact (map (rewording f) hs) event t)
  unfolding fire_pre_inbound
  fire_pre_inbound-rewording redact f [] event s t e = (e, refl)
  fire_pre_inbound-rewording redact f (h ∷ hs) event s t e =
      go (try_pre redact h.name h.pre_inbound event s)
        (try_pre redact h.name (reworded f h.pre_inbound) event t)
        (try_pre-reword redact f h.name h.pre_inbound event s t e)
        (λ s' t' e'. fire_pre_inbound-rewording redact f hs event s' t' e')
    where
      go :
          (a b : World W × Option (Settled HookDecision))
          → SameButStderr a b
          → ((s' t' : World W)
              → s'.world ≡ t'.world
              → SameButStderr
                  (fire_pre_inbound redact hs event s')
                  (fire_pre_inbound redact (map (rewording f) hs) event t'))
          → SameButStderr
              (proceed redact a (fire_pre_inbound redact hs event))
              (proceed redact b (fire_pre_inbound redact (map (rewording f) hs) event))
      go (s', none) (t', none) h rest = rest s' t' h.0
      go (s', some d) (t', some d') h rest = (h.0, cc (h.1))
      go (s', none) (t', some d) h rest = cc
      go (s', some d) (t', none) h rest = cc

  -- What one observer makes of the world, whatever it throws.
  abbrev pub seen : {C : Type 0} → Option (W → C → W × HookResult) → C → W → W
  seen none ctx w = w
  seen (some f) ctx w = (f w ctx).0

  -- What all of them make of it, in order, each run once.
  abbrev pub observed : {C : Type 0} → List (Option (W → C → W × HookResult)) → C → W → W
  observed [] ctx w = w
  observed (f ∷ fs) ctx w = observed fs ctx (seen f ctx w)

  abbrev result_of : {C : Type 0} → Option (W → C → W × HookResult) → C → W → HookResult
  result_of none ctx w = returned
  result_of (some f) ctx w = (f w ctx).1

  -- The observer throws `null` or `undefined`.
  abbrev pub Breaks : {C : Type 0} → Text → Option (W → C → W × HookResult) → C → W → Type 0
  Breaks type_error f ctx w = result_of f ctx w ≡ hook_threw (nullish type_error)

  -- None of them does, each run on what the ones before it made of the world.
  abbrev pub Contained : {C : Type 0} → List (Option (W → C → W × HookResult)) → C → W → Type 0
  Contained [] ctx w = Unit
  Contained (f ∷ fs) ctx w =
      ((type_error : Text) → ¬ Breaks type_error f ctx w) × Contained fs ctx (seen f ctx w)

  -- All observers ran, in order and once each, and none threw `null` or `undefined`; or it rejects
  -- with the `TypeError` of the first that did, and that one was the last to run.
  abbrev pub Observes :
      {C : Type 0} → List (Option (W → C → W × HookResult)) → C → W → W × Option Thrown → Type 0
  Observes fs ctx w (w', none) = Contained fs ctx w × (w' ≡ observed fs ctx w)
  Observes {C} fs ctx w (w', some e) =
      (before after : List (Option (W → C → W × HookResult))) × (f : Option
        (W → C → W × HookResult))
      × (type_error : Text) × (fs ≡ before ++ f ∷ after)
      × Contained before ctx w
      × Breaks type_error f ctx (observed before ctx w)
      × (e ≡ with_message type_error)
      × (w' ≡ seen f ctx (observed before ctx w))

  Observes-later :
      {C : Type 0} (f : Option (W → C → W × HookResult))
      (fs : List (Option (W → C → W × HookResult))) (ctx : C) (w : W) (r : W × Option Thrown)
      → ((type_error : Text) → ¬ Breaks type_error f ctx w)
      → Observes fs ctx (seen f ctx w) r
      → Observes (f ∷ fs) ctx w r
  Observes-later f fs ctx w (w', none) calm (all, same) = ((calm, all), same)
  Observes-later f fs ctx w (w', some e) calm (before, after, g, t, split, all, breaks, why, same) =
      (f ∷ before, after, g, t, ap (λ l. f ∷ l) split, (calm, all), breaks, why, same)

  -- One observer: its part of the loop, in front of a rest of which this is known.
  observe-Observes :
      {C : Type 0} (phase name : Text) (f : Option (W → C → W × HookResult))
      (fs : List (Option (W → C → W × HookResult))) (ctx : C) (s : World W)
      (rest : World W → World W × Option Thrown)
      → ((t : World W) → Observes fs ctx t.world ((rest t).0.world, (rest t).1))
      → let r = unless_thrown (observe phase name f ctx s) rest in
        Observes (f ∷ fs) ctx s.world (r.0.world, r.1)
  unfolding observe absorb
  observe-Observes phase name none fs ctx s rest h =
      Observes-later none fs ctx s.world ((rest s).0.world, (rest s).1) (λ t e. cc) (h s)
  observe-Observes {C} phase name (some f) fs ctx s rest h = go (f s.world ctx) refl
    where
      passes :
          (t : World W)
          → ((type_error : Text) → ¬ Breaks type_error (some f) ctx s.world)
          → seen (some f) ctx s.world ≡ t.world
          → Observes (some f ∷ fs) ctx s.world ((rest t).0.world, (rest t).1)
      passes t calm e =
          Observes-later (some f) fs ctx s.world ((rest t).0.world, (rest t).1) calm
            (subst (λ w. Observes fs ctx w ((rest t).0.world, (rest t).1)) (sym e) (h t))

      go :
          (q : W × HookResult)
          → f s.world ctx ≡ q
          → let r = unless_thrown (absorb phase name q s.stderr) rest in
            Observes (some f ∷ fs) ctx s.world (r.0.world, r.1)
      go (w, returned) e =
          passes (record { world = w; stderr = s.stderr }) (λ t b. cc (ap (λ p. p.1) e, b))
            (ap (λ p. p.0) e)
      go (w, hook_threw (with_message m)) e =
          passes (write (hook_line phase name m) (record { world = w; stderr = s.stderr }))
            (λ t b. cc (ap (λ p. p.1) e, b)) (ap (λ p. p.0) e)
      go (w, hook_threw (nullish t)) e =
          ([], fs, some f, t, refl, tt, ap (λ p. p.1) e, refl, sym (ap (λ p. p.0) e))

  pub fire_post_outbound-Observes :
      (hs : List (GatewayHook W)) (ctx : PostOutboundContext) (s : World W)
      → let r = fire_post_outbound hs ctx s in
        Observes (map (λ h. h.post_outbound) hs) ctx s.world (r.0.world, r.1)
  unfolding fire_post_outbound
  fire_post_outbound-Observes [] ctx s = (tt, refl)
  fire_post_outbound-Observes (h ∷ hs) ctx s =
      observe-Observes (lit "post_outbound") h.name h.post_outbound (map (λ k. k.post_outbound) hs)
        ctx s (fire_post_outbound hs ctx) (λ t. fire_post_outbound-Observes hs ctx t)

  pub fire_on_error-Observes :
      (hs : List (GatewayHook W)) (ctx : OnErrorContext) (s : World W)
      → let r = fire_on_error hs ctx s in
        Observes (map (λ h. h.on_error) hs) ctx s.world (r.0.world, r.1)
  unfolding fire_on_error
  fire_on_error-Observes [] ctx s = (tt, refl)
  fire_on_error-Observes (h ∷ hs) ctx s =
      observe-Observes (lit "on_error") h.name h.on_error (map (λ k. k.on_error) hs) ctx s
        (fire_on_error hs ctx) (λ t. fire_on_error-Observes hs ctx t)

  -- `firePostOutbound` and `fireOnError` run all the hooks of their phase, in order and once each,
  -- and resolve, if none of them throws `null` or `undefined`; otherwise they stop behind the first
  -- that does, and reject with the `TypeError` of reading its `message`.
  pub observers-Observes :
      (hs : List (GatewayHook W)) (post : PostOutboundContext) (error : OnErrorContext)
      (s : World W)
      → let posted = fire_post_outbound hs post s in
        let failed = fire_on_error hs error s in
        Observes (map (λ h. h.post_outbound) hs) post s.world (posted.0.world, posted.1)
        × Observes (map (λ h. h.on_error) hs) error s.world (failed.0.world, failed.1)
  observers-Observes hs post error s =
      (fire_post_outbound-Observes hs post s, fire_on_error-Observes hs error s)

-- A throwing `post_outbound` or `on_error` hook leaves the message of what it threw on stderr as it is, not
-- redacted.
pub observe_threw :
    {W C : Type 0} (phase name error : Text) (f : W → C → W × HookResult) (ctx : C) (s : World W)
    → (f s.world ctx).1 ≡ hook_threw (with_message error)
    → (observe phase name (some f) ctx s).0.stderr ≡ s.stderr ++ hook_line phase name error ∷ []
unfolding observe absorb
observe_threw {W} phase name error f ctx s = go (f s.world ctx)
  where
    go :
        (r : W × HookResult)
        → r.1 ≡ hook_threw (with_message error)
        → (absorb phase name r s.stderr).0.stderr ≡ s.stderr ++ hook_line phase name error ∷ []
    go (w, returned) h = cc
    go (w, hook_threw (with_message e)) h = cc
    go (w, hook_threw (nullish e)) h = cc
