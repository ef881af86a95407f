-- ===== src/Webhook/Listener.antt =====
-- packages/gateway/src/webhook/express-server.ts, `listenerLifecycle`. `opened` is of the world
-- outside: the listeners that are bound and not closed, each with a number. What `app.listen` answers
-- to the callback, nothing or an error, is an input.
use theokit_gateways.Prelude.{
  ℕ, suc, ◌≡◌, refl, Bool, true, false, ◌||◌, not, Option, none, some, List, [], ◌∷◌, filter, ◌==◌,
  if◌then◌else◌, arith, ==_refl,
}
use theokit_gateways.Js.{Text}

pub record Lifecycle : Type 0 where
  pub started : Bool
  pub stopped : Bool
  pub listener : Option ℕ
  pub opened : List ℕ
  pub fresh : ℕ

-- The variables before the first call.
abbrev pub unstarted : Lifecycle
unstarted = record { started = false; stopped = false; listener = none; opened = []; fresh = 0 }

-- `start` up to its `await`: `listen` is called, and its listener noted.
unfoldable pub begin_start : Lifecycle → Lifecycle
begin_start l = record l { stopped = false; listener = some l.fresh; fresh = suc l.fresh }

-- The rest of `start`, by what the callback of its listener got; an error is thrown again.
unfoldable pub settle_start : ℕ → Option Text → Lifecycle → Lifecycle × Option Text
settle_start n none l = (record l { started = true; opened = n ∷ l.opened }, none)
settle_start n (some error) l = (record l { listener = none }, some error)

-- `start`, awaited.
unfoldable pub start : Bool → Option Text → Lifecycle → Lifecycle × Option Text
start injected bound l =
    if l.started || injected
    then (record l { started = true }, none)
    else settle_start l.fresh bound (begin_start l)

-- `current.close(…)`, if there is a listener.
unfoldable pub close : Option ℕ → List ℕ → List ℕ
close none opened = opened
close (some n) opened = filter (λ m. not (m == n)) opened

-- `stop`, awaited.
unfoldable pub stop : Lifecycle → Lifecycle
stop l = if l.stopped then l else record l {
  stopped = true;
  started = false;
  listener = none;
  opened = close l.listener l.opened;
}

-- A call, awaited before the next one.
pub data Call : Type 0 where
  start_call : Option Text → Call
  stop_call : Call

unfoldable pub call : Call → Lifecycle → Lifecycle
call (start_call bound) l = (start false bound l).0
call stop_call l = stop l

unfoldable pub run_calls : List Call → Lifecycle → Lifecycle
run_calls [] l = l
run_calls (c ∷ cs) l = run_calls cs (call c l)

-- Nothing is bound and the server not started; or it is started, and holds the one bound listener.
pub data IsCoherent : Lifecycle → Type 0 where
  down :
      (stopped : Bool) (fresh : ℕ)
      → IsCoherent (record {
        started = false;
        stopped = stopped;
        listener = none;
        opened = [];
        fresh = fresh;
      })
  up :
      (n fresh : ℕ)
      → IsCoherent (record {
        started = true;
        stopped = false;
        listener = some n;
        opened = n ∷ [];
        fresh = fresh;
      })

close_self : (n : ℕ) → close (some n) (n ∷ []) ≡ []
unfolding close
close_self n = ground (arith, ==_refl n)

call-IsCoherent : (c : Call) (l : Lifecycle) → IsCoherent l → IsCoherent (call c l)
unfolding call start begin_start settle_start stop close
call-IsCoherent (start_call none) l (down s f) = up f (suc f)
call-IsCoherent (start_call (some error)) l (down s f) = down false (suc f)
call-IsCoherent (start_call bound) l (up n f) = up n f
call-IsCoherent stop_call l (down true f) = down true f
call-IsCoherent stop_call l (down false f) = down true f
call-IsCoherent stop_call l (up n f) = rw (==_refl n) (down true f)

pub run_calls-IsCoherent : (cs : List Call) → IsCoherent (run_calls cs unstarted)
unfolding run_calls
run_calls-IsCoherent cs = go cs unstarted (down false 0)
  where
    go : (calls : List Call) (l : Lifecycle) → IsCoherent l → IsCoherent (run_calls calls l)
    go [] l h = h
    go (c ∷ rest) l h = go rest (call c l) (call-IsCoherent c l h)

-- After any such calls, a `start` whose bind succeeds leaves one listener bound, and a `stop` none.
run_calls-effect :
    (cs : List Call)
    → let l = run_calls cs unstarted in
      ((n : ℕ) × ((start false none l).0.opened ≡ n ∷ []) × ((start false none l).1 ≡ none))
      × ((stop l).opened ≡ [])
unfolding start begin_start settle_start stop close
run_calls-effect cs = go (run_calls cs unstarted) (run_calls-IsCoherent cs)
  where
    go :
        (l : Lifecycle)
        → IsCoherent l
        → ((n : ℕ) × ((start false none l).0.opened ≡ n ∷ []) × ((start false none l).1 ≡ none))
          × ((stop l).opened ≡ [])
    go l (down true f) = ((f, refl, refl), refl)
    go l (down false f) = ((f, refl, refl), refl)
    go l (up n f) = ((n, refl, refl), close_self n)
