-- ===== src/Irc/Session/Sockets.antt =====
-- The sockets of the connection in Irc/Session.antt, after any events.
use theokit_gateways.Prelude.{
  ℕ, ◌≡◌, refl, ap, inl, inr, Bool, true, false, not, ◌&&◌, ◌||◌, Option, none, some, List, [], ◌∷◌,
  ltb, ◌==◌, ==_iff, Bool-cases, arith,
}
use theokit_gateways.Irc.Session.{
  Session, Event, connect_called, attempt_ended, attempt_cleared, socket_closed, disconnect_called,
  is_at, is_pending, new, settle, clear, drop_socket, on_close, disconnect, on_event, run,
}
use theokit_gateways.Irc.Session.Attempts.{
  has_socket, IsSound, new-IsSound, choose, is_at_same, connect-IsSound, finish_connect-IsSound,
}

settle-IsSound :
    (n : ℕ) (ok : Bool) (s : Session)
    → ltb n s.upcoming ≡ true
    → IsSound s
    → IsSound (settle n ok s)
unfolding settle
settle-IsSound n ok s made v =
    choose (is_pending (s.outcome n)) _ _ (λ p. finish_connect-IsSound n ok s made p v) (λ p. v)

clear-IsSound : (n : ℕ) (s : Session) → IsSound s → IsSound (clear n s)
unfolding clear is_at
clear-IsSound n s v =
    choose (not (is_pending (s.outcome n)) && is_at n s.connecting) _ _
      (λ yes_. record {
        accounted = v.accounted;
        registered = v.registered;
        placed = v.placed;
        shared = λ m h k. absurd (clash m yes_ (v.shared m h k));
        unmade = v.unmade;
      })
      (λ no_. v)
  where
    clash :
        (m : ℕ)
        → (not (is_pending (s.outcome n)) && is_at n s.connecting) ≡ true
        → ((is_pending (s.outcome m) ≡ true) × (is_at m s.connecting ≡ true))
        → ⊥
    clash m yes_ (p, here) =
        let same : m ≡ n =
          (==_iff m n).0 (is_at_same n m s.connecting (ground (arith, yes_)) here) in
        ground (arith, yes_, p, ap (λ i. is_pending (s.outcome i)) same)

drop_socket-IsSound :
    (n : ℕ) (s : Session)
    → ltb n s.upcoming ≡ true
    → is_pending (s.outcome n) ≡ false
    → IsSound s
    → IsSound (drop_socket n s)
unfolding drop_socket is_at
drop_socket-IsSound n s made over v =
    choose (is_at n s.socket) _ _
      (λ here. record {
        accounted = λ m h. elim (Bool-cases (m == n)) [
          | inl same ↦ ground (arith, same)
          | inr other ↦ ground (arith, other, v.accounted m h, is_at_same n m s.socket here)
        ];
        registered = λ m h k. ground (arith, h);
        placed = λ h. ground (arith, h);
        shared = λ m h k. ground (arith, h);
        unmade = λ m h. ((v.unmade m h).0, refl);
      })
      (λ away. record {
        accounted = λ m h. ground (arith, v.accounted m h);
        registered = v.registered;
        placed = v.placed;
        shared = v.shared;
        unmade = v.unmade;
      })

on_close-IsSound :
    (n : ℕ) (s : Session) → ltb n s.upcoming ≡ true → IsSound s → IsSound (on_close n s)
unfolding on_close
on_close-IsSound n s made v =
    choose (is_pending (s.outcome n)) _ _ (λ p. finish_connect-IsSound n false s made p v)
      (λ over. drop_socket-IsSound n s made over v)

disconnect-IsSound :
    (o : Option ℕ) (s : Session) → s.socket ≡ o → IsSound s → IsSound (disconnect o s)
unfolding disconnect is_at
disconnect-IsSound none s e v = record {
  accounted = v.accounted;
  registered = λ m h k. ground (arith, k);
  placed = λ h. ground (arith, h);
  shared = λ m h k. ground (arith, h, ap (is_at m) e);
  unmade = v.unmade;
}
disconnect-IsSound (some n) s e v = record {
  accounted = λ m h. ground (arith, v.accounted m h, ap (is_at m) e);
  registered = λ m h k. ground (arith, h);
  placed = λ h. ground (arith, h);
  shared = λ m h k. ground (arith, h);
  unmade = λ m h. ((v.unmade m h).0, refl);
}

on_event-IsSound : (e : Event) (s : Session) → IsSound s → IsSound (on_event e s)
unfolding on_event
on_event-IsSound (connect_called opens) s v = connect-IsSound opens s.connecting s refl v
on_event-IsSound (attempt_ended n ok) s v =
    choose (ltb n s.upcoming) _ _ (λ made. settle-IsSound n ok s made v) (λ unmade. v)
on_event-IsSound (attempt_cleared n) s v = clear-IsSound n s v
on_event-IsSound (socket_closed n) s v =
    choose (ltb n s.upcoming) _ _ (λ made. on_close-IsSound n s made v) (λ unmade. v)
on_event-IsSound disconnect_called s v = disconnect-IsSound s.socket s refl v

run-IsSound : (es : List Event) (s : Session) → IsSound s → IsSound (run es s)
unfolding run
run-IsSound [] s v = v
run-IsSound (e ∷ es) s v = run-IsSound es (on_event e s) (on_event-IsSound e s v)

abbrev pub is_success : Option Bool → Bool
is_success none = false
is_success (some ok) = ok

accounted_for :
    (s : Session) (n : ℕ)
    → IsSound s
    → ((not (ltb n s.upcoming) || (is_at n s.socket || s.released n)) ≡ true)
      × ((not s.connected || has_socket s.socket) ≡ true)
      × ((not (s.connected && is_at n s.socket) || is_success (s.outcome n)) ≡ true)
accounted_for s n v = (
  choice (ltb n s.upcoming) _ (v.accounted n),
  choice s.connected _ v.placed,
  choice (s.connected && is_at n s.socket) _
      (λ h. ap is_success (v.registered n (ground (arith, h)) (ground (arith, h)))),
)
  where
    choice : (a b : Bool) → (a ≡ true → b ≡ true) → (not a || b) ≡ true
    choice true b f = f refl
    choice false b f = refl

-- After any calls of `connect` and `disconnect` and any ends of attempts and closes of sockets, each
-- socket that was opened is the adapter's own, or was ended, destroyed or closed; and if the adapter is
-- connected it has a socket, whose attempt resolved to `true`.
pub sockets_accounted :
    (es : List Event) (n : ℕ)
    → ((not (ltb n (run es new).upcoming)
          || (is_at n (run es new).socket || (run es new).released n))
        ≡ true)
      × ((not (run es new).connected || has_socket (run es new).socket) ≡ true)
      × ((not ((run es new).connected && is_at n (run es new).socket)
            || is_success ((run es new).outcome n))
          ≡ true)
sockets_accounted es n = accounted_for (run es new) n (run-IsSound es new new-IsSound)
