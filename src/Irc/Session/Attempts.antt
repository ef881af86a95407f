-- ===== src/Irc/Session/Attempts.antt =====
-- The attempts of the connection in Irc/Session.antt, when one is made and when it ends.
use theokit_gateways.Prelude.{
  ℕ, ◌≡◌, refl, sym, ap, ◌∙◌, inl, inr, Bool, true, false, ◌&&◌, ◌||◌, Option, none, some, ltb,
  ◌==◌, Bool-cases, if◌then◌else◌, arith,
}
use theokit_gateways.Irc.Session.{
  Session, is_at, is_pending, new, put, open_session, connect, finish_connect,
}

abbrev pub has_socket : Option ℕ → Bool
has_socket none = false
has_socket (some n) = true

-- A socket that was opened is the adapter's or was let go; the adapter is connected exactly if it has a
-- socket whose attempt succeeded; and a socket whose attempt is not over is the one that `connect`
-- shares.
pub record IsSound (s : Session) : Type 0 where
  pub accounted : (n : ℕ) → ltb n s.upcoming ≡ true → (is_at n s.socket || s.released n) ≡ true
  pub registered : (n : ℕ) → is_at n s.socket ≡ true → s.connected ≡ true → s.outcome n ≡ some true
  pub placed : s.connected ≡ true → has_socket s.socket ≡ true
  pub shared :
      (n : ℕ)
      → is_at n s.socket ≡ true
      → s.connected ≡ false
      → (is_pending (s.outcome n) ≡ true) × (is_at n s.connecting ≡ true)
  pub unmade :
      (n : ℕ)
      → ltb n s.upcoming ≡ false
      → (is_pending (s.outcome n) ≡ true) × (is_at n s.socket ≡ false)

pub new-IsSound : IsSound new
unfolding is_at is_pending
new-IsSound = record {
  accounted = λ n h. ground (arith, h);
  registered = λ n h k. ground (arith, h);
  placed = λ h. ground (arith, h);
  shared = λ n h k. ground (arith, h);
  unmade = λ n h. (refl, refl);
}

-- Without an attempt and a connection there is no socket.
no_socket :
    (s : Session) (n : ℕ)
    → s.connecting ≡ none
    → s.connected ≡ false
    → IsSound s
    → is_at n s.socket ≡ false
unfolding is_at
no_socket s n e d v = elim (Bool-cases (is_at n s.socket)) [
  | inr no_ ↦ no_
  | inl yes_ ↦ absurd (ground (arith, sym (ap (is_at n) e) ∙ (v.shared n yes_ d).1))
]

open_session-IsSound :
    (opens : Bool) (s : Session)
    → s.connecting ≡ none
    → s.connected ≡ false
    → IsSound s
    → IsSound (open_session opens s)
unfolding open_session is_at is_pending
open_session-IsSound true s e d v = record {
  accounted = λ n h. ground (arith, h, v.accounted n, no_socket s n e d v);
  registered = λ n h k. ground (arith, h, d, k);
  placed = λ h. refl;
  shared = λ n h k. ground (arith, h, v.unmade n);
  unmade = λ n h. ground (arith, h, v.unmade n);
}
open_session-IsSound false s e d v = record {
  accounted = λ n h. ground (arith, h, v.accounted n);
  registered = λ n h k. ground (arith, h, k, d);
  placed = λ h. ground (arith, h, d);
  shared = λ n h k. ground (arith, h, k, e, v.shared n);
  unmade = λ n h. ground (arith, h, v.unmade n);
}

pub choose :
    (t : Bool) (p q : Session)
    → (t ≡ true → IsSound p)
    → (t ≡ false → IsSound q)
    → IsSound (if t then p else q)
choose true p q f g = f refl
choose false p q f g = g refl

pub is_at_same : (n m : ℕ) (o : Option ℕ) → is_at n o ≡ true → is_at m o ≡ true → (m == n) ≡ true
unfolding is_at
is_at_same n m none h k = ground (arith, h)
is_at_same n m (some i) h k = ground (arith, h, k)

is_at_other : (n m : ℕ) (o : Option ℕ) → is_at n o ≡ false → is_at m o ≡ true → (m == n) ≡ false
unfolding is_at
is_at_other n m none h k = ground (arith, k)
is_at_other n m (some i) h k = ground (arith, h, k)

is_at-has_socket : (n : ℕ) (o : Option ℕ) → is_at n o ≡ true → has_socket o ≡ true
unfolding is_at
is_at-has_socket n none h = h
is_at-has_socket n (some i) h = refl

made_before : (n m next : ℕ) → ltb n next ≡ true → ltb m next ≡ false → (m == n) ≡ false
made_before n m next h k = ground (arith, h, k)

pub connect-IsSound :
    (opens : Bool) (attempt : Option ℕ) (s : Session)
    → s.connecting ≡ attempt
    → IsSound s
    → IsSound (connect opens attempt s)
unfolding connect
connect-IsSound opens (some attempt) s e v = v
connect-IsSound opens none s e v =
    choose s.connected s (open_session opens s) (λ yes_. v)
      (λ no_. open_session-IsSound opens s e no_ v)

-- A socket is let go, the adapter's or another one, of an attempt that now is over.
let_go-IsSound :
    (n : ℕ) (t : Bool) (s : Session)
    → is_at n s.socket ≡ t
    → ltb n s.upcoming ≡ true
    → is_pending (s.outcome n) ≡ true
    → IsSound s
    → IsSound (record s {
      socket = if t then none else s.socket;
      outcome = put n (some false) s.outcome;
      released = put n true s.released;
    })
unfolding is_at is_pending
let_go-IsSound n true s e made p v = record {
  accounted = λ m h. elim (Bool-cases (m == n)) [
    | inl same ↦ ground (arith, same)
    | inr other ↦ ground (arith, other, v.accounted m h, is_at_same n m s.socket e)
  ];
  registered = λ m h k. ground (arith, h);
  placed = λ h. absurd (ground (arith, p, v.registered n e h));
  shared = λ m h k. ground (arith, h);
  unmade = λ m h. ground (arith, made_before n m s.upcoming made h, v.unmade m h);
}
let_go-IsSound n false s e made p v = record {
  accounted = λ m h. ground (arith, v.accounted m h);
  registered = λ m h k. ground (arith, is_at_other n m s.socket e h, v.registered m h k);
  placed = λ h. v.placed h;
  shared = λ m h k. ground (arith, is_at_other n m s.socket e h, v.shared m h k);
  unmade = λ m h. ground (arith, made_before n m s.upcoming made h, v.unmade m h);
}

pub finish_connect-IsSound :
    (n : ℕ) (ok : Bool) (s : Session)
    → ltb n s.upcoming ≡ true
    → is_pending (s.outcome n) ≡ true
    → IsSound s
    → IsSound (finish_connect n ok s)
unfolding finish_connect is_pending
finish_connect-IsSound n ok s made p v =
    choose (ok && is_at n s.socket) _ _ good
      (λ no_. let_go-IsSound n (is_at n s.socket) s refl made p v)
  where
    good :
        (ok && is_at n s.socket) ≡ true
        → IsSound (record s { connected = true; outcome = put n (some true) s.outcome })
    good yes_ =
        let here : is_at n s.socket ≡ true = ground (arith, yes_) in
        record {
          accounted = v.accounted;
          registered = λ m h k. ground (arith, is_at_same n m s.socket here h);
          placed = λ h. is_at-has_socket n s.socket here;
          shared = λ m h k. ground (arith, k);
          unmade = λ m h. ground (arith, made_before n m s.upcoming made h, v.unmade m h);
        }
