-- ===== src/Rpc/Deadline.antt =====
-- The JSON-RPC client of Rpc.antt behind a request's timer.
use theokit_gateways.Prelude.{
  ℕ, ◌<◌, ◌≤◌, ◌≡◌, refl, ap, ◌∙◌, inl, inr, Bool, true, false, ◌&&◌, some, List, [], ◌∷◌, ◌==◌,
  ==_iff, ◌+◌, Bool-cases, if◌then◌else◌, arith,
}
use theokit_gateways.Rpc.{
  RpcOutcome, disconnected, timeout, MessageId, absent, number, other, Line, blank, not_json,
  json_throws, json, Event, request_called, timer_fired, line_read, closed, Client, mem, new,
  settle, outcome_of, on_event, run,
}
use theokit_gateways.Rpc.Settle.{
  IsValid, new-IsValid, settle_rest, settle_pending, as_number, is_issued, count, settle-IsValid,
}
use theokit_gateways.Rpc.Once.{run-IsValid}
use theokit_gateways.Rpc.Board.{
  settled, Board, answered, answer_at, message_step, line_step, board_step, board_run, answer_of,
  status_in, status_of,
}
use theokit_gateways.Rpc.Refines.{run-Shows}

if_same : {A : Type 0} → (t : Bool) (a : A) → (if t then a else a) ≡ a
if_same true a = refl
if_same false a = refl

module _ {V : Type 0} where
  answer_at_keeps :
      (i j : ℕ) (o o' : RpcOutcome V) (b : Board V)
      → b.status i ≡ settled o
      → (answer_at j o' b).status i ≡ settled o
  answer_at_keeps i j o o' b h = simp h (if_same (i == j) (settled o))

  message_step_keeps :
      (k : MessageId) (i : ℕ) (o o' : RpcOutcome V) (b : Board V)
      → i < b.upcoming
      → b.status i ≡ settled o
      → (i < (message_step k o' b).upcoming) × ((message_step k o' b).status i ≡ settled o)
  message_step_keeps absent i o o' b lt h = (lt, h)
  message_step_keeps (number k) i o o' b lt h = (lt, answer_at_keeps i k o o' b h)
  message_step_keeps other i o o' b lt h = (lt, h)

  -- What a request resolved to stays.
  board_step_keeps :
      (e : Event V) (b : Board V) (i : ℕ) (o : RpcOutcome V)
      → i < b.upcoming
      → b.status i ≡ settled o
      → (i < (board_step e b).upcoming) × ((board_step e b).status i ≡ settled o)
  board_step_keeps (request_called writable) b i o lt h =
      elim (Bool-cases (b.serving && writable)) [
        | inr no_ ↦ simp no_ (lt, h)
        | inl yes_ ↦ simp yes_ (omega (arith, lt), ground (arith, lt, h))
      ]
  board_step_keeps (timer_fired j) b i o lt h = (lt, answer_at_keeps i j o timeout b h)
  board_step_keeps (line_read line) b i o lt h = elim (Bool-cases b.serving) [
    | inr no_ ↦ simp no_ (lt, h)
    | inl yes_ ↦ simp yes_ (go line)
  ]
    where
      go :
          (line : Line V)
          → (i < (line_step line b).upcoming) × ((line_step line b).status i ≡ settled o)
      go blank = (lt, h)
      go (not_json start) = (lt, h)
      go json_throws = (lt, h)
      go (json m) = message_step_keeps m.id i o (outcome_of m.error_member m.result_value) b lt h
  board_step_keeps (closed reason) b i o lt h = elim (Bool-cases b.serving) [
    | inr no_ ↦ simp no_ (lt, h)
    | inl yes_ ↦ simp yes_ (lt, ap (λ s. answered s disconnected) h)
  ]

  board_run_keeps :
      (es : List (Event V)) (b : Board V) (i : ℕ) (o : RpcOutcome V)
      → i < b.upcoming
      → b.status i ≡ settled o
      → (board_run es b).status i ≡ settled o
  unfolding board_run
  board_run_keeps [] b i o lt h = h
  board_run_keeps (e ∷ es) b i o lt h =
      let (lt', h') = board_step_keeps e b i o lt h in
      board_run_keeps es (board_step e b) i o lt' h'

  -- What a client shows.
  abbrev board_of : Client V → Board V
  board_of c = record { upcoming = c.next_id; serving = c.is_open; status = status_of c }

  -- An answered request has an answer, and one with an answer is answered.
  counted-answer :
      (i : ℕ) (answers : List (ℕ × RpcOutcome V))
      → count i answers ≡ 1
      → (o : RpcOutcome V) × (answer_of i answers ≡ some o)
  unfolding answer_of count
  counted-answer i [] h = absurd (omega (arith, h))
  counted-answer i ((j, o) ∷ answers) h = elim (Bool-cases (i == j)) [
    | inl same ↦ (o, ground (arith, same))
    | inr differs ↦
        let (o', e) = counted-answer i answers (ground (arith, h, differs)) in
        (o', ground (arith, differs, e))
  ]

  settled-counted :
      (answers : List (ℕ × RpcOutcome V)) (i : ℕ) (pending : Bool) (o : RpcOutcome V)
      → status_in (answer_of i answers) pending ≡ settled o
      → 1 ≤ count i answers
  unfolding answer_of count
  settled-counted [] i true o h = absurd (cc (h))
  settled-counted [] i false o h = absurd (cc (h))
  settled-counted ((j, a) ∷ answers) i pending o h = elim (Bool-cases (i == j)) [
    | inl same ↦ ground (arith, same)
    | inr differs ↦
        let later = settled-counted answers i pending o (ground (arith, differs, h)) in
        ground (arith, differs, later)
  ]

  -- Whatever happens to the client, a request that has an answer keeps it.
  settled_stays :
      (es : List (Event V)) (c : Client V) (i : ℕ) (o : RpcOutcome V)
      → IsValid c
      → i < c.next_id
      → status_of c i ≡ settled o
      → status_of (run es c) i ≡ settled o
  settled_stays es c i o v lt h =
      (run-Shows es c (board_of c) v (refl, refl, λ j. refl)).2 i
      ∙ board_run_keeps es (board_of c) i o lt h

  -- A request's timer leaves it with an answer, its own or one that came before.
  timer_settles :
      (c : Client V) (i : ℕ)
      → IsValid c
      → is_issued c.next_id i ≡ true
      → (o : RpcOutcome V) × (status_of (settle i timeout c) i ≡ settled o)
  timer_settles c i v issued =
      let late = settle i timeout c in
      let v' = settle-IsValid i timeout c v in
      let same : (i == i) ≡ true = (==_iff i i).1 refl in
      let gone : mem i late.pending ≡ false = settle_pending i i timeout c ∙ ground (arith, same) in
      let made : is_issued late.next_id i ≡ true =
        ap (λ n. is_issued n i) (settle_rest i timeout c).0 ∙ issued in
      let (o, e) =
        counted-answer i late.answers
          (omega (arith, v'.owed i, ap as_number gone, ap as_number made)) in
      (o, ap (λ a. status_in a (mem i late.pending)) e)

  -- A request that was made and whose timer has fired does not wait, and it has been answered once,
  -- whatever came in before the timer and whatever follows it.
  pub answered_in_time :
      (es fs : List (Event V)) (i : ℕ)
      → is_issued (run es new).next_id i ≡ true
      → let late = run fs (on_event (timer_fired i) (run es new)) in
        (mem i late.pending ≡ false) × (count i late.answers ≡ 1)
  unfolding on_event
  answered_in_time es fs i issued =
      let c = run es new in
      let v = run-IsValid es new new-IsValid in
      let late = settle i timeout c in
      let v' = settle-IsValid i timeout c v in
      let (o, e) = timer_settles c i v issued in
      let stays =
        settled_stays fs late i o v' (ground (arith, (settle_rest i timeout c).0, issued)) e in
      once (run fs late) (run-IsValid fs late v')
        (settled-counted (run fs late).answers i (mem i (run fs late).pending) o stays)
    where
      once :
          (c : Client V)
          → IsValid c
          → 1 ≤ count i c.answers
          → (mem i c.pending ≡ false) × (count i c.answers ≡ 1)
      once c v h =
          let rest : count i c.answers + as_number (mem i c.pending) ≤ 1 = issued_once in
          (ground (arith, rest, h), omega (arith, rest, h))
        where
          at_most : (b : Bool) → as_number b ≤ 1
          at_most true = omega arith
          at_most false = omega arith

          issued_once : count i c.answers + as_number (mem i c.pending) ≤ 1
          issued_once = omega (arith, v.owed i, at_most (is_issued c.next_id i))
