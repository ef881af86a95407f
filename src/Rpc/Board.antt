-- ===== src/Rpc/Board.antt =====
-- What a caller of the JSON-RPC client in Rpc.antt sees: for each id the status of its request, on a
-- board that is updated by functions.
use theokit_gateways.Prelude.{
  ℕ, ◌+◌, ◌≡◌, refl, sym, ap, ◌∙◌, inl, inr, Bool, true, false, ◌&&◌, Option, none, some, List, [],
  ◌∷◌, ◌++◌, ◌==◌, ==_iff, Bool-cases, if◌then◌else◌, arith,
}
use theokit_gateways.Rpc.{
  RpcOutcome, disconnected, timeout, MessageId, absent, number, other, Line, blank, not_json,
  json_throws, json, Event, request_called, timer_fired, line_read, closed, Client, mem, settle,
  settle_all, outcome_of,
}
use theokit_gateways.Rpc.Settle.{count, Owes, settle-Owes, mem-delete_key}

-- A request: not made, waiting for its answer, or answered.
pub data Status (V : Type 0) : Type 0 where
  unasked : Status V
  waiting : Status V
  settled : RpcOutcome V → Status V

pub record Board (V : Type 0) : Type 0 where
  pub upcoming : ℕ
  pub serving : Bool
  pub status : ℕ → Status V

module _ {V : Type 0} where
  -- An answer reaches a request that waits, and no other.
  abbrev pub answered : Status V → RpcOutcome V → Status V
  answered unasked o = unasked
  answered waiting o = settled o
  answered (settled o') o = settled o'

  abbrev pub answer_at : ℕ → RpcOutcome V → Board V → Board V
  answer_at i o b = record b {
    status = λ j. if j == i then answered (b.status j) o else b.status j;
  }

  abbrev pub message_step : MessageId → RpcOutcome V → Board V → Board V
  message_step absent o b = b
  message_step (number i) o b = answer_at i o b
  message_step other o b = b

  abbrev pub line_step : Line V → Board V → Board V
  line_step blank b = b
  line_step (not_json start) b = b
  line_step json_throws b = b
  line_step (json m) b = message_step m.id (outcome_of m.error_member m.result_value) b

  -- The same events on a board.
  abbrev pub board_step : Event V → Board V → Board V
  board_step (request_called writable) b =
      if b.serving && writable
      then record b {
        upcoming = b.upcoming + 1;
        status = λ j. if j == b.upcoming then waiting else b.status j;
      }
      else b
  board_step (timer_fired i) b = answer_at i timeout b
  board_step (line_read line) b = if b.serving then line_step line b else b
  board_step (closed reason) b =
      if b.serving
      then record b { serving = false; status = λ j. answered (b.status j) disconnected }
      else b

  unfoldable pub board_run : List (Event V) → Board V → Board V
  board_run [] b = b
  board_run (e ∷ es) b = board_run es (board_step e b)

  abbrev pub empty_board : Board V
  empty_board = record { upcoming = 1; serving = true; status = λ j. unasked }

  -- The first answer to the request.
  unfoldable pub answer_of : ℕ → List (ℕ × RpcOutcome V) → Option (RpcOutcome V)
  answer_of i [] = none
  answer_of i ((j, o) ∷ answers) = let rest = answer_of i answers in if i == j then some o else rest

  abbrev pub status_in : Option (RpcOutcome V) → Bool → Status V
  status_in (some o) pending = settled o
  status_in none true = waiting
  status_in none false = unasked

  -- The status of a request in the client.
  abbrev pub status_of : Client V → ℕ → Status V
  status_of c i = status_in (answer_of i c.answers) (mem i c.pending)

  -- The client shows what the board has.
  abbrev pub Shows : Client V → Board V → Type 0
  Shows c b =
      (c.next_id ≡ b.upcoming) × (c.is_open ≡ b.serving) × ((i : ℕ) → status_of c i ≡ b.status i)

  pub answer_of-none :
      (i : ℕ) (answers : List (ℕ × RpcOutcome V)) → count i answers ≡ 0 → answer_of i answers ≡ none
  unfolding answer_of count
  answer_of-none i [] h = refl
  answer_of-none i ((j, o) ∷ answers) h = ground (arith, h, answer_of-none i answers)

  abbrev first : Option (RpcOutcome V) → Option (RpcOutcome V) → Option (RpcOutcome V)
  first none b = b
  first (some a) b = some a

  answer_of-append :
      (i : ℕ) (xs ys : List (ℕ × RpcOutcome V))
      → answer_of i (xs ++ ys) ≡ first (answer_of i xs) (answer_of i ys)
  unfolding answer_of
  answer_of-append i [] ys = refl
  answer_of-append i ((j, o) ∷ xs) ys = ground (arith, answer_of-append i xs ys)

  -- A request that is not pending does not wait.
  pub not_waiting :
      (r : Option (RpcOutcome V)) (o : RpcOutcome V)
      → answered (status_in r false) o ≡ status_in r false
  not_waiting none o = refl
  not_waiting (some a) o = refl

  pending_unanswered :
      (c : Client V) (i : ℕ) → Owes c → mem i c.pending ≡ true → answer_of i c.answers ≡ none
  pending_unanswered c i v h = answer_of-none i c.answers (ground (arith, v i, h))

  pub settle_status :
      (i j : ℕ) (o : RpcOutcome V) (c : Client V)
      → Owes c
      → status_of (settle i o c) j ≡ (if j == i then answered (status_of c j) o else status_of c j)
  unfolding answer_of settle
  settle_status i j o c v = elim (Bool-cases (mem i c.pending)) [
    | inr gone ↦
        simp (gone, settle)
          (elim (Bool-cases (j == i)) [
            | inl same ↦
                simp (same, ap (λ k. mem k c.pending) ((==_iff j i).0 same) ∙ gone)
                  (sym (not_waiting (answer_of j c.answers) o))
            | inr differs ↦ simp differs refl
          ])
    | inl here ↦
        simp (here, settle, answer_of-append, mem-delete_key)
          (elim (Bool-cases (j == i)) [
            | inl same ↦
                simp
                  (
                    same,
                    ap (λ k. mem k c.pending) ((==_iff j i).0 same) ∙ here,
                    pending_unanswered c j v
                        (ap (λ k. mem k c.pending) ((==_iff j i).0 same) ∙ here),
                  )
                  refl
            | inr differs ↦ simp differs (right (answer_of j c.answers) (mem j c.pending))
          ])
  ]
    where
      right :
          (r : Option (RpcOutcome V)) (p : Bool)
          → status_in (first r none) (p && true) ≡ status_in r p
      right none true = refl
      right none false = refl
      right (some a) p = refl

  answered_twice : (s : Status V) (o o' : RpcOutcome V) → answered (answered s o) o' ≡ answered s o
  answered_twice unasked o o' = refl
  answered_twice waiting o o' = refl
  answered_twice (settled a) o o' = refl

  pub settle_all_status :
      (ids : List ℕ) (c : Client V) (j : ℕ)
      → Owes c
      → status_of (settle_all ids c) j
        ≡ (if mem j ids then answered (status_of c j) disconnected else status_of c j)
  unfolding settle_all mem
  settle_all_status [] c j v = refl
  settle_all_status (i ∷ ids) c j v =
      settle_all_status ids (settle i disconnected c) j (settle-Owes i disconnected c v)
      ∙ ground (
        arith,
        settle_status i j disconnected c v,
        answered_twice (status_of c j) disconnected disconnected,
      )
