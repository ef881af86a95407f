-- ===== src/Rpc/Refines.antt =====
-- The JSON-RPC client of Rpc.antt and the board of Rpc/Board, event by event.
use theokit_gateways.Prelude.{
  ℕ, ◌≡◌, refl, sym, ap, ◌∙◌, inl, inr, Bool, true, false, not, ◌&&◌, ◌||◌, Option, none, some,
  List, [], ◌∷◌, ◌==◌, Bool-cases, if◌then◌else◌, arith,
}
use theokit_gateways.Js.{Text}
use theokit_gateways.Rpc.{
  RpcOutcome, disconnected, timeout, MessageId, absent, number, other, Line, blank, not_json,
  json_throws, json, Event, request_called, timer_fired, line_read, closed, Client, mem, put_key,
  new, settle, close_open, close, request, outcome_of, on_message, on_open_line, on_line, on_event,
  run,
}
use theokit_gateways.Rpc.Settle.{IsValid, new-IsValid, settle_rest, settle_all_lem, mem-put_key}
use theokit_gateways.Rpc.Once.{on_event-IsValid}
use theokit_gateways.Rpc.Board.{
  waiting, Board, answered, answer_at, message_step, line_step, board_step, board_run, empty_board,
  answer_of, status_in, status_of, Shows, answer_of-none, not_waiting, settle_status,
  settle_all_status,
}

module _ {V : Type 0} where
  -- A new request's id was neither answered nor pending.
  fresh_status :
      (j : ℕ) (c : Client V)
      → IsValid c
      → status_in (answer_of j c.answers) (mem j (put_key c.next_id c.pending))
        ≡ (if j == c.next_id then waiting else status_of c j)
  fresh_status j c v = elim (Bool-cases (j == c.next_id)) [
    | inl same ↦
        let unanswered : answer_of j c.answers ≡ none =
          answer_of-none j c.answers (ground (arith, v.owed j, same)) in
        simp (mem-put_key, same, unanswered) refl
    | inr differs ↦ simp (mem-put_key, differs) refl
  ]

  request-Shows :
      (writable : Bool) (c : Client V) (b : Board V)
      → IsValid c
      → Shows c b
      → Shows (request writable c).0 (board_step (request_called writable) b)
  unfolding request
  request-Shows writable c b v (next, open_, same) = elim (Bool-cases (b.serving && writable)) [
    | inr no_ ↦
        let refused : (not c.is_open || not writable) ≡ true = ground (arith, no_, open_) in
        simp (no_, refused, request) (next, open_, same)
    | inl yes_ ↦
        let accepted : (not c.is_open || not writable) ≡ false = ground (arith, yes_, open_) in
        simp (yes_, accepted, request)
          (
            omega (arith, next),
            open_,
            λ j.
                fresh_status j c v
                ∙ ap (λ n. if j == n then waiting else status_of c j) next
                ∙ ap (λ s. if j == b.upcoming then waiting else s) (same j),
          )
  ]

  settle-Shows :
      (i : ℕ) (o : RpcOutcome V) (c : Client V) (b : Board V)
      → IsValid c
      → Shows c b
      → Shows (settle i o c) (answer_at i o b)
  settle-Shows i o c b v (next, open_, same) = (
    (settle_rest i o c).0 ∙ next,
    (settle_rest i o c).1 ∙ open_,
    (λ j. settle_status i j o c v.owed ∙ ap (λ s. if j == i then answered s o else s) (same j)),
  )

  all_answered :
      (r : Option (RpcOutcome V)) (pending : Bool)
      → (if pending then answered (status_in r pending) disconnected else status_in r pending)
        ≡ answered (status_in r pending) disconnected
  all_answered r true = refl
  all_answered r false = sym (not_waiting r disconnected)

  close_open-Shows :
      (reason : Text) (c : Client V) (b : Board V)
      → IsValid c
      → c.is_open ≡ true
      → Shows c b
      → Shows
          (close_open reason c)
          (record b { serving = false; status = λ j. answered (b.status j) disconnected })
  unfolding close_open
  close_open-Shows reason c b v o (next, open_, same) =
      let rest = settle_all_lem c.pending (record c { is_open = false }) in
      (
        rest.2 ∙ next,
        rest.3,
        λ j.
            settle_all_status c.pending (record c { is_open = false }) j v.owed
            ∙ all_answered (answer_of j c.answers) (mem j c.pending)
            ∙ ap (λ s. answered s disconnected) (same j),
      )

  on_open_line-Shows :
      (line : Line V) (c : Client V) (b : Board V)
      → IsValid c
      → Shows c b
      → Shows (on_open_line line c) (line_step line b)
  unfolding on_open_line on_message
  on_open_line-Shows blank c b v h = h
  on_open_line-Shows (not_json start) c b v h = h
  on_open_line-Shows json_throws c b v h = h
  on_open_line-Shows (json m) c b v h = go m.id m.method
    where
      go :
          (i : MessageId) (method : Option Text)
          → Shows
              (on_message i method m c)
              (message_step i (outcome_of m.error_member m.result_value) b)
      go absent (some method) = h
      go absent none = h
      go (number k) method = settle-Shows k (outcome_of m.error_member m.result_value) c b v h
      go other method = h

  on_event-Shows :
      (e : Event V) (c : Client V) (b : Board V)
      → IsValid c
      → Shows c b
      → Shows (on_event e c) (board_step e b)
  unfolding on_event on_line close
  on_event-Shows (request_called writable) c b v h = request-Shows writable c b v h
  on_event-Shows (timer_fired i) c b v h = settle-Shows i timeout c b v h
  on_event-Shows (line_read line) c b v h = elim (Bool-cases b.serving) [
    | inl serving ↦ simp (serving, h.1 ∙ serving) (on_open_line-Shows line c b v h)
    | inr ended ↦ simp (ended, h.1 ∙ ended) (h.0, refl, h.2)
  ]
  on_event-Shows (closed reason) c b v h = elim (Bool-cases b.serving) [
    | inl serving ↦ simp (serving, h.1 ∙ serving) (close_open-Shows reason c b v (h.1 ∙ serving) h)
    | inr ended ↦ simp (ended, h.1 ∙ ended) (h.0, refl, h.2)
  ]

  pub run-Shows :
      (es : List (Event V)) (c : Client V) (b : Board V)
      → IsValid c
      → Shows c b
      → Shows (run es c) (board_run es b)
  unfolding run board_run
  run-Shows [] c b v h = h
  run-Shows (e ∷ es) c b v h =
      run-Shows es (on_event e c) (board_step e b) (on_event-IsValid e c v)
        (on_event-Shows e c b v h)

  -- After any calls, timers, lines and ends, the client shows the statuses that the board has after
  -- the same events: a request waits until the first of its answer, its timer and the client's end,
  -- and keeps what that gave it.
  pub run_refines : (es : List (Event V)) → Shows (run es new) (board_run es empty_board)
  unfolding answer_of mem
  run_refines es = run-Shows es new empty_board new-IsValid (refl, refl, λ i. refl)
