-- ===== src/Rpc/Once.antt =====
-- The JSON-RPC client of Rpc.antt, event by event: what it has issued, answered and still owes.
use theokit_gateways.Prelude.{
  refl, ℕ, length, length-append, ◌≡◌, sym, ap, ◌∙◌, inl, inr, Bool, true, false, not, ◌||◌, Option,
  none, some, List, [], ◌∷◌, Bool-cases, arith,
}
use theokit_gateways.Js.{Text}
use theokit_gateways.Rpc.{
  timeout, MessageId, absent, number, other, RpcMessage, Line, blank, not_json, json_throws, json,
  Event, request_called, timer_fired, line_read, closed, Client, mem, new, settle_all, close_open,
  close, request, outcome_of, on_message, on_open_line, on_line, on_event, run,
}
use theokit_gateways.Rpc.Settle.{
  as_number, is_issued, mem-put_key, count, IsValid, new-IsValid, settle-IsValid, settle_all_lem,
  no_members,
}

module _ {V : Type 0} where
  close_open-IsValid :
      (reason : Text) (c : Client V) → c.is_open ≡ true → IsValid c → IsValid (close_open reason c)
  unfolding close_open
  close_open-IsValid reason c open_ v =
      let (owed, gone, next, shut, said) =
        settle_all_lem c.pending (record c { is_open = false }) in
      record {
        owed = λ j. owed j ∙ v.owed j ∙ ap (λ n. as_number (is_issued n j)) (sym next);
        idle = λ h.
            no_members (settle_all c.pending (record c { is_open = false })).pending
              (λ j. ground (arith, gone j));
        said = ground (
          arith,
          length-append (settle_all c.pending (record c { is_open = false })).closings
              (reason ∷ []),
          ap length said,
          shut,
          open_,
          v.said,
        );
        positive = omega (arith, v.positive, next);
      }

  on_message-IsValid :
      (i : MessageId) (method : Option Text) (m : RpcMessage V) (c : Client V)
      → IsValid c
      → IsValid (on_message i method m c)
  unfolding on_message
  on_message-IsValid absent (some method) m c v = record {
    owed = v.owed;
    idle = v.idle;
    said = v.said;
    positive = v.positive;
  }
  on_message-IsValid absent none m c v = v
  on_message-IsValid (number i) method m c v =
      settle-IsValid i (outcome_of m.error_member m.result_value) c v
  on_message-IsValid other method m c v = v

  on_open_line-IsValid : (line : Line V) (c : Client V) → IsValid c → IsValid (on_open_line line c)
  unfolding on_open_line
  on_open_line-IsValid blank c v = v
  on_open_line-IsValid (not_json start) c v = record {
    owed = v.owed;
    idle = v.idle;
    said = v.said;
    positive = v.positive;
  }
  on_open_line-IsValid json_throws c v = record {
    owed = v.owed;
    idle = v.idle;
    said = v.said;
    positive = v.positive;
  }
  on_open_line-IsValid (json m) c v = on_message-IsValid m.id m.method m c v

  close-IsValid : (reason : Text) (c : Client V) → IsValid c → IsValid (close reason c)
  unfolding close
  close-IsValid reason c v = elim (Bool-cases c.is_open) [
    | inr shut ↦ simp (shut, close) v
    | inl open_ ↦ simp (open_, close) (close_open-IsValid reason c open_ v)
  ]

  close_ends : (reason : Text) (c : Client V) → (close reason c).is_open ≡ false
  unfolding close close_open
  close_ends reason c = elim (Bool-cases c.is_open) [
    | inr shut ↦ simp (shut, close) refl
    | inl open_ ↦ simp (open_, close) (settle_all_lem c.pending (record c { is_open = false })).3
  ]

  request-IsValid : (writable : Bool) (c : Client V) → IsValid c → IsValid (request writable c).0
  unfolding request
  request-IsValid writable c v = elim (Bool-cases (not c.is_open || not writable)) [
    | inl no_ ↦ simp (no_, request) v
    | inr yes_ ↦
        simp (yes_, request)
          (record {
            owed = λ i. ground (arith, mem-put_key c.next_id i c.pending, v.owed i, v.positive);
            idle = λ h. ground (arith, yes_, h);
            said = v.said;
            positive = omega (arith, v.positive);
          })
  ]

  on_line-IsValid : (line : Line V) (c : Client V) → IsValid c → IsValid (on_line line c)
  unfolding on_line
  on_line-IsValid line c v = elim (Bool-cases c.is_open) [
    | inr shut ↦ simp (shut, on_line) v
    | inl open_ ↦ simp (open_, on_line) (on_open_line-IsValid line c v)
  ]

  pub on_event-IsValid : (e : Event V) (c : Client V) → IsValid c → IsValid (on_event e c)
  unfolding on_event
  on_event-IsValid (request_called writable) c v = request-IsValid writable c v
  on_event-IsValid (timer_fired i) c v = settle-IsValid i timeout c v
  on_event-IsValid (line_read line) c v = on_line-IsValid line c v
  on_event-IsValid (closed reason) c v = close-IsValid reason c v

  pub run-IsValid : (es : List (Event V)) (c : Client V) → IsValid c → IsValid (run es c)
  unfolding run
  run-IsValid [] c v = v
  run-IsValid (e ∷ es) c v = run-IsValid es (on_event e c) (on_event-IsValid e c v)

  -- Once the child has ended, after any events, no request is pending, each request that was made has
  -- been answered once and no other id ever, and `onClosed` was called once.
  pub closed_answers_all :
      (es : List (Event V)) (reason : Text)
      → ((on_event (closed reason) (run es new)).pending ≡ [])
        × ((i : ℕ)
            → count i (on_event (closed reason) (run es new)).answers
              ≡ as_number (is_issued (on_event (closed reason) (run es new)).next_id i))
        × (length (on_event (closed reason) (run es new)).closings ≡ 1)
  unfolding on_event mem
  closed_answers_all es reason =
      let v = run-IsValid es new new-IsValid in
      let w = close-IsValid reason (run es new) v in
      let shut = close_ends reason (run es new) in
      let idle = w.idle shut in
      (
        idle,
        λ i. omega (arith, w.owed i, ap (λ ids. as_number (mem i ids)) idle),
        w.said ∙ ap (λ b. as_number (not b)) shut,
      )
