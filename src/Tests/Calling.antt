-- ===== src/Tests/Calling.antt =====
-- Runs of the JSON-RPC client and of the key sets, and their theorems at concrete inputs.
use theokit_gateways.Prelude.{
  true, false, ◌++◌, ℕ, ◌≡◌, refl, Option, none, some, List, [], ◌∷◌, length, All, arith,
}
use theokit_gateways.Js.{Text, lit}
use theokit_gateways.Rpc as Rpc
use theokit_gateways.Rpc.{
  RpcOutcome, result, timeout, disconnected, RpcMessage, number, Line, blank, not_json, json_throws,
  json, Event, request_called, timer_fired, line_read, closed, Client,
}
use theokit_gateways.Rpc.Settle.{as_number, is_issued, count}
use theokit_gateways.Rpc.Once.{closed_answers_all}
use theokit_gateways.Rpc.Board.{Shows, board_run, empty_board}
use theokit_gateways.Rpc.Refines.{run_refines}
use theokit_gateways.Rpc.Deadline.{answered_in_time}
use theokit_gateways.KeySet.{Answered}
use theokit_gateways.KeySet.Google as Google
use theokit_gateways.KeySet.Google.{
  Held, document, not_ok, asked, answered, cleared, resumed, unknown_kid_refetch_floor_ms,
}
use theokit_gateways.KeySet.Google.Reads.{Spaced, reads-Spaced}
use theokit_gateways.KeySet.Google.Told.{TellsCopy, copy_kept, Publishes, IsTrue, answers_genuine}
use theokit_gateways.KeySet.Teams as Teams
use theokit_gateways.KeySet.Teams.Paced.{Paced, reads-Paced}
use theokit_gateways.KeySet.Teams.Told.{Fails, finals, unlisted_needs_success}

-- Two requests, the second of which is answered, noise, and an answer to a request that was not made.
abbrev answer_to : ℕ → Event ℕ
answer_to i = line_read (
    json (record {
      id = number i;
      method = none;
      params = none;
      result_value = some 70;
      error_member = none;
    }))

abbrev calls : List (Event ℕ)
calls =
    request_called true
    ∷ request_called true
    ∷ line_read (not_json (lit "starting"))
    ∷ answer_to 2
    ∷ answer_to 9
    ∷ []

answered_calls : (Rpc.run calls Rpc.new).answers ≡ (2, result (some 70)) ∷ []
unfolding Rpc.run Rpc.on_event Rpc.request Rpc.on_line Rpc.on_open_line Rpc.on_message Rpc.settle
    Rpc.outcome_of Rpc.mem Rpc.put_key Rpc.delete_key
answered_calls = refl

-- The JSON value `null` throws where no one catches.
null_line : (Rpc.run (line_read json_throws ∷ []) (Rpc.new {V = ℕ})).uncaught ≡ lit "TypeError" ∷ []
unfolding Rpc.run Rpc.on_event Rpc.on_line Rpc.on_open_line
null_line = refl

run_refines_example : Shows (Rpc.run calls Rpc.new) (board_run calls empty_board)
run_refines_example = run_refines calls

-- The request is answered after its timer, and the child ends.
abbrev too_late : List (Event ℕ)
too_late = answer_to 1 ∷ closed (lit "exited") ∷ []

first_issued : is_issued (Rpc.run calls Rpc.new).next_id 1 ≡ true
unfolding Rpc.run Rpc.on_event Rpc.request Rpc.on_line Rpc.on_open_line Rpc.on_message Rpc.settle
    Rpc.outcome_of Rpc.mem Rpc.put_key Rpc.delete_key
first_issued = refl

answered_in_time_example :
    let late = Rpc.run too_late (Rpc.on_event (timer_fired 1) (Rpc.run calls Rpc.new)) in
    (Rpc.mem 1 late.pending ≡ false) × (count 1 late.answers ≡ 1)
answered_in_time_example = answered_in_time calls too_late 1 first_issued

closed_answers_all_example :
    ((Rpc.on_event (closed (lit "exited")) (Rpc.run calls Rpc.new)).pending ≡ [])
    × ((i : ℕ)
        → count i (Rpc.on_event (closed (lit "exited")) (Rpc.run calls Rpc.new)).answers
          ≡ as_number
              (is_issued (Rpc.on_event (closed (lit "exited")) (Rpc.run calls Rpc.new)).next_id i))
    × (length (Rpc.on_event (closed (lit "exited")) (Rpc.run calls Rpc.new)).closings ≡ 1)
closed_answers_all_example = closed_answers_all calls (lit "exited")

-- A key set of one key, whose entries are their keys.
abbrev keep : ℕ → Option ℕ
keep n = some n

abbrev one_key : Google.Response ℕ
one_key =
    document (some (record { kid = some (lit "k1"); jwk = 11 } ∷ []))
      (some (lit "public, max-age=10"))

abbrev lookups : List (Google.Event ℕ)
lookups =
    asked 5 6 1 (lit "k1")
    ∷ answered one_key 8
    ∷ cleared
    ∷ resumed 1
    ∷ asked 70000 70001 2 (lit "k2")
    ∷ answered (not_ok (lit "503")) 70005
    ∷ cleared
    ∷ resumed 2
    ∷ []

reads-Spaced_example :
    Spaced unknown_kid_refetch_floor_ms (Google.run keep (lit "u") lookups Google.new).reads
reads-Spaced_example =
    reads-Spaced keep (lit "u") lookups
      (omega arith, (tt, (tt, (tt, (omega arith, (tt, (tt, (tt, tt))))))))

abbrev one_copy : Held ℕ
one_copy = record { keys = (lit "k1", 11) ∷ []; fresh_until = 100 }

abbrev held_state : Google.State ℕ
held_state = record Google.new { held = some one_copy }

-- The copy goes stale, and the next two reads bring nothing, the second one a document whose one
-- entry has no `kid`.
abbrev failing : List (Google.Event ℕ)
failing =
    asked 70000 70001 2 (lit "k2")
    ∷ answered (not_ok (lit "503")) 70005
    ∷ cleared
    ∷ resumed 2
    ∷ asked 140000 140001 3 (lit "k1")
    ∷ answered (document (some (record { kid = none; jwk = 12 } ∷ [])) none) 140005
    ∷ cleared
    ∷ resumed 3
    ∷ []

copy_kept_example :
    let after = Google.run keep (lit "u") failing held_state in
    (after.held ≡ held_state.held)
    × ((since : List (Answered ℕ)) × (after.answers ≡ since ++ held_state.answers)
        × All (TellsCopy one_copy) since)
copy_kept_example =
    copy_kept keep (lit "u") failing held_state one_copy refl
      (tt, (tt, (tt, (tt, (tt, ((tt, tt), (tt, (tt, tt))))))))

-- The one key that the document lists.
abbrev Listed : Text → ℕ → Type 0
Listed kid key = (kid ≡ lit "k1") × (key ≡ 11)

lookups-Publishes : All (Publishes keep (lit "u") Listed) lookups
lookups-Publishes = (tt, (((refl, refl), tt), (tt, (tt, (tt, (tt, (tt, (tt, tt))))))))

answers_genuine_example :
    All (IsTrue keep (lit "u") Listed) (Google.run keep (lit "u") lookups Google.new).answers
answers_genuine_example = answers_genuine keep (lit "u") Listed lookups lookups-Publishes

abbrev down : List (Teams.Event ℕ)
down =
    Teams.asked 5 1 (lit "k1")
    ∷ Teams.answered Teams.timed_out 9
    ∷ Teams.cleared 9
    ∷ Teams.resumed 1
    ∷ Teams.asked 9 2 (lit "k1")
    ∷ Teams.resumed 2
    ∷ Teams.asked 10009 3 (lit "k1")
    ∷ []

reads-Paced_example : Paced (Teams.run keep (lit "bot") (lit "u") down Teams.new).marks
reads-Paced_example = reads-Paced keep (lit "bot") (lit "u") down

down-Fails : All (Fails keep (lit "bot") (lit "u")) down
unfolding Teams.read_key_set
down-Fails = (tt, (refl, (tt, (tt, (tt, (tt, (tt, tt)))))))

unlisted_needs_success_example :
    ((Teams.run keep (lit "bot") (lit "u") down Teams.new).held ≡ none)
    × (finals (Teams.run keep (lit "bot") (lit "u") down Teams.new).answers ≡ 0)
unlisted_needs_success_example =
    unlisted_needs_success keep (lit "bot") (lit "u") down Teams.new down-Fails refl
