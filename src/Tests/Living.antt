-- ===== src/Tests/Living.antt =====
-- Runs of a runner's life, of the channel loop, of the webhook server and of the delivery router, and
-- their theorems at concrete inputs.
use theokit_gateways.Prelude.{ℕ, suc, ◌≡◌, refl, true, false, none, some, List, [], ◌∷◌, length}
use theokit_gateways.Js.{Text-discrete, Text, lit}
use theokit_gateways.JsMap as Map
use theokit_gateways.Event.{dm}
use theokit_gateways.Hooks.{resolved}
use theokit_gateways.Runner.Dispatch.{Sender}
use theokit_gateways.Runner.Lifecycle as Runner
use theokit_gateways.Runner.Lifecycle.{
  Adapter, State, Reachable, created, next, start_called, stop_called, stop_released,
  connects_settled, connect_settled, connected, mem, has_settled, ended, idle,
}
use theokit_gateways.Runner.Lifecycle.Release.{IsAccounted, Reachable-IsAccounted, Reachable-ended}
use theokit_gateways.Channels.{
  ChannelEntry, Field, ChannelDescriptor, create_channels, misconfigured,
}
use theokit_gateways.Channels as Channels
use theokit_gateways.Webhook.RawBody.{data_, end_, raw_body_capture, too_large, exceeds}
use theokit_gateways.Webhook.Answers.{raw_body_capture_lem}
use theokit_gateways.Webhook.Listener as Listener
use theokit_gateways.Webhook.Listener.{unstarted}
use theokit_gateways.Delivery.{DeliveryRequest}

-- A runner with one adapter that is stopped while it connects.
abbrev one : List Adapter
one = (lit "irc", 0) ∷ []

abbrev keep : Text → Text
keep t = t

one-Distinct : Map.Distinct Text-discrete one
unfolding Map.get
one-Distinct = (refl, tt)

abbrev connecting_state : State
connecting_state = (Runner.start Runner.new).0

abbrev stopped_state : State
stopped_state = Runner.stop_release keep false one (λ i. false) (Runner.stop connecting_state)

stopped-Reachable : Reachable keep false one stopped_state
unfolding Runner.start_in Runner.start_active Runner.stop_in
stopped-Reachable =
    next (next (next created (start_called Runner.new)) (stop_called connecting_state))
      (stop_released (Runner.stop connecting_state) (λ i. false) refl)

Reachable-IsAccounted_example : IsAccounted one stopped_state
Reachable-IsAccounted_example =
    Reachable-IsAccounted keep false one stopped_state one-Distinct stopped-Reachable

-- The same runner, which starts, connects, is wired, and is stopped.
abbrev joined_state : State
joined_state = Runner.settle (lit "irc", 0) connected [] connecting_state

abbrev wired_state : State
wired_state = Runner.run_start keep false one (((lit "irc", 0), connected) ∷ []) joined_state

abbrev spent_state : State
spent_state = Runner.stop_release keep false one (λ i. false) (Runner.stop wired_state)

wired-Reachable : Reachable keep false one wired_state
unfolding Runner.start_in Runner.start_active Runner.settle mem has_settled Runner.all_settled
wired-Reachable =
    next
      (next (next created (start_called Runner.new))
        (connect_settled connecting_state [] (lit "irc", 0) connected refl refl refl))
      (connects_settled joined_state (((lit "irc", 0), connected) ∷ []) refl refl)

wired_once : (wired_state.wired ≡ one) × (wired_state.held 0 ≡ true)
unfolding Runner.run_start Runner.settle Runner.first_failure Runner.failure Runner.conclude
    Runner.connect_all_or_rollback Runner.is_connected Runner.start_in Runner.start_active
wired_once = (refl, refl)

spent-Reachable : Reachable keep false one spent_state
unfolding Runner.stop_in Runner.run_start Runner.settle Runner.first_failure Runner.failure
    Runner.conclude Runner.connect_all_or_rollback Runner.start_in Runner.start_active
spent-Reachable =
    next (next wired-Reachable (stop_called wired_state))
      (stop_released (Runner.stop wired_state) (λ i. false) refl)

spent-ended : (spent_state.phase ≡ ended) × (spent_state.start ≡ idle)
unfolding Runner.stop_in Runner.stop_release Runner.release_adapters Runner.run_start Runner.settle
    Runner.first_failure Runner.failure Runner.conclude Runner.connect_all_or_rollback
    Runner.start_in Runner.start_active
spent-ended = (refl, refl)

Reachable-ended_example :
    ((i : ℕ) → spent_state.held i ≡ true → spent_state.reported i ≡ true) × (spent_state.wired ≡ [])
Reachable-ended_example =
    Reachable-ended keep false one spent_state one-Distinct spent-Reachable spent-ended.0
      spent-ended.1

-- Two entries of one platform, of which one is refused.
abbrev irc_entry : ChannelEntry ℕ
irc_entry = record {
  descriptor = record {
    platform = lit "irc";
    config = record { key = lit "host"; required = true } ∷ [];
    create = λ values. Channels.returned (lit "irc") 5;
  };
  config = some (λ key. Channels.text (lit "h"));
}

raw_body_capture_lem_example :
    raw_body_capture length (some 3) false 0 (data_ (lit "ab") ∷ data_ (lit "cd") ∷ end_ ∷ [])
    ≡ too_large ∷ []
unfolding exceeds
raw_body_capture_lem_example = raw_body_capture_lem length (some 3) 0 (lit "ab" ∷ lit "cd" ∷ [])

-- Two overlapping starts, of which the second fails to bind: the first listener stays bound, and a
-- `stop` does not close it.
overlapping :
    (Listener.stop
      (Listener.settle_start 1
        (some [])
        (Listener.settle_start 0 none
          (Listener.begin_start (Listener.begin_start unstarted))).0).0).opened
    ≡ 0 ∷ []
unfolding Listener.begin_start Listener.settle_start Listener.stop Listener.close
overlapping = refl

abbrev counting : Sender ℕ
counting n m = (suc n, resolved (record { ok = true; message_id = none; error = none }))

abbrev request : DeliveryRequest
request = record {
  platform = lit "line";
  channel = record { id = lit "c"; type = dm; topic_id = none };
  text = lit "hi";
  format = none;
  reply_to = none;
}
