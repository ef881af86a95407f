-- ===== src/Tests/Sessions.antt =====
-- Runs of the session router, and its theorem at concrete events.
use theokit_gateways.Prelude.{arith, ◌≡◌, refl, ◌↔◌, none}
use theokit_gateways.Js.{lit}
use theokit_gateways.Event.{thread, dm, group, MessageEvent}
use theokit_gateways.Session.{sanitize, default_strategy, session_of, default_strategy-eq_iff}

abbrev event : MessageEvent
event = record {
  id = lit "1";
  platform = lit "telegram";
  sender_id = lit "u-1";
  channel = record { id = lit "c-9"; type = thread; topic_id = none };
  text = lit "hi";
  reply_to = none;
}

-- A thread without a topic gets the group's key.
no_topic : default_strategy event ≡ lit "telegram-grp-c_9-u_1"
unfolding default_strategy sanitize
no_topic = refl

-- Ids that differ in `-` and `_` alone share a session.
collision : default_strategy event ≡ default_strategy (record event { sender_id = lit "u_1" })
unfolding default_strategy sanitize
collision = refl

-- A platform whose name has a `-` shares a session with another platform.
abbrev dashed : MessageEvent
dashed = record event {
  platform = lit "a-grp";
  sender_id = lit "y";
  channel = record { id = lit "y"; type = dm; topic_id = none };
}

abbrev undashed : MessageEvent
undashed = record event {
  platform = lit "a";
  sender_id = lit "y";
  channel = record { id = lit "dm"; type = group; topic_id = none };
}

shared : default_strategy dashed ≡ default_strategy undashed
unfolding default_strategy sanitize
shared = refl

default_strategy-eq_iff_example :
    (default_strategy event ≡ default_strategy (record event { sender_id = lit "u_1" }))
    ↔ (session_of event ≡ session_of (record event { sender_id = lit "u_1" }))
default_strategy-eq_iff_example =
    default_strategy-eq_iff event (record event { sender_id = lit "u_1" }) (omega arith)
      (omega arith)
