-- ===== src/Tests/Deciding.antt =====
-- Runs of the WhatsApp inbound rules, and their theorems at concrete inputs.
use theokit_gateways.Prelude.{
  ℕ, ◌≡◌, refl, true, false, ◌&&◌, ◌||◌, none, some, [], ◌∷◌, if◌then◌else◌,
}
use theokit_gateways.Js.{lit}
use theokit_gateways.Inbound.{
  WhatsAppInboundEvent, InboundRules, group, cloud, phone_runs, runs_from, end_run, is_separator,
  decide_for_own_number, to_message_event,
}
use theokit_gateways.Allowlist.{is_digit}
use theokit_gateways.Inbound.Delivered.{is_own, is_listed, is_addressed, decide_for_own_number_lem}

abbrev asked : WhatsAppInboundEvent ℕ
asked = record {
  wamid = lit "w1";
  from_phone = lit "551";
  phone_number_id = some (lit "1234567");
  contact_name = none;
  conversation_type = group;
  channel_id = lit "g1";
  channel_jid = none;
  text = lit "ask +55 (11) 99-9, ok";
  received_at = 9;
  from_self = false;
  backend = cloud;
  raw = 0;
}

abbrev rules : InboundRules
rules = record {
  allowed_senders = some (lit "551" ∷ []);
  require_mention = true;
  bot_phone_id = lit "5511999";
}

-- Separators stand inside of a number, and a letter ends it.
asked_runs : phone_runs (lit "ask +55 (11) 99-9, ok 7") ≡ lit "5511999" ∷ lit "7" ∷ []
unfolding phone_runs runs_from end_run is_separator is_digit
asked_runs = refl

decide_for_own_number_lem_example :
    (decide_for_own_number asked
      (some (lit "1234567"))
      rules
      (record { reported = []; stderr = [] })).1
    ≡ (if is_own (some (lit "1234567")) (some (lit "1234567"))
          && ((false || is_listed (some (lit "551" ∷ [])) (lit "551"))
              && is_addressed group (lit "ask +55 (11) 99-9, ok") rules)
        then some (to_message_event asked)
        else none)
decide_for_own_number_lem_example =
    decide_for_own_number_lem asked (some (lit "1234567")) rules
      (record { reported = []; stderr = [] })
