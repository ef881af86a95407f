-- ===== src/Inbound.antt =====
-- packages/gateway-whatsapp/src/inbound-rules.ts and `decideForOwnNumber` of own-number.ts: whether a
-- WhatsApp message reaches the agent. `R` is the type of raw envelopes.
pub mod Once
pub mod Delivered
use theokit_gateways.Prelude.{
  ℕ, ◌-◌, Bool, true, false, not, ◌&&◌, ◌||◌, Option, none, some, List, [], ◌∷◌, ◌++◌, length, drop,
  filter, any, map, ◌==◌, if◌then◌else◌,
}
use theokit_gateways.Js.{Text, lit, str_eq, includes, is_nonempty}
use theokit_gateways.Filters.{is_text}
use theokit_gateways.Allowlist.{is_digit, is_sender_allowed}

pub data Conversation : Type 0 where
  dm : Conversation
  group : Conversation

pub data Backend : Type 0 where
  cloud : Backend
  web : Backend
  baileys : Backend

-- `WhatsAppInboundEvent`. An absent `fromSelf` is `false`.
pub record WhatsAppInboundEvent (R : Type 0) : Type 0 where
  pub wamid : Text
  pub from_phone : Text
  pub phone_number_id : Option Text
  pub contact_name : Option Text
  pub conversation_type : Conversation
  pub channel_id : Text
  pub channel_jid : Option Text
  pub text : Text
  pub received_at : ℕ
  pub from_self : Bool
  pub backend : Backend
  pub raw : R

-- `InboundRules`.
pub record InboundRules : Type 0 where
  pub allowed_senders : Option (List Text)
  pub require_mention : Bool
  pub bot_phone_id : Text

-- `WhatsAppMessageEvent`, without its platform, with the fields of its `whatsapp`.
pub record WhatsAppMessageEvent (R : Type 0) : Type 0 where
  pub id : Text
  pub sender_id : Text
  pub display_name : Option Text
  pub channel_id : Text
  pub channel_type : Conversation
  pub text : Text
  pub received_at : ℕ
  pub wamid : Text
  pub phone_number_id : Option Text
  pub contact_name : Option Text
  pub channel_jid : Option Text
  pub backend : Backend
  pub raw : R

-- A line on stderr, by the part that names someone.
pub data LogLine : Type 0 where
  refused_sender : Text → LogLine
  another_number : Text → Text → LogLine
  no_bot_phone_id : LogLine

-- The labels that were reported, and the lines on stderr, oldest first.
pub record Log : Type 0 where
  pub reported : List Text
  pub stderr : List LogLine

-- `digitsOnly`.
unfoldable pub digits_only : Text → Text
digits_only s = filter is_digit s

-- A character of `[\d+\-(). ]` that is no digit; the class has a no-break space too.
unfoldable pub is_separator : ℕ → Bool
is_separator c =
    c == b'+' || c == b'-' || c == b'(' || c == b')' || c == b'.' || c == b' ' || c == 0xa0

-- The run that is read, unless none is.
unfoldable pub end_run : Option Text → List Text → List Text
end_run none runs = runs
end_run (some digits) runs = digits ∷ runs

-- `phoneRuns`, with the digits of the run that is read, if one is: it begins with a digit and goes on
-- to the first character that is neither digit nor separator.
unfoldable pub runs_from : Option Text → Text → List Text
runs_from run [] = end_run run []
runs_from none (c ∷ s) =
    let begun = runs_from (some (c ∷ [])) s in
    let rest = runs_from none s in if is_digit c then begun else rest
runs_from (some digits) (c ∷ s) =
    let longer = runs_from (some (digits ++ c ∷ [])) s in
    let same = runs_from (some digits) s in
    let rest = runs_from none s in
    if is_digit c then longer else if is_separator c then same else digits ∷ rest

unfoldable pub phone_runs : Text → List Text
phone_runs s = runs_from none s

-- `lastFourDigits`.
unfoldable pub last_four_digits : Text → Text
last_four_digits value = drop (length (digits_only value) - 4) (digits_only value)

-- `redactedSender`.
unfoldable pub redacted_sender : Text → Text
redacted_sender from_phone =
    let tail = last_four_digits from_phone in
    if is_nonempty tail then lit "a sender ending in " ++ tail else lit "a sender with no number"

-- `redactedNumberId`.
unfoldable pub redacted_number_id : Option Text → Text
redacted_number_id none = lit "no phone number id"
redacted_number_id (some i) =
    let tail = last_four_digits i in
    if is_nonempty tail
    then lit "a phone number id ending in " ++ tail
    else lit "a phone number id with no digits"

unfoldable pub write : LogLine → Log → Log
write line log = record log { stderr = log.stderr ++ line ∷ [] }

-- `isRefusedBySenderAllowlist`, behind the exemption of the account's owner.
unfoldable pub is_refused_stranger : Text → Option (List Text) → Log → Log × Bool
is_refused_stranger from_phone none log = (log, false)
is_refused_stranger from_phone (some allowed) log =
    if is_sender_allowed from_phone allowed
    then (log, false)
    else (write (refused_sender (redacted_sender from_phone)) log, true)

-- The report of a foreign number, once for its label.
unfoldable pub report : Text → Text → Log → Log
report other own log =
    if any (str_eq other) log.reported
    then log
    else write (another_number other own) (record log { reported = log.reported ++ other ∷ [] })

-- `isForAnotherNumber`.
unfoldable pub is_for_another_number : Option Text → Option Text → Log → Log × Bool
is_for_another_number phone_number_id none log = (log, false)
is_for_another_number phone_number_id (some own) log =
    if is_text phone_number_id own
    then (log, false)
    else (report (redacted_number_id phone_number_id) own log, true)

unfoldable pub is_group : Conversation → Bool
is_group dm = false
is_group group = true

-- `shouldDropGroupMessage`.
unfoldable pub should_drop_group_message : Conversation → Text → InboundRules → Log → Log × Bool
should_drop_group_message conversation text rules log =
    if not (is_group conversation) || not rules.require_mention
    then (log, false)
    else if not (is_nonempty rules.bot_phone_id)
    then (write no_bot_phone_id log, true)
    else (log, not (any (λ run. includes run rules.bot_phone_id) (phone_runs text)))

module _ {R : Type 0} where
  unfoldable pub is_refused_by_sender_allowlist :
      WhatsAppInboundEvent R → Option (List Text) → Log → Log × Bool
  is_refused_by_sender_allowlist inbound allowed log =
      if inbound.from_self then (log, false) else is_refused_stranger inbound.from_phone allowed log

  -- `toMessageEvent`.
  unfoldable pub to_message_event : WhatsAppInboundEvent R → WhatsAppMessageEvent R
  to_message_event inbound = record {
    id = inbound.wamid;
    sender_id = inbound.from_phone;
    display_name = inbound.contact_name;
    channel_id = inbound.channel_id;
    channel_type = inbound.conversation_type;
    text = inbound.text;
    received_at = inbound.received_at;
    wamid = inbound.wamid;
    phone_number_id = inbound.phone_number_id;
    contact_name = inbound.contact_name;
    channel_jid = inbound.channel_jid;
    backend = inbound.backend;
    raw = inbound.raw;
  }

  -- `if (dropped) return undefined;`, and what follows.
  unfoldable pub unless_dropped :
      Log × Bool
      → (Log → Log × Option (WhatsAppMessageEvent R))
      → Log × Option (WhatsAppMessageEvent R)
  unless_dropped (log, true) rest = (log, none)
  unless_dropped (log, false) rest = rest log

  -- `decideInbound`.
  unfoldable pub decide_inbound :
      WhatsAppInboundEvent R → InboundRules → Log → Log × Option (WhatsAppMessageEvent R)
  decide_inbound inbound rules log =
      unless_dropped (is_refused_by_sender_allowlist inbound rules.allowed_senders log) (λ log'.
        unless_dropped (should_drop_group_message inbound.conversation_type inbound.text rules log')
          (λ log''. (log'', some (to_message_event inbound))))

  -- `decideForOwnNumber`.
  unfoldable pub decide_for_own_number :
      WhatsAppInboundEvent R
      → Option Text
      → InboundRules
      → Log
      → Log × Option (WhatsAppMessageEvent R)
  decide_for_own_number inbound own rules log =
      unless_dropped (is_for_another_number inbound.phone_number_id own log)
        (decide_inbound inbound rules)

  -- Messages one after the other.
  unfoldable pub decide_all :
      List (WhatsAppInboundEvent R)
      → Option Text
      → InboundRules
      → Log
      → Log × List (WhatsAppMessageEvent R)
  decide_all [] own rules log = (log, [])
  decide_all (inbound ∷ inbounds) own rules log =
      let now = decide_for_own_number inbound own rules log in
      let later = decide_all inbounds own rules now.0 in (later.0, delivered now.1 later.1)
    where
      delivered :
          Option (WhatsAppMessageEvent R)
          → List (WhatsAppMessageEvent R)
          → List (WhatsAppMessageEvent R)
      delivered none events = events
      delivered (some event) events = event ∷ events
