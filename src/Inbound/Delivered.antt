-- ===== src/Inbound/Delivered.antt =====
-- The decision of Inbound.antt, without the log.
use theokit_gateways.Prelude.{
  ◌≡◌, refl, inl, inr, Bool, true, false, not, ◌&&◌, ◌||◌, Option, none, some, List, any,
  Bool-cases, if◌then◌else◌, arith,
}
use theokit_gateways.Js.{Text, includes, is_nonempty}
use theokit_gateways.Filters.{is_text}
use theokit_gateways.Allowlist.{is_sender_allowed}
use theokit_gateways.Inbound.{
  WhatsAppInboundEvent, InboundRules, WhatsAppMessageEvent, Conversation, Log, phone_runs,
  is_refused_stranger, is_for_another_number, is_group, should_drop_group_message,
  is_refused_by_sender_allowlist, to_message_event, unless_dropped, decide_inbound,
  decide_for_own_number,
}

-- The message is for the adapter's number, if it has one.
abbrev pub is_own : Option Text → Option Text → Bool
is_own none phone = true
is_own (some own) phone = is_text phone own

-- The sender is the account's owner, or no list is set, or the list allows it.
abbrev pub is_listed : Option (List Text) → Text → Bool
is_listed none from_phone = true
is_listed (some allowed) from_phone = is_sender_allowed from_phone allowed

-- The message is no group's, or mentions are not asked for, or one of the phone numbers in its text
-- has the bot's.
abbrev pub is_addressed : Conversation → Text → InboundRules → Bool
is_addressed conversation text rules =
    not (is_group conversation)
    || not rules.require_mention
    || (is_nonempty rules.bot_phone_id
        && any (λ run. includes run rules.bot_phone_id) (phone_runs text))

is_for_another_number_lem :
    (phone own : Option Text) (log : Log)
    → (is_for_another_number phone own log).1 ≡ not (is_own own phone)
unfolding is_for_another_number
is_for_another_number_lem phone none log = refl
is_for_another_number_lem phone (some own) log = elim (Bool-cases (is_text phone own)) [
  | inl yes_ ↦ rw yes_ refl
  | inr no_ ↦ rw no_ refl
]

is_refused_stranger_lem :
    (from_phone : Text) (allowed : Option (List Text)) (log : Log)
    → (is_refused_stranger from_phone allowed log).1 ≡ not (is_listed allowed from_phone)
unfolding is_refused_stranger
is_refused_stranger_lem from_phone none log = refl
is_refused_stranger_lem from_phone (some allowed) log =
    elim (Bool-cases (is_sender_allowed from_phone allowed)) [
      | inl yes_ ↦ rw yes_ refl
      | inr no_ ↦ rw no_ refl
    ]

should_drop_group_message_lem :
    (c : Conversation) (text : Text) (rules : InboundRules) (log : Log)
    → (should_drop_group_message c text rules log).1 ≡ not (is_addressed c text rules)
unfolding should_drop_group_message
should_drop_group_message_lem c text rules log = ground arith

module _ {R : Type 0} where
  is_refused_by_sender_allowlist_lem :
      (inbound : WhatsAppInboundEvent R) (allowed : Option (List Text)) (log : Log)
      → (is_refused_by_sender_allowlist inbound allowed log).1
        ≡ not (inbound.from_self || is_listed allowed inbound.from_phone)
  unfolding is_refused_by_sender_allowlist
  is_refused_by_sender_allowlist_lem inbound allowed log = elim (Bool-cases inbound.from_self) [
    | inl self ↦ simp (self, is_refused_by_sender_allowlist) refl
    | inr stranger ↦
        simp (stranger, is_refused_by_sender_allowlist)
          (is_refused_stranger_lem inbound.from_phone allowed log)
  ]

  unless_dropped_lem :
      (now : Log × Bool) (rest : Log → Log × Option (WhatsAppMessageEvent R)) (t u : Bool)
      (event : Option (WhatsAppMessageEvent R))
      → now.1 ≡ not t
      → ((log : Log) → (rest log).1 ≡ (if u then event else none))
      → (unless_dropped now rest).1 ≡ (if t && u then event else none)
  unfolding unless_dropped
  unless_dropped_lem (log, true) rest true u event h f = ground (arith, h)
  unless_dropped_lem (log, true) rest false u event h f = refl
  unless_dropped_lem (log, false) rest true u event h f = f log
  unless_dropped_lem (log, false) rest false u event h f = ground (arith, h)

  not_dropped_lem :
      (now : Log × Bool) (t : Bool) (event : WhatsAppMessageEvent R)
      → now.1 ≡ not t
      → (unless_dropped now (λ log. (log, some event))).1 ≡ (if t then some event else none)
  unfolding unless_dropped
  not_dropped_lem (log, true) true event h = ground (arith, h)
  not_dropped_lem (log, true) false event h = refl
  not_dropped_lem (log, false) true event h = refl
  not_dropped_lem (log, false) false event h = ground (arith, h)

  -- Whatever was logged before, a message reaches the agent exactly if it is for the adapter's number,
  -- its sender is the account's owner or allowed, and it is addressed to the bot; and then it reaches
  -- it as `toMessageEvent` makes it.
  pub decide_for_own_number_lem :
      (inbound : WhatsAppInboundEvent R) (own : Option Text) (rules : InboundRules) (log : Log)
      → (decide_for_own_number inbound own rules log).1 ≡ (
          if is_own own inbound.phone_number_id
            && ((inbound.from_self || is_listed rules.allowed_senders inbound.from_phone)
                && is_addressed inbound.conversation_type inbound.text rules)
          then some (to_message_event inbound)
          else none)
  unfolding decide_for_own_number decide_inbound
  decide_for_own_number_lem inbound own rules log =
      unless_dropped_lem _ _ (is_own own inbound.phone_number_id) _ _
        (is_for_another_number_lem inbound.phone_number_id own log)
        (λ log1.
          unless_dropped_lem _ _
            (inbound.from_self || is_listed rules.allowed_senders inbound.from_phone) _ _
            (is_refused_by_sender_allowlist_lem inbound rules.allowed_senders log1)
            (λ log2.
              not_dropped_lem
                (should_drop_group_message inbound.conversation_type inbound.text rules log2)
                (is_addressed inbound.conversation_type inbound.text rules)
                (to_message_event inbound)
                (should_drop_group_message_lem inbound.conversation_type inbound.text rules log2)))
