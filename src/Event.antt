-- ===== src/Event.antt =====
-- The shapes that the core passes around: packages/gateway/src/types/message-event.ts and
-- packages/gateway/src/adapter/base.ts. Of an event, the fields that the core reads.
use theokit_gateways.Prelude.{List, [], ◌∷◌, Bool, false, Option, none, some}
use theokit_gateways.Js.{Text, lit}

-- `PlatformName`: a name that some package registers. The registry is open, so any text may be one.
abbrev pub Platform : Type 0
Platform = Text

-- The names that `PlatformEventRegistry` starts with.
abbrev pub first_party : List Platform
first_party =
    lit "telegram"
    ∷ lit "discord"
    ∷ lit "slack"
    ∷ lit "whatsapp"
    ∷ lit "teams"
    ∷ lit "email"
    ∷ lit "sms"
    ∷ lit "mattermost"
    ∷ lit "line"
    ∷ lit "matrix"
    ∷ lit "signal"
    ∷ lit "imessage"
    ∷ lit "google_chat"
    ∷ lit "irc"
    ∷ lit "nextcloud_talk"
    ∷ []

pub data ChannelType : Type 0 where
  dm group thread : ChannelType

pub record Channel : Type 0 where
  pub id : Text
  pub type : ChannelType
  pub topic_id : Option Text

-- `MessageEvent`, with the sender's id alone.
pub record MessageEvent : Type 0 where
  pub id : Text
  pub platform : Platform
  pub sender_id : Text
  pub channel : Channel
  pub text : Text
  pub reply_to : Option Text

pub data Format : Type 0 where
  plain markdown html : Format

pub record OutboundMessage : Type 0 where
  pub channel : Channel
  pub text : Text
  pub format : Option Format
  pub reply_to : Option Text

pub record SendError : Type 0 where
  pub code : Text
  pub message : Text

pub record SendResult : Type 0 where
  pub ok : Bool
  pub message_id : Option Text
  pub error : Option SendError

-- `{ ok: false, error: { code, message } }`.
abbrev pub refusal : Text → Text → SendResult
refusal code message = record {
  ok = false;
  message_id = none;
  error = some (record { code = code; message = message });
}
