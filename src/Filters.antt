-- ===== src/Filters.antt =====
-- packages/gateway-mattermost/src/filters.ts and packages/gateway-teams/src/mention-gate.ts: whether
-- the bot answers an inbound message.
pub mod Mentions
use theokit_gateways.Prelude.{
  ℕ, Bool, true, false, not, ◌&&◌, ◌||◌, Option, none, some, List, [], ◌∷◌, length, drop, any, leb,
  ◌==◌, if◌then◌else◌,
}
use theokit_gateways.Js.{Text, lit, str_eq, starts_with, is_nonempty}
use theokit_gateways.Event.{ChannelType, dm, group, thread}

-- `ShouldRespondOptions`, with the fields of the post that are read.
pub record ShouldRespondOptions : Type 0 where
  pub user_id : Text
  pub message : Text
  pub mentions : Option (List Text)
  pub channel_type : ChannelType
  pub bot_user_id : Text
  pub bot_username : Text
  pub require_mention : Bool

-- The characters of `\w`.
unfoldable pub is_word : ℕ → Bool
is_word c =
    leb b'0' c && leb c b'9' || leb b'A' c && leb c b'Z' || leb b'a' c && leb c b'z' || c == b'_'

-- The lookahead `(?![\w.])`.
unfoldable pub ends_name : Text → Bool
ends_name [] = true
ends_name (c ∷ cs) = not (is_word c || c == b'.')

-- A match of the pattern in the text, with whether a word character stands in front of it. The
-- username is matched literally, since its metacharacters are escaped.
unfoldable pub mention_from : Bool → Text → Text → Bool
mention_from word [] name = false
mention_from word (c ∷ cs) name =
    not word && (starts_with (c ∷ cs) (b'@' ∷ name) && ends_name (drop (length name) cs))
    || mention_from (is_word c) cs name

-- `hasMentionWithBoundary`.
unfoldable pub has_mention_with_boundary : Text → Text → Bool
has_mention_with_boundary text bot_username = mention_from false text bot_username

unfoldable pub is_dm : ChannelType → Bool
is_dm dm = true
is_dm group = false
is_dm thread = false

-- `post.metadata?.mentions?.includes(botUserId) ?? false`.
unfoldable pub is_mentioned : Option (List Text) → Text → Bool
is_mentioned none bot = false
is_mentioned (some ids) bot = any (str_eq bot) ids

-- `shouldRespond`.
unfoldable pub should_respond : ShouldRespondOptions → Bool
should_respond o =
    if str_eq o.user_id o.bot_user_id
    then false
    else if is_dm o.channel_type
    then true
    else if not o.require_mention
    then true
    else if is_mentioned o.mentions o.bot_user_id
    then true
    else is_nonempty o.bot_username && has_mention_with_boundary o.message o.bot_username

-- An entity of a Teams activity: its type, and the id of `mentioned`.
pub record Entity : Type 0 where
  pub type : Option Text
  pub mentioned : Option Text

pub data BotMention : Type 0 where
  mentioned : BotMention
  unmentioned : BotMention
  no_recipient : BotMention

-- `value === text`, for a value that may be absent.
unfoldable pub is_text : Option Text → Text → Bool
is_text none text = false
is_text (some value) text = str_eq value text

-- `readBotMention`, of the recipient's id and the entities.
unfoldable pub read_bot_mention : Option Text → List Entity → BotMention
read_bot_mention none entities = no_recipient
read_bot_mention (some bot_id) entities =
    if any (λ e. is_text e.type (lit "mention") && is_text e.mentioned bot_id) entities
    then mentioned
    else unmentioned
