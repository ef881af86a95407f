-- ===== src/Session.antt =====
-- packages/gateway/src/session/router.ts: the agent id of an event.
use theokit_gateways.Prelude.{
  ℕ, ◌≡◌, ◌≢◌, refl, sym, ap, ◌∙◌, ◌↔◌, Option, none, some, List, [], ◌∷◌, ◌++◌, ◌==◌,
  if◌then◌else◌, All, arith,
}
use theokit_gateways.Js.{Text, lit}
use theokit_gateways.Event.{Platform, first_party, ChannelType, dm, group, thread, MessageEvent}

-- `s.replace(/-/g, "_")`.
unfoldable pub sanitize : Text → Text
sanitize [] = []
sanitize (c ∷ s) = (if c == b'-' then b'_' else c) ∷ sanitize s

-- The template literals of `defaultStrategy`.
abbrev pub dm_key : Platform → Text → Text
dm_key platform sid = platform ++ (lit "-dm-" ++ sid)

abbrev pub group_key : Platform → Text → Text → Text
group_key platform cid sid = platform ++ (lit "-grp-" ++ (cid ++ (lit "-" ++ sid)))

abbrev pub topic_key : Platform → Text → Text → Text
topic_key platform cid tid = platform ++ (lit "-tpc-" ++ (cid ++ (lit "-" ++ tid)))

-- The `switch` on the channel's type, with its topic.
unfoldable pub strategy_for : Platform → ChannelType → Option Text → Text → Text → Text
strategy_for platform dm topic cid sid = dm_key platform sid
strategy_for platform thread none cid sid = group_key platform cid sid
strategy_for platform thread (some topic) cid sid = topic_key platform cid (sanitize topic)
strategy_for platform group topic cid sid = group_key platform cid sid

unfoldable pub default_strategy : MessageEvent → Text
unfolding strategy_for
default_strategy event =
    strategy_for event.platform event.channel.type event.channel.topic_id
      (sanitize event.channel.id) (sanitize event.sender_id)

-- `SessionRouter`: the strategy, the default one unless the caller gives another.
unfoldable pub resolve_agent_id : Option (MessageEvent → Text) → MessageEvent → Text
resolve_agent_id none event = default_strategy event
resolve_agent_id (some strategy) event = strategy event

-- The conversation that a key stands for, its ids sanitized.
pub data Session : Type 0 where
  direct : Platform → Text → Session
  member : Platform → Text → Text → Session
  topic : Platform → Text → Text → Session

pub session_in : Platform → ChannelType → Option Text → Text → Text → Session
session_in p dm t cid sid = direct p sid
session_in p thread none cid sid = member p cid sid
session_in p thread (some t) cid sid = topic p cid (sanitize t)
session_in p group t cid sid = member p cid sid

-- A direct message's session is the sender, a topic's is the topic, and any other, a thread without
-- topic included, is the sender in the channel.
pub session_of : MessageEvent → Session
unfolding session_in
session_of event =
    session_in event.platform event.channel.type event.channel.topic_id (sanitize event.channel.id)
      (sanitize event.sender_id)

key_of : Session → Text
key_of (direct p sid) = dm_key p sid
key_of (member p cid sid) = group_key p cid sid
key_of (topic p cid tid) = topic_key p cid tid

abbrev pub HasNoDash : Text → Type 0
HasNoDash = All (λ c. c ≢ b'-')

sanitize-HasNoDash : (s : Text) → HasNoDash (sanitize s)
unfolding sanitize
sanitize-HasNoDash [] = tt
sanitize-HasNoDash (c ∷ s) = (ground arith, sanitize-HasNoDash s)

-- The text between the dashes.
push_front : ℕ → List Text → List Text
push_front c [] = (c ∷ []) ∷ []
push_front c (s ∷ ss) = (c ∷ s) ∷ ss

segments : Text → List Text
unfolding push_front
segments [] = [] ∷ []
segments (c ∷ s) = let rest = segments s in if c == b'-' then [] ∷ rest else push_front c rest

segments-last : (s : Text) → HasNoDash s → segments s ≡ s ∷ []
unfolding segments
segments-last [] h = refl
segments-last (c ∷ s) h = ground (arith, segments-last s h.1, h.0)

segments-dash : (s t : Text) → HasNoDash s → segments (s ++ b'-' ∷ t) ≡ s ∷ segments t
unfolding segments
segments-dash [] t h = refl
segments-dash (c ∷ s) t h = ground (arith, segments-dash s t h.1, h.0)

-- The registered names of this repository have none.
first_party-HasNoDash : All HasNoDash first_party
first_party-HasNoDash = omega arith

-- The fields of a session.
fields : Session → List Text
fields (direct p sid) = p ∷ lit "dm" ∷ sid ∷ []
fields (member p cid sid) = p ∷ lit "grp" ∷ cid ∷ sid ∷ []
fields (topic p cid tid) = p ∷ lit "tpc" ∷ cid ∷ tid ∷ []

HasPlainIds : Session → Type 0
HasPlainIds (direct p sid) = HasNoDash p × HasNoDash sid
HasPlainIds (member p cid sid) = HasNoDash p × HasNoDash cid × HasNoDash sid
HasPlainIds (topic p cid tid) = HasNoDash p × HasNoDash cid × HasNoDash tid

segments-key_of : (s : Session) → HasPlainIds s → segments (key_of s) ≡ fields s
unfolding key_of fields HasPlainIds
segments-key_of (direct p sid) h =
    segments-dash p _ h.0
    ∙ ap (◌∷◌ p)
        (segments-dash (lit "dm") sid (omega arith) ∙ ap (◌∷◌ (lit "dm")) (segments-last sid h.1))
segments-key_of (member p cid sid) h =
    segments-dash p _ h.0
    ∙ ap (◌∷◌ p) (
        segments-dash (lit "grp") _ (omega arith)
        ∙ ap (◌∷◌ (lit "grp")) (segments-dash cid sid h.1 ∙ ap (◌∷◌ cid) (segments-last sid h.2)))
segments-key_of (topic p cid sid) h =
    segments-dash p _ h.0
    ∙ ap (◌∷◌ p) (
        segments-dash (lit "tpc") _ (omega arith)
        ∙ ap (◌∷◌ (lit "tpc")) (segments-dash cid sid h.1 ∙ ap (◌∷◌ cid) (segments-last sid h.2)))

abbrev kind_letter : List Text → ℕ
kind_letter (a ∷ (c ∷ s) ∷ l) = c
kind_letter l = 0

fields_injective : (s t : Session) → fields s ≡ fields t → s ≡ t
unfolding fields
fields_injective (direct p a) (direct q b) h = cc
fields_injective (direct p a) (member q b c) h = cc
fields_injective (direct p a) (topic q b c) h = cc
fields_injective (member p a b) (direct q c) h = cc
fields_injective (member p a b) (member q c d) h = cc
fields_injective (member p a b) (topic q c d) h = absurd (omega (arith, ap kind_letter h))
fields_injective (topic p a b) (direct q c) h = cc
fields_injective (topic p a b) (member q c d) h = absurd (omega (arith, ap kind_letter h))
fields_injective (topic p a b) (topic q c d) h = cc

strategy_for-key_of :
    (p : Platform) (type : ChannelType) (t : Option Text) (cid sid : Text)
    → strategy_for p type t cid sid ≡ key_of (session_in p type t cid sid)
unfolding strategy_for key_of session_in
strategy_for-key_of p dm t cid sid = refl
strategy_for-key_of p thread none cid sid = refl
strategy_for-key_of p thread (some t) cid sid = refl
strategy_for-key_of p group t cid sid = refl

session_in-HasPlainIds :
    (p : Platform) (type : ChannelType) (t : Option Text) (cid sid : Text)
    → HasNoDash p
    → HasNoDash cid
    → HasNoDash sid
    → HasPlainIds (session_in p type t cid sid)
unfolding session_in HasPlainIds
session_in-HasPlainIds p dm t cid sid g h k = (g, k)
session_in-HasPlainIds p thread none cid sid g h k = (g, h, k)
session_in-HasPlainIds p thread (some t) cid sid g h k = (g, h, sanitize-HasNoDash t)
session_in-HasPlainIds p group t cid sid g h k = (g, h, k)

default_strategy-key_of : (e : MessageEvent) → default_strategy e ≡ key_of (session_of e)
unfolding default_strategy session_of
default_strategy-key_of e = strategy_for-key_of e.platform e.channel.type e.channel.topic_id _ _

session_of-HasPlainIds : (e : MessageEvent) → HasNoDash e.platform → HasPlainIds (session_of e)
unfolding session_of
session_of-HasPlainIds e g =
    session_in-HasPlainIds e.platform e.channel.type e.channel.topic_id _ _ g
      (sanitize-HasNoDash e.channel.id) (sanitize-HasNoDash e.sender_id)

-- Two events of platforms without a `-` in their names get one agent id exactly when their sessions
-- agree: the same platform, the same kind of session, and the same ids up to `-` read as `_`.
pub default_strategy-eq_iff :
    (e f : MessageEvent)
    → HasNoDash e.platform
    → HasNoDash f.platform
    → (default_strategy e ≡ default_strategy f) ↔ (session_of e ≡ session_of f)
default_strategy-eq_iff e f pe pf = (
  λ h. fields_injective (session_of e) (session_of f) (
      sym (segments-key_of (session_of e) (session_of-HasPlainIds e pe))
      ∙ ap segments (sym (default_strategy-key_of e) ∙ h ∙ default_strategy-key_of f)
      ∙ segments-key_of (session_of f) (session_of-HasPlainIds f pf)),
  λ h. default_strategy-key_of e ∙ ap key_of h ∙ sym (default_strategy-key_of f),
)
