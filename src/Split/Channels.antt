-- ===== src/Split/Channels.antt =====
-- The wrappers of `chunkText`: packages/gateway-discord, gateway-slack, gateway-whatsapp,
-- gateway-mattermost and gateway-teams, each src/split.ts.
use theokit_gateways.Prelude.{
  ℕ, ◌≤◌, ◌<◌, ◌/◌, ◌≡◌, refl, Bool, true, false, none, some, List, [], ◌∷◌, length, All, concat,
  ◌==◌, arith,
}
use theokit_gateways.Js.{Text, lit, pos, is_space, is_low_surrogate}
use theokit_gateways.Js.Trim.{visible, IsBlank}
use theokit_gateways.Js.Utf16.{IsWellFormed, IsPlain}
use theokit_gateways.Chunk.{
  ChunkTextOptions, last_boundary, window_edge, Outcome, done, chunk_text, window_number,
}
use theokit_gateways.Chunk.Ends.{HasSizes}
use theokit_gateways.Chunk.Content.{IsTrimmed, chunk_text_content, chunk_text-IsTrimmed}
use theokit_gateways.Chunk.Surrogates.{chunk_text-IsWellFormed}

abbrev pub discord_max_message : ℕ
discord_max_message = 2000

abbrev pub safe_discord_chunk : ℕ
safe_discord_chunk = 1900

abbrev pub slack_max_text : ℕ
slack_max_text = 4000

abbrev pub whatsapp_max_text : ℕ
whatsapp_max_text = 4096

abbrev pub teams_max_text : ℕ
teams_max_text = 8000

abbrev pub mattermost_max_post : ℕ
mattermost_max_post = 16383

abbrev pub mattermost_safe_chunk : ℕ
mattermost_safe_chunk = 16000

-- The class of `/^\n+/`.
unfoldable pub is_newline : ℕ → Bool
is_newline c = c == b'\n'

abbrev pub three_boundaries : List Text
three_boundaries = lit "\n\n" ∷ lit "\n" ∷ lit " " ∷ []

-- The `BOUNDARIES` of Discord, with a limit and a window.
abbrev pub discord_options : ℕ → ℕ → ChunkTextOptions
discord_options limit window = record {
  limit = pos limit;
  safe_limit = some (pos window);
  boundaries = lit "\n\n" ∷ lit "\n" ∷ [];
  last_resort = window_edge;
  surrogate_guard = false;
  strip_class = is_newline;
  trim_parts = false;
}

-- The `BOUNDARIES` of Mattermost, with a limit and a window.
abbrev pub mattermost_options : ℕ → ℕ → ChunkTextOptions
mattermost_options limit window = record {
  limit = pos limit;
  safe_limit = some (pos window);
  boundaries = three_boundaries;
  last_resort = last_boundary;
  surrogate_guard = false;
  strip_class = is_space;
  trim_parts = false;
}

-- The options of Slack, and with `trim_parts` those of WhatsApp and Teams.
abbrev pub slack_options : ℕ → Bool → ChunkTextOptions
slack_options limit trims = record {
  limit = pos limit;
  safe_limit = none;
  boundaries = three_boundaries;
  last_resort = last_boundary;
  surrogate_guard = true;
  strip_class = is_space;
  trim_parts = trims;
}

unfoldable pub split_for_discord : Text → Outcome (List Text)
split_for_discord text = chunk_text text (discord_options discord_max_message safe_discord_chunk)

unfoldable pub split_for_escaped_discord : Text → Outcome (List Text)
split_for_escaped_discord text =
    chunk_text text (discord_options (discord_max_message / 2) (safe_discord_chunk / 2))

unfoldable pub split_for_slack : Text → Outcome (List Text)
split_for_slack text = chunk_text text (slack_options slack_max_text false)

unfoldable pub split_for_whatsapp : Text → Outcome (List Text)
split_for_whatsapp text = chunk_text text (slack_options whatsapp_max_text true)

unfoldable pub split_for_teams : Text → Outcome (List Text)
split_for_teams text = chunk_text text (slack_options teams_max_text true)

unfoldable pub split_for_mattermost : Text → Outcome (List Text)
split_for_mattermost text =
    chunk_text text (mattermost_options mattermost_max_post mattermost_safe_chunk)

unfoldable pub split_for_escaped_mattermost : Text → Outcome (List Text)
split_for_escaped_mattermost text =
    chunk_text text (mattermost_options (mattermost_max_post / 2) (mattermost_safe_chunk / 2))

-- The call returns, each part is at most `limit` long, and the parts hold the visible characters
-- of the text, in order.
abbrev pub Delivers : ℕ → Text → Outcome (List Text) → Type 0
Delivers limit text answer =
    (parts : List Text) × (answer ≡ done parts)
    × All (λ part. length part ≤ limit) parts
    × (visible (concat parts) ≡ visible text)

sizes_given :
    (o : ChunkTextOptions) (limit window : ℕ)
    → o.limit ≡ pos limit
    → o.safe_limit ≡ some (pos window)
    → 0 < window
    → window ≤ limit
    → HasSizes o limit window
unfolding window_number
sizes_given o limit window l w h k = record {
  limit_is = l;
  window_is = rw (w, window_number);
  window_positive = h;
  window_fits = k;
}

sizes_default :
    (limit : ℕ) (trims : Bool) → 0 < limit → HasSizes (slack_options limit trims) limit limit
unfolding window_number
sizes_default limit trims h = record {
  limit_is = refl;
  window_is = refl;
  window_positive = h;
  window_fits = omega arith;
}

is_newline-IsBlank : IsBlank is_newline
unfolding is_newline is_space
is_newline-IsBlank c h = ground arith

is_space-IsBlank : IsBlank is_space
is_space-IsBlank c h = h

-- Every wrapper returns parts within its platform's limit that hold every visible character of the
-- reply, in order: 2000 and 1000 for Discord, 4000 for Slack, 4096 for WhatsApp, 8000 for Teams,
-- 16383 and 8191 for Mattermost.
pub wrappers-Delivers :
    (text : Text)
    → Delivers 2000 text (split_for_discord text)
      × Delivers 1000 text (split_for_escaped_discord text)
      × Delivers 4000 text (split_for_slack text)
      × Delivers 4096 text (split_for_whatsapp text)
      × Delivers 8000 text (split_for_teams text)
      × Delivers 16383 text (split_for_mattermost text)
      × Delivers 8191 text (split_for_escaped_mattermost text)
unfolding split_for_discord split_for_escaped_discord split_for_slack split_for_whatsapp
    split_for_teams split_for_mattermost split_for_escaped_mattermost
wrappers-Delivers text = (
  chunk_text_content text (discord_options 2000 1900) 2000 1900
      (sizes_given _ 2000 1900 refl refl (omega arith) (omega arith)) is_newline-IsBlank,
  chunk_text_content text (discord_options 1000 950) 1000 950
      (sizes_given _ 1000 950 refl refl (omega arith) (omega arith)) is_newline-IsBlank,
  chunk_text_content text (slack_options 4000 false) 4000 4000
      (sizes_default 4000 false (omega arith)) is_space-IsBlank,
  chunk_text_content text (slack_options 4096 true) 4096 4096
      (sizes_default 4096 true (omega arith)) is_space-IsBlank,
  chunk_text_content text (slack_options 8000 true) 8000 8000
      (sizes_default 8000 true (omega arith)) is_space-IsBlank,
  chunk_text_content text (mattermost_options 16383 16000) 16383 16000
      (sizes_given _ 16383 16000 refl refl (omega arith) (omega arith)) is_space-IsBlank,
  chunk_text_content text (mattermost_options 8191 8000) 8191 8000
      (sizes_given _ 8191 8000 refl refl (omega arith) (omega arith)) is_space-IsBlank,
)

-- WhatsApp and Teams get no empty part and no part with white space at an end.
trimming_wrappers :
    (text : Text)
    → ((parts : List Text) × (split_for_whatsapp text ≡ done parts) × All (IsTrimmed 4096) parts)
      × ((parts : List Text) × (split_for_teams text ≡ done parts) × All (IsTrimmed 8000) parts)
unfolding split_for_whatsapp split_for_teams
trimming_wrappers text = (
  chunk_text-IsTrimmed text (slack_options 4096 true) 4096 4096
      (sizes_default 4096 true (omega arith)) refl,
  chunk_text-IsTrimmed text (slack_options 8000 true) 8000 8000
      (sizes_default 8000 true (omega arith)) refl,
)

three_boundaries-IsPlain : All IsPlain three_boundaries
unfolding is_low_surrogate
three_boundaries-IsPlain = (refl, (refl, (refl, tt)))

abbrev pub Preserves : Outcome (List Text) → Type 0
Preserves answer = (parts : List Text) × (answer ≡ done parts) × All IsWellFormed parts

slack_options-Preserves :
    (text : Text) (limit : ℕ) (trims : Bool)
    → 2 ≤ limit
    → IsWellFormed text
    → Preserves (chunk_text text (slack_options limit trims))
slack_options-Preserves text limit trims h =
    chunk_text-IsWellFormed text (slack_options limit trims) limit limit
      (sizes_default limit trims (omega arith)) h refl three_boundaries-IsPlain is_space-IsBlank

-- Slack, WhatsApp and Teams get well-formed parts from a well-formed reply.
guarded_wrappers-Preserves :
    (text : Text)
    → IsWellFormed text
    → Preserves (split_for_slack text)
      × Preserves (split_for_whatsapp text)
      × Preserves (split_for_teams text)
unfolding split_for_slack split_for_whatsapp split_for_teams
guarded_wrappers-Preserves text w = (
  slack_options-Preserves text 4000 false (omega arith) w,
  slack_options-Preserves text 4096 true (omega arith) w,
  slack_options-Preserves text 8000 true (omega arith) w,
)
