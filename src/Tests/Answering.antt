-- ===== src/Tests/Answering.antt =====
-- Runs of the mention filters, and their theorem at a concrete input.
use theokit_gateways.Prelude.{◌≡◌, ◌≢◌, ◌↔◌, ◌⊎◌, refl, true, false, some, none, [], ◌∷◌}
use theokit_gateways.Js.{lit, str_eq, starts_with, is_nonempty}
use theokit_gateways.Event.{group}
use theokit_gateways.Filters.{
  ShouldRespondOptions, should_respond, is_dm, is_mentioned, has_mention_with_boundary,
  mention_from, is_word, ends_name, read_bot_mention, mentioned, is_text,
}
use theokit_gateways.Filters.Mentions.{Mentions, should_respond_iff}

abbrev post : ShouldRespondOptions
post = record {
  user_id = lit "u1";
  message = lit "hi @theo";
  mentions = none;
  channel_type = group;
  bot_user_id = lit "b1";
  bot_username = lit "theo";
  require_mention = true;
}

should_respond_iff_example : (should_respond post ≡ true) ↔ (
    (lit "u1" ≢ lit "b1")
    × ((is_dm group ≡ true)
        ⊎ ((true ≡ false)
            ⊎ ((is_mentioned none (lit "b1") ≡ true)
                ⊎ ((is_nonempty (lit "theo") ≡ true)
                    × Mentions false (lit "hi @theo") (lit "theo"))))))
should_respond_iff_example = should_respond_iff post

at_word_end : has_mention_with_boundary (lit "@theory, @theo!") (lit "theo") ≡ true
unfolding has_mention_with_boundary mention_from is_word ends_name starts_with
at_word_end = refl

inside_word : has_mention_with_boundary (lit "@theory") (lit "theo") ≡ false
unfolding has_mention_with_boundary mention_from is_word ends_name starts_with
inside_word = refl

-- A dot behind the name, as at the end of a sentence.
dot_behind : should_respond (record post { message = lit "hi @theo." }) ≡ false
unfolding should_respond is_dm is_mentioned is_nonempty str_eq has_mention_with_boundary
    mention_from is_word ends_name starts_with
dot_behind = refl

named_in_entity :
    read_bot_mention
      (some (lit "b1"))
      (record { type = some (lit "mention"); mentioned = some (lit "b1") } ∷ [])
    ≡ mentioned
unfolding read_bot_mention is_text str_eq
named_in_entity = refl
