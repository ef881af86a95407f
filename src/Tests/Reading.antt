-- ===== src/Tests/Reading.antt =====
-- Runs of the allowlist and of the IRC line parser, and their theorems at concrete inputs.
use theokit_gateways.Prelude.{◌≡◌, ◌↔◌, refl, true, some, [], ◌∷◌}
use theokit_gateways.Js.{lit, is_nonempty, index_from, starts_with, trim_start}
use theokit_gateways.Allowlist.{
  parse_allowed_senders, is_sender_allowed, normalize_whats_app_id, split_commas, raw_text,
}
use theokit_gateways.Allowlist.Closed.{Admits, is_sender_allowed_iff}
use theokit_gateways.Irc.{
  params_of, parse_irc_line, after_tags, split_command, command_at, finish_line, prefix_at,
  params_loop, add_param,
}
use theokit_gateways.Irc.Params.{middle, params_of-written}

is_sender_allowed_iff_example :
    (is_sender_allowed (lit "551:2@s") (parse_allowed_senders (some (lit "+551, 77"))) ≡ true) ↔ (
      (is_nonempty (normalize_whats_app_id (lit "551:2@s")) ≡ true)
      × Admits (lit "551:2@s") (split_commas (raw_text (some (lit "+551, 77")))))
is_sender_allowed_iff_example = is_sender_allowed_iff (lit "551:2@s") (some (lit "+551, 77"))

params_of-written_example :
    params_of (lit "#a x :hi: there") ≡ lit "#a" ∷ lit "x" ∷ lit "hi: there" ∷ []
params_of-written_example =
    params_of-written (lit "#a" ∷ lit "x" ∷ []) (lit "hi: there")
      (middle refl refl, (middle refl refl, tt))

-- A line with a prefix.
parsed :
    parse_irc_line (λ t. t) (lit ":ana!u@h PRIVMSG #a :hi")
    ≡ some (record {
      tags = [];
      prefix = some (lit "ana!u@h");
      command = lit "PRIVMSG";
      params = lit "#a" ∷ lit "hi" ∷ [];
    })
unfolding parse_irc_line starts_with after_tags prefix_at index_from finish_line split_command
    command_at trim_start params_of params_loop add_param
parsed = refl
