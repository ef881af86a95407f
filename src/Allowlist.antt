-- ===== src/Allowlist.antt =====
-- packages/gateway-whatsapp/src/allowlist.ts: which senders may reach the handler.
pub mod Closed
pub mod Devices
use theokit_gateways.Prelude.{
  ℕ, Bool, true, false, not, ◌&&◌, ◌||◌, Option, none, some, List, [], ◌∷◌, map, filter, any, leb,
  ◌==◌, if◌then◌else◌,
}
use theokit_gateways.Js.{Text, lit, str_eq, is_nonempty, trim, split_on}

-- `WILDCARD`.
abbrev pub wildcard : Text
wildcard = lit "*"

-- The text from its first `@` on.
unfoldable pub from_at : Text → Option Text
from_at [] = none
from_at (c ∷ cs) = let rest = from_at cs in if c == b'@' then some (c ∷ cs) else rest

-- What a match of the device suffix leaves: it begins at the first `:` and needs an `@` behind it.
unfoldable pub cut_device : Text → Option Text → Text
cut_device whole none = whole
cut_device whole (some rest) = rest

-- `value.replace(/:[^@]*(?=@)/, "")`.
unfoldable pub without_device : Text → Text
without_device [] = []
without_device (c ∷ cs) =
    let rest = without_device cs in if c == b':' then cut_device (c ∷ cs) (from_at cs) else c ∷ rest

-- The characters that `.` does not match.
unfoldable pub is_line_end : ℕ → Bool
is_line_end c = c == 10 || c == 13 || c == 8232 || c == 8233

-- `withoutDevice.replace(/@.*$/, "")`.
unfoldable pub without_domain : Text → Text
without_domain [] = []
without_domain (c ∷ cs) =
    let rest = without_domain cs in if c == b'@' && not (any is_line_end cs) then [] else c ∷ rest

unfoldable pub is_digit : ℕ → Bool
is_digit c = leb b'0' c && leb c b'9'

-- `normalizeWhatsAppId`.
unfoldable pub normalize_whats_app_id : Text → Text
normalize_whats_app_id value = filter is_digit (without_domain (without_device value))

-- `raw.split(",")`.
unfoldable pub split_commas : Text → List Text
split_commas raw = split_on b',' raw

-- An entry, trimmed, as it is kept.
unfoldable pub normalize_entry : Text → Text
normalize_entry entry = if str_eq entry wildcard then wildcard else normalize_whats_app_id entry

-- `raw ?? ""`.
unfoldable pub raw_text : Option Text → Text
raw_text none = []
raw_text (some raw) = raw

-- `parseAllowedSenders`: the entries of the set, in order.
unfoldable pub parse_allowed_senders : Option Text → List Text
parse_allowed_senders raw =
    filter is_nonempty (map normalize_entry (map trim (split_commas (raw_text raw))))

-- `allowed.size !== 0`.
unfoldable pub has_entries : List Text → Bool
has_entries [] = false
has_entries (a ∷ rest) = true

-- `isSenderAllowed`.
unfoldable pub is_sender_allowed : Text → List Text → Bool
is_sender_allowed sender_id allowed =
    let normalized = normalize_whats_app_id sender_id in
    is_nonempty normalized
    && has_entries allowed
    && (any (str_eq wildcard) allowed || any (str_eq normalized) allowed)
