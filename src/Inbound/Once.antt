-- ===== src/Inbound/Once.antt =====
-- The lines that Inbound.antt writes to stderr about foreign numbers.
use theokit_gateways.Prelude.{◌≡◌, false, List, [], ◌∷◌, ◌++◌, any}
use theokit_gateways.Js.{Text, str_eq}
use theokit_gateways.Inbound.{LogLine, refused_sender, another_number, no_bot_phone_id, Log}

-- The labels of the lines about foreign numbers.
abbrev pub label_of : LogLine → List Text
label_of (refused_sender who) = []
label_of (another_number other own) = other ∷ []
label_of no_bot_phone_id = []

abbrev pub labels : List LogLine → List Text
labels [] = []
labels (line ∷ lines) = label_of line ++ labels lines

-- No text of the list is among those in front of it, nor among `before`.
abbrev pub Fresh : List Text → List Text → Type 0
Fresh before [] = Unit
Fresh before (x ∷ xs) = (any (str_eq x) before ≡ false) × Fresh (before ++ x ∷ []) xs

-- The lines are about the labels reported, each of which was reported once.
abbrev IsTidy : Log → Type 0
IsTidy log = (labels log.stderr ≡ log.reported) × Fresh [] log.reported
