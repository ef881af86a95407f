-- ===== src/KeySet/Google.antt =====
-- packages/gateway-google-chat/src/key-set.ts: Google's keys, held as long as the response says. `url`
-- is where they are.
pub mod Reads
pub mod Copy
pub mod Told
use theokit_gateways.Prelude.{
  ℕ, ◌+◌, ◌*◌, ◌-◌, Bool, true, false, not, ◌&&◌, ◌||◌, ◌⊎◌, inl, inr, Option, none, some, List, [],
  ◌∷◌, ◌++◌, length, drop, leb, ltb, ◌==◌, if◌then◌else◌,
}
use theokit_gateways.Js.{
  Text, lit, is_space, is_nonempty, strip_leading, starts_with, Text-discrete,
}
use theokit_gateways.JsMap.{get}
use theokit_gateways.KeySet.{
  Entry, Phase, idle, fetching, fetched, is_idle, Answer, found, unlisted, unavailable, Waiter,
  Answered, find_waiter, drop_waiter, may_resume, add_keys,
}

-- `UNKNOWN_KID_REFETCH_FLOOR_MS`.
abbrev pub unknown_kid_refetch_floor_ms : ℕ
unknown_kid_refetch_floor_ms = 60000

-- `Held`.
pub record Held (K : Type 0) : Type 0 where
  pub keys : List (Text × K)
  pub fresh_until : ℕ

-- What a request for the keys brings: an error by its name, a status that is not ok, in decimals, a body that is
-- not JSON, or a document, by its `keys` when they are an array, with its `Cache-Control`.
pub data Response (J : Type 0) : Type 0 where
  request_failed : Text → Response J
  not_ok : Text → Response J
  not_json : Response J
  document : Option (List (Entry J)) → Option Text → Response J

-- The variables of `googleKeySet`. `last_read_started_at` is `none` for minus infinity. Of the world
-- outside: the lookups that wait, the times at which reads started, newest first, and the lookups
-- answered, newest first.
pub record State (K : Type 0) : Type 0 where
  pub held : Option (Held K)
  pub last_read_started_at : Option ℕ
  pub reading : Phase
  pub last_failure : Text
  pub waiting : List Waiter
  pub reads : List ℕ
  pub answers : List (Answered K)

-- What happens: a lookup, with the clock at its start and where it may start a read; the answer of a
-- request, with the clock; the end of the read; and a waiting lookup that goes on.
pub data Event (J : Type 0) : Type 0 where
  asked : ℕ → ℕ → ℕ → Text → Event J
  answered : Response J → ℕ → Event J
  cleared : Event J
  resumed : ℕ → Event J

unfoldable pub is_digit : ℕ → Bool
is_digit c = leb 48 c && leb c 57

unfoldable pub digits : Text → Text
digits [] = []
digits (c ∷ s) = let rest = digits s in if is_digit c then c ∷ rest else []

-- `Number` of decimal digits, exact below 2 ^ 53.
unfoldable pub number_of : ℕ → Text → ℕ
number_of n [] = n
number_of n (c ∷ s) = number_of (n * 10 + (c - 48)) s

-- A character as a pattern's `i` flag reads it, among those of "max-age=".
unfoldable pub lower : ℕ → ℕ
lower c = if leb 65 c && leb c 90 then c + 32 else c

unfoldable pub lower_all : Text → Text
lower_all [] = []
lower_all (c ∷ s) = lower c ∷ lower_all s

-- `\s*max-age=(\d+)` at the start of the text.
unfoldable pub max_age_here : Text → Option ℕ
max_age_here s =
    let t = strip_leading is_space s in
    if starts_with (lower_all t) (lit "max-age=") && is_nonempty (digits (drop 8 t))
    then some (number_of 0 (digits (drop 8 t)))
    else none

-- `/(?:^|,)\s*max-age=(\d+)/i.exec(…)`, behind the start of the text: the first comma that fits.
unfoldable pub max_age_after : Text → Option ℕ
max_age_after [] = none
max_age_after (c ∷ s) =
    let rest = max_age_after s in
    if c == 44 then elim (max_age_here s) [ none ↦ rest | some n ↦ some n ] else rest

unfoldable pub max_age : Text → Option ℕ
max_age s = elim (max_age_here s) [ none ↦ max_age_after s | some n ↦ some n ]

-- `maxAgeMs`.
unfoldable pub max_age_ms : Option Text → ℕ
max_age_ms none = 0
max_age_ms (some s) = elim (max_age s) [ none ↦ 0 | some n ↦ n * 1000 ]

-- The first read, or one that waited out the floor.
unfoldable pub may_read : ℕ → Option ℕ → Bool
may_read now none = true
may_read now (some last) = leb (last + unknown_kid_refetch_floor_ms) now

module _ {K : Type 0} where
  -- The end of `readKeySet`.
  unfoldable pub held_of : List (Text × K) → Option Text → ℕ → Held K ⊎ Text
  held_of [] header now = inr (lit "the document lists no usable RSA key")
  held_of (key ∷ keys) header now =
      inl (record { keys = key ∷ keys; fresh_until = now + max_age_ms header })

  abbrev pub new : State K
  new = record {
    held = none;
    last_read_started_at = none;
    reading = idle;
    last_failure = lit "no read has completed";
    waiting = [];
    reads = [];
    answers = [];
  }

  -- The key that a fresh copy has.
  unfoldable pub fresh_key : ℕ → Text → Option (Held K) → Option K
  fresh_key now kid none = none
  fresh_key now kid (some h) = if ltb now h.fresh_until then get Text-discrete kid h.keys else none

  unfoldable pub answer : ℕ → Text → Answer K → State K → State K
  answer i kid a s = record s { answers = record { id = i; kid = kid; answer = a } ∷ s.answers }

  -- `read`, up to its first `await`.
  unfoldable pub read : ℕ → Phase → State K → State K
  read started idle s = record s {
    last_read_started_at = some started;
    reading = fetching;
    reads = started ∷ s.reads;
  }
  read started fetching s = s
  read started fetched s = s

  unfoldable pub wait : ℕ → Text → State K → State K
  wait i kid s = record s {
    waiting = record { id = i; kid = kid; read = length s.reads } ∷ s.waiting;
  }

  -- The read's outcome.
  unfoldable pub keep : Held K ⊎ Text → State K → State K
  keep (inl h) s = record s { held = some h; reading = fetched }
  keep (inr failure) s = record s { last_failure = failure; reading = fetched }

  unfoldable pub clear : Phase → State K → State K
  clear fetched s = record s { reading = idle }
  clear idle s = s
  clear fetching s = s

module _ {K : Type 0} (url : Text) where
  -- What a lookup is told once no read is to be awaited.
  unfoldable pub answer_from : Text → Text → Option (Held K) → Answer K
  answer_from kid failure none =
      unavailable (lit "Google's key set at " ++ url ++ lit " could not be read: " ++ failure)
  answer_from kid failure (some h) = elim (get Text-discrete kid h.keys) [
    | none ↦ unlisted
    | some key ↦ found key
  ]

  -- `forKid` behind the test of a fresh copy, up to its `await` if it comes to one.
  unfoldable pub ask_stale : ℕ → ℕ → ℕ → Text → State K → State K
  ask_stale now started i kid s =
      if may_read now s.last_read_started_at || not (is_idle s.reading)
      then wait i kid (read started s.reading s)
      else answer i kid (answer_from kid s.last_failure s.held) s

  unfoldable pub for_kid : ℕ → ℕ → ℕ → Text → Option K → State K → State K
  for_kid now started i kid (some key) s = answer i kid (found key) s
  for_kid now started i kid none s = ask_stale now started i kid s

  -- The end of `forKid`, of a lookup that waited.
  unfoldable pub resume : Option Waiter → State K → State K
  resume none s = s
  resume (some w) s =
      if may_resume s.reading (length s.reads) w
      then answer w.id w.kid (answer_from w.kid s.last_failure s.held)
          (record s { waiting = drop_waiter w.id s.waiting })
      else s

module _ {J K : Type 0} (rsa_key : J → Option K) where
  -- `rsaKeys`.
  unfoldable pub rsa_keys : Option (List (Entry J)) → List (Text × K)
  rsa_keys none = []
  rsa_keys (some entries) = add_keys rsa_key entries []

  unfoldable pub read_key_set : Response J → ℕ → Held K ⊎ Text
  read_key_set (request_failed name) now = inr (lit "the request failed (" ++ name ++ lit ")")
  read_key_set (not_ok status) now = inr (lit "HTTP " ++ status)
  read_key_set not_json now = inr (lit "the document is not JSON")
  read_key_set (document entries header) now = held_of (rsa_keys entries) header now

  unfoldable pub land : Phase → Response J → ℕ → State K → State K
  land fetching response now s = keep (read_key_set response now) s
  land idle response now s = s
  land fetched response now s = s

module _ {J K : Type 0} (rsa_key : J → Option K) (url : Text) where
  unfoldable pub on_event : Event J → State K → State K
  on_event (asked now started i kid) s = for_kid url now started i kid (fresh_key now kid s.held) s
  on_event (answered response now) s = land rsa_key s.reading response now s
  on_event cleared s = clear s.reading s
  on_event (resumed i) s = resume url (find_waiter i s.waiting) s

  unfoldable pub run : List (Event J) → State K → State K
  run [] s = s
  run (e ∷ es) s = run es (on_event e s)
