-- ===== src/KeySet/Teams.antt =====
-- packages/gateway-teams/src/published-key-set.ts: one published key set. `label` and `url` name it in
-- what the lookups are told.
pub mod Paced
pub mod Told
use theokit_gateways.Prelude.{
  ℕ, ◌+◌, ◌-◌, Bool, true, false, not, ◌&&◌, ◌||◌, ◌⊎◌, inl, inr, Option, none, some, List, [], ◌∷◌,
  ◌++◌, length, leb, ltb, ◌==◌, if◌then◌else◌,
}
use theokit_gateways.Js.{Text, lit, Text-discrete}
use theokit_gateways.JsMap.{get}
use theokit_gateways.KeySet.{
  Entry, Phase, idle, fetching, fetched, is_idle, Answer, found, unlisted, unavailable, Waiter,
  Answered, find_waiter, drop_waiter, may_resume, add_keys,
}

abbrev pub key_set_read_interval_ms : ℕ
key_set_read_interval_ms = 10000

abbrev pub key_set_max_age_ms : ℕ
key_set_max_age_ms = 3600000

abbrev pub max_keys_per_set : ℕ
max_keys_per_set = 1000

-- `PublishedKey`.
pub record PublishedKey (K : Type 0) : Type 0 where
  pub public_key : K
  pub endorsements : Option (List Text)

-- An entry's key, and its `endorsements` when they are an array, of strings and of other values.
pub record Material (J : Type 0) : Type 0 where
  pub jwk : J
  pub endorsements : Option (List (Option Text))

-- What a request for the document brings: a time-out or another error, of the request or its body, by
-- its class and code; a status that is not ok, in decimals; a body that is too large or is not JSON; a
-- document, by its `keys` when they are an array; or an error that `readKeySet` does not catch.
pub data Response (J : Type 0) : Type 0 where
  timed_out : Response J
  request_failed : Text → Response J
  not_ok : Text → Response J
  too_large : Response J
  not_json : Response J
  document : Option (List (Entry (Material J))) → Response J
  threw : Text → Response J

-- The variables of `keySet`. Times are `none` for minus infinity. Of the world outside: the lookups
-- that wait, the starts and ends of reads, newest first, and the lookups answered, newest first.
pub data Mark : Type 0 where
  began : ℕ → Mark
  ended : ℕ → Mark

pub record State (K : Type 0) : Type 0 where
  pub held : Option (List (Text × PublishedKey K))
  pub read_at : Option ℕ
  pub next_read_at : Option ℕ
  pub last_failure : Option Text
  pub reading : Phase
  pub waiting : List Waiter
  pub marks : List Mark
  pub answers : List (Answered (PublishedKey K))

-- What happens: a lookup, the answer of a request, the end of a read, each with the clock; and a
-- waiting lookup that goes on.
pub data Event (J : Type 0) : Type 0 where
  asked : ℕ → ℕ → Text → Event J
  answered : Response J → ℕ → Event J
  cleared : ℕ → Event J
  resumed : ℕ → Event J

-- `endorsementsOf`.
unfoldable pub strings : List (Option Text) → List Text
strings [] = []
strings (none ∷ xs) = strings xs
strings (some s ∷ xs) = s ∷ strings xs

unfoldable pub endorsements_of : Option (List (Option Text)) → Option (List Text)
endorsements_of none = none
endorsements_of (some xs) = some (strings xs)

-- `now >= at`.
unfoldable pub is_due : ℕ → Option ℕ → Bool
is_due now none = true
is_due now (some at) = leb at now

-- `now - readAt >= KEY_SET_MAX_AGE_MS`.
unfoldable pub is_old : ℕ → Option ℕ → Bool
is_old now none = true
is_old now (some at) = leb (at + key_set_max_age_ms) now

-- The reads that have started.
unfoldable pub starts : List Mark → ℕ
starts [] = 0
starts (began t ∷ marks) = 1 + starts marks
starts (ended t ∷ marks) = starts marks

module _ {K : Type 0} where
  -- `rsaPublicKey`, behind the test of the `kid`.
  unfoldable pub with_endorsements :
      Option K → Option (List (Option Text)) → Option (PublishedKey K)
  with_endorsements none endorsements = none
  with_endorsements (some key) endorsements =
      some (record { public_key = key; endorsements = endorsements_of endorsements })

  -- The end of `publishedKeys`.
  unfoldable pub usable : List (Text × PublishedKey K) → List (Text × PublishedKey K) ⊎ Text
  usable [] = inr (lit "the document lists no usable RSA key")
  usable (key ∷ keys) = inl (key ∷ keys)

  abbrev pub new : State K
  new = record {
    held = none;
    read_at = none;
    next_read_at = none;
    last_failure = none;
    reading = idle;
    waiting = [];
    marks = [];
    answers = [];
  }

  unfoldable pub listed : Text → Option (List (Text × PublishedKey K)) → Option (PublishedKey K)
  listed kid none = none
  listed kid (some keys) = get Text-discrete kid keys

  unfoldable pub answer : ℕ → Text → Answer (PublishedKey K) → State K → State K
  answer i kid a s = record s { answers = record { id = i; kid = kid; answer = a } ∷ s.answers }

  -- `currentRead`: the read in flight is started if the interval allows one.
  unfoldable pub begin_read : Phase → ℕ → State K → State K
  begin_read idle now s =
      if is_due now s.next_read_at
      then record s { reading = fetching; marks = began now ∷ s.marks }
      else s
  begin_read fetching now s = s
  begin_read fetched now s = s

  unfoldable pub wait : ℕ → Text → State K → State K
  wait i kid s = record s {
    waiting = record { id = i; kid = kid; read = starts s.marks } ∷ s.waiting;
  }

  -- `lookup`, up to its `await` if it comes to one.
  unfoldable pub look_up : ℕ → ℕ → Text → Option (PublishedKey K) → State K → State K
  look_up now i kid (some key) s =
      answer i kid (found key) (if is_old now s.read_at then begin_read s.reading now s else s)
  look_up now i kid none s = wait i kid (begin_read s.reading now s)

  -- `read`, behind `readKeySet`.
  unfoldable pub keep : List (Text × PublishedKey K) ⊎ Text → ℕ → State K → State K
  keep (inl keys) now s = record s {
    last_failure = none;
    held = some keys;
    read_at = some now;
    reading = fetched;
  }
  keep (inr failure) now s = record s { last_failure = some failure; reading = fetched }

  -- The read's `finally`.
  unfoldable pub clear : Phase → ℕ → State K → State K
  clear fetched now s = record s {
    next_read_at = some (now + key_set_read_interval_ms);
    reading = idle;
    marks = ended now ∷ s.marks;
  }
  clear idle now s = s
  clear fetching now s = s

module _ (label url : Text) where
  unfoldable pub why : Option Text → Text
  why none = []
  why (some failure) = lit ": " ++ failure

  -- `keySetUnavailableMessage`.
  unfoldable pub key_set_unavailable_message : Option Text → Text
  key_set_unavailable_message failure =
      lit "the published signing keys could not be read ("
      ++ label
      ++ lit " key set at "
      ++ url
      ++ why failure
      ++ lit "), so the token's signature could not be checked; a retry may succeed"

module _ {K : Type 0} (label url : Text) where
  -- The end of `lookup`, by the key, the failure and whether there is a copy.
  unfoldable pub answer_missing :
      Option (List (Text × PublishedKey K)) → Option Text → Answer (PublishedKey K)
  answer_missing none failure = unavailable (key_set_unavailable_message label url failure)
  answer_missing (some keys) none = unlisted
  answer_missing (some keys) (some failure) =
      unavailable (key_set_unavailable_message label url (some failure))

  unfoldable pub answer_from :
      Text → Option Text → Option (List (Text × PublishedKey K)) → Answer (PublishedKey K)
  answer_from kid failure held = elim (listed kid held) [
    | some key ↦ found key
    | none ↦ answer_missing held failure
  ]

  unfoldable pub resume : Option Waiter → State K → State K
  resume none s = s
  resume (some w) s =
      if may_resume s.reading (starts s.marks) w
      then answer w.id w.kid (answer_from w.kid s.last_failure s.held)
          (record s { waiting = drop_waiter w.id s.waiting })
      else s

module _ {J K : Type 0} (rsa_key : J → Option K) where
  unfoldable pub rsa_public_key : Material J → Option (PublishedKey K)
  rsa_public_key m = with_endorsements (rsa_key m.jwk) m.endorsements

  -- `publishedKeys`.
  unfoldable pub published_keys :
      Option (List (Entry (Material J))) → List (Text × PublishedKey K) ⊎ Text
  published_keys none = inr (lit "the document has no keys array")
  published_keys (some entries) =
      if ltb max_keys_per_set (length entries)
      then inr (lit "the document lists more than 1000 keys")
      else usable (add_keys rsa_public_key entries [])

  -- `readKeySet`, and `keepThrown` for what it does not catch.
  unfoldable pub read_key_set : Response J → List (Text × PublishedKey K) ⊎ Text
  read_key_set timed_out = inr (lit "no answer within 10 s")
  read_key_set (request_failed kind) = inr (lit "the request failed (" ++ kind ++ lit ")")
  read_key_set (not_ok status) = inr (lit "HTTP " ++ status)
  read_key_set too_large = inr (lit "the document is over 8388608 bytes")
  read_key_set not_json = inr (lit "the document is not JSON")
  read_key_set (document entries) = published_keys entries
  read_key_set (threw kind) = inr (lit "the read threw (" ++ kind ++ lit ")")

  unfoldable pub land : Phase → Response J → ℕ → State K → State K
  land fetching response now s = keep (read_key_set response) now s
  land idle response now s = s
  land fetched response now s = s

module _ {J K : Type 0} (rsa_key : J → Option K) (label url : Text) where
  unfoldable pub on_event : Event J → State K → State K
  on_event (asked now i kid) s = look_up now i kid (listed kid s.held) s
  on_event (answered response now) s = land rsa_key s.reading response now s
  on_event (cleared now) s = clear s.reading now s
  on_event (resumed i) s = resume label url (find_waiter i s.waiting) s

  unfoldable pub run : List (Event J) → State K → State K
  run [] s = s
  run (e ∷ es) s = run es (on_event e s)
