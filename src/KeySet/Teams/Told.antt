-- ===== src/KeySet/Teams/Told.antt =====
-- What the lookups of KeySet/Teams.antt are told while reads fail.
use theokit_gateways.Prelude.{
  ℕ, ◌+◌, ◌≡◌, refl, inl, inr, Bool, true, false, ◌⊎◌, Option, none, some, List, [], ◌∷◌, All,
  Bool-cases, arith,
}
use theokit_gateways.Js.{Text}
use theokit_gateways.KeySet.{
  Phase, idle, fetching, fetched, Answer, found, unlisted, unavailable, Answered, Waiter,
  may_resume, find_waiter,
}
use theokit_gateways.KeySet.Teams.{
  PublishedKey, State, Event, asked, answered, cleared, resumed, is_due, is_old, starts, listed,
  begin_read, look_up, keep, land, clear, resume, answer, answer_missing, answer_from, wait,
  on_event, run, read_key_set,
}

-- The answers that the key is not listed.
abbrev pub final : {K : Type 0} → Answer K → ℕ
final (found key) = 0
final unlisted = 1
final (unavailable why) = 0

abbrev pub finals : {K : Type 0} → List (Answered K) → ℕ
finals [] = 0
finals (a ∷ answers) = final a.answer + finals answers

-- Does the latest outcome, if there is one, fail?
abbrev pub has_failed : {A : Type 0} → Option A → Option Text → Bool
has_failed none failure = true
has_failed (some copy) none = false
has_failed (some copy) (some failure) = true

abbrev pub is_failure : {A : Type 0} → A ⊎ Text → Bool
is_failure (inl a) = false
is_failure (inr failure) = true

module _ {K : Type 0} where
  -- The latest read failed, the copy is the one before, and no lookup more was told `unlisted`.
  abbrev Failing : Option (List (Text × PublishedKey K)) → ℕ → State K → Type 0
  Failing copy n s =
      (has_failed s.held s.last_failure ≡ true) × (s.held ≡ copy) × (finals s.answers ≡ n)

  begin_read-Failing :
      (copy : Option (List (Text × PublishedKey K))) (n : ℕ) (phase : Phase) (now : ℕ) (s : State K)
      → Failing copy n s
      → Failing copy n (begin_read phase now s)
  unfolding begin_read
  begin_read-Failing copy n idle now s v = elim (Bool-cases (is_due now s.next_read_at)) [
    | inl yes_ ↦ rw yes_ v
    | inr no_ ↦ rw no_ v
  ]
  begin_read-Failing copy n fetching now s v = v
  begin_read-Failing copy n fetched now s v = v

  look_up-Failing :
      (copy : Option (List (Text × PublishedKey K))) (n now i : ℕ) (kid : Text)
      (k : Option (PublishedKey K)) (s : State K)
      → Failing copy n s
      → Failing copy n (look_up now i kid k s)
  unfolding look_up wait answer
  look_up-Failing copy n now i kid none s v = begin_read-Failing copy n s.reading now s v
  look_up-Failing copy n now i kid (some key) s v = elim (Bool-cases (is_old now s.read_at)) [
    | inl yes_ ↦
        let (failed, kept, few) = begin_read-Failing copy n s.reading now s v in
        rw yes_ (failed, kept, omega (arith, few))
    | inr no_ ↦ rw no_ (v.0, v.1, omega (arith, v.2))
  ]

  clear-Failing :
      (copy : Option (List (Text × PublishedKey K))) (n : ℕ) (phase : Phase) (now : ℕ) (s : State K)
      → Failing copy n s
      → Failing copy n (clear phase now s)
  unfolding clear
  clear-Failing copy n idle now s v = v
  clear-Failing copy n fetching now s v = v
  clear-Failing copy n fetched now s v = v

  failed_copy :
      (held : Option (List (Text × PublishedKey K))) (why : Text)
      → has_failed held (some why) ≡ true
  failed_copy none why = refl
  failed_copy (some keys) why = refl

  keep-Failing :
      (copy : Option (List (Text × PublishedKey K))) (n : ℕ)
      (r : List (Text × PublishedKey K) ⊎ Text) (now : ℕ) (s : State K)
      → is_failure r ≡ true
      → Failing copy n s
      → Failing copy n (keep r now s)
  unfolding keep
  keep-Failing copy n (inl keys) now s h v = absurd (ground (arith, h))
  keep-Failing copy n (inr why) now s h v = (failed_copy s.held why, v.1, v.2)

  final-answer_missing :
      (label url : Text) (held : Option (List (Text × PublishedKey K))) (failure : Option Text)
      → has_failed held failure ≡ true
      → final (answer_missing label url held failure) ≡ 0
  unfolding answer_missing
  final-answer_missing label url none failure h = refl
  final-answer_missing label url (some keys) none h = ground (arith, h)
  final-answer_missing label url (some keys) (some why) h = refl

  final-answer_from :
      (label url kid : Text) (held : Option (List (Text × PublishedKey K))) (failure : Option Text)
      → has_failed held failure ≡ true
      → final (answer_from label url kid failure held) ≡ 0
  unfolding answer_from
  final-answer_from label url kid held failure h = go (listed kid held)
    where
      go :
          (k : Option (PublishedKey K))
          → final (elim k [ some key ↦ found key | none ↦ answer_missing label url held failure ])
            ≡ 0
      go (some key) = refl
      go none = final-answer_missing label url held failure h

  resume-Failing :
      (copy : Option (List (Text × PublishedKey K))) (n : ℕ) (label url : Text) (w : Option Waiter)
      (s : State K)
      → Failing copy n s
      → Failing copy n (resume label url w s)
  unfolding resume answer
  resume-Failing copy n label url none s v = v
  resume-Failing copy n label url (some w) s v =
      elim (Bool-cases (may_resume s.reading (starts s.marks) w)) [
        | inl yes_ ↦
            rw (yes_, resume)
              (
                v.0,
                v.1,
                omega (arith, v.2, final-answer_from label url w.kid s.held s.last_failure v.0),
              )
        | inr no_ ↦ rw (no_, resume) v
      ]

module _ {J K : Type 0} (rsa_key : J → Option K) (label url : Text) where
  -- What a read brings is no key set.
  abbrev pub Fails : Event J → Type 0
  Fails (asked now i kid) = Unit
  Fails (answered response now) = is_failure (read_key_set rsa_key response) ≡ true
  Fails (cleared now) = Unit
  Fails (resumed i) = Unit

  on_event-Failing :
      (copy : Option (List (Text × PublishedKey K))) (n : ℕ) (e : Event J) (s : State K)
      → Fails e
      → Failing copy n s
      → Failing copy n (on_event rsa_key label url e s)
  unfolding on_event land
  on_event-Failing copy n (asked now i kid) s f v =
      look_up-Failing copy n now i kid (listed kid s.held) s v
  on_event-Failing copy n (answered response now) s f v = go s.reading
    where
      go : (phase : Phase) → Failing copy n (land rsa_key phase response now s)
      go idle = v
      go fetching = keep-Failing copy n (read_key_set rsa_key response) now s f v
      go fetched = v
  on_event-Failing copy n (cleared now) s f v = clear-Failing copy n s.reading now s v
  on_event-Failing copy n (resumed i) s f v =
      resume-Failing copy n label url (find_waiter i s.waiting) s v

  -- While every read fails, from a set that was not read yet or whose latest read failed, the copy
  -- stays as it was, and no lookup is told that its key is unlisted.
  pub unlisted_needs_success :
      (es : List (Event J)) (s : State K)
      → All Fails es
      → has_failed s.held s.last_failure ≡ true
      → ((run rsa_key label url es s).held ≡ s.held)
        × (finals (run rsa_key label url es s).answers ≡ finals s.answers)
  unfolding run
  unlisted_needs_success es s f h = let (_, kept, few) = go es s f (h, refl, refl) in (kept, few)
    where
      go :
          (es : List (Event J)) (t : State K)
          → All Fails es
          → Failing s.held (finals s.answers) t
          → Failing s.held (finals s.answers) (run rsa_key label url es t)
      go [] t f v = v
      go (e ∷ es) t f v =
          go es (on_event rsa_key label url e t) f.1
            (on_event-Failing s.held (finals s.answers) e t f.0 v)
