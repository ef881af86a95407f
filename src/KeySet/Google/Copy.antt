-- ===== src/KeySet/Google/Copy.antt =====
-- An induction over the events of KeySet/Google.antt, for what only looks at the copy and the answers.
use theokit_gateways.Prelude.{
  ℕ, ◌≡◌, refl, subst, inl, inr, not, ◌||◌, ◌⊎◌, Option, none, some, List, [], ◌∷◌, length, ltb,
  Bool-cases, All, arith,
}
use theokit_gateways.Js.{Text}
use theokit_gateways.KeySet.{
  Phase, idle, fetching, fetched, is_idle, found, Answered, Waiter, may_resume, find_waiter,
}
use theokit_gateways.KeySet.Google.{
  Held, Response, State, Event, asked, answered, cleared, resumed, may_read, fresh_key, read,
  ask_stale, for_kid, keep, land, clear, resume, on_event, run, read_key_set, answer, answer_from,
  wait,
}

module _ {K : Type 0} (url : Text) where
  -- A fresh copy is asked as any copy is.
  fresh_key-answer :
      (now : ℕ) (kid failure : Text) (held : Option (Held K)) (key : K)
      → fresh_key now kid held ≡ some key
      → answer_from url kid failure held ≡ found key
  unfolding fresh_key answer_from
  fresh_key-answer now kid failure none key h = ground (arith, h)
  fresh_key-answer now kid failure (some held) key h =
      elim (Bool-cases (ltb now held.fresh_until)) [
        | inl fresh ↦ ground (arith, h, fresh)
        | inr stale ↦ ground (arith, h, stale)
      ]

-- What only looks at the copy and the answers holds after any events, if answers from the copy keep
-- it, and so do documents that are read.
module _ {J K : Type 0} (rsa_key : J → Option K) (url : Text)
    (I : Option (Held K) → List (Answered K) → Type 0) (E : Event J → Type 0)
    (tells : (i : ℕ) (kid failure : Text) (held : Option (Held K)) (answers : List (Answered K))
      → I held answers
      → I held (record { id = i; kid = kid; answer = answer_from url kid failure held } ∷ answers))
    (brings : (response : Response J) (now : ℕ) (held : Option (Held K)) (h : Held K)
        (answers : List (Answered K))
      → E (answered response now)
      → read_key_set rsa_key response now ≡ inl h
      → I held answers
      → I (some h) answers) where
  abbrev Holds : State K → Type 0
  Holds s = I s.held s.answers

  read-Holds :
      (started i : ℕ) (kid : Text) (phase : Phase) (s : State K)
      → Holds s
      → Holds (wait i kid (read started phase s))
  unfolding read wait
  read-Holds started i kid idle s v = v
  read-Holds started i kid fetching s v = v
  read-Holds started i kid fetched s v = v

  ask_stale-Holds :
      (now started i : ℕ) (kid : Text) (s : State K)
      → Holds s
      → Holds (ask_stale url now started i kid s)
  unfolding ask_stale answer
  ask_stale-Holds now started i kid s v =
      elim (Bool-cases (may_read now s.last_read_started_at || not (is_idle s.reading))) [
        | inl yes_ ↦ rw (yes_, ask_stale) (read-Holds started i kid s.reading s v)
        | inr no_ ↦ rw (no_, ask_stale) (tells i kid s.last_failure s.held s.answers v)
      ]

  for_kid-Holds :
      (now started i : ℕ) (kid : Text) (k : Option K) (s : State K)
      → fresh_key now kid s.held ≡ k
      → Holds s
      → Holds (for_kid url now started i kid k s)
  unfolding for_kid answer
  for_kid-Holds now started i kid none s e v = ask_stale-Holds now started i kid s v
  for_kid-Holds now started i kid (some key) s e v =
      subst (λ a. I s.held (record { id = i; kid = kid; answer = a } ∷ s.answers))
        (fresh_key-answer url now kid s.last_failure s.held key e)
        (tells i kid s.last_failure s.held s.answers v)

  land-Holds :
      (phase : Phase) (response : Response J) (now : ℕ) (s : State K)
      → E (answered response now)
      → Holds s
      → Holds (land rsa_key phase response now s)
  unfolding land keep
  land-Holds idle response now s e v = v
  land-Holds fetched response now s e v = v
  land-Holds fetching response now s e v = go (read_key_set rsa_key response now) refl
    where
      go : (r : Held K ⊎ Text) → read_key_set rsa_key response now ≡ r → Holds (keep r s)
      go (inl h) q = brings response now s.held h s.answers e q v
      go (inr failure) q = v

  clear-Holds : (phase : Phase) (s : State K) → Holds s → Holds (clear phase s)
  unfolding clear
  clear-Holds idle s v = v
  clear-Holds fetching s v = v
  clear-Holds fetched s v = v

  resume-Holds : (w : Option Waiter) (s : State K) → Holds s → Holds (resume url w s)
  unfolding resume answer
  resume-Holds none s v = v
  resume-Holds (some w) s v = elim (Bool-cases (may_resume s.reading (length s.reads) w)) [
    | inl yes_ ↦ rw (yes_, resume) (tells w.id w.kid s.last_failure s.held s.answers v)
    | inr no_ ↦ rw (no_, resume) v
  ]

  on_event-Holds : (e : Event J) (s : State K) → E e → Holds s → Holds (on_event rsa_key url e s)
  unfolding on_event
  on_event-Holds (asked now started i kid) s e v =
      for_kid-Holds now started i kid (fresh_key now kid s.held) s refl v
  on_event-Holds (answered response now) s e v = land-Holds s.reading response now s e v
  on_event-Holds cleared s e v = clear-Holds s.reading s v
  on_event-Holds (resumed i) s e v = resume-Holds (find_waiter i s.waiting) s v

  pub run-Holds :
      (es : List (Event J)) (s : State K) → All E es → Holds s → Holds (run rsa_key url es s)
  unfolding run
  run-Holds [] s e v = v
  run-Holds (x ∷ es) s e v = run-Holds es (on_event rsa_key url x s) e.1 (on_event-Holds x s e.0 v)
