-- ===== src/KeySet/Teams/Paced.antt =====
-- When `keySet` of KeySet/Teams.antt reads.
use theokit_gateways.Prelude.{
  ℕ, ◌+◌, ◌≤◌, ◌≡◌, refl, sym, ap, subst, inl, inr, true, ◌⊎◌, Option, none, some, List, [], ◌∷◌,
  Bool-cases, arith,
}
use theokit_gateways.Js.{Text}
use theokit_gateways.KeySet.{Phase, idle, fetching, fetched, Waiter, may_resume, find_waiter}
use theokit_gateways.KeySet.Teams.{
  key_set_read_interval_ms, PublishedKey, Response, Mark, began, ended, State, Event, asked,
  answered, cleared, resumed, is_due, is_old, starts, new, listed, begin_read, look_up, keep, land,
  clear, resume, answer, wait, on_event, run, read_key_set,
}

-- Reads begin and end in turn, newest first, and each begins ten seconds after the one before ended.
abbrev pub Paced : List Mark → Type 0
Paced [] = Unit
Paced (began t ∷ []) = Unit
Paced (began t ∷ began u ∷ marks) = ⊥
Paced (began t ∷ ended u ∷ marks) = (u + key_set_read_interval_ms ≤ t) × Paced (ended u ∷ marks)
Paced (ended t ∷ []) = ⊥
Paced (ended t ∷ began u ∷ marks) = Paced (began u ∷ marks)
Paced (ended t ∷ ended u ∷ marks) = ⊥

-- The newest mark of a state: when the next read may start, or that one is in flight.
abbrev Fits : Phase → Option ℕ → List Mark → Type 0
Fits idle next [] = next ≡ none
Fits idle next (began t ∷ marks) = ⊥
Fits idle next (ended t ∷ marks) = next ≡ some (t + key_set_read_interval_ms)
Fits fetching next [] = ⊥
Fits fetching next (began t ∷ marks) = Unit
Fits fetching next (ended t ∷ marks) = ⊥
Fits fetched next [] = ⊥
Fits fetched next (began t ∷ marks) = Unit
Fits fetched next (ended t ∷ marks) = ⊥

begin-Paced :
    (now : ℕ) (next : Option ℕ) (marks : List Mark)
    → Fits idle next marks
    → is_due now next ≡ true
    → Paced marks
    → Paced (began now ∷ marks)
unfolding is_due
begin-Paced now next [] f d p = tt
begin-Paced now next (began t ∷ marks) f d p = absurd f
begin-Paced now next (ended t ∷ marks) f d p = (ground (arith, ap (is_due now) f, d), p)

end-Paced :
    (now : ℕ) (next : Option ℕ) (marks : List Mark)
    → Fits fetched next marks
    → Paced marks
    → Paced (ended now ∷ marks)
end-Paced now next [] f p = absurd f
end-Paced now next (began t ∷ marks) f p = p
end-Paced now next (ended t ∷ marks) f p = absurd f

fetched-Fits :
    (next : Option ℕ) (marks : List Mark) → Fits fetching next marks → Fits fetched next marks
fetched-Fits next [] f = f
fetched-Fits next (began t ∷ marks) f = f
fetched-Fits next (ended t ∷ marks) f = f

module _ {K : Type 0} where
  abbrev IsPaced : State K → Type 0
  IsPaced s = Paced s.marks × Fits s.reading s.next_read_at s.marks

  begin_read-IsPaced :
      (phase : Phase) (now : ℕ) (s : State K)
      → phase ≡ s.reading
      → IsPaced s
      → IsPaced (begin_read phase now s)
  unfolding begin_read
  begin_read-IsPaced idle now s e v = elim (Bool-cases (is_due now s.next_read_at)) [
    | inl yes_ ↦
        let rests : Fits idle s.next_read_at s.marks =
          subst (λ p. Fits p s.next_read_at s.marks) (sym e) v.1 in
        rw yes_ (begin-Paced now s.next_read_at s.marks rests yes_ v.0, tt)
    | inr no_ ↦ rw no_ v
  ]
  begin_read-IsPaced fetching now s e v = v
  begin_read-IsPaced fetched now s e v = v

  look_up-IsPaced :
      (now i : ℕ) (kid : Text) (k : Option (PublishedKey K)) (s : State K)
      → IsPaced s
      → IsPaced (look_up now i kid k s)
  unfolding look_up wait answer
  look_up-IsPaced now i kid none s v = begin_read-IsPaced s.reading now s refl v
  look_up-IsPaced now i kid (some key) s v = elim (Bool-cases (is_old now s.read_at)) [
    | inl yes_ ↦ rw yes_ (begin_read-IsPaced s.reading now s refl v)
    | inr no_ ↦ rw no_ v
  ]

  clear-IsPaced :
      (phase : Phase) (now : ℕ) (s : State K)
      → phase ≡ s.reading
      → IsPaced s
      → IsPaced (clear phase now s)
  unfolding clear
  clear-IsPaced idle now s e v = v
  clear-IsPaced fetching now s e v = v
  clear-IsPaced fetched now s e v = (
    end-Paced now s.next_read_at s.marks (subst (λ p. Fits p s.next_read_at s.marks) (sym e) v.1)
        v.0,
    refl,
  )

  keep-IsPaced :
      (r : List (Text × PublishedKey K) ⊎ Text) (now : ℕ) (s : State K)
      → fetching ≡ s.reading
      → IsPaced s
      → IsPaced (keep r now s)
  unfolding keep
  keep-IsPaced r now s e v = go r
    where
      landed : Fits fetched s.next_read_at s.marks
      landed =
          fetched-Fits s.next_read_at s.marks
            (subst (λ p. Fits p s.next_read_at s.marks) (sym e) v.1)

      go : (r : List (Text × PublishedKey K) ⊎ Text) → IsPaced (keep r now s)
      go (inl keys) = (v.0, landed)
      go (inr failure) = (v.0, landed)

  resume-IsPaced :
      (label url : Text) (w : Option Waiter) (s : State K)
      → IsPaced s
      → IsPaced (resume label url w s)
  unfolding resume answer
  resume-IsPaced label url none s v = v
  resume-IsPaced label url (some w) s v =
      elim (Bool-cases (may_resume s.reading (starts s.marks) w)) [
        | inl yes_ ↦ rw (yes_, resume) v
        | inr no_ ↦ rw (no_, resume) v
      ]

module _ {J K : Type 0} (rsa_key : J → Option K) (label url : Text) where
  land-IsPaced :
      (phase : Phase) (response : Response J) (now : ℕ) (s : State K)
      → phase ≡ s.reading
      → IsPaced s
      → IsPaced (land rsa_key phase response now s)
  unfolding land
  land-IsPaced idle response now s e v = v
  land-IsPaced fetching response now s e v = keep-IsPaced (read_key_set rsa_key response) now s e v
  land-IsPaced fetched response now s e v = v

  on_event-IsPaced :
      (e : Event J) (s : State K) → IsPaced s → IsPaced (on_event rsa_key label url e s)
  unfolding on_event
  on_event-IsPaced (asked now i kid) s v = look_up-IsPaced now i kid (listed kid s.held) s v
  on_event-IsPaced (answered response now) s v = land-IsPaced s.reading response now s refl v
  on_event-IsPaced (cleared now) s v = clear-IsPaced s.reading now s refl v
  on_event-IsPaced (resumed i) s v = resume-IsPaced label url (find_waiter i s.waiting) s v

  run-IsPaced :
      (es : List (Event J)) (s : State K) → IsPaced s → IsPaced (run rsa_key label url es s)
  unfolding run
  run-IsPaced [] s v = v
  run-IsPaced (e ∷ es) s v =
      run-IsPaced es (on_event rsa_key label url e s) (on_event-IsPaced e s v)

  -- Whatever is looked up and whatever the reads bring, one read is in flight at a time, and the next
  -- one starts 10 seconds after the end of the one before at the earliest.
  pub reads-Paced : (es : List (Event J)) → Paced (run rsa_key label url es new).marks
  reads-Paced es = (run-IsPaced es new (tt, refl)).0
