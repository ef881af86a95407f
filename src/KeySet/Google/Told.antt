-- ===== src/KeySet/Google/Told.antt =====
-- What the lookups of KeySet/Google.antt are told.
use theokit_gateways.Prelude.{
  ℕ, ◌≡◌, refl, ap, subst, inl, inr, ◌⊎◌, Option, none, some, List, [], ◌∷◌, ◌++◌, All, arith,
}
use theokit_gateways.Js.{Text, Text-discrete}
use theokit_gateways.JsMap.{get}
use theokit_gateways.KeySet.{Answer, found, unlisted, unavailable, Answered, add_keys}
use theokit_gateways.KeySet.Google.{
  Held, Response, request_failed, not_ok, not_json, document, State, Event, asked, answered,
  cleared, resumed, new, run, rsa_keys, held_of, read_key_set, answer_from,
}
use theokit_gateways.KeySet.Good.{
  GivesNothing, add_keys_nothing, IsGood, get-IsGood, Lists, add_keys-IsGood,
}
use theokit_gateways.KeySet.Google.Copy.{run-Holds}

abbrev keys_of : {K : Type 0} → Held K ⊎ Text → List (Text × K)
keys_of (inl h) = h.keys
keys_of (inr failure) = []

held_of-keys :
    {K : Type 0}
    → (keys : List (Text × K)) (header : Option Text) (now : ℕ) (h : Held K)
    → held_of keys header now ≡ inl h
    → keys ≡ h.keys
unfolding held_of
held_of-keys [] header now h e = ap keys_of e
held_of-keys (key ∷ keys) header now h e = ap keys_of e

-- What a copy has for a `kid`.
abbrev pub copy_says : {K : Type 0} → Held K → Text → Answer K
copy_says h kid = elim (get Text-discrete kid h.keys) [ none ↦ unlisted | some key ↦ found key ]

abbrev pub TellsCopy : {K : Type 0} → Held K → Answered K → Type 0
TellsCopy h a = a.answer ≡ copy_says h a.kid

module _ {J K : Type 0} (rsa_key : J → Option K) (url : Text) where
  -- A read fails: there is no document of JSON with an array of entries, or none of them gives a key.
  abbrev pub Fails : Response J → Type 0
  Fails (request_failed name) = Unit
  Fails (not_ok status) = Unit
  Fails not_json = Unit
  Fails (document none header) = Unit
  Fails (document (some entries) header) = All (λ e. GivesNothing e.kid (rsa_key e.jwk)) entries

  abbrev pub FailsIn : Event J → Type 0
  FailsIn (asked now started i kid) = Unit
  FailsIn (answered response now) = Fails response
  FailsIn cleared = Unit
  FailsIn (resumed i) = Unit

  -- The copy is the one there was, and what was answered since is what it has.
  abbrev Kept : Held K → List (Answered K) → Option (Held K) → List (Answered K) → Type 0
  Kept h old held answers =
      (held ≡ some h)
      × ((since : List (Answered K)) × (answers ≡ since ++ old) × All (TellsCopy h) since)

  told-Kept :
      (h : Held K) (old : List (Answered K)) (i : ℕ) (kid failure : Text) (held : Option (Held K))
      (answers : List (Answered K))
      → Kept h old held answers
      → Kept h old held
          (record { id = i; kid = kid; answer = answer_from url kid failure held } ∷ answers)
  unfolding answer_from
  told-Kept h old i kid failure held answers (same, (since, all, tells)) =
      let told : Answered K = record {
        id = i;
        kid = kid;
        answer = answer_from url kid failure held;
      } in
      (same, (told ∷ since, ap (λ l. told ∷ l) all, (ap (answer_from url kid failure) same, tells)))

  failed_read :
      (response : Response J) (now : ℕ) (h : Held K)
      → Fails response
      → ¬ (read_key_set rsa_key response now ≡ inl h)
  unfolding read_key_set held_of rsa_keys
  failed_read (request_failed name) now h f q = cc
  failed_read (not_ok status) now h f q = cc
  failed_read not_json now h f q = cc
  failed_read (document none header) now h f q = cc
  failed_read (document (some entries) header) now h f q =
      cc (ap (λ keys. held_of keys header now) (add_keys_nothing rsa_key entries [] f), q)

  -- While every read fails, the copy that there is stays as it was, however old it gets, and each
  -- lookup that is answered is told what the copy has for its `kid`.
  pub copy_kept :
      (es : List (Event J)) (s : State K) (h : Held K)
      → s.held ≡ some h
      → All FailsIn es
      → ((run rsa_key url es s).held ≡ some h)
        × ((since : List (Answered K)) × ((run rsa_key url es s).answers ≡ since ++ s.answers)
            × All (TellsCopy h) since)
  copy_kept es s h e fails =
      run-Holds rsa_key url (Kept h s.answers) FailsIn (told-Kept h s.answers)
        (λ response now held g answers f q v. absurd (failed_read response now g f q)) es s fails
        (e, ([], refl, tt))

module _ {J K : Type 0} (rsa_key : J → Option K) (url : Text) (P : Text → K → Type 0) where
  -- What a read brings lists good keys.
  abbrev pub Publishes : Event J → Type 0
  Publishes (asked now started i kid) = Unit
  Publishes (answered (request_failed name) now) = Unit
  Publishes (answered (not_ok status) now) = Unit
  Publishes (answered not_json now) = Unit
  Publishes (answered (document none header) now) = Unit
  Publishes (answered (document (some entries) header) now) = Lists P rsa_key entries
  Publishes cleared = Unit
  Publishes (resumed i) = Unit

  -- The lookup was told no key, or a good one.
  abbrev pub TellsGood : Text → Answer K → Type 0
  TellsGood kid (found key) = P kid key
  TellsGood kid unlisted = Unit
  TellsGood kid (unavailable why) = Unit

  abbrev pub IsTrue : Answered K → Type 0
  IsTrue a = TellsGood a.kid a.answer

  abbrev Genuine : Option (Held K) → List (Answered K) → Type 0
  Genuine none answers = All IsTrue answers
  Genuine (some h) answers = IsGood P h.keys × All IsTrue answers

  Genuine-answers :
      (held : Option (Held K)) (answers : List (Answered K))
      → Genuine held answers
      → All IsTrue answers
  Genuine-answers none answers v = v
  Genuine-answers (some h) answers v = v.1

  told-Genuine :
      (i : ℕ) (kid failure : Text) (held : Option (Held K)) (answers : List (Answered K))
      → Genuine held answers
      → Genuine held
          (record { id = i; kid = kid; answer = answer_from url kid failure held } ∷ answers)
  unfolding answer_from
  told-Genuine i kid failure none answers v = (tt, v)
  told-Genuine i kid failure (some h) answers (good, v) =
      (good, (go (get Text-discrete kid h.keys) refl, v))
    where
      go :
          (k : Option K)
          → get Text-discrete kid h.keys ≡ k
          → TellsGood kid (elim k [ none ↦ unlisted | some key ↦ found key ])
      go none e = tt
      go (some key) e = get-IsGood P kid key h.keys good e

  brought-Genuine :
      (response : Response J) (now : ℕ) (held : Option (Held K)) (h : Held K)
      (answers : List (Answered K))
      → Publishes (answered response now)
      → read_key_set rsa_key response now ≡ inl h
      → Genuine held answers
      → Genuine (some h) answers
  unfolding read_key_set held_of rsa_keys
  brought-Genuine (request_failed name) now held h answers e q v = ground (arith, q)
  brought-Genuine (not_ok status) now held h answers e q v = ground (arith, q)
  brought-Genuine not_json now held h answers e q v = ground (arith, q)
  brought-Genuine (document none header) now held h answers e q v = ground (arith, q)
  brought-Genuine (document (some entries) header) now held h answers e q v = (
    subst (IsGood P) (held_of-keys (add_keys rsa_key entries []) header now h q)
        (add_keys-IsGood P rsa_key entries [] e tt),
    Genuine-answers held answers v,
  )

  -- Take any predicate on a `kid` and a key that every key of every document read meets with its
  -- entry's `kid`: each key that a lookup is told meets it with the `kid` the lookup asked for.
  pub answers_genuine :
      (es : List (Event J)) → All Publishes es → All IsTrue (run rsa_key url es new).answers
  answers_genuine es e =
      Genuine-answers (run rsa_key url es new).held (run rsa_key url es new).answers
        (run-Holds rsa_key url Genuine Publishes told-Genuine brought-Genuine es new e tt)
