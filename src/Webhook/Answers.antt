-- ===== src/Webhook/Answers.antt =====
-- What `rawBodyCapture` promises: one answer, and the whole body or a refusal.
use mathlib.Core.List.{append_assoc, append-nil}
use theokit_gateways.Prelude.{
  ℕ, ◌+◌, ◌≤◌, subst, ◌≡◌, refl, ◌∙◌, ◌⊎◌, inl, inr, Bool, true, false, ◌||◌, Option, none, some,
  List, [], ◌∷◌, ◌++◌, map, concat, length, arith, if◌then◌else◌, Bool-cases,
}
use theokit_gateways.Js.{Text}
use theokit_gateways.Webhook.RawBody.{
  StreamEvent, data_, end_, error_, Answer, passed, too_large, Capture, exceeds, take_chunk,
  answer_end, answer_error, on, run_events, raw_body_capture,
}

module _ (byte_length : Text → ℕ) (max_bytes : Option ℕ) where
  -- Before it settles the middleware has not answered; it answers once at most.
  abbrev AnswersOnce : Capture → Type 0
  AnswersOnce c =
      ((c.settled ≡ false) × (c.answers ≡ [])) ⊎ ((c.settled ≡ true) × (length c.answers ≤ 1))

  answer_error-length :
      (b : Bool) (error : Text) → length (answer_error byte_length max_bytes b error) ≤ 1
  unfolding answer_error
  answer_error-length true error = omega arith
  answer_error-length false error = omega arith

  take_chunk-AnswersOnce :
      (chunk : Text) (n : ℕ) (c : Capture)
      → AnswersOnce c
      → AnswersOnce (take_chunk byte_length max_bytes chunk n c)
  unfolding take_chunk
  take_chunk-AnswersOnce chunk n c h = elim (Bool-cases (exceeds max_bytes n)) [
    | inl more ↦ simp (more, take_chunk) h
    | inr fits ↦ simp (fits, take_chunk) h
  ]

  -- The answers of a listener that settles.
  settles :
      (c : Capture) (new_ : List Answer) (t : Capture)
      → length new_ ≤ 1
      → AnswersOnce c
      → t ≡ (if c.settled then c else record c { settled = true; answers = c.answers ++ new_ })
      → AnswersOnce t
  settles c new_ t few (inl (open_, none_)) e =
      inr (ground (arith, e, open_), ground (arith, e, open_, none_, few))
  settles c new_ t few (inr (shut, h)) e = inr (ground (arith, e, shut), ground (arith, e, shut, h))

  on-AnswersOnce :
      (e : StreamEvent) (c : Capture) → AnswersOnce c → AnswersOnce (on byte_length max_bytes e c)
  unfolding on
  on-AnswersOnce (data_ chunk) c h = elim (Bool-cases (c.refused || c.settled)) [
    | inl drop_ ↦ simp (drop_, on) h
    | inr keep ↦ simp (keep, on) (take_chunk-AnswersOnce chunk (c.bytes + byte_length chunk) c h)
  ]
  on-AnswersOnce end_ c h =
      settles c (answer_end byte_length max_bytes c.refused c.buf ∷ [])
        (on byte_length max_bytes end_ c) (omega arith) h refl
  on-AnswersOnce (error_ error) c h =
      settles c (answer_error byte_length max_bytes c.refused error)
        (on byte_length max_bytes (error_ error) c) (answer_error-length c.refused error) h refl

  run_events-AnswersOnce :
      (es : List StreamEvent) (c : Capture)
      → AnswersOnce c
      → length (run_events byte_length max_bytes es c).answers ≤ 1
  unfolding run_events
  run_events-AnswersOnce [] c (inl (open_, none_)) = ground (arith, none_)
  run_events-AnswersOnce [] c (inr (shut, h)) = h
  run_events-AnswersOnce (e ∷ es) c h =
      run_events-AnswersOnce es (on byte_length max_bytes e c) (on-AnswersOnce e c h)

  -- Whatever the stream emits, in whatever order, the request is answered at most once.
  raw_body_capture_once :
      (drained : Bool) (declared : ℕ) (es : List StreamEvent)
      → length (raw_body_capture byte_length max_bytes drained declared es) ≤ 1
  unfolding raw_body_capture
  raw_body_capture_once true declared es = omega arith
  raw_body_capture_once false declared es = run_events-AnswersOnce es _ (inl (refl, refl))

  -- The bytes of a body.
  abbrev pub total : List Text → ℕ
  total [] = 0
  total (chunk ∷ chunks) = byte_length chunk + total chunks

  -- A request that is neither answered nor refused, and one that is refused.
  abbrev reading : Text → ℕ → Capture
  reading b n = record { buf = b; bytes = n; refused = false; settled = false; answers = [] }

  abbrev refusing : Text → ℕ → Capture
  refusing b n = record { buf = b; bytes = n; refused = true; settled = false; answers = [] }

  exceeds_more : (n k : ℕ) → exceeds max_bytes n ≡ true → exceeds max_bytes (n + k) ≡ true
  unfolding exceeds
  exceeds_more n k h = go max_bytes h
    where
      go : (m : Option ℕ) → exceeds m n ≡ true → exceeds m (n + k) ≡ true
      go none e = e
      go (some limit) e = ground (arith, e)

  exceeds_zero : (m : Option ℕ) → exceeds m 0 ≡ false
  unfolding exceeds
  exceeds_zero none = refl
  exceeds_zero (some limit) = ground arith

  run_refused :
      (chunks : List Text) (b : Text) (n : ℕ)
      → (run_events byte_length max_bytes (map data_ chunks ++ end_ ∷ []) (refusing b n)).answers
        ≡ too_large ∷ []
  unfolding run_events on answer_end
  run_refused [] b n = refl
  run_refused (chunk ∷ chunks) b n = run_refused chunks b n

  run_chunks :
      (chunks : List Text) (b : Text) (n : ℕ)
      → exceeds max_bytes n ≡ false
      → (run_events byte_length max_bytes (map data_ chunks ++ end_ ∷ []) (reading b n)).answers
        ≡ (if exceeds max_bytes (n + total chunks) then too_large else passed (b ++ concat chunks))
          ∷ []
  unfolding run_events on take_chunk answer_end
  run_chunks [] b n x = ground (arith, x, append-nil b)
  run_chunks (chunk ∷ chunks) b n x =
      elim (Bool-cases (exceeds max_bytes (n + byte_length chunk))) [
        | inl more ↦
            rw (more, run_events)
              (run_refused chunks [] (n + byte_length chunk)
                ∙ many (
                    subst (λ k. exceeds max_bytes k ≡ true) (omega arith)
                      (exceeds_more (n + byte_length chunk) (total chunks) more)))
        | inr fits ↦
            rw (fits, run_events)
              (run_chunks chunks (b ++ chunk) (n + byte_length chunk) fits
                ∙ same (n + byte_length chunk + total chunks)
                    (n + (byte_length chunk + total chunks)) (omega arith))
      ]
    where
      many :
          exceeds max_bytes (n + (byte_length chunk + total chunks)) ≡ true
          → too_large ∷ []
            ≡ (if exceeds max_bytes (n + (byte_length chunk + total chunks))
                then too_large
                else passed (b ++ (chunk ++ concat chunks)))
              ∷ []
      many e = rw e refl

      same :
          (i j : ℕ)
          → i ≡ j
          → (if exceeds max_bytes i then too_large else passed (b ++ chunk ++ concat chunks)) ∷ []
            ≡ (if exceeds max_bytes j then too_large else passed (b ++ (chunk ++ concat chunks)))
              ∷ []
      same i j e = rw (e, append_assoc b chunk (concat chunks)) refl

  -- A body that arrives whole is passed on with all its text, in order, if neither the declared length
  -- nor its bytes exceed the limit, and is else answered by 413: exactly one answer either way.
  pub raw_body_capture_lem :
      (declared : ℕ) (chunks : List Text)
      → raw_body_capture byte_length max_bytes false declared (map data_ chunks ++ end_ ∷ [])
        ≡ (if exceeds max_bytes declared || exceeds max_bytes (total chunks)
            then too_large
            else passed (concat chunks))
          ∷ []
  unfolding raw_body_capture
  raw_body_capture_lem declared chunks = elim (Bool-cases (exceeds max_bytes declared)) [
    | inl more ↦ rw (more, raw_body_capture) (run_refused chunks [] 0)
    | inr fits ↦
        rw (fits, raw_body_capture)
          (subst
            (λ k.
              (run_events byte_length max_bytes (map data_ chunks ++ end_ ∷ [])
                (reading [] 0)).answers
              ≡ (if exceeds max_bytes k then too_large else passed (concat chunks)) ∷ [])
            (omega arith) (run_chunks chunks [] 0 (exceeds_zero max_bytes)))
  ]
