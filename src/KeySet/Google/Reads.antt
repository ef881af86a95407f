-- ===== src/KeySet/Google/Reads.antt =====
-- When `googleKeySet` of KeySet/Google.antt reads.
use theokit_gateways.Prelude.{
  ℕ, ◌+◌, ◌*◌, ◌≤◌, ◌≡◌, refl, ap, inl, inr, true, not, ◌||◌, ◌⊎◌, Option, none, some, List, [],
  ◌∷◌, length, Bool-cases, All, arith,
}
use theokit_gateways.Js.{Text}
use theokit_gateways.KeySet.{
  Phase, idle, fetching, fetched, is_idle, Waiter, may_resume, find_waiter,
}
use theokit_gateways.KeySet.Google.{
  unknown_kid_refetch_floor_ms, Held, State, Event, asked, answered, cleared, resumed, may_read,
  new, fresh_key, read, ask_stale, for_kid, keep, land, clear, resume, on_event, run, read_key_set,
  answer, wait,
}

-- The times, newest first, lie at least `gap` apart.
abbrev pub Spaced : ℕ → List ℕ → Type 0
Spaced gap [] = Unit
Spaced gap (t ∷ []) = Unit
Spaced gap (t ∷ u ∷ ts) = (u + gap ≤ t) × Spaced gap (u ∷ ts)

abbrev pub newest : List ℕ → Option ℕ
newest [] = none
newest (t ∷ ts) = some t

abbrev pub oldest : ℕ → List ℕ → ℕ
oldest t [] = t
oldest t (u ∷ ts) = oldest u ts

-- Times that lie `gap` apart are few.
pub Spaced-few : (gap t : ℕ) (ts : List ℕ) → Spaced gap (t ∷ ts) → oldest t ts + length ts * gap ≤ t
Spaced-few gap t [] h = omega arith
Spaced-few gap t (u ∷ ts) h = omega (arith, h.0, Spaced-few gap u ts h.1)

add_read :
    (now started : ℕ) (ts : List ℕ)
    → now ≤ started
    → may_read now (newest ts) ≡ true
    → Spaced unknown_kid_refetch_floor_ms ts
    → Spaced unknown_kid_refetch_floor_ms (started ∷ ts)
unfolding may_read
add_read now started [] lt h v = tt
add_read now started (t ∷ ts) lt h v = (ground (arith, h, lt), v)

module _ {J : Type 0} where
  -- A lookup's second look at the clock is not before its first.
  abbrev pub IsTimely : Event J → Type 0
  IsTimely (asked now started i kid) = now ≤ started
  IsTimely (answered response now) = Unit
  IsTimely cleared = Unit
  IsTimely (resumed i) = Unit

module _ {K : Type 0} where
  abbrev IsSpaced : State K → Type 0
  IsSpaced s =
      Spaced unknown_kid_refetch_floor_ms s.reads × (s.last_read_started_at ≡ newest s.reads)

  read-IsSpaced :
      (now started : ℕ) (phase : Phase) (s : State K)
      → now ≤ started
      → (may_read now s.last_read_started_at || not (is_idle phase)) ≡ true
      → IsSpaced s
      → IsSpaced (read started phase s)
  unfolding read is_idle
  read-IsSpaced now started idle s lt h (v, last) =
      (add_read now started s.reads lt (ground (arith, h, ap (may_read now) last)) v, refl)
  read-IsSpaced now started fetching s lt h v = v
  read-IsSpaced now started fetched s lt h v = v

  ask_stale-IsSpaced :
      (url : Text) (now started i : ℕ) (kid : Text) (s : State K)
      → now ≤ started
      → IsSpaced s
      → IsSpaced (ask_stale url now started i kid s)
  unfolding ask_stale wait answer
  ask_stale-IsSpaced url now started i kid s lt v =
      elim (Bool-cases (may_read now s.last_read_started_at || not (is_idle s.reading))) [
        | inl yes_ ↦ rw (yes_, ask_stale) (read-IsSpaced now started s.reading s lt yes_ v)
        | inr no_ ↦ rw (no_, ask_stale) v
      ]

module _ {J K : Type 0} (rsa_key : J → Option K) (url : Text) where
  on_event-IsSpaced :
      (e : Event J) (s : State K) → IsTimely e → IsSpaced s → IsSpaced (on_event rsa_key url e s)
  unfolding on_event for_kid answer keep land clear resume
  on_event-IsSpaced (asked now started i kid) s lt v = go (fresh_key now kid s.held)
    where
      go : (k : Option K) → IsSpaced (for_kid url now started i kid k s)
      go (some key) = v
      go none = ask_stale-IsSpaced url now started i kid s lt v
  on_event-IsSpaced (answered response now) s lt v =
      go s.reading (read_key_set rsa_key response now)
    where
      kept : (h : Held K ⊎ Text) → IsSpaced (keep h s)
      kept (inl h) = v
      kept (inr failure) = v

      go : (phase : Phase) (h : Held K ⊎ Text) → IsSpaced (land rsa_key phase response now s)
      go idle h = v
      go fetching h = kept (read_key_set rsa_key response now)
      go fetched h = v
  on_event-IsSpaced cleared s lt v = go s.reading
    where
      go : (phase : Phase) → IsSpaced (clear phase s)
      go idle = v
      go fetching = v
      go fetched = v
  on_event-IsSpaced (resumed i) s lt v = go (find_waiter i s.waiting)
    where
      go : (w : Option Waiter) → IsSpaced (resume url w s)
      go none = v
      go (some w) = elim (Bool-cases (may_resume s.reading (length s.reads) w)) [
        | inl yes_ ↦ simp (yes_, resume) v
        | inr no_ ↦ simp (no_, resume) v
      ]

  run-IsSpaced :
      (es : List (Event J)) (s : State K)
      → All IsTimely es
      → IsSpaced s
      → IsSpaced (run rsa_key url es s)
  unfolding run
  run-IsSpaced [] s lt v = v
  run-IsSpaced (e ∷ es) s lt v =
      run-IsSpaced es (on_event rsa_key url e s) lt.1 (on_event-IsSpaced e s lt.0 v)

  -- If no lookup's second look at the clock is before its first, any two reads that follow each other
  -- start 60 seconds apart at least, whatever `kid`s are asked for and whatever the reads bring.
  pub reads-Spaced :
      (es : List (Event J))
      → All IsTimely es
      → Spaced unknown_kid_refetch_floor_ms (run rsa_key url es new).reads
  reads-Spaced es lt = (run-IsSpaced es new lt (tt, refl)).0
