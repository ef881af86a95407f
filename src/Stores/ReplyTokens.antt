-- ===== src/Stores/ReplyTokens.antt =====
-- packages/gateway-line/src/reply-cache.ts: one-shot reply tokens by user, with a time to live and
-- a capacity. The clock's value, `Date.now()`, is an argument.
use mathlib.Core.Logic.{if_pos}
use theokit_gateways.Prelude.{
  ℕ, suc, ◌+◌, ◌≤◌, ◌≡◌, ◌≢◌, refl, ap, subst, ◌∙◌, true, Option, none, some, List, [], ◌∷◌, length,
  leb, if◌then◌else◌, Bool-cases, Option-cases, inl, inr, arith, max,
}
use theokit_gateways.Js.{Text, Text-discrete}
use theokit_gateways.JsMap as Map

pub record Entry : Type 0 where
  pub token : Text
  pub expires_at : ℕ

pub record ReplyTokenCache : Type 0 where
  pub cache : List (Text × Entry)
  pub ttl_ms : ℕ
  pub capacity : ℕ

-- The constructor, with its defaults.
unfoldable pub new : Option ℕ → Option ℕ → ReplyTokenCache
new ttl capacity = record {
  cache = [];
  ttl_ms = elim ttl [ none ↦ 60000 | some n ↦ n ];
  capacity = elim capacity [ none ↦ 1000 | some n ↦ n ];
}

-- `evictOldest`: the first key goes.
abbrev pub evict_oldest : List (Text × Entry) → List (Text × Entry)
evict_oldest [] = []
evict_oldest (e ∷ m) = Map.delete Text-discrete e.0 (e ∷ m)

unfoldable pub put : Text → Text → ℕ → ReplyTokenCache → ReplyTokenCache
put user token now c =
    let kept = if leb c.capacity (length c.cache) then evict_oldest c.cache else c.cache in
    record c {
      cache =
          Map.set Text-discrete user (record { token = token; expires_at = now + c.ttl_ms }) kept;
    }

unfoldable pub take : Text → ℕ → ReplyTokenCache → ReplyTokenCache × Option Text
take user now c = elim (Map.get Text-discrete user c.cache) [
  | none ↦ (c, none)
  | some entry ↦ (
    record c { cache = Map.delete Text-discrete user c.cache },
    if leb entry.expires_at now then none else some entry.token,
  )
]

-- `size` and `clear`.
unfoldable pub size : ReplyTokenCache → ℕ
size c = length c.cache

unfoldable pub clear : ReplyTokenCache → ReplyTokenCache
clear c = record c { cache = [] }

pub record IsValid (c : ReplyTokenCache) : Type 0 where
  pub bounded : length c.cache ≤ max c.capacity 1
  pub distinct : Map.Distinct Text-discrete c.cache

evict_oldest_tail : (e : Text × Entry) (m : List (Text × Entry)) → evict_oldest (e ∷ m) ≡ m
unfolding Map.delete
evict_oldest_tail e m = if_pos (Text-discrete e.0 e.0) refl _ _

evict_oldest-Distinct :
    (m : List (Text × Entry))
    → Map.Distinct Text-discrete m
    → Map.Distinct Text-discrete (evict_oldest m)
evict_oldest-Distinct [] d = tt
evict_oldest-Distinct (e ∷ m) d = rw (evict_oldest_tail e m) (d.1)

length-evict_oldest : (m : List (Text × Entry)) → length (evict_oldest m) + 1 ≤ max (length m) 1
length-evict_oldest [] = omega arith
length-evict_oldest (e ∷ m) = rw (evict_oldest_tail e m) (omega arith)

-- The empty cache is valid.
pub new-IsValid : (ttl capacity : Option ℕ) → IsValid (new ttl capacity)
unfolding new
new-IsValid ttl capacity = record { bounded = omega arith; distinct = tt }

kept_entries : ReplyTokenCache → List (Text × Entry)
kept_entries c = if leb c.capacity (length c.cache) then evict_oldest c.cache else c.cache

kept_entries_lem :
    (c : ReplyTokenCache)
    → IsValid c
    → (suc (length (kept_entries c)) ≤ max c.capacity 1)
      × Map.Distinct Text-discrete (kept_entries c)
unfolding kept_entries
kept_entries_lem c v = elim (Bool-cases (leb c.capacity (length c.cache))) [
  | inl full ↦ rw full (
    omega (arith, length-evict_oldest c.cache, v.bounded),
    evict_oldest-Distinct c.cache v.distinct,
  )
  | inr room ↦ rw room (ground arith, v.distinct)
]

-- `put` keeps at most `capacity` users (one, if the capacity is 0) and no user twice.
pub put-IsValid :
    (user token : Text) (now : ℕ) (c : ReplyTokenCache) → IsValid c → IsValid (put user token now c)
unfolding put kept_entries
put-IsValid user token now c v =
    let (size, distinct) = kept_entries_lem c v in
    let entry : Entry = record { token = token; expires_at = now + c.ttl_ms } in
    record {
      bounded = omega (arith, Map.length-set_le Text-discrete user entry (kept_entries c), size);
      distinct = Map.set-Distinct Text-discrete user entry (kept_entries c) distinct;
    }

-- `take` keeps the cache valid.
pub take-IsValid :
    (user : Text) (now : ℕ) (c : ReplyTokenCache) → IsValid c → IsValid (take user now c).0
unfolding take
take-IsValid user now c v = elim (Option-cases (Map.get Text-discrete user c.cache)) [
  | inl miss ↦ rw (miss, take) v
  | inr (entry, hit) ↦
      rw (hit, take)
        (record {
          bounded = omega (arith, Map.length-delete_le Text-discrete user c.cache, v.bounded);
          distinct = Map.delete-Distinct Text-discrete user c.cache v.distinct;
        })
]

-- A token can be taken once: after any `take` of a user there is nothing to take.
take_twice :
    (user : Text) (now later : ℕ) (c : ReplyTokenCache)
    → IsValid c
    → (take user later (take user now c).0).1 ≡ none
unfolding take
take_twice user now later c v = elim (Option-cases (Map.get Text-discrete user c.cache)) [
  | inl miss ↦ rw (miss, take) (rw (miss, take) refl)
  | inr (entry, hit) ↦
      rw (hit, take) (rw (Map.get-delete_self Text-discrete user c.cache v.distinct, take) refl)
]

take_miss :
    (user : Text) (now : ℕ) (c : ReplyTokenCache)
    → Map.get Text-discrete user c.cache ≡ none
    → (take user now c).1 ≡ none
unfolding take
take_miss user now c miss = rw (miss, take) refl

-- In a full cache every `put` for another user drops the oldest user's token, also a `put` that only
-- replaces the token of a user who has one.
put_drops_oldest :
    (user token oldest : Text) (now later : ℕ) (entry : Entry) (m : List (Text × Entry))
    (c : ReplyTokenCache)
    → IsValid c
    → c.cache ≡ (oldest, entry) ∷ m
    → c.capacity ≤ length c.cache
    → user ≢ oldest
    → (take oldest later (put user token now c)).1 ≡ none
unfolding put
put_drops_oldest user token oldest now later entry m c v e full other =
    let filled : leb c.capacity (length c.cache) ≡ true = ground arith in
    let distinct : Map.Distinct Text-discrete ((oldest, entry) ∷ m) =
      subst (Map.Distinct Text-discrete) e v.distinct in
    take_miss oldest later (put user token now c) (
      Map.get-set_ne Text-discrete user oldest _ _ other
      ∙ ap (λ b. Map.get Text-discrete oldest (if b then evict_oldest c.cache else c.cache)) filled
      ∙ ap (λ l. Map.get Text-discrete oldest (evict_oldest l)) e
      ∙ ap (Map.get Text-discrete oldest) (evict_oldest_tail (oldest, entry) m)
      ∙ distinct.0)
