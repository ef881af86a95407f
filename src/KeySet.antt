-- ===== src/KeySet.antt =====
-- The signing keys that a platform publishes, as the verifiers of webhook tokens hold them. `J` is the
-- type of a document's entries and `K` of keys; `rsa_key` is Node's `createPublicKey`, as far as an
-- entry gives an RSA key. A lookup goes by a number, and waits for a read by the read's number.
pub mod Good
pub mod Google
pub mod Teams
use theokit_gateways.Prelude.{
  ℕ, ◌+◌, ◌*◌, ◌-◌, Bool, true, false, not, ◌&&◌, ◌||◌, Option, none, some, List, [], ◌∷◌, length,
  leb, ltb, ◌==◌, if◌then◌else◌,
}
use theokit_gateways.Js.{Text, is_nonempty, Text-discrete}
use theokit_gateways.JsMap.{get, set}

-- An entry of a document, by its `kid` when that is a string.
pub record Entry (J : Type 0) : Type 0 where
  pub kid : Option Text
  pub jwk : J

-- The read in flight: none, one that waits for its answer, and one that has its answer and is not
-- cleared yet.
pub data Phase : Type 0 where
  idle : Phase
  fetching : Phase
  fetched : Phase

unfoldable pub is_idle : Phase → Bool
is_idle idle = true
is_idle fetching = false
is_idle fetched = false

-- What a lookup is told.
pub data Answer (K : Type 0) : Type 0 where
  found : K → Answer K
  unlisted : Answer K
  unavailable : Text → Answer K

-- A lookup that waits.
pub record Waiter : Type 0 where
  pub id : ℕ
  pub kid : Text
  pub read : ℕ

-- A lookup that is answered.
pub record Answered (K : Type 0) : Type 0 where
  pub id : ℕ
  pub kid : Text
  pub answer : Answer K

-- The waiting lookup of that number, and the others.
unfoldable pub find_waiter : ℕ → List Waiter → Option Waiter
find_waiter i [] = none
find_waiter i (w ∷ ws) = let rest = find_waiter i ws in if w.id == i then some w else rest

unfoldable pub drop_waiter : ℕ → List Waiter → List Waiter
drop_waiter i [] = []
drop_waiter i (w ∷ ws) = let rest = drop_waiter i ws in if w.id == i then rest else w ∷ rest

-- A waiter goes on once its read is cleared: none is in flight, or a later one is.
unfoldable pub may_resume : Phase → ℕ → Waiter → Bool
may_resume phase reads w = is_idle phase || not (w.read == reads)

module _ {K : Type 0} where
  -- An entry with a usable key enters the map.
  unfoldable pub add_key : Option Text → Option K → List (Text × K) → List (Text × K)
  add_key none key keys = keys
  add_key (some kid) none keys = keys
  add_key (some kid) (some key) keys =
      if is_nonempty kid then set Text-discrete kid key keys else keys

module _ {J K : Type 0} (rsa_key : J → Option K) where
  unfoldable pub add_keys : List (Entry J) → List (Text × K) → List (Text × K)
  add_keys [] keys = keys
  add_keys (e ∷ es) keys = add_keys es (add_key e.kid (rsa_key e.jwk) keys)
