-- ===== src/KeySet/Good.antt =====
-- The maps of keys in KeySet.antt, and a predicate on keys and their `kid`.
use mathlib.Core.Logic.{if_pos, if_neg}
use theokit_gateways.Prelude.{
  ◌≡◌, refl, ap, sym, subst, ◌∙◌, inl, inr, Option, none, some, List, [], ◌∷◌, Bool-cases, All,
  arith,
}
use theokit_gateways.Js.{Text, is_nonempty, Text-discrete}
use theokit_gateways.JsMap.{get, set}
use theokit_gateways.KeySet.{Entry, add_key, add_keys}

module _ {K : Type 0} (P : Text → K → Type 0) where
  -- Each key of the map is good for its `kid`.
  abbrev pub IsGood : List (Text × K) → Type 0
  IsGood [] = Unit
  IsGood ((kid, key) ∷ keys) = P kid key × IsGood keys

  pub get-IsGood :
      (kid : Text) (key : K) (keys : List (Text × K))
      → IsGood keys
      → get Text-discrete kid keys ≡ some key
      → P kid key
  unfolding get
  get-IsGood kid key [] v h = ground (arith, h)
  get-IsGood kid key ((k, w) ∷ keys) v h = elim (Text-discrete k kid) [
    | yes same ↦
        let here : w ≡ key = ground (arith, sym (if_pos (Text-discrete k kid) same _ _) ∙ h) in
        subst (λ x. P kid x) here (subst (λ x. P x w) same v.0)
    | no differs ↦ get-IsGood kid key keys v.1 (sym (if_neg (Text-discrete k kid) differs _ _) ∙ h)
  ]

  pub set-IsGood :
      (kid : Text) (key : K) (keys : List (Text × K))
      → P kid key
      → IsGood keys
      → IsGood (set Text-discrete kid key keys)
  unfolding set
  set-IsGood kid key [] p v = (p, tt)
  set-IsGood kid key ((k, w) ∷ keys) p v = elim (Text-discrete k kid) [
    | yes same ↦ rw (if_pos (Text-discrete k kid) same) (subst (λ x. P x key) (sym same) p, v.1)
    | no differs ↦ rw (if_neg (Text-discrete k kid) differs) (v.0, set-IsGood kid key keys p v.1)
  ]

  -- An entry's key, if it has a `kid` and gives one, is good for it.
  abbrev pub GivesGood : Option Text → Option K → Type 0
  GivesGood none key = Unit
  GivesGood (some kid) none = Unit
  GivesGood (some kid) (some key) = P kid key

  pub add_key-IsGood :
      (kid : Option Text) (key : Option K) (keys : List (Text × K))
      → GivesGood kid key
      → IsGood keys
      → IsGood (add_key kid key keys)
  unfolding add_key
  add_key-IsGood none key keys p v = v
  add_key-IsGood (some kid) none keys p v = v
  add_key-IsGood (some kid) (some key) keys p v = elim (Bool-cases (is_nonempty kid)) [
    | inl full ↦ simp full (set-IsGood kid key keys p v)
    | inr blank ↦ simp blank v
  ]

module _ {J K : Type 0} (P : Text → K → Type 0) (rsa_key : J → Option K) where
  -- Each entry that gives a key gives one that is good for its `kid`.
  abbrev pub Lists : List (Entry J) → Type 0
  Lists entries = All (λ e. GivesGood P e.kid (rsa_key e.jwk)) entries

  pub add_keys-IsGood :
      (entries : List (Entry J)) (keys : List (Text × K))
      → Lists entries
      → IsGood P keys
      → IsGood P (add_keys rsa_key entries keys)
  unfolding add_keys
  add_keys-IsGood [] keys p v = v
  add_keys-IsGood (e ∷ es) keys p v =
      add_keys-IsGood es (add_key e.kid (rsa_key e.jwk) keys) p.1
        (add_key-IsGood P e.kid (rsa_key e.jwk) keys p.0 v)

-- An entry that gives no key: it has no `kid`, or an empty one, or its key is none that is read.
abbrev pub GivesNothing : {K : Type 0} → Option Text → Option K → Type 0
GivesNothing none key = Unit
GivesNothing (some kid) none = Unit
GivesNothing (some kid) (some key) = kid ≡ []

add_key_nothing :
    {K : Type 0} (kid : Option Text) (key : Option K) (keys : List (Text × K))
    → GivesNothing kid key
    → add_key kid key keys ≡ keys
unfolding add_key is_nonempty
add_key_nothing none key keys h = refl
add_key_nothing (some kid) none keys h = refl
add_key_nothing (some []) (some key) keys h = refl
add_key_nothing (some (c ∷ kid)) (some key) keys h = cc

pub add_keys_nothing :
    {J K : Type 0} (rsa_key : J → Option K) (entries : List (Entry J)) (keys : List (Text × K))
    → All (λ e. GivesNothing e.kid (rsa_key e.jwk)) entries
    → add_keys rsa_key entries keys ≡ keys
unfolding add_keys
add_keys_nothing rsa_key [] keys h = refl
add_keys_nothing rsa_key (e ∷ es) keys h =
    ap (add_keys rsa_key es) (add_key_nothing e.kid (rsa_key e.jwk) keys h.0)
    ∙ add_keys_nothing rsa_key es keys h.1
