-- ===== src/JsMap.antt =====
-- JavaScript's `Map` and `Set`, which iterate in insertion order: association lists over keys with
-- decidable equality. A `Set` is a map to `Unit`.
use mathlib.Core.Logic.{ite, if_pos, if_neg}
use theokit_gateways.Prelude.{
  suc, ◌≤◌, ◌≡◌, ◌≢◌, refl, sym, ap, ◌∙◌, Option, none, some, List, [], ◌∷◌, ◌++◌, length, arith,
}

module _ {ℓ} {K V : Type ℓ} (dec : Discrete K) where
  unfoldable pub get : K → List (K × V) → Option V
  get k [] = none
  get k ((j, v) ∷ m) = ite (dec j k) (some v) (get k m)

  -- A key that is present keeps its place; a new one goes to the end.
  unfoldable pub set : K → V → List (K × V) → List (K × V)
  set k v [] = (k, v) ∷ []
  set k v ((j, w) ∷ m) = ite (dec j k) ((j, v) ∷ m) ((j, w) ∷ set k v m)

  unfoldable pub delete : K → List (K × V) → List (K × V)
  delete k [] = []
  delete k ((j, w) ∷ m) = ite (dec j k) m ((j, w) ∷ delete k m)

  -- No key twice.
  abbrev pub Distinct : List (K × V) → Type ℓ
  Distinct [] = Unit
  Distinct ((k, v) ∷ m) = (get k m ≡ none) × Distinct m

  pub get-set :
      (k j : K) (v : V) (m : List (K × V)) → get j (set k v m) ≡ ite (dec k j) (some v) (get j m)
  unfolding get set
  get-set k j v [] = refl
  get-set k j v ((i, w) ∷ m) = ground (arith, get-set k j v m)

  pub get-set_self : (k : K) (v : V) (m : List (K × V)) → get k (set k v m) ≡ some v
  get-set_self k v m = get-set k k v m ∙ if_pos (dec k k) refl _ _

  pub get-set_ne : (k j : K) (v : V) (m : List (K × V)) → k ≢ j → get j (set k v m) ≡ get j m
  get-set_ne k j v m h = get-set k j v m ∙ if_neg (dec k j) h _ _

  pub get-delete_ne : (k j : K) (m : List (K × V)) → k ≢ j → get j (delete k m) ≡ get j m
  unfolding get delete
  get-delete_ne k j [] h = refl
  get-delete_ne k j ((i, w) ∷ m) h = elim (dec i k) [
    | yes p ↦ rw (if_pos (dec i k) p) (sym (if_neg (dec i j) (λ r. h (sym p ∙ r)) _ _))
    | no p ↦ rw (if_neg (dec i k) p, get-delete_ne k j m h) refl
  ]

  pub get-delete_self : (k : K) (m : List (K × V)) → Distinct m → get k (delete k m) ≡ none
  unfolding get delete
  get-delete_self k [] d = refl
  get-delete_self k ((i, w) ∷ m) d = elim (dec i k) [
    | yes p ↦ rw (if_pos (dec i k) p) (ap (λ x. get x m) (sym p) ∙ d.0)
    | no p ↦ rw (if_neg (dec i k) p) (if_neg (dec i k) p _ _ ∙ get-delete_self k m d.1)
  ]

  pub set-Distinct : (k : K) (v : V) (m : List (K × V)) → Distinct m → Distinct (set k v m)
  unfolding set get
  set-Distinct k v [] d = (refl, tt)
  set-Distinct k v ((i, w) ∷ m) d = elim (dec i k) [
    | yes p ↦ rw (if_pos (dec i k) p) d
    | no p ↦
        rw (if_neg (dec i k) p) (get-set_ne k i v m (λ q. p (sym q)) ∙ d.0, set-Distinct k v m d.1)
  ]

  pub get-delete-none : (k j : K) (m : List (K × V)) → get j m ≡ none → get j (delete k m) ≡ none
  unfolding get delete
  get-delete-none k j [] h = refl
  get-delete-none k j ((i, w) ∷ m) h = ground (arith, get-delete-none k j m)

  pub delete-Distinct : (k : K) (m : List (K × V)) → Distinct m → Distinct (delete k m)
  unfolding delete get
  delete-Distinct k [] d = tt
  delete-Distinct k ((i, w) ∷ m) d = elim (dec i k) [
    | yes p ↦ rw (if_pos (dec i k) p) d.1
    | no p ↦ rw (if_neg (dec i k) p) (get-delete-none k i m d.0, delete-Distinct k m d.1)
  ]

  pub set_new : (k : K) (v : V) (m : List (K × V)) → get k m ≡ none → set k v m ≡ m ++ (k, v) ∷ []
  unfolding set get
  set_new k v [] h = refl
  set_new k v ((i, w) ∷ m) h = ground (arith, set_new k v m)

  pub length-set_le : (k : K) (v : V) (m : List (K × V)) → length (set k v m) ≤ suc (length m)
  unfolding set
  length-set_le k v [] = omega arith
  length-set_le k v ((i, w) ∷ m) = ground (arith, length-set_le k v m)

  pub length-set_old :
      (k : K) (v w : V) (m : List (K × V)) → get k m ≡ some w → length (set k v m) ≡ length m
  unfolding set get
  length-set_old k v w [] h = cc
  length-set_old k v w ((i, u) ∷ m) h = ground (arith, length-set_old k v w m)

  pub length-delete_le : (k : K) (m : List (K × V)) → length (delete k m) ≤ length m
  unfolding delete
  length-delete_le k [] = omega arith
  length-delete_le k ((i, w) ∷ m) = ground (arith, length-delete_le k m)

  pub delete_absent : (k : K) (m : List (K × V)) → get k m ≡ none → delete k m ≡ m
  unfolding delete get
  delete_absent k [] h = refl
  delete_absent k ((i, w) ∷ m) h = ground (arith, delete_absent k m)

  pub length-delete_old :
      (k : K) (w : V) (m : List (K × V)) → get k m ≡ some w → suc (length (delete k m)) ≡ length m
  unfolding delete get
  length-delete_old k w [] h = cc
  length-delete_old k w ((i, u) ∷ m) h = ground (arith, length-delete_old k w m)

  get-append_present : (k : K) (v : V) (m n : List (K × V)) → get k (m ++ (k, v) ∷ n) ≢ none
  unfolding get
  get-append_present k v [] n h = cc (if_pos (dec k k) refl (some v) (get k n))
  get-append_present k v ((j, w) ∷ m) n h = elim (dec j k) [
    | yes p ↦ cc (if_pos (dec j k) p (some w) (get k (m ++ (k, v) ∷ n)))
    | no p ↦ get-append_present k v m n (sym (if_neg (dec j k) p _ _) ∙ h)
  ]

  -- In a map without doubles, a key is not in front of its place.
  pub get-Distinct_front :
      (k : K) (v : V) (m n : List (K × V)) → Distinct (m ++ (k, v) ∷ n) → get k m ≡ none
  unfolding get
  get-Distinct_front k v [] n d = refl
  get-Distinct_front k v ((j, w) ∷ m) n d = elim (dec j k) [
    | yes p ↦ absurd (get-append_present k v m n (ap (λ x. get x (m ++ (k, v) ∷ n)) (sym p) ∙ d.0))
    | no p ↦ if_neg (dec j k) p _ _ ∙ get-Distinct_front k v m n d.1
  ]

  pub get-append :
      (k j : K) (v : V) (m : List (K × V))
      → get j m ≡ none
      → get j (m ++ (k, v) ∷ []) ≡ ite (dec k j) (some v) none
  unfolding get
  get-append k j v [] h = refl
  get-append k j v ((i, w) ∷ m) h = ground (arith, get-append k j v m)

  -- A new key at the end.
  pub append-Distinct :
      (k : K) (v : V) (m : List (K × V)) → Distinct m → get k m ≡ none → Distinct (m ++ (k, v) ∷ [])
  unfolding get
  append-Distinct k v [] d h = (refl, tt)
  append-Distinct k v ((i, w) ∷ m) d h = elim (dec i k) [
    | yes p ↦ cc (sym (if_pos (dec i k) p (some w) (get k m)) ∙ h)
    | no p ↦ (
      get-append k i v m d.0 ∙ if_neg (dec k i) (λ q. p (sym q)) _ _,
      append-Distinct k v m d.1 (sym (if_neg (dec i k) p _ _) ∙ h),
    )
  ]
