-- ===== src/Rpc/Settle.antt =====
-- `settle` of the JSON-RPC client in Rpc.antt, for one id and for a list of them.
use mathlib.Core.List.{append-nil}
use theokit_gateways.Prelude.{
  subst, ℕ, length, ◌+◌, ◌<◌, ◌≡◌, refl, sym, ap, ◌∙◌, inl, inr, Bool, true, false, not, ◌&&◌, ◌||◌,
  List, [], ◌∷◌, ◌++◌, ltb, leb, ◌==◌, ==_iff, Bool-cases, if◌then◌else◌, arith,
}
use theokit_gateways.Rpc.{
  RpcOutcome, disconnected, Client, mem, put_key, delete_key, new, settle, settle_all,
}

abbrev pub as_number : Bool → ℕ
as_number true = 1
as_number false = 0

-- Was the id given to a request?
abbrev pub is_issued : ℕ → ℕ → Bool
is_issued next i = leb 1 i && ltb i next

mem-append : (i : ℕ) (xs ys : List ℕ) → mem i (xs ++ ys) ≡ (mem i xs || mem i ys)
unfolding mem
mem-append i [] ys = refl
mem-append i (x ∷ xs) ys = ground (arith, mem-append i xs ys)

pub mem-put_key : (i j : ℕ) (keys : List ℕ) → mem j (put_key i keys) ≡ (j == i || mem j keys)
unfolding put_key mem
mem-put_key i j keys = elim (Bool-cases (j == i)) [
  | inl same ↦
      ground (arith, mem-append j keys (i ∷ []), ap (λ k. mem k keys) ((==_iff j i).0 same))
  | inr differs ↦ ground (arith, mem-append j keys (i ∷ []))
]

pub mem-delete_key :
    (i j : ℕ) (keys : List ℕ) → mem j (delete_key i keys) ≡ (mem j keys && not (j == i))
unfolding delete_key mem
mem-delete_key i j [] = refl
mem-delete_key i j (k ∷ keys) = ground (arith, mem-delete_key i j keys, ==_iff j k, ==_iff j i)

pub no_members : (xs : List ℕ) → ((j : ℕ) → mem j xs ≡ false) → xs ≡ []
unfolding mem
no_members [] h = refl
no_members (x ∷ xs) h = ground (arith, h x)

module _ {V : Type 0} where
  -- How often the request was answered.
  unfoldable pub count : ℕ → List (ℕ × RpcOutcome V) → ℕ
  count i [] = 0
  count i ((j, o) ∷ answers) = as_number (i == j) + count i answers

  count-append :
      (i : ℕ) (xs ys : List (ℕ × RpcOutcome V)) → count i (xs ++ ys) ≡ count i xs + count i ys
  unfolding count
  count-append i [] ys = omega arith
  count-append i ((j, o) ∷ xs) ys = omega (arith, count-append i xs ys)

  -- What the client has answered and still owes, request by request, is what it has issued; a closed
  -- client owes nothing, and has said once that it closed.
  abbrev pub Owes : Client V → Type 0
  Owes c =
      (i : ℕ) → count i c.answers + as_number (mem i c.pending) ≡ as_number (is_issued c.next_id i)

  pub record IsValid (c : Client V) : Type 0 where
    pub owed : Owes c
    pub idle : c.is_open ≡ false → c.pending ≡ []
    pub said : length c.closings ≡ as_number (not c.is_open)
    pub positive : 0 < c.next_id

  pub new-IsValid : IsValid new
  unfolding count mem
  new-IsValid = record {
    owed = λ i. ground arith;
    idle = λ h. refl;
    said = refl;
    positive = omega arith;
  }

  pub settle_pending :
      (i j : ℕ) (o : RpcOutcome V) (c : Client V)
      → mem j (settle i o c).pending ≡ (mem j c.pending && not (j == i))
  unfolding settle
  settle_pending i j o c = elim (Bool-cases (mem i c.pending)) [
    | inr gone ↦
        simp (gone, settle)
          (elim (Bool-cases (j == i)) [
            | inl same ↦ ground (arith, gone, ap (λ k. mem k c.pending) ((==_iff j i).0 same))
            | inr differs ↦ ground arith
          ])
    | inl here ↦ simp (here, settle) (mem-delete_key i j c.pending)
  ]

  pub settle_answers :
      (i : ℕ) (o : RpcOutcome V) (c : Client V)
      → (settle i o c).answers ≡ c.answers ++ (if mem i c.pending then (i, o) ∷ [] else [])
  unfolding settle
  settle_answers i o c = elim (Bool-cases (mem i c.pending)) [
    | inr gone ↦ simp (gone, settle) (sym (append-nil c.answers))
    | inl here ↦ simp (here, settle) refl
  ]

  pub settle_rest :
      (i : ℕ) (o : RpcOutcome V) (c : Client V)
      → ((settle i o c).next_id ≡ c.next_id)
        × ((settle i o c).is_open ≡ c.is_open)
        × ((settle i o c).closings ≡ c.closings)
  unfolding settle
  settle_rest i o c = elim (Bool-cases (mem i c.pending)) [
    | inr gone ↦ simp (gone, settle) (refl, refl, refl)
    | inl here ↦ simp (here, settle) (refl, refl, refl)
  ]

  -- An id that is not pending is answered by nothing, and one that is moves over.
  settle_owed :
      (i j : ℕ) (o : RpcOutcome V) (c : Client V)
      → count j (settle i o c).answers + as_number (mem j (settle i o c).pending)
        ≡ count j c.answers + as_number (mem j c.pending)
  unfolding count
  settle_owed i j o c =
      simp (settle_answers i o c, settle_pending i j o c)
        (elim (Bool-cases (j == i)) [
          | inl same ↦ ground (
            arith,
            ap (λ k. mem k c.pending) ((==_iff j i).0 same),
            count-append j c.answers (if mem i c.pending then (i, o) ∷ [] else []),
          )
          | inr differs ↦
              ground (arith, count-append j c.answers (if mem i c.pending then (i, o) ∷ [] else []))
        ])

  settle_idle :
      (i : ℕ) (o : RpcOutcome V) (c : Client V) → c.pending ≡ [] → (settle i o c).pending ≡ []
  unfolding settle mem
  settle_idle i o c e = simp (e, settle) refl

  pub settle-Owes : (i : ℕ) (o : RpcOutcome V) (c : Client V) → Owes c → Owes (settle i o c)
  settle-Owes i o c v j =
      settle_owed i j o c ∙ v j ∙ ap (λ n. as_number (is_issued n j)) (sym (settle_rest i o c).0)

  pub settle-IsValid :
      (i : ℕ) (o : RpcOutcome V) (c : Client V) → IsValid c → IsValid (settle i o c)
  settle-IsValid i o c v = record {
    owed = settle-Owes i o c v.owed;
    idle = λ h. settle_idle i o c (v.idle (sym (settle_rest i o c).1 ∙ h));
    said =
        ap length (settle_rest i o c).2
        ∙ v.said
        ∙ ap (λ b. as_number (not b)) (sym (settle_rest i o c).1);
    positive = subst (λ n. 0 < n) (sym (settle_rest i o c).0) v.positive;
  }

  -- Settling a list of ids leaves none of them pending, and owes as much.
  pub settle_all_lem :
      (ids : List ℕ) (c : Client V)
      → ((j : ℕ)
          → count j (settle_all ids c).answers + as_number (mem j (settle_all ids c).pending)
            ≡ count j c.answers + as_number (mem j c.pending))
        × ((j : ℕ) → mem j (settle_all ids c).pending ≡ (mem j c.pending && not (mem j ids)))
        × ((settle_all ids c).next_id ≡ c.next_id)
        × ((settle_all ids c).is_open ≡ c.is_open)
        × ((settle_all ids c).closings ≡ c.closings)
  unfolding settle_all mem
  settle_all_lem [] c = ((λ j. refl), (λ j. ground arith), refl, refl, refl)
  settle_all_lem (i ∷ ids) c =
      let (owed, gone, next, open_, said) = settle_all_lem ids (settle i disconnected c) in
      (
        (λ j. owed j ∙ settle_owed i j disconnected c),
        (λ j. ground (arith, gone j, settle_pending i j disconnected c)),
        next ∙ (settle_rest i disconnected c).0,
        open_ ∙ (settle_rest i disconnected c).1,
        said ∙ (settle_rest i disconnected c).2,
      )
