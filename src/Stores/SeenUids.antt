-- ===== src/Stores/SeenUids.antt =====
-- packages/gateway-email/src/seen-uids.ts: the bounded set of dispatched IMAP UIDs. The list holds
-- the UIDs in the order in which the `Set` iterates, oldest first.
use mathlib.Core.List.{append_assoc}
use theokit_gateways.Prelude.{
  ℕ, zero, suc, ◌+◌, ◌-◌, ◌≤◌, ◌<◌, ◌≡◌, refl, ap, ◌∙◌, Bool, true, false, ◌||◌, List, [], ◌∷◌,
  ◌++◌, length, drop, leb, ◌==◌, if◌then◌else◌, Bool-cases, inl, inr, arith, length-append,
  length-drop,
}

abbrev pub max_size : ℕ
max_size = 5000

abbrev pub trim_to : ℕ
trim_to = 4000

-- `this.set.has(uid)`.
unfoldable pub has : ℕ → List ℕ → Bool
has uid [] = false
has uid (u ∷ seen) = uid == u || has uid seen

-- `trim`: the oldest go until `target` are left. (`toDrop <= 0` drops nothing.)
unfoldable pub trim : ℕ → List ℕ → List ℕ
trim target seen = drop (length seen - target) seen

-- `if (this.set.size >= MAX_SIZE) this.trim();`.
unfoldable pub make_room : ℕ → ℕ → List ℕ → List ℕ
unfolding trim
make_room bound target seen = if leb bound (length seen) then trim target seen else seen

-- `this.set.add(uid)`.
unfoldable pub push : ℕ → List ℕ → List ℕ
push uid seen = if has uid seen then seen else seen ++ uid ∷ []

unfoldable pub add : ℕ → List ℕ → List ℕ
add uid seen = push uid (make_room max_size trim_to seen)

-- `size` and `clear`.
unfoldable pub size : List ℕ → ℕ
size seen = length seen

unfoldable pub clear : List ℕ → List ℕ
clear seen = []

-- The set after the UIDs are added one by one.
unfoldable pub add_all : List ℕ → List ℕ → List ℕ
add_all [] seen = seen
add_all (u ∷ us) seen = add_all us (add u seen)

has-append_right : (uid : ℕ) (xs ys : List ℕ) → has uid ys ≡ true → has uid (xs ++ ys) ≡ true
unfolding has
has-append_right uid [] ys h = h
has-append_right uid (x ∷ xs) ys h = ground (arith, has-append_right uid xs ys h)

has_head : (uid : ℕ) (xs : List ℕ) → has uid (uid ∷ xs) ≡ true
unfolding has
has_head uid xs = ground arith

push_lem :
    (uid : ℕ) (seen : List ℕ)
    → (has uid (push uid seen) ≡ true) × (length (push uid seen) ≤ length seen + 1)
unfolding push
push_lem uid seen = elim (Bool-cases (has uid seen)) [
  | inl old ↦ rw old (old, omega arith)
  | inr new ↦ rw new (
    has-append_right uid seen (uid ∷ []) (has_head uid []),
    omega (arith, length-append seen (uid ∷ [])),
  )
]

length-make_room-lt :
    (bound target : ℕ) (seen : List ℕ)
    → target < bound
    → length seen ≤ bound
    → length (make_room bound target seen) < bound
unfolding make_room
length-make_room-lt bound target seen h k =
    ground (arith, length-drop {0} (length seen - target) seen)

-- The UID just added is known, and a set of at most `max_size` UIDs stays so.
add_lem :
    (uid : ℕ) (seen : List ℕ)
    → length seen ≤ max_size
    → (has uid (add uid seen) ≡ true) × (length (add uid seen) ≤ max_size)
unfolding add
add_lem uid seen h =
    let kept = make_room max_size trim_to seen in
    let (known, size) = push_lem uid kept in
    (known, omega (arith, size, length-make_room-lt max_size trim_to seen (omega arith) h))

-- Fewer than `d` UIDs are newer.
abbrev Recent : ℕ → ℕ → List ℕ → Type 0
Recent d uid seen =
    (older : List ℕ) × (newer : List ℕ) × (seen ≡ older ++ uid ∷ newer) × (length newer < d)

Recent-has : (d uid : ℕ) (seen : List ℕ) → Recent d uid seen → has uid seen ≡ true
Recent-has d uid seen (older, newer, e, h) =
    rw e (has-append_right uid older (uid ∷ newer) (has_head uid newer))

drop-append : (n : ℕ) (xs ys : List ℕ) → n ≤ length xs → drop n (xs ++ ys) ≡ drop n xs ++ ys
drop-append zero xs ys h = refl
drop-append (suc n) [] ys h = absurd (omega arith)
drop-append (suc n) (x ∷ xs) ys h = drop-append n xs ys (omega arith)

make_room-Recent :
    (bound target d uid : ℕ) (seen : List ℕ)
    → d ≤ target
    → Recent d uid seen
    → Recent d uid (make_room bound target seen)
unfolding make_room
make_room-Recent bound target d uid seen h (older, newer, e, k) =
    elim (Bool-cases (leb bound (length seen))) [
      | inr small ↦ rw small (older, newer, e, k)
      | inl large ↦
          let n = length seen - target in
          let size : length seen ≡ length older + suc (length newer) =
            ap length e ∙ length-append older (uid ∷ newer) in
          rw large (
            drop n older,
            newer,
            ap (drop n) e ∙ drop-append n older (uid ∷ newer) (omega arith),
            k,
          )
    ]

push-Recent : (d uid v : ℕ) (seen : List ℕ) → Recent d uid seen → Recent (suc d) uid (push v seen)
unfolding push
push-Recent d uid v seen (older, newer, e, h) = elim (Bool-cases (has v seen)) [
  | inl old ↦ rw old (older, newer, e, omega arith)
  | inr new ↦ rw new (
    older,
    newer ++ v ∷ [],
    ap (λ s. s ++ v ∷ []) e ∙ append_assoc older (uid ∷ newer) (v ∷ []),
    omega (arith, length-append newer (v ∷ [])),
  )
]

add_all-Recent :
    (us : List ℕ) (d uid : ℕ) (seen : List ℕ)
    → d + length us ≤ suc trim_to
    → Recent d uid seen
    → has uid (add_all us seen) ≡ true
unfolding add_all add
add_all-Recent [] d uid seen h r = Recent-has d uid seen r
add_all-Recent (u ∷ us) d uid seen h r =
    add_all-Recent us (suc d) uid (add u seen) (omega arith)
      (push-Recent d uid u _ (make_room-Recent max_size trim_to d uid seen (omega arith) r))

has-drop : (n uid : ℕ) (seen : List ℕ) → has uid seen ≡ false → has uid (drop n seen) ≡ false
unfolding has
has-drop zero uid seen h = h
has-drop (suc n) uid [] h = refl
has-drop (suc n) uid (u ∷ seen) h = has-drop n uid seen (ground arith)

make_room-new :
    (bound target uid : ℕ) (seen : List ℕ)
    → has uid seen ≡ false
    → has uid (make_room bound target seen) ≡ false
unfolding make_room
make_room-new bound target uid seen h = ground (arith, has-drop (length seen - target) uid seen h)

-- A UID added while it was not in the set is still known after 4000 more additions, whichever they
-- are: the set forgets only what is older.
pub add_all-has :
    (us : List ℕ) (uid : ℕ) (seen : List ℕ)
    → has uid seen ≡ false
    → length us ≤ trim_to
    → has uid (add_all us (add uid seen)) ≡ true
unfolding add push
add_all-has us uid seen new h =
    let kept = make_room max_size trim_to seen in
    let fresh = make_room-new max_size trim_to uid seen new in
    add_all-Recent us 1 uid (add uid seen) (omega arith) (kept, [], rw fresh refl, omega arith)
