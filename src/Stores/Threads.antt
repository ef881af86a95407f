-- ===== src/Stores/Threads.antt =====
-- packages/gateway-email/src/thread-store.ts: the headers that a threaded reply needs, by message
-- id, the oldest entry first.
use mathlib.Core.Logic.{if_pos}
use theokit_gateways.Prelude.{
  ℕ, ◌≤◌, ◌<◌, ◌≡◌, refl, ap, ◌∙◌, Bool, true, false, not, ◌&&◌, Option, none, some, List, [], ◌∷◌,
  ◌++◌, length, leb, if◌then◌else◌, Bool-cases, Option-cases, inl, inr, arith,
}
use theokit_gateways.Js.{Text, Text-discrete}
use theokit_gateways.JsMap as Map

pub record ThreadContext : Type 0 where
  pub subject : Text
  pub references : List Text
  pub last_message_id : Text

-- The fields of `EmailMessageEvent.email` that are read.
pub record EmailHeaders : Type 0 where
  pub message_id : Text
  pub subject : Text
  pub references : Option (List Text)

abbrev pub max_threads : ℕ
max_threads = 1000

abbrev pub Threads : Type 0
Threads = List (Text × ThreadContext)

unfoldable pub is_some {ℓ} : {A : Type ℓ} → Option A → Bool
is_some none = false
is_some (some a) = true

-- `event.email.references ?? []`.
unfoldable pub context_of : EmailHeaders → ThreadContext
context_of email = record {
  subject = email.subject;
  references = elim email.references [ none ↦ [] | some rs ↦ rs ];
  last_message_id = email.message_id;
}

-- The first key out.
abbrev pub drop_first : Threads → Threads
drop_first [] = []
drop_first (e ∷ m) = Map.delete Text-discrete e.0 (e ∷ m)

-- `if (this.map.size >= MAX_SIZE && !this.map.has(id))`: the oldest entry goes.
unfoldable pub evict : Text → Threads → Threads
unfolding is_some
evict id m =
    if leb max_threads (length m) && not (is_some (Map.get Text-discrete id m))
    then drop_first m
    else m

unfoldable pub record_from_inbound : EmailHeaders → Threads → Threads
unfolding evict context_of
record_from_inbound email m =
    Map.set Text-discrete email.message_id (context_of email)
      (Map.delete Text-discrete email.message_id (evict email.message_id m))

unfoldable pub lookup : Text → Threads → Option ThreadContext
lookup topic_id m = Map.get Text-discrete topic_id m

-- Within the bound, and no id twice.
pub record IsValid (m : Threads) : Type 0 where
  pub bounded : length m ≤ max_threads
  pub distinct : Map.Distinct Text-discrete m

drop_first_tail : (e : Text × ThreadContext) (m : Threads) → drop_first (e ∷ m) ≡ m
unfolding Map.delete
drop_first_tail e m = if_pos (Text-discrete e.0 e.0) refl _ _

drop_first-Distinct :
    (m : Threads) → Map.Distinct Text-discrete m → Map.Distinct Text-discrete (drop_first m)
drop_first-Distinct [] d = tt
drop_first-Distinct (e ∷ m) d = rw (drop_first_tail e m) (d.1)

length-drop_first-lt : (m : Threads) → 0 < length m → length (drop_first m) < length m
length-drop_first-lt [] h = absurd (omega arith)
length-drop_first-lt (e ∷ m) h = rw (drop_first_tail e m) (omega arith)

evict-Distinct :
    (id : Text) (m : Threads)
    → Map.Distinct Text-discrete m
    → Map.Distinct Text-discrete (evict id m)
unfolding evict
evict-Distinct id m d =
    elim (Bool-cases (leb max_threads (length m) && not (is_some (Map.get Text-discrete id m)))) [
      | inl full ↦ rw full (drop_first-Distinct m d)
      | inr room ↦ rw room d
    ]

-- A known id keeps every entry.
evict_known :
    (id : Text) (m : Threads) (ctx : ThreadContext)
    → Map.get Text-discrete id m ≡ some ctx
    → evict id m ≡ m
unfolding evict
evict_known id m ctx h = ground arith

-- A new id leaves room.
length-evict-lt :
    (id : Text) (m : Threads)
    → length m ≤ max_threads
    → Map.get Text-discrete id m ≡ none
    → length (evict id m) < max_threads
unfolding evict
length-evict-lt id m h new = elim (Bool-cases (leb max_threads (length m))) [
  | inl full ↦ rw (full, new, is_some) (omega (arith, length-drop_first-lt m (ground arith)))
  | inr room ↦ rw room (ground arith)
]

length-rest-lt :
    (id : Text) (m : Threads)
    → length m ≤ max_threads
    → length (Map.delete Text-discrete id (evict id m)) < max_threads
length-rest-lt id m h = elim (Option-cases (Map.get Text-discrete id m)) [
  | inl new ↦
      omega (arith, length-evict-lt id m h new, Map.length-delete_le Text-discrete id (evict id m))
  | inr (ctx, known) ↦
      rw (evict_known id m ctx known)
        (omega (arith, Map.length-delete_old Text-discrete id ctx m known))
]

evict_oldest :
    (id : Text) (oldest : Text × ThreadContext) (m : Threads)
    → length (oldest ∷ m) ≡ max_threads
    → Map.get Text-discrete id (oldest ∷ m) ≡ none
    → evict id (oldest ∷ m) ≡ m
unfolding evict
evict_oldest id oldest m full new =
    let past : leb max_threads (length (oldest ∷ m)) ≡ true = ground arith in
    rw (past, new, is_some) (drop_first_tail oldest m)

absent :
    (id : Text) (e : Text × ThreadContext) (m : Threads)
    → Map.get Text-discrete id (e ∷ m) ≡ none
    → Map.get Text-discrete id m ≡ none
unfolding Map.get
absent id e m h = ground arith

-- A record keeps the store within 1000 entries with no id twice. Its own context is what a lookup
-- of its id then finds, it is the newest entry, and behind the eviction nothing else changes.
pub record_from_inbound_lem :
    (email : EmailHeaders) (m : Threads)
    → IsValid m
    → IsValid (record_from_inbound email m)
      × (lookup email.message_id (record_from_inbound email m) ≡ some (context_of email))
      × (record_from_inbound email m
          ≡ Map.delete Text-discrete email.message_id (evict email.message_id m)
            ++ (email.message_id, context_of email) ∷ [])
unfolding record_from_inbound lookup
record_from_inbound_lem email m v =
    let id = email.message_id in
    let kept = evict-Distinct id m v.distinct in
    let rest = Map.delete Text-discrete id (evict id m) in
    let distinct = Map.delete-Distinct Text-discrete id (evict id m) kept in
    (
      record {
        bounded = omega (
          arith,
          Map.length-set_le Text-discrete id (context_of email) rest,
          length-rest-lt id m v.bounded,
        );
        distinct = Map.set-Distinct Text-discrete id (context_of email) rest distinct;
      },
      Map.get-set_self Text-discrete id (context_of email) rest,
      Map.set_new Text-discrete id (context_of email) rest
          (Map.get-delete_self Text-discrete id (evict id m) kept),
    )

-- A full store gives up exactly its oldest entry for a new id.
pub record_from_inbound_evicts :
    (email : EmailHeaders) (oldest : Text × ThreadContext) (m : Threads)
    → IsValid (oldest ∷ m)
    → length (oldest ∷ m) ≡ max_threads
    → Map.get Text-discrete email.message_id (oldest ∷ m) ≡ none
    → record_from_inbound email (oldest ∷ m) ≡ m ++ (email.message_id, context_of email) ∷ []
record_from_inbound_evicts email oldest m v full new =
    (record_from_inbound_lem email (oldest ∷ m) v).2
    ∙ ap (λ r. r ++ (email.message_id, context_of email) ∷ [])
        (ap (Map.delete Text-discrete email.message_id)
            (evict_oldest email.message_id oldest m full new)
          ∙ Map.delete_absent Text-discrete email.message_id m
              (absent email.message_id oldest m new))
