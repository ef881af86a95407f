-- ===== src/Allowlist/Closed.antt =====
-- Who the allowlist lets in: it is closed unless an entry names the sender, or is the wildcard.
use theokit_gateways.Prelude.{
  ℕ, ◌≡◌, refl, sym, ap, ◌∙◌, ◌↔◌, ◌⊎◌, inl, inr, Bool, true, false, ◌&&◌, ◌||◌, Option, List, [],
  ◌∷◌, map, filter, any, if◌then◌else◌, Bool-cases, arith,
}
use theokit_gateways.Js.{Text, str_eq, is_nonempty, trim}
use theokit_gateways.Js.Search.{str_eq_iff}
use theokit_gateways.Allowlist.{
  wildcard, without_device, without_domain, is_digit, normalize_whats_app_id, split_commas,
  normalize_entry, raw_text, parse_allowed_senders, has_entries, is_sender_allowed,
}

-- Some entry of the list lets the sender in: it is the wildcard, or it is not, and names the same
-- digits.
abbrev pub Admits : Text → List Text → Type 0
Admits sender [] = ⊥
Admits sender (entry ∷ entries) =
    ((trim entry ≡ wildcard)
      ⊎ (normalize_whats_app_id (trim entry) ≡ normalize_whats_app_id sender))
    ⊎ Admits sender entries

head_of : (c : ℕ) (rest : Text) → c ∷ rest ≡ wildcard → c ≡ 42
head_of c rest e = cc

digit_first : (c : ℕ) (rest : Text) → is_digit c ≡ true → c ∷ rest ≡ wildcard → ⊥
unfolding is_digit
digit_first c rest h e = ground (arith, head_of c rest e)

filter_digits_wildcard : (t : Text) → filter is_digit t ≡ wildcard → ⊥
filter_digits_wildcard [] h = cc
filter_digits_wildcard (c ∷ cs) h = elim (Bool-cases (is_digit c)) [
  | inl yes_ ↦
      digit_first c (filter is_digit cs) yes_
        (sym (ap (λ b. if b then c ∷ filter is_digit cs else filter is_digit cs) yes_) ∙ h)
  | inr no_ ↦ filter_digits_wildcard cs (ground arith)
]

never_wildcard : (t : Text) → normalize_whats_app_id t ≡ wildcard → ⊥
unfolding normalize_whats_app_id
never_wildcard t h = filter_digits_wildcard (without_domain (without_device t)) h

-- What an entry is kept as, and whether it lets the sender in.
lets_in : Text → Text → Bool
lets_in normalized kept = str_eq wildcard kept || str_eq normalized kept

-- The entries that are dropped for being empty let nobody in.
any-filter_nonempty :
    (n : Text) (kept : List Text)
    → is_nonempty n ≡ true
    → (any (str_eq wildcard) (filter is_nonempty kept) || any (str_eq n) (filter is_nonempty kept))
      ≡ any (lets_in n) kept
unfolding lets_in is_nonempty str_eq
any-filter_nonempty n [] named = refl
any-filter_nonempty [] (kept ∷ rest) named = cc
any-filter_nonempty (d ∷ n) ([] ∷ rest) named = any-filter_nonempty (d ∷ n) rest named
any-filter_nonempty (d ∷ n) ((c ∷ cs) ∷ rest) named =
    ground (arith, any-filter_nonempty (d ∷ n) rest named)

lets_in_iff :
    (sender entry : Text)
    → (lets_in (normalize_whats_app_id sender) (normalize_entry entry) ≡ true)
      ↔ ((entry ≡ wildcard) ⊎ (normalize_whats_app_id entry ≡ normalize_whats_app_id sender))
unfolding lets_in normalize_entry
lets_in_iff sender entry = elim (Bool-cases (str_eq entry wildcard)) [
  | inl same ↦ (
    (λ h. inl ((str_eq_iff entry wildcard).0 same)),
    (λ h. ground (arith, same, (str_eq_iff wildcard wildcard).1 refl)),
  )
  | inr differs ↦ (
    (λ h. elim (Bool-cases (str_eq wildcard (normalize_whats_app_id entry))) [
      | inl star ↦
          absurd (
            never_wildcard entry
              (sym ((str_eq_iff wildcard (normalize_whats_app_id entry)).0 star)))
      | inr other ↦ inr (
          sym (
            (str_eq_iff (normalize_whats_app_id sender) (normalize_whats_app_id entry)).0
              (ground (arith, h, differs, other))))
    ]),
    (λ h. elim h [
      | inl same ↦ cc (differs, (str_eq_iff entry wildcard).1 same)
      | inr e ↦ ground (
        arith,
        differs,
        (str_eq_iff (normalize_whats_app_id sender) (normalize_whats_app_id entry)).1 (sym e),
      )
    ]),
  )
]

either :
    {A B : Type 0} (a b : Bool) → ((a ≡ true) ↔ A) → ((b ≡ true) ↔ B) → ((a || b) ≡ true) ↔ (A ⊎ B)
either true b f g = ((λ h. inl (f.0 refl)), (λ h. refl))
either false b f g = ((λ h. inr (g.0 h)), (λ h. elim h [ inl x ↦ cc (f.1 x) | inr y ↦ g.1 y ]))

entries_iff :
    (sender : Text) (entries : List Text)
    → (any (lets_in (normalize_whats_app_id sender)) (map normalize_entry (map trim entries))
        ≡ true)
      ↔ Admits sender entries
entries_iff sender [] = ((λ h. cc), (λ h. absurd h))
entries_iff sender (entry ∷ entries) =
    either (lets_in (normalize_whats_app_id sender) (normalize_entry (trim entry)))
      (any (lets_in (normalize_whats_app_id sender)) (map normalize_entry (map trim entries)))
      (lets_in_iff sender (trim entry)) (entries_iff sender entries)

has_entries-any :
    (p : Text → Bool) (allowed : List Text) → any p allowed ≡ true → has_entries allowed ≡ true
unfolding has_entries
has_entries-any p [] h = cc
has_entries-any p (a ∷ rest) h = refl

-- A sender is allowed exactly if its id has digits and some entry of the list, split at commas and
-- trimmed, is the wildcard or names the same digits. So a list that is absent or blank, or has no
-- entry with digits, admits nobody, and the wildcard admits no one whose id has none.
pub is_sender_allowed_iff :
    (sender : Text) (raw : Option Text)
    → (is_sender_allowed sender (parse_allowed_senders raw) ≡ true) ↔ (
        (is_nonempty (normalize_whats_app_id sender) ≡ true)
        × Admits sender (split_commas (raw_text raw)))
unfolding is_sender_allowed parse_allowed_senders
is_sender_allowed_iff sender raw = (to, from)
  where
    kept : List Text
    kept = map normalize_entry (map trim (split_commas (raw_text raw)))

    named : Bool
    named = is_nonempty (normalize_whats_app_id sender)

    tests : Bool
    tests =
        any (str_eq wildcard) (filter is_nonempty kept)
        || any (str_eq (normalize_whats_app_id sender)) (filter is_nonempty kept)

    to :
        (named && has_entries (filter is_nonempty kept) && tests) ≡ true
        → (named ≡ true) × Admits sender (split_commas (raw_text raw))
    to h =
        let named_is : named ≡ true = ground (arith, h) in
        (
          named_is,
          (entries_iff sender (split_commas (raw_text raw))).0 (
              ground (arith, h, any-filter_nonempty (normalize_whats_app_id sender) kept named_is)),
        )

    some_entry : tests ≡ true → has_entries (filter is_nonempty kept) ≡ true
    some_entry h = elim (Bool-cases (any (str_eq wildcard) (filter is_nonempty kept))) [
      | inl star ↦ has_entries-any (str_eq wildcard) (filter is_nonempty kept) star
      | inr not_star ↦
          has_entries-any (str_eq (normalize_whats_app_id sender)) (filter is_nonempty kept)
            (ground (arith, h, not_star))
    ]

    from :
        (named ≡ true) × Admits sender (split_commas (raw_text raw))
        → (named && has_entries (filter is_nonempty kept) && tests) ≡ true
    from (n, a) =
        let tested : tests ≡ true =
          any-filter_nonempty (normalize_whats_app_id sender) kept n
          ∙ (entries_iff sender (split_commas (raw_text raw))).1 a in
        ground (arith, n, tested, some_entry tested)
