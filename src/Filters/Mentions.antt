-- ===== src/Filters/Mentions.antt =====
-- When the Mattermost bot answers.
use theokit_gateways.Prelude.{
  ℕ, ◌≡◌, ◌≢◌, refl, sym, ap, ◌∙◌, ◌↔◌, ◌⊎◌, inl, inr, Bool, true, false, not, ◌&&◌, [], ◌∷◌, ◌++◌,
  length, drop, Bool-cases, if◌then◌else◌, arith,
}
use theokit_gateways.Js.{Text, str_eq, starts_with, is_nonempty}
use theokit_gateways.Js.Search.{str_eq_iff, starts_with_iff}
use theokit_gateways.Filters.{
  ShouldRespondOptions, is_word, ends_name, mention_from, has_mention_with_boundary, is_dm,
  is_mentioned, should_respond,
}

-- Whether a word character stands at the end, or, of nothing, in front.
abbrev pub ends_in_word : Bool → Text → Bool
ends_in_word word [] = word
ends_in_word word (c ∷ cs) = ends_in_word (is_word c) cs

-- The text has an `@` and the name, with no word character in front, and neither a word character nor
-- a dot behind.
abbrev pub Mentions : Bool → Text → Text → Type 0
Mentions word text name =
    (before : Text) × (after : Text) × (text ≡ before ++ (b'@' ∷ name) ++ after)
    × (ends_in_word word before ≡ false)
    × (ends_name after ≡ true)

drop-append : (name after : Text) → drop (length name) (name ++ after) ≡ after
drop-append [] after = refl
drop-append (c ∷ name) after = drop-append name after

tail_is : (c d : ℕ) (cs ds : Text) → c ∷ cs ≡ d ∷ ds → (c ≡ d) × (cs ≡ ds)
tail_is c d cs ds e = (cc, cc)

mention_from-Mentions :
    (word : Bool) (text name : Text) → mention_from word text name ≡ true → Mentions word text name
unfolding mention_from
mention_from-Mentions word [] name h = cc
mention_from-Mentions word (c ∷ cs) name h =
    elim (Bool-cases
      (not word && (starts_with (c ∷ cs) (b'@' ∷ name) && ends_name (drop (length name) cs)))) [
        | inl here ↦
            let (rest, e) = (starts_with_iff (c ∷ cs) (b'@' ∷ name)).0 (ground (arith, here)) in
            (
              [],
              rest,
              e,
              ground (arith, here),
              ap ends_name (
                    sym (drop-append name rest)
                    ∙ ap (drop (length name)) (sym (tail_is c b'@' cs (name ++ rest) e).1))
                  ∙ ground (arith, here),
            )
        | inr not_here ↦
            let (before, after, e, w, x) =
              mention_from-Mentions (is_word c) cs name (ground (arith, h, not_here)) in
            (c ∷ before, after, ap (λ t. c ∷ t) e, w, x)
      ]

Mentions-mention_from :
    (word : Bool) (text name : Text) → Mentions word text name → mention_from word text name ≡ true
unfolding mention_from
Mentions-mention_from word [] name ([], after, e, w, x) = cc
Mentions-mention_from word [] name (d ∷ before, after, e, w, x) = cc
Mentions-mention_from word (c ∷ cs) name ([], after, e, w, x) = ground (
  arith,
  w,
  (starts_with_iff (c ∷ cs) (b'@' ∷ name)).1 (after, e),
  ap (λ t. ends_name (drop (length name) t)) (tail_is c b'@' cs (name ++ after) e).1
      ∙ ap ends_name (drop-append name after)
      ∙ x,
)
Mentions-mention_from word (c ∷ cs) name (d ∷ before, after, e, w, x) =
    let (same, rest) = tail_is c d cs (before ++ (b'@' ∷ name) ++ after) e in
    ground (
      arith,
      Mentions-mention_from (is_word c) cs name
          (before, after, rest, ap (λ k. ends_in_word (is_word k) before) same ∙ w, x),
    )

-- The early returns of `shouldRespond`, by its six tests.
branches :
    (own direct required listed named says : Bool)
    → ((if own
          then false
          else if direct
          then true
          else if not required
          then true
          else if listed
          then true
          else named && says)
        ≡ true)
      ↔ ((own ≡ false)
          × ((direct ≡ true)
              ⊎ ((required ≡ false) ⊎ ((listed ≡ true) ⊎ ((named ≡ true) × (says ≡ true))))))
branches true d q m n s = ((λ e. cc), (λ e. cc (e.0)))
branches false true q m n s = ((λ e. (refl, inl refl)), (λ e. refl))
branches false false false m n s = ((λ e. (refl, inr (inl refl))), (λ e. refl))
branches false false true true n s = ((λ e. (refl, inr (inr (inl refl)))), (λ e. refl))
branches false false true false true true =
    ((λ e. (refl, inr (inr (inr (refl, refl))))), (λ e. refl))
branches false false true false true false = ((λ e. cc), (λ e. ground (arith, e.1)))
branches false false true false false s = ((λ e. cc), (λ e. ground (arith, e.1)))

-- The bot answers exactly if the post is not its own, and it is a direct message, or mentions are not
-- required, or the post's metadata mention its id, or it has a username and the text has an `@` and
-- the username with no word character in front, and neither a word character nor a dot behind.
pub should_respond_iff :
    (o : ShouldRespondOptions)
    → (should_respond o ≡ true) ↔ (
        (o.user_id ≢ o.bot_user_id)
        × ((is_dm o.channel_type ≡ true)
            ⊎ ((o.require_mention ≡ false)
                ⊎ ((is_mentioned o.mentions o.bot_user_id ≡ true)
                    ⊎ ((is_nonempty o.bot_username ≡ true)
                        × Mentions false o.message o.bot_username)))))
unfolding should_respond has_mention_with_boundary
should_respond_iff o = (to, from)
  where
    says : Bool
    says = mention_from false o.message o.bot_username

    to :
        should_respond o ≡ true
        → (o.user_id ≢ o.bot_user_id)
          × ((is_dm o.channel_type ≡ true)
              ⊎ ((o.require_mention ≡ false)
                  ⊎ ((is_mentioned o.mentions o.bot_user_id ≡ true)
                      ⊎ ((is_nonempty o.bot_username ≡ true)
                          × Mentions false o.message o.bot_username))))
    to h =
        let (other, why) =
          (branches (str_eq o.user_id o.bot_user_id) (is_dm o.channel_type) o.require_mention
              (is_mentioned o.mentions o.bot_user_id) (is_nonempty o.bot_username) says).0
            h in
        (
          (λ e. cc (other, (str_eq_iff o.user_id o.bot_user_id).1 e)),
          elim why [
            | inl a ↦ inl a
            | inr (inl a) ↦ inr (inl a)
            | inr (inr (inl a)) ↦ inr (inr (inl a))
            | inr (inr (inr (n, m))) ↦
                inr (inr (inr (n, mention_from-Mentions false o.message o.bot_username m)))
          ],
        )

    from :
        (o.user_id ≢ o.bot_user_id)
          × ((is_dm o.channel_type ≡ true)
              ⊎ ((o.require_mention ≡ false)
                  ⊎ ((is_mentioned o.mentions o.bot_user_id ≡ true)
                      ⊎ ((is_nonempty o.bot_username ≡ true)
                          × Mentions false o.message o.bot_username))))
        → should_respond o ≡ true
    from (other, why) =
        (branches (str_eq o.user_id o.bot_user_id) (is_dm o.channel_type) o.require_mention
            (is_mentioned o.mentions o.bot_user_id) (is_nonempty o.bot_username) says).1
          (
            elim (Bool-cases (str_eq o.user_id o.bot_user_id)) [
              | inl same ↦ absurd (other ((str_eq_iff o.user_id o.bot_user_id).0 same))
              | inr differs ↦ differs
            ],
            elim why [
              | inl a ↦ inl a
              | inr (inl a) ↦ inr (inl a)
              | inr (inr (inl a)) ↦ inr (inr (inl a))
              | inr (inr (inr (n, m))) ↦
                  inr (inr (inr (n, Mentions-mention_from false o.message o.bot_username m)))
            ],
          )
