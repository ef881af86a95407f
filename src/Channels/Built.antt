-- ===== src/Channels/Built.antt =====
-- What `createChannels` promises: at most one adapter of a platform, and every entry either built or
-- rejected.
use mathlib.Core.Logic.{if_neg}
use theokit_gateways.Prelude.{
  inl, inr, ℕ, suc, ◌+◌, ◌≡◌, refl, sym, ap, subst, ◌∙◌, none, some, List, [], ◌∷◌, ◌++◌, length,
  length-append, Option-cases, arith,
}
use theokit_gateways.JsMap as Map
use theokit_gateways.Event.{Platform}
use theokit_gateways.Channels.{
  ChannelEntry, BuildOutcome, adapter, refusal, defect, Channels, CreateChannelsResult, channels,
  propagates, refuse_before_create, refuse_missing, missing_required_keys, check_platform,
  check_created, returned, misconfigured, threw, Created, create_adapter, values_of, build,
  add_outcome, proceed, create_loop, create_channels,
}
use theokit_gateways.Js.{Text-discrete}

module _ {A : Type 0} where
  -- No two adapters of one platform, each of a platform in the set, and as many adapters and
  -- rejections as entries.
  abbrev pub IsCounted : ℕ → Channels A → Type 0
  IsCounted n c =
      Map.Distinct Text-discrete c.adapters
      × ((p : Platform)
          → Map.get Text-discrete p c.built_platforms ≡ none
          → Map.get Text-discrete p c.adapters ≡ none)
      × (length c.adapters + length c.rejected ≡ n)

  -- A result with these counts; a throw has none.
  abbrev pub Counts : ℕ → CreateChannelsResult A → Type 0
  Counts n (channels c) = IsCounted n c
  Counts n (propagates e) = Unit

  -- An entry is built only for its own platform, and if that is not in the set.
  abbrev pub Fits : ChannelEntry A → List (Platform × Unit {0}) → BuildOutcome A → Type 0
  Fits entry built (adapter p a) =
      (p ≡ entry.descriptor.platform) × (Map.get Text-discrete p built ≡ none)
  Fits entry built (refusal r) = Unit
  Fits entry built (defect e) = Unit

  check_created-Fits :
      (entry : ChannelEntry A) (built : List (Platform × Unit {0})) (created : Created A)
      → Map.get Text-discrete entry.descriptor.platform built ≡ none
      → Fits entry built (check_created entry.descriptor.platform created)
  unfolding check_created check_platform
  check_created-Fits entry built (misconfigured e) h = tt
  check_created-Fits entry built (threw e) h = tt
  check_created-Fits entry built (returned q a) h = go (Text-discrete q entry.descriptor.platform)
    where
      go :
          (d : Dec (q ≡ entry.descriptor.platform))
          → Fits entry built (check_platform q entry.descriptor.platform a d)
      go (yes same) = (same, ap (λ p. Map.get Text-discrete p built) same ∙ h)
      go (no differs) = tt

  build-Fits :
      (entry : ChannelEntry A) (built : List (Platform × Unit {0}))
      → Fits entry built (build entry built)
  unfolding build refuse_before_create create_adapter
  build-Fits entry built =
      elim (Option-cases (Map.get Text-discrete entry.descriptor.platform built)) [
        | inr (u, present) ↦ rw (present, build) tt
        | inl absent ↦
            elim (Option-cases (
              refuse_missing entry.descriptor.platform
                (missing_required_keys entry.descriptor.config (values_of entry.config)))) [
                  | inr (r, missing) ↦ rw (absent, missing, build) tt
                  | inl complete ↦
                      rw (absent, complete, build)
                        (check_created-Fits entry built
                          (entry.descriptor.create (values_of entry.config)) absent)
                ]
      ]

  covered :
      (k p : Platform) (a : A) (c : Channels A)
      → p ≡ k
      → ((q : Platform)
          → Map.get Text-discrete q c.built_platforms ≡ none
          → Map.get Text-discrete q c.adapters ≡ none)
      → (q : Platform)
      → Map.get Text-discrete q (Map.set Text-discrete k tt c.built_platforms) ≡ none
      → Map.get Text-discrete q (c.adapters ++ (p, a) ∷ []) ≡ none
  covered k p a c same covers q h = elim (Text-discrete k q) [
    | yes here ↦ cc (Map.get-set_self Text-discrete k tt c.built_platforms, here, h)
    | no elsewhere ↦
        Map.get-append Text-discrete p q a c.adapters
          (covers q (sym (Map.get-set_ne Text-discrete k q tt c.built_platforms elsewhere) ∙ h))
        ∙ if_neg (Text-discrete p q) (λ e. elsewhere (sym same ∙ e)) (some a) none
  ]

  -- What the loop has is kept by a step: the counts grow by one.
  add_outcome-IsCounted :
      (entry : ChannelEntry A) (o : BuildOutcome A) (n : ℕ) (c : Channels A)
      → Fits entry c.built_platforms o
      → IsCounted n c
      → Counts (suc n) (add_outcome entry.descriptor.platform o c)
  unfolding add_outcome
  add_outcome-IsCounted entry (adapter p a) n c (same, absent) (d, covers, count) = (
    Map.append-Distinct Text-discrete p a c.adapters d (covers p absent),
    covered entry.descriptor.platform p a c same covers,
    omega (arith, length-append c.adapters ((p, a) ∷ []), count),
  )
  add_outcome-IsCounted entry (refusal r) n c h (d, covers, count) =
      (d, covers, omega (arith, length-append c.rejected (r ∷ []), count))
  add_outcome-IsCounted entry (defect e) n c h k = tt

  create_loop-IsCounted :
      (entries : List (ChannelEntry A)) (n : ℕ) (c : Channels A)
      → IsCounted n c
      → Counts (n + length entries) (create_loop entries c)
  unfolding create_loop
  create_loop-IsCounted [] n c h = subst (λ k. IsCounted k c) (omega arith) h
  create_loop-IsCounted (entry ∷ entries) n c h =
      go (add_outcome entry.descriptor.platform (build entry c.built_platforms) c)
        (add_outcome-IsCounted entry (build entry c.built_platforms) n c
          (build-Fits entry c.built_platforms) h)
        (create_loop-IsCounted entries (suc n))
    where
      go :
          (r : CreateChannelsResult A)
          → Counts (suc n) r
          → ((c' : Channels A)
              → IsCounted (suc n) c'
              → Counts (suc n + length entries) (create_loop entries c'))
          → Counts (n + suc (length entries)) (proceed r (create_loop entries))
      go (channels c') k rest =
          subst (λ m. Counts m (create_loop entries c')) (omega arith) (rest c' k)
      go (propagates e) k rest = tt

  -- If no `create` throws another error, `createChannels` returns at most one adapter of a platform,
  -- and as many adapters and rejections together as there are entries.
  create_channels-Counts :
      (entries : List (ChannelEntry A)) → Counts (length entries) (create_channels entries)
  unfolding create_channels Map.get
  create_channels-Counts entries =
      subst (λ n. Counts n (create_channels entries)) (omega arith)
        (create_loop-IsCounted entries 0
          (record { adapters = []; rejected = []; built_platforms = [] }) (tt, (λ p h. refl), refl))
