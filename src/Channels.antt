-- ===== src/Channels.antt =====
-- packages/gateway/src/channel/create-channels.ts. A descriptor's `create` is code of its platform,
-- a function here; the adapter it makes is a platform and a value of the type `A`.
pub mod Built
use theokit_gateways.Prelude.{
  ◌≡◌, Bool, true, false, ◌&&◌, Option, none, some, List, [], ◌∷◌, ◌++◌, map, filter, if◌then◌else◌,
}
use theokit_gateways.Js.{Text-discrete, Text, lit, is_nonempty}
use theokit_gateways.JsMap as Map
use theokit_gateways.Event.{Platform}

-- A configured value: of a string, its text, and of anything else that it is there.
pub data Value : Type 0 where
  undefined : Value
  null : Value
  text : Text → Value
  other : Value

abbrev pub Values : Type 0
Values = Text → Value

-- `GatewayConfigurationError`.
pub record ConfigError : Type 0 where
  pub code : Text
  pub message : Text

-- What `create` does: it returns an adapter, throws a `GatewayConfigurationError`, or throws anything
-- else.
pub data Created (A : Type 0) : Type 0 where
  returned : Platform → A → Created A
  misconfigured : ConfigError → Created A
  threw : Text → Created A

pub record Field : Type 0 where
  pub key : Text
  pub required : Bool

pub record ChannelDescriptor (A : Type 0) : Type 0 where
  pub platform : Platform
  pub config : List Field
  pub create : Values → Created A

pub record ChannelEntry (A : Type 0) : Type 0 where
  pub descriptor : ChannelDescriptor A
  pub config : Option Values

pub record ChannelRejection : Type 0 where
  pub platform : Platform
  pub error : ConfigError

-- `BuildOutcome`, and the throw that `createChannels` lets pass.
pub data BuildOutcome (A : Type 0) : Type 0 where
  adapter : Platform → A → BuildOutcome A
  refusal : ChannelRejection → BuildOutcome A
  defect : Text → BuildOutcome A

-- The state of the loop, and the result with it.
pub record Channels (A : Type 0) : Type 0 where
  pub adapters : List (Platform × A)
  pub rejected : List ChannelRejection
  pub built_platforms : List (Platform × Unit {0})

-- `createChannels` returns, or a throw propagates.
pub data CreateChannelsResult (A : Type 0) : Type 0 where
  channels : Channels A → CreateChannelsResult A
  propagates : Text → CreateChannelsResult A

unfoldable pub is_absent : Value → Bool
is_absent undefined = true
is_absent null = true
is_absent (text []) = true
is_absent (text (c ∷ cs)) = false
is_absent other = false

unfoldable pub missing_required_keys : List Field → Values → List Text
missing_required_keys config values =
    map (λ f. f.key) (filter (λ f. f.required && is_absent (values f.key)) config)

-- `keys.join(", ")`.
unfoldable pub join : List Text → Text
join [] = []
join (k ∷ []) = k
join (k ∷ k' ∷ ks) = k ++ (lit ", " ++ join (k' ∷ ks))

unfoldable pub refused : Platform → Text → Text → ChannelRejection
refused platform code reason = record {
  platform = platform;
  error = record { code = code; message = lit "channel " ++ (platform ++ (lit ": " ++ reason)) };
}

-- `missing.length > 0`.
unfoldable pub refuse_missing : Platform → List Text → Option ChannelRejection
refuse_missing platform [] = none
refuse_missing platform (k ∷ ks) = some (
    refused platform (lit "missing_required_config")
      (lit "missing required config " ++ join (k ∷ ks)))

-- `entry.config ?? {}`.
unfoldable pub values_of : Option Values → Values
values_of none key = undefined
values_of (some values) key = values key

module _ {A : Type 0} where
  unfoldable pub refuse_before_create :
      ChannelEntry A → Values → List (Platform × Unit {0}) → Option ChannelRejection
  refuse_before_create entry values built_platforms =
      elim (Map.get Text-discrete entry.descriptor.platform built_platforms) [
        | some u ↦ some (
            refused entry.descriptor.platform (lit "duplicate_channel")
              (lit "a channel for this platform was already built"))
        | none ↦
            refuse_missing entry.descriptor.platform
              (missing_required_keys entry.descriptor.config values)
      ]

  -- `adapter.platform !== platform`.
  unfoldable pub check_platform : (q platform : Platform) → A → Dec (q ≡ platform) → BuildOutcome A
  check_platform q platform a (yes same) = adapter q a
  check_platform q platform a (no differs) = refusal (
      refused platform (lit "platform_mismatch")
        (lit "create returned an adapter reporting platform " ++ q))

  -- What `createAdapter` makes of `create`.
  unfoldable pub check_created : Platform → Created A → BuildOutcome A
  check_created platform (misconfigured error) =
      refusal (record { platform = platform; error = error })
  check_created platform (threw error) = defect error
  check_created platform (returned q a) = check_platform q platform a (Text-discrete q platform)

  unfoldable pub create_adapter : ChannelEntry A → Values → BuildOutcome A
  create_adapter entry values =
      check_created entry.descriptor.platform (entry.descriptor.create values)

  -- `refuseBeforeCreate(…) ?? createAdapter(…)`.
  unfoldable pub build : ChannelEntry A → List (Platform × Unit {0}) → BuildOutcome A
  build entry built_platforms =
      let values = values_of entry.config in
      elim (refuse_before_create entry values built_platforms) [
        | some r ↦ refusal r
        | none ↦ create_adapter entry values
      ]

  -- The body of the loop behind the outcome.
  unfoldable pub add_outcome : Platform → BuildOutcome A → Channels A → CreateChannelsResult A
  add_outcome platform (adapter q a) c = channels (record {
    adapters = c.adapters ++ (q, a) ∷ [];
    rejected = c.rejected;
    built_platforms = Map.set Text-discrete platform tt c.built_platforms;
  })
  add_outcome platform (refusal r) c = channels (record c { rejected = c.rejected ++ r ∷ [] })
  add_outcome platform (defect error) c = propagates error

  -- The loop goes on, or a throw ends it.
  abbrev pub proceed :
      CreateChannelsResult A → (Channels A → CreateChannelsResult A) → CreateChannelsResult A
  proceed (channels c) rest = rest c
  proceed (propagates error) rest = propagates error

  unfoldable pub create_loop : List (ChannelEntry A) → Channels A → CreateChannelsResult A
  create_loop [] c = channels c
  create_loop (entry ∷ entries) c =
      proceed (add_outcome entry.descriptor.platform (build entry c.built_platforms) c)
        (create_loop entries)

  -- `createChannels`.
  unfoldable pub create_channels : List (ChannelEntry A) → CreateChannelsResult A
  create_channels entries =
      create_loop entries (record { adapters = []; rejected = []; built_platforms = [] })
