-- ===== src/Delivery.antt =====
-- packages/gateway/src/delivery/router.ts. An adapter's `sendMessage` is a function from the world and
-- the message to the world and its answer.
pub mod Routes
use mathlib.Core.Logic.{ite, if_pos, if_neg}
use theokit_gateways.Prelude.{◌≡◌, refl, sym, ap, ◌∙◌, Option, none, some, List, [], ◌∷◌, ◌++◌}
use theokit_gateways.Js.{Text-discrete, Text, lit}
use theokit_gateways.JsMap as Map
use theokit_gateways.Event.{Platform, Channel, Format, OutboundMessage, refusal}
use theokit_gateways.Hooks.{resolved}
use theokit_gateways.Runner.Dispatch.{Sent, Sender}

-- `DeliveryRequest`, with the fields of `DeliveryTarget`.
pub record DeliveryRequest : Type 0 where
  pub platform : Platform
  pub channel : Channel
  pub text : Text
  pub format : Option Format
  pub reply_to : Option Text

-- `DeliveryRouter`: its map of the adapters.
abbrev pub DeliveryRouter : Type 0 → Type 0
DeliveryRouter W = List (Platform × Sender W)

unfoldable pub register : {W : Type 0} → Platform → Sender W → DeliveryRouter W → DeliveryRouter W
register platform sender r = Map.set Text-discrete platform sender r

-- The message that `sendMessage` gets.
abbrev pub outbound : DeliveryRequest → OutboundMessage
outbound req = record {
  channel = req.channel;
  text = req.text;
  format = req.format;
  reply_to = req.reply_to;
}

unfoldable pub send : {W : Type 0} → DeliveryRouter W → DeliveryRequest → W → W × Sent
send r req w = elim (Map.get Text-discrete req.platform r) [
  | some sender ↦ sender w (outbound req)
  | none ↦ (
    w,
    resolved (
        refusal (lit "no_adapter")
          (lit "no adapter for platform \"" ++ (req.platform ++ lit "\""))),
  )
]

unfoldable pub register_all :
    {W : Type 0} → List (Platform × Sender W) → DeliveryRouter W → DeliveryRouter W
register_all [] r = r
register_all ((platform, sender) ∷ rest) r = register_all rest (register platform sender r)
