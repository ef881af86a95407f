-- ===== src/Delivery/Routes.antt =====
-- Where a `DeliveryRouter` sends.
use mathlib.Core.Logic.{ite}
use theokit_gateways.Prelude.{
  inl, inr, Option-cases, arith, ◌≡◌, refl, ◌∙◌, Option, none, some, List, [], ◌∷◌, ◌++◌,
}
use theokit_gateways.Js.{Text-discrete, lit}
use theokit_gateways.JsMap as Map
use theokit_gateways.Event.{Platform, refusal}
use theokit_gateways.Hooks.{resolved}
use theokit_gateways.Runner.Dispatch.{Sent, Sender}
use theokit_gateways.Delivery.{
  DeliveryRequest, DeliveryRouter, register, register_all, outbound, send,
}

-- The last adapter of the platform in a list.
abbrev pub last_of : {W : Type 0} → Platform → List (Platform × Sender W) → Option (Sender W)
last_of p [] = none
last_of p ((q, sender) ∷ rest) = elim (last_of p rest) [
  | some s ↦ some s
  | none ↦ ite (Text-discrete q p) (some sender) none
]

-- What a request comes to, by the adapter it should reach.
abbrev pub Delivered : {W : Type 0} → Option (Sender W) → DeliveryRequest → W → W × Sent → Type 0
Delivered none req w result =
    (result.0 ≡ w)
    × (result.1
        ≡ resolved (
            refusal (lit "no_adapter")
              (lit "no adapter for platform \"" ++ (req.platform ++ lit "\""))))
Delivered (some sender) req w result = result ≡ sender w (outbound req)

prefer : {W : Type 0} → Option (Sender W) → Option (Sender W) → Option (Sender W)
prefer none b = b
prefer (some a) b = some a

prefer-none : {W : Type 0} (a : Option (Sender W)) → prefer a none ≡ a
unfolding prefer
prefer-none none = refl
prefer-none (some a) = refl

register_all-get :
    {W : Type 0} (p : Platform) (as_ r : List (Platform × Sender W))
    → Map.get Text-discrete p (register_all as_ r)
      ≡ prefer (last_of p as_) (Map.get Text-discrete p r)
unfolding register_all prefer register
register_all-get p [] r = refl
register_all-get p ((q, sender) ∷ rest) r = elim (Option-cases (last_of p rest)) [
  | inr (found, later) ↦
      ground (arith, register_all-get p rest (Map.set Text-discrete q sender r), later)
  | inl absent ↦ ground (
    arith,
    register_all-get p rest (Map.set Text-discrete q sender r),
    absent,
    Map.get-set Text-discrete q p sender r,
  )
]

send-Delivered :
    {W : Type 0} (r : DeliveryRouter W) (req : DeliveryRequest) (w : W) (a : Option (Sender W))
    → Map.get Text-discrete req.platform r ≡ a
    → Delivered a req w (send r req w)
unfolding send
send-Delivered r req w none h = rw (h, send) (refl, refl)
send-Delivered r req w (some sender) h = rw (h, send) refl

-- A request goes to the adapter that was registered last for its platform, and its answer is returned
-- as it is; for a platform without one, the answer is a `no_adapter` refusal and nothing is sent.
send-register_all :
    {W : Type 0} (as_ : List (Platform × Sender W)) (req : DeliveryRequest) (w : W)
    → Delivered (last_of req.platform as_) req w (send (register_all as_ []) req w)
unfolding Map.get
send-register_all as_ req w =
    send-Delivered (register_all as_ []) req w (last_of req.platform as_)
      (register_all-get req.platform as_ [] ∙ prefer-none (last_of req.platform as_))
