-- ===== src/Runner/Lifecycle/Adapters.antt =====
-- Which adapters a list of a runner holds.
use mathlib.Core.List.{append_assoc, append-nil}
use theokit_gateways.Prelude.{
  subst, sym, ◌∙◌, ℕ, ◌≡◌, inl, inr, refl, ap, ◌&&◌, ◌||◌, List, [], ◌∷◌, ◌++◌, ◌==◌, ==_iff,
  Bool-cases, arith,
}
use theokit_gateways.Event.{Platform}
use theokit_gateways.JsMap as Map
use theokit_gateways.Runner.Dispatch.{by_platform}
use theokit_gateways.Runner.Lifecycle.{
  Adapter, Outcome, mem, is_connected, was_connected, connected_of,
}
use theokit_gateways.Js.{Text-discrete}

pub mem-append : (i : ℕ) (a b : List Adapter) → mem i (a ++ b) ≡ (mem i a || mem i b)
unfolding mem
mem-append i [] b = refl
mem-append i ((p, j) ∷ a) b = ground (arith, mem-append i a b)

pub was_connected-append :
    (i : ℕ) (settled : List (Adapter × Outcome)) (p : Platform) (j : ℕ) (o : Outcome)
    → was_connected i (settled ++ ((p, j), o) ∷ [])
      ≡ (was_connected i settled || (i == j && is_connected o))
unfolding was_connected
was_connected-append i [] p j o = ground arith
was_connected-append i (((q, k), o') ∷ settled) p j o =
    ground (arith, was_connected-append i settled p j o)

-- `connectIsolated` keeps every adapter that connected.
pub mem-connected_of :
    (i : ℕ) (settled : List (Adapter × Outcome)) (adapters : List Adapter)
    → mem i (connected_of settled adapters) ≡ (mem i adapters && was_connected i settled)
unfolding mem connected_of
mem-connected_of i settled [] = refl
mem-connected_of i settled ((p, j) ∷ adapters) = elim (Bool-cases (i == j)) [
  | inl same ↦ ground (
    arith,
    ap (λ k. was_connected k settled) ((==_iff i j).0 same),
    mem-connected_of i settled adapters,
  )
  | inr other ↦ ground (arith, mem-connected_of i settled adapters)
]

-- Of the adapters with different platforms, the map of the runner holds all.
pub by_platform-append :
    (adapters m : List Adapter)
    → Map.Distinct Text-discrete (m ++ adapters)
    → by_platform adapters m ≡ m ++ adapters
unfolding by_platform
by_platform-append [] m d = sym (append-nil m)
by_platform-append ((p, i) ∷ adapters) m d =
    ap (by_platform adapters)
      (Map.set_new Text-discrete p i m (Map.get-Distinct_front Text-discrete p i m adapters d))
    ∙ by_platform-append adapters (m ++ (p, i) ∷ [])
        (subst (Map.Distinct Text-discrete) (sym (append_assoc m ((p, i) ∷ []) adapters)) d)
    ∙ append_assoc m ((p, i) ∷ []) adapters
