-- ===== src/Chunk/Cut.antt =====
-- The cut that `findCut` returns lies in the window and is never 0, and it falls inside no
-- surrogate pair.
use theokit_gateways.Prelude.{ℕ, ◌≤◌, ◌<◌, Bool, Option, none, some, List, [], ◌∷◌, arith}
use theokit_gateways.Js.{Text, last_index_of}
use theokit_gateways.Js.Search.{Within, last_index_of-Within}
use theokit_gateways.Chunk.{
  LastResort, last_boundary, window_edge, search_boundary, guard_surrogate, resort, find_cut,
}

search_boundary-Within :
    (s : Text) (window : ℕ) (cut : Option ℕ) (bs : List Text)
    → Within window cut
    → Within window (search_boundary s window cut bs)
unfolding search_boundary
search_boundary-Within s window cut [] h = h
search_boundary-Within s window cut (b ∷ bs) h = ground (
  arith,
  last_index_of-Within s b window,
  search_boundary-Within s window (last_index_of s b window) bs,
)

resort-le :
    (l : LastResort) (window : ℕ) (cut : Option ℕ)
    → Within window cut
    → resort l window cut ≤ window
unfolding resort
resort-le last_boundary window none h = omega arith
resort-le last_boundary window (some i) h = ground arith
resort-le window_edge window none h = omega arith
resort-le window_edge window (some i) h = ground arith

guard_surrogate-le : (s : Text) (cut : ℕ) → guard_surrogate s cut ≤ cut
unfolding guard_surrogate
guard_surrogate-le s cut = ground arith

-- `findCut` answers a position in the window, and never 0.
pub find_cut_bounds :
    (s : Text) (window : ℕ) (bs : List Text) (l : LastResort) (guard : Bool)
    → 0 < window
    → (0 < find_cut s window bs l guard) × (find_cut s window bs l guard ≤ window)
unfolding find_cut
find_cut_bounds s window bs l guard h =
    let found = search_boundary s window (some window) bs in
    let first = resort l window found in
    let le =
      resort-le l window found (search_boundary-Within s window (some window) bs (omega arith)) in
    ground (arith, le, guard_surrogate-le s first)
