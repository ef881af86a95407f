-- ===== src/Chunk/Surrogates.antt =====
-- With the surrogate guard, `chunkText` cuts well-formed UTF-16 into well-formed UTF-16.
use theokit_gateways.Prelude.{
  ℕ, zero, suc, ◌-◌, ◌*◌, ◌≤◌, ◌<◌, ◌≡◌, refl, sym, subst, ◌⊎◌, Bool, true, false, Option, none,
  some, List, [], ◌∷◌, get_elem?, take, drop, length, All, All-filter, map, ltb, leb, ◌==◌,
  Bool-cases, Option-cases, inl, inr, arith,
}
use theokit_gateways.Js.{Text, is_low_surrogate, last_index_of, trim, is_nonempty}
use theokit_gateways.Js.Trim.{IsBlank}
use theokit_gateways.Js.Utf16.{
  IsWellFormed, NotLowAt, IsPlain, FoundPlain, Paired-cut, low-NotLowAt, last_index_of-FoundPlain,
  strip_leading-IsWellFormed, trim-IsWellFormed,
}
use theokit_gateways.Chunk.{
  ChunkTextOptions, LastResort, last_boundary, window_edge, Outcome, done, ◌>>=◌, push_part,
  search_boundary, resort, guard_surrogate, find_cut, cut_at, remaining_after, chunk_loop, finalize,
  chunk_text, throws, out_of_fuel,
}
use theokit_gateways.Chunk.Loop.{cut_at_bounds}
use theokit_gateways.Chunk.Ends.{HasSizes, raw_parts, chunk_text-done}

-- A cut candidate: the edge of the window, or a position that holds no low surrogate.
abbrev Candidate : Text → ℕ → ℕ → Type 0
Candidate s window cut = (cut ≡ window) ⊎ NotLowAt s cut

abbrev Candidate? : Text → ℕ → Option ℕ → Type 0
Candidate? s window none = Unit
Candidate? s window (some cut) = Candidate s window cut

Candidate?-FoundPlain :
    (s : Text) (window : ℕ) (o : Option ℕ) → FoundPlain s o → Candidate? s window o
Candidate?-FoundPlain s window none h = tt
Candidate?-FoundPlain s window (some cut) h = inr h

search_boundary-Candidate? :
    (s : Text) (window : ℕ) (cut : Option ℕ) (bs : List Text)
    → All IsPlain bs
    → Candidate? s window cut
    → Candidate? s window (search_boundary s window cut bs)
unfolding search_boundary
search_boundary-Candidate? s window cut [] plain h = h
search_boundary-Candidate? s window cut (b ∷ bs) plain h =
    let found = Candidate?-FoundPlain s window _ (last_index_of-FoundPlain s b window plain.0) in
    let rest = search_boundary-Candidate? s window (last_index_of s b window) bs plain.1 found in
    elim (Option-cases (last_index_of s b window)) [
      | inl miss ↦ rw (miss, search_boundary) rest
      | inr (i, hit) ↦
          let here : Candidate? s window (some i) = rw hit at found in
          elim (Bool-cases (leb window (i * 2))) [
            | inl far ↦ rw (hit, search_boundary, far) here
            | inr near ↦ rw (hit, search_boundary, near) rest
          ]
    ]

resort-Candidate :
    (s : Text) (l : LastResort) (window : ℕ) (o : Option ℕ)
    → 0 < window
    → Candidate? s window o
    → Candidate s window (resort l window o) × (0 < resort l window o)
unfolding resort
resort-Candidate s last_boundary window none h c = (inl refl, h)
resort-Candidate s window_edge window none h c = (inl refl, h)
resort-Candidate s last_boundary window (some i) h c = elim (Bool-cases (ltb (i * 2) window)) [
  | inl near ↦ elim (Bool-cases (ltb 0 i)) [
    | inl later ↦ rw (near, later) (c, ground arith)
    | inr first ↦ rw (near, first) (inl refl, h)
  ]
  | inr far ↦ rw far (c, ground arith)
]
resort-Candidate s window_edge window (some i) h c = elim (Bool-cases (ltb (i * 2) window)) [
  | inl near ↦ rw near (inl refl, h)
  | inr far ↦ rw far (c, ground arith)
]

low_at :
    (s : Text) (window cut c : ℕ)
    → IsWellFormed s
    → 2 ≤ window
    → Candidate s window cut
    → get_elem? s cut ≡ some c
    → is_low_surrogate c ≡ true
    → NotLowAt s (cut - 1) × (0 < cut - 1)
low_at s window cut c w h (inr plain) e low = absurd (ground arith)
low_at s window zero c w h (inl edge) e low = absurd (omega arith)
low_at s window (suc k) c w h (inl edge) e low =
    let back : suc k - 1 ≡ k = omega arith in
    rw back (low-NotLowAt false s k c w e low, omega arith)

guard_surrogate-NotLowAt :
    (s : Text) (window cut : ℕ)
    → IsWellFormed s
    → 2 ≤ window
    → Candidate s window cut
    → 0 < cut
    → NotLowAt s (guard_surrogate s cut) × (0 < guard_surrogate s cut)
unfolding guard_surrogate
guard_surrogate-NotLowAt s window cut w h c pos = elim (Option-cases (get_elem? s cut)) [
  | inl past ↦ rw (past, guard_surrogate) (rw (past, NotLowAt) tt, pos)
  | inr (code, at) ↦ elim (Bool-cases (is_low_surrogate code)) [
    | inl low ↦ rw (at, guard_surrogate, low) (low_at s window cut code w h c at low)
    | inr plain ↦ rw (at, guard_surrogate, plain) (rw (at, NotLowAt) plain, pos)
  ]
]

find_cut-NotLowAt :
    (s : Text) (window : ℕ) (bs : List Text) (l : LastResort)
    → IsWellFormed s
    → 2 ≤ window
    → All IsPlain bs
    → NotLowAt s (find_cut s window bs l true)
unfolding find_cut
find_cut-NotLowAt s window bs l w h plain =
    let found = search_boundary s window (some window) bs in
    let first =
      resort-Candidate s l window found (omega arith)
        (search_boundary-Candidate? s window (some window) bs plain (inl refl)) in
    let (free, pos) =
      guard_surrogate-NotLowAt s window (resort l window found) w h first.0 first.1 in
    let ne : (guard_surrogate s (resort l window found) == 0) ≡ false = ground arith in rw ne free

cut_at-NotLowAt :
    (o : ChunkTextOptions) (window : ℕ) (text : Text)
    → o.surrogate_guard ≡ true
    → All IsPlain o.boundaries
    → 2 ≤ window
    → IsWellFormed text
    → NotLowAt text (cut_at o window text)
unfolding cut_at
cut_at-NotLowAt o window text g plain h w =
    subst (λ guard. NotLowAt text (find_cut text window o.boundaries o.last_resort guard)) (sym g)
      (find_cut-NotLowAt text window o.boundaries o.last_resort w h plain)

-- Every part of an outcome is well formed.
abbrev Intact : Outcome (List Text) → Type 0
Intact (done parts) = All IsWellFormed parts
Intact (throws e) = Unit
Intact out_of_fuel = Unit

push_part-Intact :
    (part : Text) (m : Outcome (List Text))
    → IsWellFormed part
    → Intact m
    → Intact (m >>= push_part part)
push_part-Intact part (done parts) w h = (w, h)
push_part-Intact part (throws e) w h = tt
push_part-Intact part out_of_fuel w h = tt

chunk_loop-Intact :
    (fuel : ℕ) (o : ChunkTextOptions) (window : ℕ) (text : Text)
    → o.surrogate_guard ≡ true
    → All IsPlain o.boundaries
    → IsBlank o.strip_class
    → 2 ≤ window
    → IsWellFormed text
    → Intact (chunk_loop fuel o window text)
unfolding chunk_loop remaining_after
chunk_loop-Intact fuel o window [] g p b h w = tt
chunk_loop-Intact zero o window (c ∷ s) g p b h w = tt
chunk_loop-Intact (suc fuel) o window (c ∷ s) g p b h w =
    elim (Bool-cases (ltb window (length (c ∷ s)))) [
      | inl more ↦
          let text = c ∷ s in
          let cut = cut_at o window text in
          let bounds = cut_at_bounds o window text (omega arith) in
          let (front, back) =
            Paired-cut false text cut w (cut_at-NotLowAt o window text g p h w) (ground arith) in
          rw more (
            push_part-Intact (take cut text) _ front (
              chunk_loop-Intact fuel o window (remaining_after o cut text) g p b h
                (strip_leading-IsWellFormed o.strip_class (drop cut text) b back)))
      | inr last ↦ rw last (w, tt)
    ]

finalize-IsWellFormed :
    (trims : Bool) (parts : List Text)
    → All IsWellFormed parts
    → All IsWellFormed (finalize trims parts)
unfolding finalize
finalize-IsWellFormed false parts w = w
finalize-IsWellFormed true parts w =
    All-filter IsWellFormed is_nonempty (map trim parts) (trimmed parts w)
  where
    trimmed : (ps : List Text) → All IsWellFormed ps → All IsWellFormed (map trim ps)
    trimmed [] h = tt
    trimmed (part ∷ ps) h = (trim-IsWellFormed part h.0, trimmed ps h.1)

raw_parts-Intact :
    (text : Text) (o : ChunkTextOptions) (limit window : ℕ)
    → o.surrogate_guard ≡ true
    → All IsPlain o.boundaries
    → IsBlank o.strip_class
    → 2 ≤ window
    → IsWellFormed text
    → Intact (raw_parts text o limit window)
unfolding raw_parts
raw_parts-Intact text o limit window g p b h w = elim (Bool-cases (leb (length text) limit)) [
  | inl short ↦ rw short (w, tt)
  | inr long ↦ rw long (chunk_loop-Intact (length text) o window text g p b h w)
]

-- With the surrogate guard, a window of two characters or more, boundaries that begin with no low
-- surrogate and a stripped class of white space, every part of a well-formed text is well formed:
-- no part begins or ends with half a pair.
pub chunk_text-IsWellFormed :
    (text : Text) (o : ChunkTextOptions) (limit window : ℕ)
    → HasSizes o limit window
    → 2 ≤ window
    → o.surrogate_guard ≡ true
    → All IsPlain o.boundaries
    → IsBlank o.strip_class
    → IsWellFormed text
    → (parts : List Text) × (chunk_text text o ≡ done parts) × All IsWellFormed parts
chunk_text-IsWellFormed text o limit window v h g p b w =
    let (parts, run, returns, _, _) = chunk_text-done text o limit window v in
    (
      finalize o.trim_parts parts,
      returns,
      finalize-IsWellFormed o.trim_parts parts
          (rw run at (raw_parts-Intact text o limit window g p b h w)),
    )
