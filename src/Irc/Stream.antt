-- ===== src/Irc/Stream.antt =====
-- `readLines` of packages/gateway-irc/src/adapter.ts: lines out of the chunks that a socket delivers.
pub mod Framing
use theokit_gateways.Prelude.{
  ℕ, zero, suc, ◌+◌, ◌≤◌, ◌≡◌, refl, sym, ap, ◌∙◌, inl, inr, Bool, true, false, not, Option, none,
  some, List, [], ◌∷◌, ◌++◌, length, take, drop, concat, ◌==◌, Bool-cases, if◌then◌else◌, arith,
}
use theokit_gateways.Js.{Text, lit, index_of, index_from, starts_with, is_nonempty}
use mathlib.Core.List.{append-nil, append_assoc}

-- `line.replace(/\r$/, "")`.
unfoldable pub drop_return : Text → Text
drop_return [] = []
drop_return (c ∷ []) = if c == 13 then [] else c ∷ []
drop_return (c ∷ d ∷ s) = c ∷ drop_return (d ∷ s)

-- A line that `onLine` is called for, unless it is empty.
unfoldable pub emit : Text → List Text → List Text
emit raw lines = if is_nonempty raw then raw ∷ lines else lines

-- The loop over what is buffered, on fuel: the lines, and what stays buffered.
unfoldable pub lines_loop : ℕ → Text → List Text × Text
lines_loop zero buffered = ([], buffered)
lines_loop (suc n) buffered = elim (index_of buffered (lit "\n")) [
  | none ↦ ([], buffered)
  | some at ↦
      let rest = lines_loop n (drop (suc at) buffered) in
      (emit (drop_return (take at buffered)) rest.0, rest.1)
]

-- The handler of `data`. Each pass of its loop takes a line break.
unfoldable pub on_data : Text → Text → List Text × Text
on_data buffered chunk = lines_loop (length (buffered ++ chunk)) (buffered ++ chunk)

-- A socket's chunks, one by one.
unfoldable pub feed : Text → List Text → List Text × Text
feed buffered [] = ([], buffered)
feed buffered (chunk ∷ chunks) =
    let now = on_data buffered chunk in let later = feed now.1 chunks in (now.0 ++ later.0, later.1)
