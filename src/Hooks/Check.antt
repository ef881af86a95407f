-- ===== src/Hooks/Check.antt =====
-- packages/gateway/src/hooks/executor.ts, `assertHook` and the constructor of `HookExecutor`: which
-- entries of a hook list are hooks.
use theokit_gateways.Prelude.{
  ℕ, suc, ◌+◌, ◌≡◌, ◌≢◌, refl, ◌⊎◌, inl, inr, Bool, true, false, ◌||◌, Option, none, some, List, [],
  ◌∷◌, get_elem?, take, All, Option-cases, arith, if◌then◌else◌,
}
use theokit_gateways.Js.{Text, is_nonempty}

-- A property of an entry that should hold a function.
pub data Slot : Type 0 where
  undefined : Slot
  callable : Slot
  not_callable : Slot

-- An entry of the list as it comes from a configuration; `name` is `none` unless it is a string.
pub data Entry : Type 0 where
  not_object : Entry
  object : Option Text → Slot → Slot → Slot → Entry

-- Why an entry is refused.
pub data Fault : Type 0 where
  no_hook_object : Fault
  no_name : Fault
  no_phase : Fault
  phase_not_callable : Fault

unfoldable pub is_declared : Slot → Bool
is_declared undefined = false
is_declared callable = true
is_declared not_callable = true

-- Declared, and no function.
unfoldable pub is_broken : Slot → Bool
is_broken undefined = false
is_broken callable = false
is_broken not_callable = true

-- The checks on the declared phases.
unfoldable pub assert_phases : Slot → Slot → Slot → Option Fault
unfolding is_declared is_broken
assert_phases pre post error =
    if is_declared pre || is_declared post || is_declared error
    then (if is_broken pre || is_broken post || is_broken error
        then some phase_not_callable
        else none)
    else some no_phase

-- `assertHook`: `none` if the entry is a hook.
unfoldable pub assert_hook : Entry → Option Fault
unfolding assert_phases is_nonempty
assert_hook not_object = some no_hook_object
assert_hook (object none pre post error) = some no_name
assert_hook (object (some name) pre post error) =
    if is_nonempty name then assert_phases pre post error else some no_name

-- The constructor's loop: the first fault with its index, `none` if there is none.
unfoldable pub check_hooks : ℕ → List Entry → Option (ℕ × Fault)
check_hooks index [] = none
check_hooks index (e ∷ es) =
    let rest = check_hooks (suc index) es in
    elim (assert_hook e) [ none ↦ rest | some fault ↦ some (index, fault) ]

-- A hook: an object with a nonempty name, a function in some phase, and in every phase a function or
-- nothing.
pub data IsHook : Entry → Type 0 where
  hook :
      {name : Text} {pre post error : Slot}
      → is_nonempty name ≡ true
      → (pre ≡ callable) ⊎ ((post ≡ callable) ⊎ (error ≡ callable))
      → pre ≢ not_callable
      → post ≢ not_callable
      → error ≢ not_callable
      → IsHook (object (some name) pre post error)

assert_hook-IsHook : (e : Entry) → assert_hook e ≡ none → IsHook e
unfolding assert_hook
assert_hook-IsHook not_object h = cc
assert_hook-IsHook (object none pre post error) h = cc
assert_hook-IsHook (object (some name) pre post error) h =
    hook (ground arith) (ground arith) (ground arith) (ground arith) (ground arith)

IsHook-assert_hook : {e : Entry} → IsHook e → assert_hook e ≡ none
unfolding assert_hook
IsHook-assert_hook (hook named some_phase pre post error) = ground arith

-- What a check says of a list, its first entry numbered `index`.
abbrev pub Says : ℕ → List Entry → Option (ℕ × Fault) → Type 0
Says index es none = All IsHook es
Says index es (some (at, fault)) =
    (i : ℕ) × (e : Entry) × (at ≡ index + i)
    × (get_elem? es i ≡ some e)
    × (assert_hook e ≡ some fault)
    × (¬ IsHook e)
    × All IsHook (take i es)

check_hooks-Says : (index : ℕ) (es : List Entry) → Says index es (check_hooks index es)
unfolding check_hooks
check_hooks-Says index [] = tt
check_hooks-Says index (e ∷ es) = elim (Option-cases (assert_hook e)) [
  | inl fine ↦
      rw (fine, check_hooks)
        (later (check_hooks (suc index) es) (assert_hook-IsHook e fine)
          (check_hooks-Says (suc index) es))
  | inr (fault, bad) ↦
      rw (bad, check_hooks) (0, e, omega arith, refl, bad, (λ h. cc (IsHook-assert_hook h)), tt)
]
  where
    later : (r : Option (ℕ × Fault)) → IsHook e → Says (suc index) es r → Says index (e ∷ es) r
    later none h all = (h, all)
    later (some (at, fault)) h (i, e', place, found, bad, not_hook, before) =
        (suc i, e', omega arith, found, bad, not_hook, (h, before))

-- The constructor accepts a list only if every entry is a hook, and otherwise names the first entry
-- that is none, with its fault; in front of it all are hooks.
check_hooks_lem : (es : List Entry) → Says 0 es (check_hooks 0 es)
check_hooks_lem es = check_hooks-Says 0 es

-- A list of hooks is accepted.
pub check_hooks-All : (index : ℕ) (es : List Entry) → All IsHook es → check_hooks index es ≡ none
unfolding check_hooks
check_hooks-All index [] h = refl
check_hooks-All index (e ∷ es) h =
    rw (IsHook-assert_hook h.0, check_hooks) (check_hooks-All (suc index) es h.1)
