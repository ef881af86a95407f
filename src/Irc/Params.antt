-- ===== src/Irc/Params.antt =====
-- The parameters of an IRC line are read back as they were written.
use theokit_gateways.Prelude.{
  ℕ, zero, suc, ◌+◌, ◌≤◌, ◌≡◌, refl, ap, ◌∙◌, false, some, List, [], ◌∷◌, ◌++◌, length, take, drop,
  any, ◌==◌, All, arith, length-append,
}
use theokit_gateways.Js.{Text, lit, index_of, index_from, starts_with}
use theokit_gateways.Irc.{add_param, params_loop, params_of}

index_from_space :
    (p rest : Text) (i : ℕ)
    → any (λ c. c == b' ') p ≡ false
    → index_from (p ++ b' ' ∷ rest) (lit " ") i ≡ some (i + length p)
unfolding index_from starts_with
index_from_space [] rest i h = ap some (omega arith)
index_from_space (c ∷ p) rest i h =
    ground (arith, h, index_from_space p rest (suc i) (ground (arith, h)))

index_of_space :
    (p rest : Text)
    → any (λ c. c == b' ') p ≡ false
    → index_of (p ++ b' ' ∷ rest) (lit " ") ≡ some (length p)
index_of_space p rest h = index_from_space p rest 0 h ∙ ap some (omega arith)

take-length : (p rest : Text) → take (length p) (p ++ rest) ≡ p
take-length [] rest = refl
take-length (c ∷ p) rest = ap (λ t. c ∷ t) (take-length p rest)

drop-length : (p rest : Text) (c : ℕ) → drop (suc (length p)) (p ++ c ∷ rest) ≡ rest
drop-length [] rest c = refl
drop-length (d ∷ p) rest c = drop-length p rest c

-- A middle parameter: not empty, without a space, and with no colon in front.
pub data IsMiddle : Text → Type 0 where
  middle :
      {c : ℕ} {cs : Text}
      → (c == b':') ≡ false
      → any (λ d. d == b' ') (c ∷ cs) ≡ false
      → IsMiddle (c ∷ cs)

-- The parameters as they are written, the last one behind a colon.
abbrev pub written : List Text → Text → Text
written [] trailing = b':' ∷ trailing
written (p ∷ ps) trailing = p ++ b' ' ∷ written ps trailing

params_loop-middle :
    (m : ℕ) (p rest : Text)
    → IsMiddle p
    → params_loop (suc m) (p ++ b' ' ∷ rest) ≡ p ∷ params_loop m rest
unfolding params_loop add_param
params_loop-middle m p rest (middle {c} {cs} colon space) =
    rw (colon, params_loop, index_of_space (c ∷ cs) rest space)
      (rw (take-length cs (b' ' ∷ rest), drop-length cs rest b' ') refl)

params_loop-written :
    (n : ℕ) (ps : List Text) (trailing : Text)
    → All IsMiddle ps
    → length (written ps trailing) ≤ n
    → params_loop n (written ps trailing) ≡ ps ++ trailing ∷ []
unfolding params_loop
params_loop-written zero [] trailing h le = absurd (omega (arith, le))
params_loop-written (suc n) [] trailing h le = refl
params_loop-written zero (p ∷ ps) trailing h le =
    absurd (omega (arith, le, length-append p (b' ' ∷ written ps trailing)))
params_loop-written (suc n) (p ∷ ps) trailing h le =
    params_loop-middle n p (written ps trailing) h.0
    ∙ ap (λ r. p ∷ r)
        (params_loop-written n ps trailing h.1
          (omega (arith, le, length-append p (b' ' ∷ written ps trailing))))

-- Parameters that are written one after the other, each middle one nonempty, without a space and not
-- beginning with a colon, and the last one behind a colon, are read back: the last one keeps every
-- colon and space.
pub params_of-written :
    (ps : List Text) (trailing : Text)
    → All IsMiddle ps
    → params_of (written ps trailing) ≡ ps ++ trailing ∷ []
unfolding params_of
params_of-written ps trailing h =
    params_loop-written (length (written ps trailing)) ps trailing h (omega arith)
