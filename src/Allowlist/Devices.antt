-- ===== src/Allowlist/Devices.antt =====
-- One account with several devices: the device suffix of an id and its domain are not part of the
-- number.
use theokit_gateways.Prelude.{
  ℕ, ◌≡◌, refl, ap, ◌∙◌, true, false, some, [], ◌∷◌, ◌++◌, filter, any, ◌==◌, All, arith,
}
use theokit_gateways.Js.{Text}
use theokit_gateways.Allowlist.{
  from_at, cut_device, without_device, is_line_end, without_domain, is_digit,
  normalize_whats_app_id,
}

digit_apart : (c : ℕ) → is_digit c ≡ true → ((c == b':') ≡ false) × ((c == b'@') ≡ false)
unfolding is_digit
digit_apart c h = (ground (arith, h), ground (arith, h))

from_at_device :
    (dev dom : Text)
    → any (λ c. c == b'@') dev ≡ false
    → from_at (dev ++ b'@' ∷ dom) ≡ some (b'@' ∷ dom)
unfolding from_at
from_at_device [] dom h = refl
from_at_device (c ∷ dev) dom h = ground (arith, h, from_at_device dev dom (ground (arith, h)))

without_device_suffix :
    (d dev dom : Text)
    → All (λ c. is_digit c ≡ true) d
    → any (λ c. c == b'@') dev ≡ false
    → without_device (d ++ b':' ∷ (dev ++ b'@' ∷ dom)) ≡ d ++ b'@' ∷ dom
unfolding without_device cut_device
without_device_suffix [] dev dom h n = rw (from_at_device dev dom n) refl
without_device_suffix (c ∷ d) dev dom h n =
    ground (arith, digit_apart c h.0, without_device_suffix d dev dom h.1 n)

without_domain_suffix :
    (d dom : Text)
    → All (λ c. is_digit c ≡ true) d
    → any is_line_end dom ≡ false
    → without_domain (d ++ b'@' ∷ dom) ≡ d
unfolding without_domain
without_domain_suffix [] dom h n = ground (arith, n)
without_domain_suffix (c ∷ d) dom h n =
    ground (arith, digit_apart c h.0, without_domain_suffix d dom h.1 n)

filter_digits : (d : Text) → All (λ c. is_digit c ≡ true) d → filter is_digit d ≡ d
filter_digits [] h = refl
filter_digits (c ∷ d) h = ground (arith, h.0, filter_digits d h.1)

plain_number : (d : Text) → All (λ c. is_digit c ≡ true) d → without_domain (without_device d) ≡ d
unfolding without_domain without_device
plain_number [] h = refl
plain_number (c ∷ d) h = ground (arith, digit_apart c h.0, plain_number d h.1)

-- A number with a device suffix and a domain is read as the number, as the number alone is. The
-- suffix holds no `@` and the domain no line terminator.
normalize_whats_app_id_device :
    (d dev dom : Text)
    → All (λ c. is_digit c ≡ true) d
    → any (λ c. c == b'@') dev ≡ false
    → any is_line_end dom ≡ false
    → (normalize_whats_app_id (d ++ b':' ∷ (dev ++ b'@' ∷ dom)) ≡ d)
      × (normalize_whats_app_id d ≡ d)
unfolding normalize_whats_app_id
normalize_whats_app_id_device d dev dom h n m = (
  ap (λ t. filter is_digit (without_domain t)) (without_device_suffix d dev dom h n)
      ∙ ap (filter is_digit) (without_domain_suffix d dom h m)
      ∙ filter_digits d h,
  ap (filter is_digit) (plain_number d h) ∙ filter_digits d h,
)
