-- ===== src/CString/Tests.antt =====
-- Runs of the string functions on small inputs.
use log_aggregator_c.Base.{◌≡◌, refl, [], ◌∷◌, pos, negsuc}
use log_aggregator_c.CString.{strtol, print_int, atoi, copy_field, strncpy, digits_value}
use log_aggregator_c.CString.Decimal.{strtol-print_int}

strtol-print_int_example : strtol (print_int (negsuc 106)) ≡ negsuc 106
strtol-print_int_example = strtol-print_int (negsuc 106) refl

atoi-garbage : atoi (b'1' ∷ b'2' ∷ b'x' ∷ 0 ∷ []) ≡ pos 12
unfolding atoi strtol digits_value
atoi-garbage = refl

copy_field-cut :
    copy_field (9 ∷ 9 ∷ 9 ∷ []) (b'a' ∷ b'b' ∷ b'c' ∷ 0 ∷ []) 2 ≡ (b'a' ∷ b'b' ∷ 0 ∷ [])
unfolding copy_field strncpy
copy_field-cut = refl
