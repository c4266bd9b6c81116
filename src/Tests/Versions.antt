-- ===== src/Tests/Versions.antt =====
-- Versions.
use rustot.Prelude.{◌≡◌, refl, some, arith, codes}
use rustot.Prelude.Text.{print_u8, split, parse_u8}
use rustot.Ota.Version.{new, to_string, from_str}
use rustot.Ota.Version.Laws.{from_str-to_string}

printed : to_string (new 1 20 255) ≡ codes "1.20.255"
unfolding to_string print_u8
printed = refl

read_rest : from_str (codes "1.2.3.beta") ≡ some (new 1 2 3)
unfolding from_str split parse_u8
read_rest = refl

from_str-to_string_example : from_str (to_string (new 1 20 255)) ≡ some (new 1 20 255)
from_str-to_string_example =
    from_str-to_string (new 1 20 255)
      (record { major_byte = omega arith; minor_byte = omega arith; patch_byte = omega arith })
