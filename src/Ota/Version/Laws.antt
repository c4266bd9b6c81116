-- ===== src/Ota/Version/Laws.antt =====
-- `Version` of src/ota/pal.rs: its order and its text.
use rustot.Prelude.{◌<◌, ◌≡◌, ◌↔◌, ◌⊎◌, true, false, some, arith}
use rustot.Prelude.Text.{print_u8, split-append, split_last, parse_u8-print_u8, has-print_u8}
use rustot.Ota.Version.{Version, version_lt, version_eq, to_string, from_str}

-- The three components are bytes.
pub record IsValid (v : Version) : Type 0 where
  pub major_byte : v.major < 256
  pub minor_byte : v.minor < 256
  pub patch_byte : v.patch < 256

-- A version that is printed reads back as itself.
pub from_str-to_string : (v : Version) → IsValid v → from_str (to_string v) ≡ some v
unfolding from_str to_string
from_str-to_string v h =
    rw (split-append b'.' (print_u8 v.major) _ (has-print_u8 v.major h.major_byte)) (
      rw (split-append b'.' (print_u8 v.minor) _ (has-print_u8 v.minor h.minor_byte)) (
        rw (split_last b'.' (print_u8 v.patch) (has-print_u8 v.patch h.patch_byte)) (
          ground (
            arith,
            parse_u8-print_u8 v.major h.major_byte,
            parse_u8-print_u8 v.minor h.minor_byte,
            parse_u8-print_u8 v.patch h.patch_byte,
          ))))

-- `<` is the strict part of a total order that agrees with `==`: exactly one of less, equal and
-- greater holds, equal versions are the same, and less is transitive.
version_order :
    (u v w : Version)
    → ((version_lt u v ≡ true) ⊎ (version_eq u v ≡ true) ⊎ (version_lt v u ≡ true))
      × (version_eq u v ≡ true → (u ≡ v) × (version_lt u v ≡ false))
      × (version_lt u v ≡ true → version_lt v u ≡ false)
      × (version_lt u v ≡ true → version_lt v w ≡ true → version_lt u w ≡ true)
unfolding version_lt version_eq
version_order u v w = (ground arith, λ e. ground arith, λ l. ground arith, λ l m. ground arith)

-- A version is before another one: the first component that differs is smaller.
abbrev pub Older : Version → Version → Type 0
Older u v =
    (u.major < v.major)
    ⊎ ((u.major ≡ v.major) × ((u.minor < v.minor) ⊎ ((u.minor ≡ v.minor) × (u.patch < v.patch))))

pub version_lt-Older : (u v : Version) → (version_lt u v ≡ true) ↔ Older u v
unfolding version_lt
version_lt-Older u v = (λ e. ground arith, λ o. ground arith)
