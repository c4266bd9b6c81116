-- ===== src/Ota/Version.antt =====
-- `Version` of src/ota/pal.rs: three bytes, their order, and their text.
pub mod Laws
use Prim.Native.Nat.{compare, Ordering}
use rustot.Prelude.{ℕ, Bool, true, false, ◌&&◌, Option, none, some, List, [], ◌∷◌, ◌++◌, ◌==◌, Str}
use rustot.Prelude.Text.{split, print_u8, parse_u8}

pub record Version : Type 0 where
  pub major : ℕ  -- u8
  pub minor : ℕ  -- u8
  pub patch : ℕ  -- u8

abbrev pub new : ℕ → ℕ → ℕ → Version
new a b c = record { major = a; minor = b; patch = c }

-- `Ord::cmp`: the first component that differs decides.
unfoldable pub cmp : Version → Version → Ordering
cmp v w = elim (compare v.major w.major) [
  | Ordering.eq ↦ elim (compare v.minor w.minor) [
    | Ordering.eq ↦ elim (compare v.patch w.patch) [ Ordering.eq ↦ Ordering.eq | r ↦ r ]
    | r ↦ r
  ]
  | r ↦ r
]

-- `a < b` and `a == b`.
abbrev pub is_less : Ordering → Bool
is_less Ordering.lt = true
is_less _ = false

unfoldable pub version_lt : Version → Version → Bool
unfolding cmp
version_lt v w = is_less (cmp v w)

unfoldable pub version_eq : Version → Version → Bool
version_eq v w = (v.major == w.major) && (v.minor == w.minor) && (v.patch == w.patch)

-- `to_string`: at most eleven bytes, so the text fits the `heapless::String<11>` that is asked for.
unfoldable pub to_string : Version → Str
to_string v = print_u8 v.major ++ b'.' ∷ (print_u8 v.minor ++ b'.' ∷ print_u8 v.patch)

parse_next : List Str → Option (ℕ × List Str)
parse_next [] = none
parse_next (s ∷ rest) = elim (parse_u8 s) [ none ↦ none | some n ↦ some (n, rest) ]

parse_pieces : List Str → Option Version
unfolding parse_next
parse_pieces pieces = elim (parse_next pieces) [
  | none ↦ none
  | some (major, rest) ↦ elim (parse_next rest) [
    | none ↦ none
    | some (minor, rest') ↦ elim (parse_next rest') [
      | none ↦ none
      | some (patch, _) ↦ some (new major minor patch)
    ]
  ]
]

-- `FromStr::from_str`: the first three pieces between dots; what follows them is not looked at.
unfoldable pub from_str : Str → Option Version
unfolding parse_pieces
from_str s = parse_pieces (split b'.' s)
