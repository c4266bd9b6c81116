-- ===== src/Prelude/Text.antt =====
-- Texts as the standard library splits, prints and reads them.
use Prim.Native.Nat.{ℕ, zero, suc, ◌+◌, ◌-◌, ◌*◌, ◌/◌, ◌%◌, ◌^◌, ◌<◌, ◌≤◌}
use mathlib.Core.Path.{◌≡◌, refl}
use mathlib.Core.Bool.{Bool, true, false, ◌&&◌, ◌||◌}
use mathlib.Core.List.{List, [], ◌∷◌, ◌++◌}
use mathlib.Core.Option.{Option, none, some}
use native.Mathlib.Omega.{arith}
use rustot.Prelude.Tests.{ltb, leb, ◌==◌, if◌then◌else◌}
use rustot.Prelude.Lists.{Str, length, length-append}

unfoldable pub cons_head : ℕ → List Str → List Str
cons_head c [] = (c ∷ []) ∷ []
cons_head c (s ∷ rest) = (c ∷ s) ∷ rest

-- `s.split(c)`
unfoldable pub split : ℕ → Str → List Str
unfolding cons_head
split c [] = [] ∷ []
split c (x ∷ s) = let rest = split c s in if x == c then [] ∷ rest else cons_head x rest

-- `s.splitn(n, c)`: the last piece keeps the separators that are left.
unfoldable pub splitn : ℕ → ℕ → Str → List Str
unfolding cons_head
splitn zero c s = []
splitn (suc zero) c s = s ∷ []
splitn (suc (suc n)) c [] = [] ∷ []
splitn (suc (suc n)) c (x ∷ s) =
    let next = splitn (suc n) c s in
    let same = splitn (suc (suc n)) c s in if x == c then [] ∷ next else cons_head x same

unfoldable pub has : ℕ → Str → Bool
has c [] = false
has c (x ∷ s) = (x == c) || has c s

pub split-append : (c : ℕ) (s t : Str) → has c s ≡ false → split c (s ++ c ∷ t) ≡ s ∷ split c t
unfolding split has
split-append c [] t h = ground arith
split-append c (x ∷ s) t h = ground (arith, split-append c s t)

pub split_last : (c : ℕ) (s : Str) → has c s ≡ false → split c s ≡ s ∷ []
unfolding split has
split_last c [] h = refl
split_last c (x ∷ s) h = ground (arith, split_last c s)

pub splitn-append :
    (n c : ℕ) (s t : Str)
    → has c s ≡ false
    → splitn (suc (suc n)) c (s ++ c ∷ t) ≡ s ∷ splitn (suc n) c t
unfolding splitn has
splitn-append n c [] t h = ground arith
splitn-append n c (x ∷ s) t h = ground (arith, splitn-append n c s t)

pub splitn_last : (n c : ℕ) (s : Str) → has c s ≡ false → splitn (suc n) c s ≡ s ∷ []
unfolding splitn has
splitn_last zero c s h = refl
splitn_last (suc n) c [] h = refl
splitn_last (suc n) c (x ∷ s) h = ground (arith, splitn_last (suc n) c s)

-- `write!(f, "{}", n)` at a `u8`.
unfoldable pub print_u8 : ℕ → Str
print_u8 n =
    if ltb n 10
    then (48 + n) ∷ []
    else if ltb n 100
    then (48 + n / 10) ∷ (48 + n % 10) ∷ []
    else (48 + n / 100) ∷ (48 + n / 10 % 10) ∷ (48 + n % 10) ∷ []

read_digits : ℕ → Str → Option ℕ
read_digits acc [] = some acc
read_digits acc (c ∷ s) =
    let rest = read_digits (acc * 10 + (c - 48)) s in
    if leb b'0' c && leb c b'9' && ltb (acc * 10 + (c - 48)) 256 then rest else none

-- `s.parse::<u8>()`: digits, at least one, behind an optional plus sign.
unfoldable pub parse_u8 : Str → Option ℕ
unfolding read_digits
parse_u8 [] = none
parse_u8 (c ∷ []) = read_digits 0 (c ∷ [])
parse_u8 (c ∷ d ∷ s) = if c == b'+' then read_digits 0 (d ∷ s) else read_digits 0 (c ∷ d ∷ s)

pub parse_u8-print_u8 : (n : ℕ) → n < 256 → parse_u8 (print_u8 n) ≡ some n
unfolding parse_u8 print_u8
parse_u8-print_u8 n h = ground arith

pub has-print_u8 : (n : ℕ) → n < 256 → has b'.' (print_u8 n) ≡ false
unfolding has print_u8
has-print_u8 n h = ground arith

digits : ℕ → ℕ → Str
digits zero n = []
digits (suc k) n =
    let rest = digits k (n / 10) in if ltb n 10 then (48 + n) ∷ [] else rest ++ (48 + n % 10) ∷ []

-- `write!(f, "{}", n)` at a `u32`, which has ten digits at most.
unfoldable pub print_u32 : ℕ → Str
unfolding digits
print_u32 n = digits 10 n

-- The number that digits stand for.
abbrev pub value_of : ℕ → Str → ℕ
value_of acc [] = acc
value_of acc (c ∷ s) = value_of (acc * 10 + (c - 48)) s

value_of-append :
    (acc : ℕ) (s : Str) (c : ℕ) → value_of acc (s ++ c ∷ []) ≡ value_of acc s * 10 + (c - 48)
value_of-append acc [] c = refl
value_of-append acc (x ∷ s) c = value_of-append (acc * 10 + (x - 48)) s c

value_of-digits : (k n : ℕ) → n < 10 ^ k → value_of 0 (digits k n) ≡ n
unfolding digits
value_of-digits zero n h = ground arith
value_of-digits (suc k) n h =
    ground (arith, value_of-digits k (n / 10), value_of-append 0 (digits k (n / 10)) (48 + n % 10))

pub value_of-print_u32 : (n : ℕ) → n < 2 ^ 32 → value_of 0 (print_u32 n) ≡ n
unfolding print_u32
value_of-print_u32 n h = value_of-digits 10 n (omega arith)

length-digits : (k n : ℕ) → 0 < k → (0 < length (digits k n)) × (length (digits k n) ≤ k)
unfolding digits
length-digits zero n h = absurd (omega arith)
length-digits (suc zero) n h = ground arith
length-digits (suc (suc k)) n h = ground (
  arith,
  length-digits (suc k) (n / 10) (omega arith),
  length-append (digits (suc k) (n / 10)) ((48 + n % 10) ∷ []),
)

pub length-print_u32 : (n : ℕ) → (0 < length (print_u32 n)) × (length (print_u32 n) ≤ 10)
unfolding print_u32
length-print_u32 n = length-digits 10 n (omega arith)

-- `s.starts_with(p)`
unfoldable pub starts_with : Str → Str → Bool
starts_with [] s = true
starts_with (c ∷ p) [] = false
starts_with (c ∷ p) (d ∷ s) = (c == d) && starts_with p s
