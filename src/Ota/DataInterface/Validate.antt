-- ===== src/Ota/DataInterface/Validate.antt =====
-- `FileBlock::validate` of src/ota/data_interface/mod.rs: the blocks that pass.
use native.Mathlib.Nat.{mul-le-mul_right}
use native.Mathlib.Decide.{dec_lt}
use rustot.Prelude.{
  ℕ, zero, suc, ◌+◌, ◌-◌, ◌*◌, ◌/◌, ◌^◌, ◌≤◌, ◌<◌, min, ◌≡◌, ◌↔◌, Bool, true, ok, arith, ap, ltb,
  ◌==◌, ◌&&◌, ◌||◌,
}
use rustot.Ota.Config.{usize, usize_sub}
use rustot.Ota.Error.{OtaError}
use rustot.Ota.Encoding.{total_blocks}
use rustot.Ota.DataInterface.{FileBlock, validate}

-- The number of blocks of a file, in exact arithmetic.
abbrev pub file_blocks : ℕ → ℕ → ℕ
file_blocks filesize block_size = (filesize + block_size - 1) / block_size

-- The sizes for which no computation on `usize` wraps around or divides by 0.
pub record Fits (filesize block_size : ℕ) : Type 0 where
  pub block_pos : 0 < block_size
  pub file_pos : 0 < filesize
  pub sum_fits : filesize + block_size < 2 ^ 32

pub file_blocks-lt :
    (filesize block_size : ℕ) → Fits filesize block_size → file_blocks filesize block_size < 2 ^ 32
file_blocks-lt filesize block_size h = omega (arith, h.sum_fits, h.block_pos, h.file_pos)

pub total_blocks-Fits :
    (filesize block_size : ℕ)
    → Fits filesize block_size
    → total_blocks {E = OtaError} filesize block_size ≡ ok (file_blocks filesize block_size)
unfolding total_blocks
total_blocks-Fits filesize block_size h = ground arith

div_bounds : (a b : ℕ) → 0 < b → (a / b * b ≤ a) × (a < a / b * b + b)
div_bounds a b h = omega arith

last_of :
    (q b f : ℕ)
    → 0 < f
    → q * b ≤ f + b - 1
    → f + b - 1 < q * b + b
    → 0 < b
    → (0 < q) × ((q - 1) * b < f) × (f ≤ (q - 1) * b + b)
last_of zero b f p l u z = omega arith
last_of (suc q) b f p l u z = grind arith

-- The last block begins inside the file and ends with it.
last_block :
    (filesize block_size : ℕ)
    → Fits filesize block_size
    → (0 < file_blocks filesize block_size)
      × ((file_blocks filesize block_size - 1) * block_size < filesize)
      × (filesize ≤ (file_blocks filesize block_size - 1) * block_size + block_size)
last_block filesize block_size h =
    let bounds = div_bounds (filesize + block_size - 1) block_size h.block_pos in
    last_of (file_blocks filesize block_size) block_size filesize h.file_pos bounds.0 bounds.1
      h.block_pos

below_of : (id q b f : ℕ) → 0 < q → (q - 1) * b < f → id < q → id * b < f
below_of id q b f one before l =
    let m : id * b ≤ (q - 1) * b = mul-le-mul_right b (omega arith) in omega arith

lt_of : (id q b f : ℕ) → 0 < q → f ≤ (q - 1) * b + b → id * b < f → id < q
lt_of id zero b f one upto l = omega arith
lt_of id (suc q) b f one upto l = elim (dec_lt id (suc q)) [
  | yes p ↦ p
  | no p ↦ let m : suc q * b ≤ id * b = mul-le-mul_right b (omega arith) in absurd (grind arith)
]

-- A block number is one of the file exactly if its block begins inside the file.
pub lt-file_blocks_iff :
    (filesize block_size id : ℕ)
    → Fits filesize block_size
    → (id < file_blocks filesize block_size) ↔ (id * block_size < filesize)
lt-file_blocks_iff filesize block_size id h =
    let (one, before, upto) = last_block filesize block_size h in
    (
      λ l. below_of id (file_blocks filesize block_size) block_size filesize one before l,
      λ l. lt_of id (file_blocks filesize block_size) block_size filesize one upto l,
    )

-- The test of `validate` in exact arithmetic.
slice_test : FileBlock → ℕ → ℕ → Bool
slice_test block block_size filesize =
    let last = file_blocks filesize block_size - 1 in
    ltb block.block_id last && block.block_size == block_size
    || block.block_id == last && block.block_size == filesize - last * block_size

inner_block : (id last b : ℕ) → id < last → id * b + b ≤ last * b
inner_block id last b l = let m : suc id * b ≤ last * b = mul-le-mul_right b l in grind arith

slice_test_iff :
    (block : FileBlock) (b f : ℕ)
    → 0 < file_blocks f b
    → (file_blocks f b - 1) * b < f
    → f ≤ (file_blocks f b - 1) * b + b
    → (slice_test block b f ≡ true)
      ↔ ((block.block_id < file_blocks f b) × (block.block_size ≡ min b (f - block.block_id * b)))
unfolding slice_test
slice_test_iff block b f one before upto = (
  λ e. ground (arith, inner_block block.block_id (file_blocks f b - 1) b),
  λ p. ground (arith, inner_block block.block_id (file_blocks f b - 1) b),
)

validate_lem :
    (block : FileBlock) (block_size filesize : ℕ)
    → Fits filesize block_size
    → validate {E = OtaError} block block_size filesize ≡ ok (slice_test block block_size filesize)
unfolding validate slice_test
validate_lem block block_size filesize h =
    let (one, before, upto) = last_block filesize block_size h in
    let small = file_blocks-lt filesize block_size h in
    let n = file_blocks filesize block_size in
    let last : usize_sub n 1 ≡ n - 1 = omega arith in
    let start : usize ((n - 1) * block_size) ≡ (n - 1) * block_size =
      omega (arith, h.sum_fits, before) in
    let rest : usize_sub filesize ((n - 1) * block_size) ≡ filesize - (n - 1) * block_size =
      omega (arith, h.sum_fits, before) in
    rw (total_blocks-Fits filesize block_size h) (rw last (rw start (rw rest)))

-- On sizes that fit, `validate` accepts a block exactly if its number is one of the file's blocks and
-- its size is that of the file's bytes from there on, up to the size of a block.
pub validate_iff :
    (block : FileBlock) (block_size filesize : ℕ)
    → Fits filesize block_size
    → (validate {E = OtaError} block block_size filesize ≡ ok true) ↔ (
        (block.block_id < file_blocks filesize block_size)
        × (block.block_size ≡ min block_size (filesize - block.block_id * block_size)))
validate_iff block block_size filesize h =
    let (one, before, upto) = last_block filesize block_size h in
    let s = slice_test_iff block block_size filesize one before upto in
    rw (validate_lem block block_size filesize h) (λ e. s.0 (cc), λ p. ap ok (s.1 p))
