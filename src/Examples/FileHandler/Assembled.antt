-- ===== src/Examples/FileHandler/Assembled.antt =====
-- examples/common/file_handler.rs: a buffer that holds the bytes of the blocks that are here.
use native.Mathlib.Nat.{mul-le-mul_right}
use native.Mathlib.Decide.{dec_lt, ℕ_discrete}
use rustot.Prelude.{
  ℕ, zero, suc, ◌+◌, ◌*◌, ◌/◌, ◌%◌, ◌≤◌, ◌<◌, ◌≡◌, ◌≢◌, refl, sym, ap, ◌∙◌, ◌⊎◌, inl, inr, false,
  List, arith, length, get_elem?,
}
use rustot.Deps.{Deps}
use rustot.Ota.Encoding.{FileContext}
use rustot.Ota.DataInterface.{FileBlock}
use rustot.Ota.State.Ingest.Window.{missing}
use rustot.Examples.FileHandler.{write_at}
use rustot.Examples.FileHandler.Bytes.{
  get_elem?-lt, lt-get_elem?, eq_of_get_elem?, write_at-inside, write_at-outside, length-write_at,
}

-- A block carries the bytes that the file has from the block's place on.
pub record Carries (image : List ℕ) (block_size : ℕ) (block : FileBlock) : Type 0 where
  pub size : length block.block_payload ≤ block_size
  pub bytes :
      (j : ℕ)
      → j < block_size
      → get_elem? block.block_payload j ≡ get_elem? image (block.block_id * block_size + j)

outside :
    (k id j b n : ℕ) → k ≢ id → j < b → n ≤ b → (k * b + j < id * b) ⊎ (id * b + n ≤ k * b + j)
outside k id j b n ne h l = elim (dec_lt k id) [
  | yes p ↦ let m : suc k * b ≤ id * b = mul-le-mul_right b (omega arith) in inl (grind arith)
  | no p ↦ let m : suc id * b ≤ k * b = mul-le-mul_right b (ground arith) in inr (grind arith)
]

place_of : (i b : ℕ) → 0 < b → (i / b * b + i % b ≡ i) × (i % b < b)
place_of i b pos = (grind arith, omega arith)

module _ (image : List ℕ) (b : ℕ) (block : FileBlock) (buf : List ℕ) (c : Carries image b block)
    (of_file : block.block_id * b < length image) where
  pub carried : (n : ℕ) → length block.block_payload ≡ n → block.block_id * b + n ≤ length image
  carried zero e = omega arith
  carried (suc n) e =
      let (x, p) = get_elem?-lt block.block_payload n (omega arith) in
      omega (
        arith,
        lt-get_elem? image (block.block_id * b + n) x (sym (c.bytes n (omega (arith, c.size))) ∙ p),
      )

  pub byte_inside :
      (j : ℕ)
      → j < b
      → block.block_id * b + j < length image
      → get_elem? (write_at (block.block_id * b) block.block_payload buf) (block.block_id * b + j)
        ≡ get_elem? image (block.block_id * b + j)
  byte_inside j h l =
      let (x, p) = get_elem?-lt image (block.block_id * b + j) l in
      let m = lt-get_elem? block.block_payload j x (c.bytes j h ∙ p) in
      write_at-inside (block.block_id * b) block.block_payload buf j m ∙ c.bytes j h

module _ {d : Deps} where
  -- Every byte of a block that is not missing stands in the buffer at its place.
  pub record Assembled (image : List ℕ) (block_size : ℕ) (f : FileContext d) (buf : List ℕ)
      : Type 0 where
    pub sized : length image ≡ f.filesize
    pub short : length buf ≤ length image
    pub right :
        (k j : ℕ)
        → j < block_size
        → k * block_size + j < length image
        → missing d f k ≡ false
        → get_elem? buf (k * block_size + j) ≡ get_elem? image (k * block_size + j)

  module _ (image : List ℕ) (b : ℕ) (f : FileContext d) (block : FileBlock) (buf : List ℕ)
      (a : Assembled image b f buf) (c : Carries image b block)
      (of_file : block.block_id * b < length image) where
    byte_outside :
        (k j : ℕ)
        → k ≢ block.block_id
        → j < b
        → k * b + j < length image
        → missing d f k ≡ false
        → get_elem? (write_at (block.block_id * b) block.block_payload buf) (k * b + j)
          ≡ get_elem? image (k * b + j)
    byte_outside k j ne h l here =
        let (x, p) = get_elem?-lt image (k * b + j) l in
        write_at-outside (block.block_id * b) block.block_payload buf (k * b + j) x
          (a.right k j h l here ∙ p)
          (outside k block.block_id j b (length block.block_payload) ne h c.size)
        ∙ sym p

    byte_at :
        (k j : ℕ)
        → (k ≡ block.block_id) ⊎ (missing d f k ≡ false)
        → j < b
        → k * b + j < length image
        → get_elem? (write_at (block.block_id * b) block.block_payload buf) (k * b + j)
          ≡ get_elem? image (k * b + j)
    byte_at k j o h l = elim (ℕ_discrete k block.block_id) [
      | yes same ↦ rw same (
          byte_inside image b block buf c of_file j h
            (omega (arith, l, ap (λ (n : ℕ). n * b) same)))
      | no ne ↦ elim o [ inl same ↦ absurd (ne same) | inr here ↦ byte_outside k j ne h l here ]
    ]

    -- The buffer after the block is written, for any context that misses all that was missing but the
    -- block.
    pub write_at-Assembled :
        (f' : FileContext d)
        → f'.filesize ≡ f.filesize
        → ((k : ℕ)
            → k * b < length image
            → missing d f' k ≡ false
            → (k ≡ block.block_id) ⊎ (missing d f k ≡ false))
        → Assembled image b f' (write_at (block.block_id * b) block.block_payload buf)
    write_at-Assembled f' e still = record {
      sized = a.sized ∙ sym e;
      short =
          length-write_at (block.block_id * b) (length image) block.block_payload buf a.short
            (carried image b block buf c of_file (length block.block_payload) refl);
      right = λ k j h l m. byte_at k j (still k (omega arith) m) h l;
    }

  -- A buffer in which no block is missing is the file.
  pub whole :
      (image : List ℕ) (b : ℕ) (f : FileContext d) (buf : List ℕ)
      → Assembled image b f buf
      → 0 < b
      → ((k : ℕ) → k * b < length image → missing d f k ≡ false)
      → buf ≡ image
  whole image b f buf a pos all = eq_of_get_elem? buf image a.short λ i l.
      let (place, small) = place_of i b pos in
      let r = a.right (i / b) (i % b) small (omega arith) (all (i / b) (omega arith)) in
      rw place at r
